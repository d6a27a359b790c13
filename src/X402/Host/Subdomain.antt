-- ===== src/X402/Host/Subdomain.antt =====
-- The subdomains of X402Processor::validateAndExtractSubDomainName.
use machinepal.Prelude.{
  ℕ, zero, suc, ◌-◌, ◌≡◌, ◌≢◌, refl, ◌∙◌, sym, ap, Text, str, [], ◌∷◌, ◌++◌, true, false, length,
  length-append, ltb, text_eq, text_eq_iff, text_eq_refl, ◌⊎◌, inl, inr, ◌↔◌, arith, Bool-cases,
}
use machinepal.X402.Host.{take_text, drop_text, ends_with, match_host_name}

take-drop : (n : ℕ) (t : Text) → take_text n t ++ drop_text n t ≡ t
unfolding take_text drop_text
take-drop zero t = refl
take-drop (suc n) [] = refl
take-drop (suc n) (c ∷ t) = rw (take-drop n t)

take-append : (s t : Text) → take_text (length s) (s ++ t) ≡ s
unfolding take_text
take-append [] t = refl
take-append (c ∷ s) t = rw (take-append s t)

drop-append : (s t : Text) → drop_text (length s) (s ++ t) ≡ t
unfolding drop_text
drop-append [] t = refl
drop-append (c ∷ s) t = drop-append s t

-- s ends with a text exactly when it is some text before it.
pub ends_with-append : (s t : Text) → ends_with (s ++ t) t ≡ true
unfolding ends_with
ends_with-append s t =
    let long : ltb (length (s ++ t)) (length t) ≡ false = ground (arith, length-append s t) in
    let rest : length (s ++ t) - length t ≡ length s = omega (arith, length-append s t) in
    rw (long, rest, drop-append s t, text_eq_refl t)

ends_with-split : (s t : Text) → ends_with s t ≡ true → take_text (length s - length t) s ++ t ≡ s
unfolding ends_with
ends_with-split s t h =
    let same : drop_text (length s - length t) s ≡ t =
      ground (arith, text_eq_iff (drop_text (length s - length t) s) t) in
    ap (λ r. take_text (length s - length t) s ++ r) (sym same) ∙ take-drop (length s - length t) s

inl-injective : {s t : Text} → ◌≡◌ {A = Text ⊎ Text} (inl s) (inl t) → s ≡ t
inl-injective h = cc

inr_ne_inl : {s t : Text} → ◌≡◌ {A = Text ⊎ Text} (inr s) (inl t) → ⊥
inr_ne_inl h = cc

module _ (host_name : Text) where
  abbrev dotted : Text
  dotted = str "." ++ host_name

  length-dotted : length dotted ≡ suc (length host_name)
  unfolding str
  length-dotted = refl

  -- The name that a subdomain has in front of the host name.
  abbrev pub Names : Text → Text → Type 0
  Names sub_domain domain_name =
      ((sub_domain ≡ []) × (domain_name ≡ host_name)) ⊎ (domain_name ≡ sub_domain ++ dotted)

  named :
      (sub_domain domain_name : Text)
      → match_host_name host_name domain_name ≡ inl sub_domain
      → Names sub_domain domain_name
  unfolding match_host_name
  named sub_domain domain_name h = elim (Bool-cases (text_eq domain_name host_name)) [
    | inl same ↦
        inl (inl-injective (sym (rw same at h)), (text_eq_iff domain_name host_name).0 same)
    | inr differs ↦ elim (Bool-cases (ends_with domain_name dotted)) [
      | inl ends ↦
          let sub = inl-injective (rw ends at (rw differs at h)) in
          let cut : length domain_name - length host_name - 1 ≡ length domain_name - length dotted =
            omega (arith, length-dotted) in
          inr (
            sym (ends_with-split domain_name dotted ends)
            ∙ ap (λ s. s ++ dotted) (ap (λ n. take_text n domain_name) (sym cut) ∙ sub))
      | inr not_so ↦ absurd (inr_ne_inl (rw not_so at (rw differs at h)))
    ]
  ]

  longer : (sub_domain : Text) → sub_domain ++ dotted ≢ host_name
  longer sub_domain e = omega (arith, ap length e, length-append sub_domain dotted, length-dotted)

  found : (sub_domain : Text) → match_host_name host_name (sub_domain ++ dotted) ≡ inl sub_domain
  unfolding match_host_name
  found sub_domain = elim (Bool-cases (text_eq (sub_domain ++ dotted) host_name)) [
    | inl same ↦ absurd (longer sub_domain ((text_eq_iff (sub_domain ++ dotted) host_name).0 same))
    | inr differs ↦
        let cut : length (sub_domain ++ dotted) - length host_name - 1 ≡ length sub_domain =
          omega (arith, length-append sub_domain dotted, length-dotted) in
        rw (differs, ends_with-append sub_domain dotted, cut, take-append sub_domain dotted)
  ]

-- A domain name is taken exactly when it is the configured host name, for the empty subdomain, or a
-- text, a dot and that host name, for that text.
pub match_host_name_iff :
    (host_name domain_name sub_domain : Text)
    → (match_host_name host_name domain_name ≡ inl sub_domain)
      ↔ Names host_name sub_domain domain_name
unfolding match_host_name
match_host_name_iff host_name domain_name sub_domain = (
  named host_name sub_domain domain_name,
  λ n. elim n [
    | inl (e, f) ↦ rw (e, f) (rw (text_eq_refl host_name))
    | inr e ↦ rw e (found host_name sub_domain)
  ],
)
