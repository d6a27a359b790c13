-- ===== src/Payment/Manager/Entry.antt =====
-- PaymentManager::decodePreValidateAndSettleWithFacilitator: what it takes for a request to be
-- settled, and what every request keeps.
use machinepal.Prelude.{
  ◌≡◌, refl, ◌∙◌, sym, ap, subst, ◌∷◌, Option, none, some, ◌⊎◌, inl, inr, Option-cases,
}
use machinepal.Result.{Result, ok, err, ok-injective}
use machinepal.Platform.{Platform}
use machinepal.Http.{HttpRequest}
use machinepal.Crypto.Domain.{Authorization}
use machinepal.Config.Resources.{ResourceConfig, OrganizationConfig, MachinePalConfig}
use machinepal.Facilitator.Errors.{get_error_string}
use machinepal.Db.Payments.{payment_key}
use machinepal.Db.Payments.Unique.{HasUniqueKeys, HasGained, HasGained-HasUniqueKeys}
use machinepal.Payment.Payload.{PaymentPayload}
use machinepal.Payment.Payload.Validation.{
  IsAcceptable, validate_and_verify_signature, validate_and_verify_signature_iff,
}
use machinepal.Payment.Messages.{SettlementResponse, HttpError}
use machinepal.Payment.Manager.{
  Settlements, Context, Settled, bad_request, decode_and_parse_payment, settlement_request_for,
  settle_decoded, check_payment_is_new_and_settle_it,
  decode_pre_validate_and_settle_with_facilitator,
}
use machinepal.Payment.Manager.Locking.{settling-check_payment_is_new_and_settle_it}
use machinepal.Payment.Manager.Spending.{Explains, check_payment_is_new_and_settle_it-Explains}

module _ (p : Platform) (c : Context p) (req : HttpRequest p) (config : MachinePalConfig)
    (resource : ResourceConfig) (organization : OrganizationConfig) where
  abbrev entry : Settlements p → Result (Option Authorization × Settled) × Settlements p
  entry = decode_pre_validate_and_settle_with_facilitator p c req config resource organization

  abbrev settle_it : PaymentPayload → Settlements p → Result Settled × Settlements p
  settle_it pp =
      check_payment_is_new_and_settle_it p c config resource organization pp req.client_address

  -- The runs of the method: the header is refused, the payment is, or it is handed on.
  abbrev Runs : Settlements p → Type 0
  Runs s =
      ((e : HttpError) × (entry s ≡ (ok (none, inr e), s)))
      ⊎ ((pp : PaymentPayload) × (e : HttpError) × (entry s
            ≡ (ok (some pp.payload.authorization, inr e), s)))
      ⊎ ((pp : PaymentPayload) × (r : Settled) × (decode_and_parse_payment p req ≡ inl pp)
          × IsAcceptable p c.clock config resource.price config.network.wallet_address
              resource.payment_scheme pp
          × ((settle_it pp s).0 ≡ ok r)
          × (entry s ≡ (ok (some pp.payload.authorization, r), (settle_it pp s).1)))

  decoded_cases :
      (d : PaymentPayload ⊎ HttpError)
      → ((pp : PaymentPayload) × (d ≡ inl pp)) ⊎ ((e : HttpError) × (d ≡ inr e))
  decoded_cases (inl pp) = inl (pp, refl)
  decoded_cases (inr e) = inr (e, refl)

  handed_on :
      (s : Settlements p) (pp : PaymentPayload)
      → decode_and_parse_payment p req ≡ inl pp
      → (m : Result Settled × Settlements p) (r : Settled)
      → settle_decoded p c req config resource organization pp s ≡ m
      → m.0 ≡ ok r
      → entry s ≡ (ok (some pp.payload.authorization, r), m.1)
  unfolding decode_pre_validate_and_settle_with_facilitator
  handed_on s pp d (ok r', s') r h e =
      rw (d, decode_pre_validate_and_settle_with_facilitator, h, ok-injective e)
  handed_on s pp d (err x, s') r h e = cc

  pub runs : (s : Settlements p) → Runs s
  unfolding decode_pre_validate_and_settle_with_facilitator settle_decoded
  runs s = elim (decoded_cases (decode_and_parse_payment p req)) [
    | inr (e, d) ↦ inl (e, rw (d, decode_pre_validate_and_settle_with_facilitator))
    | inl (pp, d) ↦
        elim (Option-cases (
          validate_and_verify_signature p c.clock config resource.price
            config.network.wallet_address resource.payment_scheme pp)) [
              | inr (x, v) ↦ inr (
                  inl (
                    pp,
                    bad_request (get_error_string x),
                    rw (d, decode_pre_validate_and_settle_with_facilitator, settle_decoded, v),
                  ))
              | inl v ↦
                  let settled : settle_decoded p c req config resource organization pp s
                      ≡ settle_it pp s =
                    rw (settle_decoded, v) in
                  let ((r, e), _) =
                    settling-check_payment_is_new_and_settle_it p c config resource organization pp
                      req.client_address s in
                  inr (
                    inr (
                      pp,
                      r,
                      d,
                      (validate_and_verify_signature_iff p c.clock config resource.price
                            config.network.wallet_address resource.payment_scheme pp).0
                          v,
                      e,
                      handed_on s pp d (settle_it pp s) r settled e,
                    ))
            ]
  ]

ends :
    {A R S : Type 0} {a b : A} {r q : R} {s t : S}
    → ◌≡◌ {A = Result (A × R) × S} (ok (a, r), s) (ok (b, q), t)
    → (r ≡ q) × (s ≡ t)
ends h = (cc, cc)

not_settled :
    {e : HttpError} {response : SettlementResponse} → ◌≡◌ {A = Settled} (inr e) (inl response) → ⊥
not_settled h = cc

-- A request is settled only where its header carried a payment, that payment was acceptable at the
-- clock's reading, the table had no row with its key and has one now, and the facilitator was asked
-- once, for that payment and the resource's requirements.
pub decode_pre_validate_and_settle_with_facilitator-settled :
    (p : Platform) (c : Context p) (req : HttpRequest p) (config : MachinePalConfig)
    (resource : ResourceConfig) (organization : OrganizationConfig) (s after : Settlements p)
    (a : Option Authorization) (response : SettlementResponse)
    → decode_pre_validate_and_settle_with_facilitator p c req config resource organization s
      ≡ (ok (a, inl response), after)
    → (pp : PaymentPayload) × (decode_and_parse_payment p req ≡ inl pp)
      × IsAcceptable p c.clock config resource.price config.network.wallet_address
          resource.payment_scheme pp
      × HasGained (payment_key p pp config.network.eip712_domain) s.payments after.payments
      × (after.asked ≡ settlement_request_for p c config resource pp ∷ s.asked)
decode_pre_validate_and_settle_with_facilitator-settled p c req config resource organization s after
      a response h =
    elim (runs p c req config resource organization s) [
      | inl (e, i) ↦ absurd (not_settled (ends (sym i ∙ h)).0)
      | inr (inl (pp, e, i)) ↦ absurd (not_settled (ends (sym i ∙ h)).0)
      | inr (inr (pp, r, d, acceptable, done, i)) ↦
          let k = payment_key p pp config.network.eip712_domain in
          let q = settlement_request_for p c config resource pp in
          let (same, there) = ends (sym i ∙ h) in
          let (g, asked) =
            subst (λ m. Explains p k q s m after) (done ∙ ap ok same)
              (subst
                (λ m. Explains p k q s (settle_it p c req config resource organization pp s).0 m)
                there
                (check_payment_is_new_and_settle_it-Explains p c config resource organization pp
                  req.client_address s)) in
          (pp, d, acceptable, g, asked)
    ]

explained-HasUniqueKeys :
    (p : Platform) (c : Context p) (config : MachinePalConfig) (resource : ResourceConfig)
    (pp : PaymentPayload) (s : Settlements p) (r : Result Settled) (after : Settlements p)
    → Explains p
        (payment_key p pp config.network.eip712_domain)
        (settlement_request_for p c config resource pp)
        s
        r
        after
    → HasUniqueKeys s.payments
    → HasUniqueKeys after.payments
explained-HasUniqueKeys p c config resource pp s (ok (inl response)) after (g, _) u =
    HasGained-HasUniqueKeys g u
explained-HasUniqueKeys p c config resource pp s (ok (inr e)) after (same, _) u =
    subst HasUniqueKeys (sym same) u
explained-HasUniqueKeys p c config resource pp s (err x) after (same, _) u =
    subst HasUniqueKeys (sym same) u

-- Every request gets a result, never an exception, leaves the set of payments that are being settled
-- as it found it, and keeps the keys of the table unique.
pub decode_pre_validate_and_settle_with_facilitator-keeps :
    (p : Platform) (c : Context p) (req : HttpRequest p) (config : MachinePalConfig)
    (resource : ResourceConfig) (organization : OrganizationConfig) (s : Settlements p)
    → let m =
        decode_pre_validate_and_settle_with_facilitator p c req config resource organization s in
      ((a : Option Authorization) × (r : Settled) × (m.0 ≡ ok (a, r)))
      × (m.1.currently_settling ≡ s.currently_settling)
      × (HasUniqueKeys s.payments → HasUniqueKeys m.1.payments)
decode_pre_validate_and_settle_with_facilitator-keeps p c req config resource organization s =
    elim (runs p c req config resource organization s) [
      | inl (e, i) ↦ rw i ((none, inr e, refl), refl, λ u. u)
      | inr (inl (pp, e, i)) ↦ rw i ((some pp.payload.authorization, inr e, refl), refl, λ u. u)
      | inr (inr (pp, r, d, acceptable, done, i)) ↦ rw i (
        (some pp.payload.authorization, r, refl),
        (settling-check_payment_is_new_and_settle_it p c config resource organization pp
            req.client_address s).1,
        explained-HasUniqueKeys p c config resource pp s _ _ (
            check_payment_is_new_and_settle_it-Explains p c config resource organization pp
              req.client_address s),
      )
    ]
