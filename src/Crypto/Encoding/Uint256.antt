-- ===== src/Crypto/Encoding/Uint256.antt =====
-- What u256FromHexOrDecimal accepts, and the number that it reads (src/crypto/Encoding.cpp).
use machinepal.Prelude.{
  ℕ, ◌%◌, ◌<◌, ◌≤◌, ◌≡◌, ◌≢◌, ◌↔◌, ◌⊎◌, inl, inr, refl, sym, ◌∙◌, not, str, if◌then◌else◌, true,
  false, Text, List, [], ◌∷◌, any, All, length, ltb, ◌==◌, arith, is_empty, Bool-cases,
}
use machinepal.Result.{Result, ok, err, Result-cases, invalid_argument, ◌>>=◌}
use machinepal.Platform.{Platform}
use machinepal.Crypto.Encoding.{
  is_space, first_is, has_hex_prefix, drop_two, fold_bytes, from_hex, u256_from_hex_or_decimal,
}
use machinepal.Crypto.Keys.{be_value}
use machinepal.Crypto.Keys.Order.{IsByte}
use machinepal.Crypto.Encoding.Folding.{fold_bytes-be_value, be_value_small}

-- A text of 0x or 0X and the hex of 1 to 32 bytes, which are the number in base 256.
pub record IsHexText (p : Platform) (s : Text) (n : ℕ) : Type 0 where
  pub mark : ℕ
  pub digits : Text
  pub bytes : List ℕ
  pub spelt : s ≡ b'0' ∷ mark ∷ digits
  pub marked : (mark ≡ b'x') ⊎ (mark ≡ b'X')
  pub even : length digits % 2 ≡ 0
  pub read : p.unhex digits ≡ ok bytes
  pub some : 1 ≤ length bytes
  pub few : length bytes ≤ 32
  pub value : be_value 0 bytes ≡ n

-- Any other text, with the number that the constructor of uint256_t makes of it.
pub record IsOtherText (p : Platform) (s : Text) (n : ℕ) : Type 0 where
  pub not_empty : s ≢ []
  pub not_negative : (t : Text) → s ≢ b'-' ∷ t
  pub not_hex : (mark : ℕ) (t : Text) → (mark ≡ b'x') ⊎ (mark ≡ b'X') → s ≢ b'0' ∷ mark ∷ t
  pub read : p.parse_dec s ≡ ok n

-- No blank, tab, newline, vertical tab, form feed or carriage return.
abbrev pub IsVisible : ℕ → Type 0
IsVisible c = (c ≢ 32) × ((c < 9) ⊎ (13 < c))

empty_eq : (s : Text) → is_empty s ≡ true → s ≡ []
unfolding is_empty
empty_eq [] h = refl
empty_eq (c ∷ s) h = cc

full_ne : (s : Text) → is_empty s ≡ false → s ≢ []
unfolding is_empty
full_ne [] h = cc
full_ne (c ∷ s) h = λ e. cc

no_space_iff : (s : Text) → (any is_space s ≡ false) ↔ All IsVisible s
unfolding is_space
no_space_iff [] = (λ h. tt, λ h. refl)
no_space_iff (c ∷ s) =
    (λ h. ground (arith, h, no_space_iff s), λ h. ground (arith, h, no_space_iff s))

minus_iff : (s : Text) → (first_is b'-' s ≡ false) ↔ ((t : Text) → s ≢ b'-' ∷ t)
unfolding first_is
minus_iff [] = (λ h t e. cc, λ h. refl)
minus_iff (c ∷ s) = (
  λ h t e. let same : c ≡ b'-' = cc in ground (arith, same),
  λ h. elim (Bool-cases (c == b'-')) [
    | inl minus ↦ let same : c ≡ b'-' = ground arith in absurd (h s (rw same refl))
    | inr other ↦ other
  ],
)

cons_ne_nil : {c : ℕ} {t : Text} → c ∷ t ≢ []
cons_ne_nil h = cc

tail_eq : {c d : ℕ} {s t : Text} → c ∷ s ≡ d ∷ t → s ≡ t
tail_eq h = cc

prefix_iff :
    (s : Text)
    → (has_hex_prefix s ≡ true) ↔ (
        (mark : ℕ) × (digits : Text) × (s ≡ b'0' ∷ mark ∷ digits) × ((mark ≡ b'x') ⊎ (mark ≡ b'X')))
unfolding has_hex_prefix
prefix_iff [] = (λ h. cc, λ h. cc)
prefix_iff (c ∷ []) = (
  λ h. cc,
  λ h. let (mark, digits, spelt, marked) = h in absurd (cons_ne_nil (sym (tail_eq spelt))),
)
prefix_iff (c ∷ d ∷ t) = (
  λ h.
      let zero_first : c ≡ b'0' = ground arith in
      let marked : (d ≡ b'x') ⊎ (d ≡ b'X') = ground arith in (d, t, rw zero_first refl, marked),
  λ h.
      let (mark, digits, spelt, marked) = h in
      let zero_first : c ≡ b'0' = cc in
      let mark_next : d ≡ mark = cc in ground (arith, zero_first, mark_next, marked),
)

module _ (p : Platform)
    (IsBytes : (t : Text) (bytes : List ℕ) → p.unhex t ≡ ok bytes → All IsByte bytes) where
  -- What remains of the function once its guards let a marked text through.
  abbrev word_of : List ℕ → Result ℕ
  word_of bytes =
      if length bytes == 0
      then err (invalid_argument (str "Empty hex input for uint256"))
      else if ltb 32 (length bytes)
      then err (invalid_argument (str "Hex input too long for uint256"))
      else ok (fold_bytes 0 bytes)

  marked_eq :
      (mark : ℕ) (digits : Text)
      → (mark ≡ b'x') ⊎ (mark ≡ b'X')
      → any is_space (b'0' ∷ mark ∷ digits) ≡ false
      → u256_from_hex_or_decimal p (b'0' ∷ mark ∷ digits) ≡ (
          (if not (length digits % 2 == 0)
            then err (invalid_argument (str "Hex string must have even length"))
            else p.unhex digits)
          >>= word_of)
  unfolding u256_from_hex_or_decimal from_hex drop_two is_empty first_is
  marked_eq mark digits marked visible =
      let prefixed : has_hex_prefix (b'0' ∷ mark ∷ digits) ≡ true =
        (prefix_iff (b'0' ∷ mark ∷ digits)).1 (mark, digits, refl, marked) in
      simp (visible, prefixed)

  read_hex :
      (n mark : ℕ) (digits : Text)
      → (mark ≡ b'x') ⊎ (mark ≡ b'X')
      → any is_space (b'0' ∷ mark ∷ digits) ≡ false
      → u256_from_hex_or_decimal p (b'0' ∷ mark ∷ digits) ≡ ok n
      → IsHexText p (b'0' ∷ mark ∷ digits) n
  read_hex n mark digits marked visible h =
      let h' = rw (marked_eq mark digits marked visible) at h in
      elim (Result-cases (p.unhex digits)) [
        | inr (e, refused) ↦ absurd (ground (arith, h', refused))
        | inl (bytes, read) ↦
            let even : length digits % 2 ≡ 0 = ground (arith, h', read) in
            let least : 1 ≤ length bytes = ground (arith, h', read) in
            let few : length bytes ≤ 32 = ground (arith, h', read) in
            let folded : fold_bytes 0 bytes ≡ n = ground (arith, h', read) in
            let small = be_value_small bytes (IsBytes digits bytes read) few in
            record {
              mark = mark;
              digits = digits;
              bytes = bytes;
              spelt = refl;
              marked = marked;
              even = even;
              read = read;
              some = least;
              few = few;
              value = sym (fold_bytes-be_value bytes 0 small) ∙ folded;
            }
      ]

  hex_reads :
      (s : Text) (n : ℕ)
      → IsHexText p s n
      → any is_space s ≡ false
      → u256_from_hex_or_decimal p s ≡ ok n
  hex_reads s n t visible =
      let small = be_value_small t.bytes (IsBytes t.digits t.bytes t.read) t.few in
      let folded : fold_bytes 0 t.bytes ≡ n = fold_bytes-be_value t.bytes 0 small ∙ t.value in
      let run = marked_eq t.mark t.digits t.marked (rw t.spelt at visible) in
      rw (t.spelt, run) (ground (arith, t.even, t.read, t.some, t.few, folded))

  other_eq :
      (s : Text)
      → is_empty s ≡ false
      → any is_space s ≡ false
      → first_is b'-' s ≡ false
      → has_hex_prefix s ≡ false
      → u256_from_hex_or_decimal p s ≡ p.parse_dec s
  unfolding u256_from_hex_or_decimal
  other_eq s a b c d = simp (a, b, c, d)

  -- What the guards refuse.
  guarded :
      (s : Text) (n : ℕ)
      → u256_from_hex_or_decimal p s ≡ ok n
      → (is_empty s ≡ false) × (any is_space s ≡ false) × (first_is b'-' s ≡ false)
  unfolding u256_from_hex_or_decimal
  guarded s n h = ground arith

  reads :
      (s : Text) (n : ℕ)
      → u256_from_hex_or_decimal p s ≡ ok n
      → All IsVisible s × (IsHexText p s n ⊎ IsOtherText p s n)
  reads s n h =
      let (full, visible, positive) = guarded s n h in
      elim (Bool-cases (has_hex_prefix s)) [
        | inl prefixed ↦
            let (mark, digits, spelt, marked) = (prefix_iff s).0 prefixed in
            let t = read_hex n mark digits marked (rw spelt at visible) (rw spelt at h) in
            ((no_space_iff s).0 visible, inl (rw spelt t))
        | inr unmarked ↦ (
          (no_space_iff s).0 visible,
          inr (record {
            not_empty = full_ne s full;
            not_negative = (minus_iff s).0 positive;
            not_hex = λ mark digits marked spelt.
                let prefixed = (prefix_iff s).1 (mark, digits, spelt, marked) in
                ground (arith, prefixed, unmarked);
            read = sym (other_eq s full visible positive unmarked) ∙ h;
          }),
        )
      ]

  is_read :
      (s : Text) (n : ℕ)
      → All IsVisible s × (IsHexText p s n ⊎ IsOtherText p s n)
      → u256_from_hex_or_decimal p s ≡ ok n
  is_read s n (visible, inl t) = hex_reads s n t ((no_space_iff s).1 visible)
  is_read s n (visible, inr t) =
      let full : is_empty s ≡ false = elim (Bool-cases (is_empty s)) [
        | inl e ↦ absurd (t.not_empty (empty_eq s e))
        | inr e ↦ e
      ] in
      let unmarked : has_hex_prefix s ≡ false = elim (Bool-cases (has_hex_prefix s)) [
        | inl e ↦
            let (mark, digits, spelt, marked) = (prefix_iff s).0 e in
            absurd (t.not_hex mark digits marked spelt)
        | inr e ↦ e
      ] in
      other_eq s full ((no_space_iff s).1 visible) ((minus_iff s).1 t.not_negative) unmarked
      ∙ t.read

-- Where unhex gives bytes: a text is read as a number exactly when it has no whitespace, and either
-- is 0x or 0X with the hex of 1 to 32 bytes, whose value in base 256 the number is, or is neither
-- empty nor marked as hex, does not begin with a minus, and is what the constructor of uint256_t
-- reads as that number.
pub u256_from_hex_or_decimal_iff :
    (p : Platform) (s : Text) (n : ℕ)
    → ((t : Text) (bytes : List ℕ) → p.unhex t ≡ ok bytes → All IsByte bytes)
    → (u256_from_hex_or_decimal p s ≡ ok n)
      ↔ (All IsVisible s × (IsHexText p s n ⊎ IsOtherText p s n))
u256_from_hex_or_decimal_iff p s n IsBytes = (reads p IsBytes s n, is_read p IsBytes s n)
