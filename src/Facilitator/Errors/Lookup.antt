-- ===== src/Facilitator/Errors/Lookup.antt =====
-- The error table read back: FacilitatorErrors::getErrorFromString against getErrorString.
use mathlib.Core.List.{
  Mem, Perm, mem-cons, not-mem-nil, mem-cons_self, mem-cons_of_mem, mem-map_of_mem,
  exists_of_mem-map,
}
use mathlib.Core.List.Perm.{mem_iff}
use mathlib.Core.Logic.{∥∥₁_elim}
use mathlib.Core.Logic.Or
use machinepal.Prelude.{
  Bool, true, false, ◌≡◌, refl, inl, inr, Text, str, Option, some, List, [], ◌∷◌, arith,
  contains_text, all, any, ◌||◌, not, Bool-cases, sym, ap,
}
use machinepal.Facilitator.Errors.{
  FacilitatorError, get_error_string, get_error_from_string, all_errors, error_string_to_enum,
  insufficient_funds,
}

FacilitatorError-discrete : Discrete FacilitatorError
FacilitatorError-discrete = hlevel

Lookup-set : IsSet (Option FacilitatorError)
Lookup-set = hlevel

same : FacilitatorError → FacilitatorError → Bool
same e v = elim (FacilitatorError-discrete e v) [ yes _ ↦ true | no _ ↦ false ]

eq_of_same : (e v : FacilitatorError) → same e v ≡ true → e ≡ v
unfolding same
eq_of_same e v h = ground arith

abbrev apart : FacilitatorError → FacilitatorError → Bool
apart e v = not (contains_text (get_error_string e) (get_error_string v)) || same e v

abbrev apart_row : FacilitatorError → Bool
apart_row e = all (apart e) all_errors

-- No code's text is inside another's.
separated_table : all apart_row all_errors ≡ true
unfolding same FacilitatorError-discrete contains_text get_error_string str
separated_table = refl

every_error : (e : FacilitatorError) → any (same e) all_errors ≡ true
unfolding same FacilitatorError-discrete
every_error insufficient_funds = refl
every_error _ = refl

all_sound :
    (f : FacilitatorError → Bool) (xs : List FacilitatorError) (e : FacilitatorError)
    → all f xs ≡ true
    → any (same e) xs ≡ true
    → f e ≡ true
all_sound f [] e h m = cc
all_sound f (y ∷ xs) e h m = ground (arith, eq_of_same e y, all_sound f xs e)

separated :
    (e v : FacilitatorError)
    → contains_text (get_error_string e) (get_error_string v) ≡ true
    → e ≡ v
separated e v h =
    let row : apart_row e ≡ true =
      all_sound apart_row all_errors e separated_table (every_error e) in
    let cell : apart e v ≡ true = all_sound (apart e) all_errors v row (every_error v) in
    ground (arith, eq_of_same e v)

contains_self :
    (e : FacilitatorError) → contains_text (get_error_string e) (get_error_string e) ≡ true
unfolding contains_text get_error_string str
contains_self insufficient_funds = refl
contains_self _ = refl

mem_of_any : (e : FacilitatorError) (xs : List FacilitatorError) → any (same e) xs ≡ true → Mem e xs
mem_of_any e [] h = cc
mem_of_any e (x ∷ xs) h = elim (Bool-cases (same e x)) [
  | inl hit ↦ rw (← eq_of_same e x hit) mem-cons_self
  | inr miss ↦ mem-cons_of_mem _ (mem_of_any e xs (ground arith))
]

Text-set : IsSet Text
Text-set = hlevel

abbrev IsEntry : Text × FacilitatorError → Type 0
IsEntry kv = kv.0 ≡ get_error_string kv.1

found :
    (entries : List (Text × FacilitatorError)) (e : FacilitatorError)
    → ((kv : Text × FacilitatorError) → Mem kv entries → IsEntry kv)
    → Mem (get_error_string e, e) entries
    → get_error_from_string entries (get_error_string e) ≡ some e
unfolding get_error_from_string
found [] e listed m = absurd (not-mem-nil m)
found ((k, v) ∷ entries) e listed m =
    let head : k ≡ get_error_string v = listed (k, v) mem-cons_self in
    elim (Bool-cases (contains_text (get_error_string e) k)) [
      | inl hit ↦ rw hit (ap some (sym (separated e v (rw head at hit))))
      | inr miss ↦
          Or.elim (Lookup-set _ _) (mem-cons.0 m)
            (λ same_pair.
              cc (contains_self e, ap (λ (kv : Text × FacilitatorError). kv.0) same_pair))
            (λ later. rw miss (found entries e (λ kv km. listed kv (mem-cons_of_mem _ km)) later))
    ]

IsEntry-table : (kv : Text × FacilitatorError) → Mem kv error_string_to_enum → IsEntry kv
unfolding error_string_to_enum
IsEntry-table kv m =
    ∥∥₁_elim (exists_of_mem-map {f = λ v. (get_error_string v, v)} {l = all_errors} m)
      (Text-set _ _) (λ found_in. let (e, _, q) = found_in in rw (← q) refl)

every_entry : (e : FacilitatorError) → Mem (get_error_string e, e) error_string_to_enum
unfolding error_string_to_enum
every_entry e =
    mem-map_of_mem (λ v. (get_error_string v, v)) (mem_of_any e all_errors (every_error e))

-- Whatever the order in which the table yields its entries, the text of a code is read back as
-- that code.
pub get_error_from_string-get_error_string :
    (entries : List (Text × FacilitatorError)) (e : FacilitatorError)
    → Perm entries error_string_to_enum
    → get_error_from_string entries (get_error_string e) ≡ some e
get_error_from_string-get_error_string entries e order =
    found entries e (λ kv m. IsEntry-table kv ((mem_iff order).0 m))
      ((mem_iff order).1 (every_entry e))
