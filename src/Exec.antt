-- ===== src/Exec.antt =====
-- Methods that change state and may throw: from a state to what is returned or thrown and the state
-- then.
use machinepal.Prelude.{◌≡◌, ◌∙◌, refl}
use machinepal.Result.{Result, ok, err, Exception}

abbrev pub Exec : Type 0 → Type 0 → Type 0
Exec S A = S → Result A × S

abbrev pub pure : {S A : Type 0} → A → Exec S A
pure a s = (ok a, s)

abbrev pub throw : {S A : Type 0} → Exception → Exec S A
throw e s = (err e, s)

-- A call of a function that may throw and changes nothing.
abbrev pub lift : {S A : Type 0} → Result A → Exec S A
lift r s = (r, s)

abbrev pub gets : {S A : Type 0} → (S → A) → Exec S A
gets f s = (ok (f s), s)

abbrev pub modify : {S : Type 0} → (S → S) → Exec S (Unit {0})
modify f s = (ok tt, f s)

-- The rest of a method, after what went before.
abbrev pub continue : {S A B : Type 0} → Result A × S → (A → Exec S B) → Result B × S
continue (ok a, s) f = f a s
continue (err e, s) f = (err e, s)

infixl 5 ◌>>=◌ ◌>>◌
abbrev pub ◌>>=◌ : {S A B : Type 0} → Exec S A → (A → Exec S B) → Exec S B
◌>>=◌ m f s = continue (m s) f

abbrev pub ◌>>◌ : {S A B : Type 0} → Exec S A → Exec S B → Exec S B
m >> k = m >>= λ _. k

-- try { m } catch (…) { h }
abbrev pub recover : {S A : Type 0} → Result A × S → (Exception → Exec S A) → Result A × S
recover (ok a, s) h = (ok a, s)
recover (err e, s) h = h e s

abbrev pub try_catch : {S A : Type 0} → Exec S A → (Exception → Exec S A) → Exec S A
try_catch m h s = recover (m s) h

-- A part of the state that every step leaves alone is left alone by the whole.
module _ {S A B C : Type 0} (part : S → C) where
  pub continue-keeps :
      (m : Result A × S) (k : A → Exec S B) (c : C)
      → part m.1 ≡ c
      → ((a : A) (s : S) → part (k a s).1 ≡ part s)
      → part (continue m k).1 ≡ c
  continue-keeps (ok a, s) k c h g = g a s ∙ h
  continue-keeps (err e, s) k c h g = h

module _ {S A C : Type 0} (part : S → C) where
  pub recover-keeps :
      (m : Result A × S) (handler : Exception → Exec S A) (c : C)
      → part m.1 ≡ c
      → ((e : Exception) (s : S) → part (handler e s).1 ≡ part s)
      → part (recover m handler).1 ≡ c
  recover-keeps (ok a, s) handler c h g = h
  recover-keeps (err e, s) handler c h g = g e s ∙ h

-- A method that returned ran each of its parts to the end.
module _ {S A B : Type 0} where
  pub continue-eq-ok :
      (m : Result A × S) (k : A → Exec S B) {last : B} {after : S}
      → continue m k ≡ (ok last, after)
      → (a : A) × (s : S) × (m ≡ (ok a, s)) × (k a s ≡ (ok last, after))
  continue-eq-ok (ok a, s) k e = (a, s, refl, e)
  continue-eq-ok (err thrown, s) k e = cc

  -- A part that only reads the state.
  pub read-eq-ok :
      (m : Result A) (s : S) (k : A → Exec S B) {last : B} {after : S}
      → continue (m, s) k ≡ (ok last, after)
      → (a : A) × (m ≡ ok a) × (k a s ≡ (ok last, after))
  read-eq-ok (ok a) s k e = (a, refl, e)
  read-eq-ok (err thrown) s k e = cc
