-- ===== src/Payment/Manager/Interleaving/RaceFree.antt =====
-- Requests that settle payments at the same time (PaymentManager): what holds in every order of
-- their steps.
use machinepal.Prelude.{
  ℕ, ◌≡◌, ◌≢◌, refl, ◌∙◌, sym, ap, ap₂, subst, true, false, ◌||◌, Text, List, [], ◌∷◌, Option, none,
  some, ◌⊎◌, inl, inr, any, any-append, text_eq_refl, Bool-cases, arith,
}
use machinepal.Result.{Result, ok}
use machinepal.Platform.{Platform}
use machinepal.Crypto.Values.{Hash}
use machinepal.Config.Resources.{ResourceConfig, OrganizationConfig, MachinePalConfig}
use machinepal.Db.Payments.{PaymentRow, row_has_key}
use machinepal.Db.Payments.Unique.{HasGained}
use machinepal.Payment.Payload.{PaymentPayload}
use machinepal.Payment.Manager.{
  Settlements, Context, is_settling, erase_key, lock_payment_as_being_settled,
  unlock_payment_as_being_settled, check_against_already_settled_payments,
  route_to_facilitator_and_settle, settlement_request_for, record_successful_settlement,
}
use machinepal.Payment.Manager.Spending.{recorded}
use machinepal.Payment.Manager.Interleaving.{
  Phase, locked, checked, finished, Thread, World, put, Step, enter, check, ask, save, leave,
  Reachable, start, step, IsRaceFree, lock_key_of, payment_key_of,
}
use machinepal.Payment.Manager.Interleaving.Threads.{
  Threads, put-cases, some-injective, none_ne_some, false_ne_true, locked_ne_checked,
  finished_ne_checked, is_settling-erase, same_lock, lock_succeeds, check_succeeds,
}

module _ (p : Platform) (c : Context p) (config : MachinePalConfig) where
  abbrev Free : Settlements p → Threads → Type 0
  Free s threads = IsRaceFree p c config (record { state = s; threads = threads })

  -- A thread that goes on with its payment, in a state that keeps the locks.
  moved :
      (s s' : Settlements p) (threads : Threads) (i : ℕ) (pp : PaymentPayload) (from to : Phase)
      → threads i ≡ some (record { payment = pp; phase = from })
      → s'.currently_settling ≡ s.currently_settling
      → ((j : ℕ) (t : Thread)
          → put i (some (record { payment = pp; phase = to })) threads j ≡ some t
          → t.phase ≡ checked
          → any (row_has_key (payment_key_of p c config t.payment)) s'.payments ≡ false)
      → Free s threads
      → Free s' (put i (some (record { payment = pp; phase = to })) threads)
  moved s s' threads i pp from to here same fresh r =
      let was : (j : ℕ) (t : Thread)
          → put i (some (record { payment = pp; phase = to })) threads j ≡ some t
          → (u : Thread) × (threads j ≡ some u) × (u.payment ≡ t.payment) =
        λ j t h. elim (put-cases i j (some (record { payment = pp; phase = to })) threads t h) [
          | inl (e, v) ↦ (
            record { payment = pp; phase = from },
            ap threads e ∙ here,
            ap (λ t. t.payment) (some-injective v),
          )
          | inr (_, v) ↦ (t, v, refl)
        ] in
      record {
        held = λ j t h.
            let (u, e, same_payment) = was j t h in
            subst (λ pay. is_settling (lock_key_of p c config pay) s'.currently_settling ≡ true)
              same_payment (rw same (r.held j u e));
        exclusive = λ j j' t t' h h' k.
            let (u, e, same_payment) = was j t h in
            let (u', e', same_payment') = was j' t' h' in
            r.exclusive j j' u u' e e' (
              ap (lock_key_of p c config) same_payment
              ∙ (k ∙ sym (ap (lock_key_of p c config) same_payment')));
        fresh = fresh;
      }

  entered :
      (s s' : Settlements p) (threads : Threads) (i : ℕ) (pp : PaymentPayload)
      → threads i ≡ none
      → lock_payment_as_being_settled p pp.payload.authorization config.network.eip712_domain s
        ≡ (ok true, s')
      → Free s threads
      → Free s' (put i (some (record { payment = pp; phase = locked })) threads)
  entered s s' threads i pp gone l r =
      let (e, free) = lock_succeeds p c config s s' pp l in
      let v : Option Thread = some (record { payment = pp; phase = locked }) in
      let apart : (j : ℕ) (t : Thread)
          → threads j ≡ some t
          → lock_key_of p c config t.payment ≢ lock_key_of p c config pp =
        λ j t h k. false_ne_true (
          sym free ∙ subst (λ key. is_settling key s.currently_settling ≡ true) k (r.held j t h)) in
      record {
        held = λ j t h. elim (put-cases i j v threads t h) [
          | inl (_, same) ↦ rw e (
              rw (ap (λ t. t.payment) (sym (some-injective same)))
                (rw (text_eq_refl (lock_key_of p c config pp))))
          | inr (_, same) ↦ rw e (ground (arith, r.held j t same))
        ];
        exclusive = λ j j' t t' h h' k. elim (put-cases i j v threads t h) [
          | inl (a, same) ↦ elim (put-cases i j' v threads t' h') [
            | inl (b, same') ↦ a ∙ sym b
            | inr (b, same') ↦ absurd (
                apart j' t' same'
                  (sym k ∙ ap (λ t. lock_key_of p c config t.payment) (sym (some-injective same))))
          ]
          | inr (a, same) ↦ elim (put-cases i j' v threads t' h') [
            | inl (b, same') ↦ absurd (
                apart j t same
                  (k ∙ ap (λ t. lock_key_of p c config t.payment) (sym (some-injective same'))))
            | inr (b, same') ↦ r.exclusive j j' t t' same same' k
          ]
        ];
        fresh = λ j t h phase. elim (put-cases i j v threads t h) [
          | inl (_, same) ↦
              absurd (locked_ne_checked (ap (λ t. t.phase) (some-injective same) ∙ phase))
          | inr (_, same) ↦ rw e (r.fresh j t same phase)
        ];
      }

  looked :
      (s s' : Settlements p) (threads : Threads) (i : ℕ) (pp : PaymentPayload)
      → threads i ≡ some (record { payment = pp; phase = locked })
      → check_against_already_settled_payments p c pp config.network.eip712_domain s ≡ (ok none, s')
      → Free s threads
      → Free s' (put i (some (record { payment = pp; phase = checked })) threads)
  looked s s' threads i pp here l r =
      let (e, none_there) = check_succeeds p c config s s' pp l in
      moved s s' threads i pp locked checked here (ap (λ s. s.currently_settling) e)
        (λ j t h phase.
          elim (put-cases i j (some (record { payment = pp; phase = checked })) threads t h) [
            | inl (_, same) ↦ rw e (rw (ap (λ t. t.payment) (sym (some-injective same))) none_there)
            | inr (_, same) ↦ rw e (r.fresh j t same phase)
          ])
        r

  -- A row with another lock's key hides no payment.
  gained_fresh :
      (pp : PaymentPayload) (u : PaymentPayload) (rows rows' : List PaymentRow)
      → HasGained (payment_key_of p c config pp) rows rows'
      → lock_key_of p c config pp ≢ lock_key_of p c config u
      → any (row_has_key (payment_key_of p c config u)) rows ≡ false
      → any (row_has_key (payment_key_of p c config u)) rows' ≡ false
  gained_fresh pp u rows rows' g other fresh =
      rw g.appended (elim (Bool-cases (row_has_key (payment_key_of p c config u) g.row)) [
        | inl same ↦ absurd (other (same_lock p c config pp u g.row g.key_same same))
        | inr differs ↦
            any-append (row_has_key (payment_key_of p c config u)) rows (g.row ∷ [])
            ∙ ap₂ (λ a b. a || (b || false)) fresh differs
      ])

  saved :
      (s : Settlements p) (threads : Threads) (i : ℕ) (pp : PaymentPayload)
      (m : Result (Unit {0}) × Settlements p)
      → threads i ≡ some (record { payment = pp; phase = checked })
      → ((m.0 ≡ ok tt)
          × HasGained (payment_key_of p c config pp) s.payments m.1.payments
          × (m.1.asked ≡ s.asked))
        ⊎ ((m.0 ≢ ok tt) × (m.1 ≡ s))
      → m.1.currently_settling ≡ s.currently_settling
      → Free s threads
      → Free m.1 (put i (some (record { payment = pp; phase = finished })) threads)
  saved s threads i pp m here what same r =
      moved s m.1 threads i pp checked finished here same
        (λ j t h phase.
          elim (put-cases i j (some (record { payment = pp; phase = finished })) threads t h) [
            | inl (_, v) ↦
                absurd (finished_ne_checked (ap (λ t. t.phase) (some-injective v) ∙ phase))
            | inr (other, v) ↦ elim what [
              | inl (_, g, _) ↦
                  gained_fresh pp t.payment s.payments m.1.payments g
                    (λ k. other (sym (r.exclusive i j _ t here v k))) (r.fresh j t v phase)
              | inr (_, e) ↦ rw e (r.fresh j t v phase)
            ]
          ])
        r

  left :
      (s s' : Settlements p) (threads : Threads) (i : ℕ) (t : Thread)
      → threads i ≡ some t
      → s'.payments ≡ s.payments
      → s'.currently_settling ≡ erase_key (lock_key_of p c config t.payment) s.currently_settling
      → Free s threads
      → Free s' (put i none threads)
  left s s' threads i t here rows locks r =
      let still : (j : ℕ) (u : Thread)
          → put i none threads j ≡ some u
          → (j ≢ i) × (threads j ≡ some u) =
        λ j u h. elim (put-cases i j none threads u h) [
          | inl (_, v) ↦ absurd (none_ne_some v)
          | inr v ↦ v
        ] in
      record {
        held = λ j u h.
            let (other, v) = still j u h in
            rw locks (
              is_settling-erase (lock_key_of p c config t.payment)
                (lock_key_of p c config u.payment) s.currently_settling
                (λ k. other (r.exclusive j i u t v here k)) (r.held j u v));
        exclusive = λ j j' u u' h h' k. r.exclusive j j' u u' (still j u h).1 (still j' u' h').1 k;
        fresh = λ j u h phase. rw rows (r.fresh j u (still j u h).1 phase);
      }

  record-settling :
      (s : Settlements p) (pp : PaymentPayload) (resource : ResourceConfig)
      (organization : OrganizationConfig) (hash : Hash) (ip : Text)
      → (record_successful_settlement p c pp config.network.eip712_domain resource organization hash
          ip s).1.currently_settling
        ≡ s.currently_settling
  unfolding record_successful_settlement
  record-settling s pp resource organization hash ip = ground arith

  asked-same :
      (s : Settlements p) (pp : PaymentPayload) (resource : ResourceConfig)
      → let s' =
          (route_to_facilitator_and_settle p c
            (settlement_request_for p c config resource pp)
            s).1 in
        (s'.payments ≡ s.payments) × (s'.currently_settling ≡ s.currently_settling)
  unfolding route_to_facilitator_and_settle
  asked-same s pp resource = (ground arith, ground arith)

  unlock-same :
      (s : Settlements p) (pp : PaymentPayload)
      → let s' =
          (unlock_payment_as_being_settled p pp.payload.authorization config.network.eip712_domain
            s).1 in
        (s'.payments ≡ s.payments)
        × (s'.currently_settling ≡ erase_key (lock_key_of p c config pp) s.currently_settling)
  unfolding unlock_payment_as_being_settled
  unlock-same s pp = (refl, refl)

  kept :
      (s s' : Settlements p) (threads : Threads)
      → s'.payments ≡ s.payments
      → s'.currently_settling ≡ s.currently_settling
      → Free s threads
      → Free s' threads
  kept s s' threads rows locks r = record {
    held = λ j t h. rw locks (r.held j t h);
    exclusive = r.exclusive;
    fresh = λ j t h phase. rw rows (r.fresh j t h phase);
  }

  Step-keeps :
      {w w' : World p} → Step p c config w w' → IsRaceFree p c config w → IsRaceFree p c config w'
  Step-keeps (enter {s} {s'} {threads} i pp gone l) r = entered s s' threads i pp gone l r
  Step-keeps (check {s} {s'} {threads} i pp here l) r = looked s s' threads i pp here l r
  Step-keeps (ask {s} {threads} i pp resource here) r =
      let (rows, locks) = asked-same s pp resource in kept s _ threads rows locks r
  Step-keeps (save {s} {threads} i pp resource organization hash ip here) r =
      saved s threads i pp
        (record_successful_settlement p c pp config.network.eip712_domain resource organization hash
          ip s)
        here (recorded p c config resource organization pp ip hash s _ refl)
        (record-settling s pp resource organization hash ip) r
  Step-keeps (leave {s} {threads} i t here) r =
      let (rows, locks) = unlock-same s t.payment in left s _ threads i t here rows locks r

-- In every order of the steps of any number of threads, each thread behind the lock holds it alone,
-- and while a thread that has looked for its payment settles it, no other writes it: the table has
-- no row with its key when it is written, so the unique index never refuses a payment that the
-- facilitator has settled.
pub Reachable-IsRaceFree :
    (p : Platform) (c : Context p) (config : MachinePalConfig) (w : World p)
    → Reachable p c config w
    → IsRaceFree p c config w
Reachable-IsRaceFree p c config _ (start rows) = record {
  held = λ i t h. absurd (none_ne_some h);
  exclusive = λ i j t u h h' k. absurd (none_ne_some h);
  fresh = λ i t h phase. absurd (none_ne_some h);
}
Reachable-IsRaceFree p c config w (step r s) =
    Step-keeps p c config s (Reachable-IsRaceFree p c config _ r)
