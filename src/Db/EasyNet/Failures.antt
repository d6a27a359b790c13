-- ===== src/Db/EasyNet/Failures.antt =====
-- Refused and failed transfers (EasyNetDb::transferValueUnsafe).
use machinepal.Prelude.{◌≡◌, ◌≢◌, refl, arith, none, some, Option}
use machinepal.Result.{Result, ok, err}
use machinepal.Platform.{Platform}
use machinepal.Facilitator.Errors.{FacilitatorError}
use machinepal.Db.EasyNet.Tables.{Tables, Statement, TransferRequest}
use machinepal.Db.EasyNet.Transferring.{transfer_value_unsafe}
use machinepal.Db.EasyNet.Attempts.{attempted, persisted, concluded, transfer_value_unsafe-eq}

module _ (p : Platform) (engine : Statement → Result (Unit {0})) (q : TransferRequest)
    (t : Tables) where
  pub refused_unchanged :
      (e : FacilitatorError) (t' : Tables) → attempted p engine q t ≡ ok (some e, t') → t' ≡ t
  unfolding attempted
  refused_unchanged e t' h = ground arith

  -- Whatever was not run would have run on an engine that works.
  pub committed_anyway :
      (r : Option FacilitatorError × Tables)
      → attempted p engine q t ≡ ok r
      → attempted p (λ _. ok tt) q t ≡ ok r
  unfolding attempted persisted
  committed_anyway r h = ground arith

  unchanged_by :
      (r : Result (Option FacilitatorError × Tables))
      → attempted p engine q t ≡ r
      → (concluded p engine t r).0 ≢ ok none
      → (concluded p engine t r).1 ≡ t
  unchanged_by (ok (none, t')) e h = absurd (h refl)
  unchanged_by (ok (some er, t')) e h = refused_unchanged er t' e
  unchanged_by (err er) e h = refl

-- Whichever statements the engine refuses: a transfer that does not return success, be it with an
-- error code or an exception, leaves both tables as they were.
pub transfer_value_unsafe-atomic :
    (p : Platform) (engine : Statement → Result (Unit {0})) (q : TransferRequest) (t : Tables)
    → (transfer_value_unsafe p engine q t).0 ≢ ok none
    → (transfer_value_unsafe p engine q t).1 ≡ t
transfer_value_unsafe-atomic p engine q t h =
    let run = transfer_value_unsafe-eq p engine q t in
    rw run (unchanged_by p engine q t (attempted p engine q t) refl (rw run at h))
