-- ===== src/Payment/Manager/Interleaving.antt =====
-- Requests that settle payments at the same time (PaymentManager): the atomic steps of the threads
-- that are behind the lock, in any order.
pub mod Threads
pub mod RaceFree
use machinepal.Prelude.{
  ℕ, ◌≡◌, ◌≢◌, refl, ◌∙◌, sym, ap, ap₂, subst, Bool, true, false, ◌&&◌, ◌||◌, not, Text, str, List,
  [], ◌∷◌, ◌++◌, Option, none, some, ◌⊎◌, inl, inr, any, any-append, if◌then◌else◌, text_eq,
  text_eq_iff, text_eq_refl, Bool-cases, ◌==◌, arith,
}
use machinepal.Result.{Result, ok, err, Result-cases}
use machinepal.Platform.{Platform}
use machinepal.Crypto.Values.{Hash}
use machinepal.Crypto.Domain.{Authorization, Eip712Domain, unique_payment_key}
use machinepal.Config.Resources.{ResourceConfig, OrganizationConfig, MachinePalConfig}
use machinepal.Db.Payments.{
  PaymentRow, PaymentKey, row_has_key, payment_key, key_of, payment_exists, settled_payment_exists,
  save_settled_payment,
}
use machinepal.Db.Payments.Unique.{HasGained}
use machinepal.Payment.Payload.{PaymentPayload}
use machinepal.Payment.Messages.{SettlementResponse}
use machinepal.Payment.Manager.{
  Settlements, Context, is_settling, erase_key, lock_key, lock_payment_as_being_settled,
  unlock_payment_as_being_settled, check_against_already_settled_payments,
  route_to_facilitator_and_settle, settlement_request_for, record_successful_settlement,
}
use machinepal.Payment.Manager.Spending.{recorded}

-- How far a thread is: it holds the lock, it has found no row for its payment, or it is done with
-- the table.
pub data Phase : Type 0 where
  locked checked finished : Phase

pub record Thread : Type 0 where
  pub payment : PaymentPayload
  pub phase : Phase

pub record World (p : Platform) : Type 0 where
  pub state : Settlements p
  pub threads : ℕ → Option Thread

unfoldable pub put : ℕ → Option Thread → (ℕ → Option Thread) → ℕ → Option Thread
put i t threads j = if j == i then t else threads j

module _ (p : Platform) (c : Context p) (config : MachinePalConfig) where
  abbrev pub lock_key_of : PaymentPayload → Text
  lock_key_of pp = lock_key p pp.payload.authorization config.network.eip712_domain

  abbrev pub payment_key_of : PaymentPayload → PaymentKey
  payment_key_of pp = payment_key p pp config.network.eip712_domain

  -- One atomic step of one thread, by what the code's operation returns. A refused lock changes
  -- nothing, and a thread may leave at any point, as it does on an exception.
  pub data Step : World p → World p → Type 0 where
    enter :
        {s s' : Settlements p} {threads : ℕ → Option Thread} (i : ℕ) (pp : PaymentPayload)
        → threads i ≡ none
        → lock_payment_as_being_settled p pp.payload.authorization config.network.eip712_domain s
          ≡ (ok true, s')
        → Step
            (record { state = s; threads = threads })
            (record {
              state = s';
              threads = put i (some (record { payment = pp; phase = locked })) threads;
            })
    check :
        {s s' : Settlements p} {threads : ℕ → Option Thread} (i : ℕ) (pp : PaymentPayload)
        → threads i ≡ some (record { payment = pp; phase = locked })
        → check_against_already_settled_payments p c pp config.network.eip712_domain s
          ≡ (ok none, s')
        → Step
            (record { state = s; threads = threads })
            (record {
              state = s';
              threads = put i (some (record { payment = pp; phase = checked })) threads;
            })
    ask :
        {s : Settlements p} {threads : ℕ → Option Thread} (i : ℕ) (pp : PaymentPayload)
        (resource : ResourceConfig)
        → threads i ≡ some (record { payment = pp; phase = checked })
        → Step
            (record { state = s; threads = threads })
            (record {
              state =
                  (route_to_facilitator_and_settle p c
                    (settlement_request_for p c config resource pp)
                    s).1;
              threads = threads;
            })
    save :
        {s : Settlements p} {threads : ℕ → Option Thread} (i : ℕ) (pp : PaymentPayload)
        (resource : ResourceConfig) (organization : OrganizationConfig) (hash : Hash) (ip : Text)
        → threads i ≡ some (record { payment = pp; phase = checked })
        → Step
            (record { state = s; threads = threads })
            (record {
              state =
                  (record_successful_settlement p c pp config.network.eip712_domain resource
                    organization hash ip s).1;
              threads = put i (some (record { payment = pp; phase = finished })) threads;
            })
    leave :
        {s : Settlements p} {threads : ℕ → Option Thread} (i : ℕ) (t : Thread)
        → threads i ≡ some t
        → Step
            (record { state = s; threads = threads })
            (record {
              state =
                  (unlock_payment_as_being_settled p t.payment.payload.authorization
                    config.network.eip712_domain s).1;
              threads = put i none threads;
            })

  -- The worlds that runs lead to, from one with no thread behind the lock.
  pub data Reachable : World p → Type 0 where
    start :
        (rows : List PaymentRow)
        → Reachable (record {
          state = record { payments = rows; currently_settling = []; asked = [] };
          threads = λ _. none;
        })
    step : {w w' : World p} → Reachable w → Step w w' → Reachable w'

  -- Each thread's lock is in the set; no two threads hold the same; and no row has the key of a
  -- payment whose thread has looked for one.
  pub record IsRaceFree (w : World p) : Type 0 where
    pub held :
        (i : ℕ) (t : Thread)
        → w.threads i ≡ some t
        → is_settling (lock_key_of t.payment) w.state.currently_settling ≡ true
    pub exclusive :
        (i j : ℕ) (t u : Thread)
        → w.threads i ≡ some t
        → w.threads j ≡ some u
        → lock_key_of t.payment ≡ lock_key_of u.payment
        → i ≡ j
    pub fresh :
        (i : ℕ) (t : Thread)
        → w.threads i ≡ some t
        → t.phase ≡ checked
        → any (row_has_key (payment_key_of t.payment)) w.state.payments ≡ false
