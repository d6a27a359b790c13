-- ===== src/Facilitator/EasyNet/Settling.antt =====
-- EasyNetFacilitator::processSettleRequest: when it moves money, and whose.
use machinepal.Prelude.{
  ◌+◌, ◌-◌, if◌then◌else◌, text_eq, Text, false, ℕ, ◌≡◌, ◌≢◌, refl, ◌∙◌, sym, ap, true, Option,
  none, some, inl, inr, Option-cases,
}
use machinepal.Result.{Result, ok, err, Result-cases, ◌>>=◌, >>=-eq-ok, ok-injective}
use machinepal.Exec.{continue}
use machinepal.Platform.{Platform, IsDocumented}
use machinepal.Crypto.Values.{
  address_to_hex, EthAddress, parse_flexible, token_amount_from_hex_or_decimal,
}
use machinepal.Facilitator.Errors.{FacilitatorError}
use machinepal.Db.EasyNet.Tables.{Tables, Statement}
use machinepal.Db.EasyNet.Operations.{process_transfer_request}
use machinepal.Db.EasyNet.Rows.{IsLedger, has_row}
use machinepal.Db.EasyNet.Funding.{process_transfer_request-IsCovered}
use machinepal.Db.EasyNet.Balances.{balance}
use machinepal.Db.EasyNet.Transfer
use machinepal.Db.EasyNet.Transfer.{sender, receiver}
use machinepal.Db.EasyNet.Conservation.{transfer_value_unsafe-balances}
use machinepal.Payment.Payload.Validation.{
  IsAcceptable, validate_and_verify_signature, validate_and_verify_signature_iff,
}
use machinepal.Payment.Payload.ToJson.{payment_payload_to_json}
use machinepal.Payment.Messages.{SettlementRequest, settlement_request_from_json}
use machinepal.Facilitator.EasyNet.{
  EasyNet, Verified, process_verify_request_unsafe, transfer_request, settle_verified,
  settle_request, process_settle_request,
}

-- A request whose payment the facilitator accepts: what it says parses, and the payment pays the
-- price that it names to the address that it names.
pub record IsAuthorized (p : Platform) (f : EasyNet) (j : p.Json) : Type 0 where
  pub request : SettlementRequest p
  pub parsed : settlement_request_from_json p j ≡ ok request
  pub pay_to : EthAddress
  pub pay_to_parsed : parse_flexible p request.payment_requirements.pay_to true ≡ ok pay_to
  pub price : ℕ
  pub price_parsed :
      token_amount_from_hex_or_decimal p request.payment_requirements.max_amount_required ≡ ok price
  pub acceptable :
      IsAcceptable p f.clock f.config price pay_to request.payment_requirements.scheme
        request.payment_payload

some_ne_none {ℓ} : {A : Type ℓ} {a : A} → ◌≡◌ {A = Option A} (some a) none → ⊥
some_ne_none h = cc

module _ (p : Platform) (f : EasyNet) (j : p.Json) where
  authorized :
      (t : Tables) (v : Verified p)
      → process_verify_request_unsafe p f j t ≡ ok v
      → v.error ≡ none
      → IsAuthorized p f j
  unfolding process_verify_request_unsafe
  authorized t v h e =
      let (request, parsed, h1) = >>=-eq-ok (settlement_request_from_json p j) _ h in
      let requirements = request.payment_requirements in
      let (asset, asset_parsed, h2) = >>=-eq-ok (parse_flexible p requirements.asset true) _ h1 in
      let (pay_to, pay_to_parsed, h3) =
        >>=-eq-ok (parse_flexible p requirements.pay_to true) _ h2 in
      let (price, price_parsed, h4) =
        >>=-eq-ok (token_amount_from_hex_or_decimal p requirements.max_amount_required) _ h3 in
      elim (Option-cases (
        validate_and_verify_signature p f.clock f.config price pay_to requirements.scheme
          request.payment_payload)) [
            | inl fine ↦ record {
              request = request;
              parsed = parsed;
              pay_to = pay_to;
              pay_to_parsed = pay_to_parsed;
              price = price;
              price_parsed = price_parsed;
              acceptable =
                  (validate_and_verify_signature_iff p f.clock f.config price pay_to
                      requirements.scheme request.payment_payload).0
                    fine;
            }
            | inr (x, wrong) ↦
                absurd (some_ne_none (ap (λ v. v.error) (ok-injective (rw wrong at h4)) ∙ e))
          ]

  settled_verified :
      (t : Tables) (v : Verified p) → v.error ≢ none → (settle_verified p f v t).1 ≡ t
  unfolding settle_verified
  settled_verified t v wrong = elim (Option-cases v.error) [
    | inl e ↦ absurd (wrong e)
    | inr (x, e) ↦ rw (e, settle_verified)
  ]

  recovered :
      (t : Tables) (m : Result p.Json × Tables)
      → settle_request p f j t ≡ m
      → (process_settle_request p f j t).1 ≡ m.1
  unfolding process_settle_request
  recovered t (ok a, t') h = rw (h, process_settle_request)
  recovered t (err x, t') h = rw (h, process_settle_request)

  moved_only : (t : Tables) → (settle_request p f j t).1 ≢ t → IsAuthorized p f j
  unfolding settle_request
  moved_only t moved = elim (Result-cases (process_verify_request_unsafe p f j t)) [
    | inr (x, e) ↦ absurd (moved (rw (e, settle_request)))
    | inl (v, e) ↦ elim (Option-cases v.error) [
      | inl fine ↦ authorized t v e fine
      | inr (x, wrong) ↦ absurd (
          moved (rw (e, settle_request) (settled_verified t v (λ n. some_ne_none (sym wrong ∙ n)))))
    ]
  ]

-- A settlement request changes the tables only where it parses and its payment is acceptable, at
-- the price and to the address that the request names, so also signed by the payer.
pub process_settle_request-IsAuthorized :
    (p : Platform) (f : EasyNet) (j : p.Json) (t : Tables)
    → (process_settle_request p f j t).1 ≢ t
    → IsAuthorized p f j
process_settle_request-IsAuthorized p f j t moved =
    moved_only p f j t (λ same. moved (recovered p f j t (settle_request p f j t) refl ∙ same))

module _ (p : Platform) (f : EasyNet) (j : p.Json) where
  -- The last step of the verification.
  answered :
      (m : Result (Option Text)) (request : SettlementRequest p) (v : Verified p)
      → (m >>= (λ error. ok (record {
        error = error;
        payment_payload = request.payment_payload;
        payment_requirements = request.payment_requirements;
      })))
        ≡ ok v
      → (v.payment_payload ≡ request.payment_payload)
        × (v.payment_requirements ≡ request.payment_requirements)
  answered (ok error) request v h = rw (← ok-injective h) (refl, refl)
  answered (err e) request v h = cc

  verified_payload :
      (t : Tables) (v : Verified p) (request : SettlementRequest p)
      → process_verify_request_unsafe p f j t ≡ ok v
      → settlement_request_from_json p j ≡ ok request
      → (v.payment_payload ≡ request.payment_payload)
        × (v.payment_requirements ≡ request.payment_requirements)
  unfolding process_verify_request_unsafe
  verified_payload t v request h parsed =
      let (asset, asset_parsed, h2) =
        >>=-eq-ok (parse_flexible p request.payment_requirements.asset true) _ (rw parsed at h) in
      let (pay_to, pay_to_parsed, h3) =
        >>=-eq-ok (parse_flexible p request.payment_requirements.pay_to true) _ h2 in
      let (price, price_parsed, h4) =
        >>=-eq-ok
          (token_amount_from_hex_or_decimal p request.payment_requirements.max_amount_required) _
          h3 in
      answered _ request v h4

  continued :
      (m : Result (Option FacilitatorError) × Tables) {B : Type 0}
      (k : Option FacilitatorError → Result B)
      → (continue m (λ e t. (k e, t))).1 ≡ m.1
  continued (ok e, t) k = refl
  continued (err x, t) k = refl

  -- What changes the tables is the transfer that the verified request asks for.
  transferred :
      (t : Tables) (v : Verified p)
      → (settle_verified p f v t).1 ≢ t
      → (asset : EthAddress) × (info : Text) × (parse_flexible p v.payment_requirements.asset true
          ≡ ok asset)
        × ((settle_verified p f v t).1
            ≡ (process_transfer_request p f.engine (transfer_request p f v asset info) t).1)
  unfolding settle_verified transfer_request
  transferred t v changed = elim (Option-cases v.error) [
    | inr (x, e) ↦ absurd (changed (rw (e, settle_verified)))
    | inl e ↦ elim (Result-cases (parse_flexible p v.payment_requirements.asset true)) [
      | inr (x, a) ↦ absurd (changed (rw (e, settle_verified) (rw a)))
      | inl (asset, a) ↦
          elim (Result-cases (p.dump (payment_payload_to_json p v.payment_payload))) [
            | inr (x, d) ↦ absurd (changed (rw (e, settle_verified) (rw a (rw d))))
            | inl (info, d) ↦ (
              asset,
              info,
              a,
              rw (e, settle_verified)
                  (rw a (
                    rw d (
                      continued
                        (process_transfer_request p f.engine (transfer_request p f v asset info) t)
                        _))),
            )
          ]
    ]
  ]

  -- The verified request behind a change of the tables.
  behind :
      (t : Tables)
      → (settle_request p f j t).1 ≢ t
      → (v : Verified p) × (process_verify_request_unsafe p f j t ≡ ok v)
        × (settle_request p f j t ≡ settle_verified p f v t)
  unfolding settle_request
  behind t changed = elim (Result-cases (process_verify_request_unsafe p f j t)) [
    | inr (x, e) ↦ absurd (changed (rw (e, settle_request)))
    | inl (v, e) ↦ (v, e, rw (e, settle_request))
  ]

-- The texts by which the payer, the payee and an asset stand in the tables.
abbrev pub payer_text : (p : Platform) → SettlementRequest p → Text
payer_text p r = address_to_hex p r.payment_payload.payload.authorization.from false

abbrev pub payee_text : (p : Platform) → SettlementRequest p → Text
payee_text p r = address_to_hex p r.payment_payload.payload.authorization.to false

-- On an engine that works and a ledger that is well formed, a settlement request that changes the
-- tables, and whose payer has a row for the asset that the request names, takes the amount of its
-- authorization from the payer and gives it to the payee; every other wallet keeps what it had.
-- Where payer and payee are one wallet, its balance grows by the amount.
pub process_settle_request-balances :
    (p : Platform) (f : EasyNet) (j : p.Json) (t : Tables) (request : SettlementRequest p)
    (asset : EthAddress)
    → IsDocumented p
    → ((s : Statement) → f.engine s ≡ ok tt)
    → IsLedger p t.state
    → settlement_request_from_json p j ≡ ok request
    → parse_flexible p request.payment_requirements.asset true ≡ ok asset
    → has_row (payer_text p request) (address_to_hex p asset false) t.state ≡ true
    → (process_settle_request p f j t).1 ≢ t
    → (w : Text)
    → balance w (address_to_hex p asset false) (process_settle_request p f j t).1.state ≡ (
        if text_eq (payee_text p request) w
        then balance (payee_text p request) (address_to_hex p asset false) t.state
          + request.payment_payload.payload.authorization.value
        else if text_eq (payer_text p request) w
        then balance (payer_text p request) (address_to_hex p asset false) t.state
          - request.payment_payload.payload.authorization.value
        else balance w (address_to_hex p asset false) t.state)
unfolding transfer_request
process_settle_request-balances p f j t request asset doc works l parsed named known changed w =
    let before = recovered p f j t (settle_request p f j t) refl in
    let (v, ok_v, run) = behind p f j t (λ same. changed (before ∙ same)) in
    let changed_v : (settle_verified p f v t).1 ≢ t = λ same. changed (rw before (rw run same)) in
    let (asset_v, info, named_v, moved) = transferred p f j t v changed_v in
    let (payload, requirements) = verified_payload p f j t v request ok_v parsed in
    let same_asset : asset_v ≡ asset =
      ok-injective (sym named_v ∙ ap (λ r. parse_flexible p r.asset true) requirements ∙ named) in
    let q = transfer_request p f v asset_v info in
    let paying : sender p q ≡ payer_text p request =
      ap (λ pp. address_to_hex p pp.payload.authorization.from false) payload in
    let paid : receiver p q ≡ payee_text p request =
      ap (λ pp. address_to_hex p pp.payload.authorization.to false) payload in
    let amount : q.value ≡ request.payment_payload.payload.authorization.value =
      ap (λ pp. pp.payload.authorization.value) payload in
    let token : Transfer.asset p q ≡ address_to_hex p asset false =
      ap (λ a. address_to_hex p a false) same_asset in
    let (c, same) =
      process_transfer_request-IsCovered p doc f.engine q t works l (rw (paying, token) known)
        (λ still. changed_v (moved ∙ still)) in
    let (done, after) = transfer_value_unsafe-balances p f.engine q t doc works l c in
    rw before (rw run (rw moved (rw same (rw (← paying, ← paid, ← amount, ← token) (after w)))))
