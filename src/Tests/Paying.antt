-- ===== src/Tests/Paying.antt =====
-- PaymentManager at concrete inputs. The facilitator's answer says that nothing has been settled.
use machinepal.Prelude.{
  ℕ, ◌≡◌, ◌↔◌, ◌⊎◌, refl, Bool, true, false, Text, str, List, [], ◌∷◌, ◌++◌, Option, none, some,
  inl, inr,
}
use machinepal.Result.{Result, ok, err}
use machinepal.Crypto.Domain.{Authorization}
use machinepal.Crypto.Encoding.{zeros}
use machinepal.Config.Resources.{ResourceConfig, OrganizationConfig, MachinePalConfig}
use machinepal.Db.Payments.{payment_key, PaymentRow}
use machinepal.Db.Payments.Unique.{HasGained, HasUniqueKeys}
use machinepal.Payment.Payload.{PaymentPayload}
use machinepal.Payment.Payload.Validation.{
  IsAcceptable, validate_and_verify_signature, validate_and_verify_signature_iff,
}
use machinepal.Payment.Messages.{SettlementRequest, SettlementResponse}
use machinepal.Payment.Manager.{
  Context, Settlements, Settled, lock_key, decode_and_parse_payment, settlement_request_for,
  decode_pre_validate_and_settle_with_facilitator, check_payment_is_new_and_settle_it,
}
use machinepal.Payment.Manager.Locking.{settling-check_payment_is_new_and_settle_it}
use machinepal.Payment.Manager.Spending.{Explains, check_payment_is_new_and_settle_it-Explains}
use machinepal.Payment.Manager.Settles.{
  response_of, HasSameOutcome, check_payment_is_new_and_settle_it_ignores_success,
}
use machinepal.Payment.Manager.Replay.{Refuses, check_payment_is_new_and_settle_it-replay}
use machinepal.Payment.Manager.Entry.{
  decode_pre_validate_and_settle_with_facilitator-settled,
  decode_pre_validate_and_settle_with_facilitator-keeps,
}
use machinepal.Payment.Manager.Interleaving.{
  locked, checked, Thread, World, put, enter, check, Reachable, start, step, IsRaceFree,
}
use machinepal.Payment.Manager.Interleaving.RaceFree.{Reachable-IsRaceFree}
use machinepal.Tests.Demo.{demo, bytes, answer_tree}
use machinepal.Tests.World.{
  config_demo, resource_demo, organization_demo, payment_demo, authorization_demo, domain_demo,
  clock_demo, context_demo, no_settlements, paying_request, wallet,
}

abbrev pub refusing_answer : SettlementResponse
refusing_answer = record {
  success = false;
  error_reason = none;
  transaction = [];
  network = [];
  payer = [];
  original_json = str "answer";
}

abbrev after_entry : Settlements demo
after_entry =
    (decode_pre_validate_and_settle_with_facilitator demo context_demo paying_request config_demo
      resource_demo organization_demo no_settlements).1

abbrev once : Result Settled × Settlements demo
once =
    check_payment_is_new_and_settle_it demo context_demo config_demo resource_demo organization_demo
      payment_demo [] no_settlements

abbrev locked_demo : Settlements demo
locked_demo = record {
  payments = [];
  currently_settling = lock_key demo authorization_demo domain_demo ∷ [];
  asked = [];
}

abbrev no_thread : ℕ → Option Thread
no_thread i = none

abbrev one_thread : ℕ → Option Thread
one_thread = put 0 (some (record { payment = payment_demo; phase = locked })) no_thread

abbrev world_demo : World demo
world_demo = record {
  state = locked_demo;
  threads = put 0 (some (record { payment = payment_demo; phase = checked })) one_thread;
}

-- A facilitator that accepts, with the same transaction.
abbrev accepting_context : Context demo
accepting_context = record context_demo { settle = λ request. ok (answer_tree true) }

abbrev accepting_answer : SettlementResponse
accepting_answer = record refusing_answer { success = true; original_json = str "accepted" }

abbrev asked_demo : SettlementRequest demo
asked_demo = settlement_request_for demo context_demo config_demo resource_demo payment_demo

-- What the runs come to.
runs_demo :
    (decode_pre_validate_and_settle_with_facilitator demo context_demo paying_request config_demo
        resource_demo organization_demo no_settlements
      ≡ (ok (some authorization_demo, inl refusing_answer), after_entry))
    × (response_of demo context_demo asked_demo ≡ ok refusing_answer)
    × (response_of demo accepting_context asked_demo ≡ ok accepting_answer)
    × (once.0 ≡ ok (inl refusing_answer))
    × (once.1.payments ≡ once.1.payments ++ [])
    × (Reachable demo context_demo config_demo world_demo)
unfolding response_of machinepal.Prelude.str machinepal.Prelude.text_eq
    machinepal.Prelude.starts_with machinepal.Prelude.is_empty machinepal.Result.what
    machinepal.Crypto.Encoding.has_hex_prefix machinepal.Crypto.Encoding.drop_two
    machinepal.Crypto.Encoding.is_space machinepal.Crypto.Encoding.first_is
    machinepal.Crypto.Encoding.fold_bytes machinepal.Crypto.Encoding.zeros
    machinepal.Crypto.Encoding.pad32 machinepal.Crypto.Encoding.from_hex
    machinepal.Crypto.Encoding.u256_from_hex_or_decimal machinepal.Crypto.Encoding.u256_to_decimal
    machinepal.Crypto.Encoding.to_hex machinepal.Crypto.Encoding.hash_to_hex
    machinepal.Crypto.Encoding.from_hex_to_hash machinepal.Crypto.Encoding.base64_encode
    machinepal.Crypto.Encoding.base64_decode machinepal.Crypto.Values.is_upper
    machinepal.Crypto.Values.is_lower machinepal.Crypto.Values.to_lower
    machinepal.Crypto.Values.is_xdigit machinepal.Crypto.Values.checksum_digit
    machinepal.Crypto.Values.checksum_digits machinepal.Crypto.Values.to_checksum_hex
    machinepal.Crypto.Values.address_to_hex machinepal.Crypto.Values.parse_hex_address
    machinepal.Crypto.Values.parse_flexible
    machinepal.Crypto.Values.token_amount_from_hex_or_decimal
    machinepal.Crypto.Values.validity_time_from_hex_or_decimal
    machinepal.Crypto.Values.token_amount_to_db_string machinepal.Crypto.Values.nonce_from_hex
    machinepal.Crypto.Values.signature_from_hex machinepal.Crypto.Domain.unique_payment_key
    machinepal.Crypto.Domain.pack_uint256
    machinepal.Crypto.Domain.hash_transfer_with_authorization_struct
    machinepal.Crypto.Domain.get_domain_type_hash machinepal.Crypto.Domain.hash_domain
    machinepal.Crypto.Domain.hash_with_domain machinepal.Crypto.Domain.eip712_verify_raw
    machinepal.Crypto.Domain.verify_with_domain
    machinepal.Crypto.Domain.verify_authorization_signature
    machinepal.Payment.Payload.Json.make_authorization
    machinepal.Payment.Payload.Json.authorization_from_json
    machinepal.Payment.Payload.Json.payload_from_json
    machinepal.Payment.Payload.Json.payment_payload_from_json
    machinepal.Payment.Payload.ToJson.authorization_to_json
    machinepal.Payment.Payload.ToJson.payload_to_json
    machinepal.Payment.Payload.ToJson.payment_payload_to_json
    machinepal.Payment.Payload.Validation.check_validity_time
    machinepal.Payment.Payload.Validation.validate
    machinepal.Payment.Payload.Validation.validate_and_verify_signature
    machinepal.Payment.Messages.must_contain_string
    machinepal.Payment.Messages.make_payment_requirements
    machinepal.Payment.Messages.payment_requirements_to_json
    machinepal.Payment.Messages.output_schema_of
    machinepal.Payment.Messages.payment_requirements_from_json
    machinepal.Payment.Messages.get_payment_required_response_as_string
    machinepal.Payment.Messages.settlement_request_to_json machinepal.Payment.Messages.present_at
    machinepal.Payment.Messages.settlement_request_from_json
    machinepal.Payment.Messages.settlement_response_to_json
    machinepal.Payment.Messages.make_settlement_response
    machinepal.Payment.Messages.get_error_settlement_response
    machinepal.Payment.Messages.error_reason_of
    machinepal.Payment.Messages.settlement_response_from_json_string
    machinepal.Payment.Messages.original_json_to_base64
    machinepal.Payment.Messages.verify_response_to_json machinepal.Payment.Manager.settlement_failed
    machinepal.Payment.Manager.being_processed machinepal.Payment.Manager.erase_key
    machinepal.Payment.Manager.decode_and_parse_payment machinepal.Payment.Manager.already_spent
    machinepal.Payment.Manager.lock_key machinepal.Payment.Manager.lock_payment_as_being_settled
    machinepal.Payment.Manager.unlock_payment_as_being_settled
    machinepal.Payment.Manager.check_against_already_settled_payments
    machinepal.Payment.Manager.record_successful_settlement
    machinepal.Payment.Manager.route_to_facilitator_and_settle
    machinepal.Payment.Manager.settlement_request_for machinepal.Payment.Manager.record_response
    machinepal.Payment.Manager.settle_new_payment
    machinepal.Payment.Manager.check_payment_is_new_and_settle_it_unsafe
    machinepal.Payment.Manager.settle_locked
    machinepal.Payment.Manager.check_payment_is_new_and_settle_it
    machinepal.Payment.Manager.settle_decoded
    machinepal.Payment.Manager.decode_pre_validate_and_settle_with_facilitator
    machinepal.Db.Payments.create_payment_record machinepal.Db.Payments.row_of
    machinepal.Db.Payments.payment_key machinepal.Db.Payments.write_payment
    machinepal.Db.Payments.payment_exists machinepal.Db.Payments.save_settled_payment
    machinepal.Db.Payments.settled_payment_exists machinepal.Tests.Demo.digits
    machinepal.Tests.Demo.encode_hex machinepal.Tests.Demo.decode_hex machinepal.Tests.Demo.at_key
    machinepal.Tests.Demo.tree_of machinepal.Tests.Demo.bytes machinepal.Tests.Demo.parse_demo
    machinepal.Tests.Demo.single machinepal.Tests.Demo.keccak_demo machinepal.Tests.Demo.first_bytes
    machinepal.Config.Resources.get_token_version machinepal.Config.Resources.get_token_address
    machinepal.Config.Resources.last_is machinepal.Config.Resources.drop_last
    machinepal.Config.Resources.match_string machinepal.Config.Resources.find_resource
    machinepal.Config.Resources.get_resource_by_path machinepal.Config.Resources.find_organization
    machinepal.Config.Resources.get_organization_by_subdomain_name
    machinepal.Config.Resources.index_organizations machinepal.Config.Resources.make_config
    machinepal.Platform.decimal_value_from machinepal.Facilitator.Errors.get_error_string
    machinepal.Facilitator.Errors.error_string_to_enum
    machinepal.Facilitator.Errors.get_error_from_string
    machinepal.Facilitator.Errors.get_error_description put
runs_demo = (
  (refl),
  (refl),
  (refl),
  (refl),
  (refl),
  (step (step (start []) (enter {s' = locked_demo} 0 payment_demo refl refl))
      (check {threads = one_thread} 0 payment_demo refl refl)),
)

validate_and_verify_signature_iff_example :
    (validate_and_verify_signature demo clock_demo config_demo 7 wallet (str "exact") payment_demo
      ≡ none)
    ↔ IsAcceptable demo clock_demo config_demo 7 wallet (str "exact") payment_demo
validate_and_verify_signature_iff_example =
    validate_and_verify_signature_iff demo clock_demo config_demo 7 wallet (str "exact")
      payment_demo

decode_pre_validate_and_settle_with_facilitator-settled_example :
    (pp : PaymentPayload) × (decode_and_parse_payment demo paying_request ≡ inl pp)
    × IsAcceptable demo clock_demo config_demo 7 wallet (str "exact") pp
    × HasGained (payment_key demo pp domain_demo) [] after_entry.payments
    × (after_entry.asked
        ≡ settlement_request_for demo context_demo config_demo resource_demo pp ∷ [])
decode_pre_validate_and_settle_with_facilitator-settled_example =
    decode_pre_validate_and_settle_with_facilitator-settled demo context_demo paying_request
      config_demo resource_demo organization_demo no_settlements after_entry
      (some authorization_demo) refusing_answer runs_demo.0

decode_pre_validate_and_settle_with_facilitator-keeps_example :
    ((a : Option Authorization) × (r : Settled) × ((decode_pre_validate_and_settle_with_facilitator
          demo context_demo paying_request config_demo resource_demo organization_demo
          no_settlements).0
        ≡ ok (a, r)))
    × (after_entry.currently_settling ≡ [])
    × (HasUniqueKeys [] → HasUniqueKeys after_entry.payments)
decode_pre_validate_and_settle_with_facilitator-keeps_example =
    decode_pre_validate_and_settle_with_facilitator-keeps demo context_demo paying_request
      config_demo resource_demo organization_demo no_settlements

settling-check_payment_is_new_and_settle_it_example :
    ((r : Settled) × (once.0 ≡ ok r)) × (once.1.currently_settling ≡ [])
settling-check_payment_is_new_and_settle_it_example =
    settling-check_payment_is_new_and_settle_it demo context_demo config_demo resource_demo
      organization_demo payment_demo [] no_settlements

check_payment_is_new_and_settle_it-Explains_example :
    Explains demo
      (payment_key demo payment_demo domain_demo)
      (settlement_request_for demo context_demo config_demo resource_demo payment_demo)
      no_settlements
      once.0
      once.1
check_payment_is_new_and_settle_it-Explains_example =
    check_payment_is_new_and_settle_it-Explains demo context_demo config_demo resource_demo
      organization_demo payment_demo [] no_settlements

check_payment_is_new_and_settle_it_ignores_success_example :
    (once.1
      ≡ (check_payment_is_new_and_settle_it demo accepting_context config_demo resource_demo
          organization_demo payment_demo [] no_settlements).1)
    × HasSameOutcome refusing_answer accepting_answer once.0
        (check_payment_is_new_and_settle_it demo accepting_context config_demo resource_demo
          organization_demo payment_demo [] no_settlements).0
check_payment_is_new_and_settle_it_ignores_success_example =
    check_payment_is_new_and_settle_it_ignores_success demo context_demo
      (λ request. ok (answer_tree true)) config_demo resource_demo organization_demo payment_demo []
      refusing_answer accepting_answer no_settlements runs_demo.1 runs_demo.2 refl

check_payment_is_new_and_settle_it-replay_example : Refuses demo once.1 (
    check_payment_is_new_and_settle_it demo context_demo config_demo resource_demo organization_demo
      payment_demo
      (str "1.1.1.1")
      once.1)
check_payment_is_new_and_settle_it-replay_example =
    check_payment_is_new_and_settle_it-replay demo context_demo context_demo config_demo
      resource_demo resource_demo organization_demo organization_demo payment_demo []
      (str "1.1.1.1") no_settlements once.1 refusing_answer [] runs_demo.3 runs_demo.4

Reachable-IsRaceFree_example : IsRaceFree demo context_demo config_demo world_demo
Reachable-IsRaceFree_example =
    Reachable-IsRaceFree demo context_demo config_demo world_demo runs_demo.5
