-- ===== src/Tests/Ledger.antt =====
-- The test network's ledger and its facilitator at concrete inputs.
use machinepal.Prelude.{
  ℕ, ◌+◌, ◌-◌, ◌<◌, ◌≤◌, ◌≡◌, ◌≢◌, refl, ap, Bool, true, false, Text, str, List, [], ◌∷◌, Option,
  none, some, if◌then◌else◌, text_eq, arith,
}
use machinepal.Result.{Result, ok, err}
use machinepal.Platform.{u256_mod, pos}
use machinepal.Facilitator.Errors.{FacilitatorError}
use machinepal.Crypto.Values.{EthAddress, address_to_hex, parse_flexible}
use machinepal.Payment.Manager.{settlement_request_for}
use machinepal.Payment.Messages.{SettlementRequest, settlement_request_from_json}
use machinepal.Db.EasyNet.Tables.{Tables, Statement, TransferRequest, TransactionRow}
use machinepal.Db.EasyNet.Operations.{process_transfer_request}
use machinepal.Db.EasyNet.Transferring.{transfer_value_unsafe}
use machinepal.Db.EasyNet.Rows.{IsLedger, supply, has_row}
use machinepal.Db.EasyNet.Balances.{balance}
use machinepal.Db.EasyNet.Transfer.{sender, receiver, asset, IsCovered}
use machinepal.Db.EasyNet.Conservation.{
  transfer_value_unsafe-balances, supply-transfer_value_unsafe,
}
use machinepal.Db.EasyNet.Failures.{transfer_value_unsafe-atomic}
use machinepal.Db.EasyNet.Funding.{process_transfer_request-IsLedger}
use machinepal.Facilitator.EasyNet.{process_settle_request}
use machinepal.Facilitator.EasyNet.Settling.{
  IsAuthorized, process_settle_request-IsAuthorized, process_settle_request-balances, payer_text,
  payee_text,
}
use machinepal.Facilitator.Processor.{
  is_post, is_json, settle_path, on_request_start, on_request_fully_received,
}
use machinepal.Facilitator.Processor.Reaching.{on_request_fully_received-IsAuthorized}
use machinepal.Tests.Demo.{demo, demo-IsDocumented, settlement_tree, Tree}
use machinepal.Tests.World.{
  context_demo, config_demo, resource_demo, payment_demo, ledger_demo, transfer_demo, easynet_demo,
  facilitator_demo, settling_request, payer,
}

abbrev works : Statement → Result (Unit {0})
works s = ok tt

-- The payer pays itself.
abbrev to_self : TransferRequest
to_self = record transfer_demo { to_address = payer }

some_ne_none {ℓ} : {A : Type ℓ} {a : A} → ◌≡◌ {A = Result (Option A)} (ok (some a)) (ok none) → ⊥
some_ne_none h = cc

abbrev too_much : TransferRequest
too_much = record transfer_demo { value = 11 }

cons_ne_nil {ℓ} : {A : Type ℓ} {x : A} {l : List A} → x ∷ l ≡ [] → ⊥
cons_ne_nil h = cc

-- The ledger is well formed, the first two transfers are covered, and the third fails.
demo_runs :
    (IsLedger demo ledger_demo.state)
    × (IsCovered demo transfer_demo ledger_demo)
    × (IsCovered demo to_self ledger_demo)
    × ((transfer_value_unsafe demo works too_much ledger_demo).0 ≢ ok none)
unfolding machinepal.Prelude.str machinepal.Prelude.text_eq machinepal.Prelude.starts_with
    machinepal.Prelude.contains_text machinepal.Prelude.is_empty
    machinepal.Crypto.Encoding.has_hex_prefix machinepal.Crypto.Encoding.drop_two
    machinepal.Crypto.Encoding.is_space machinepal.Crypto.Encoding.first_is
    machinepal.Crypto.Encoding.fold_bytes machinepal.Crypto.Encoding.zeros
    machinepal.Crypto.Encoding.pad32 machinepal.Crypto.Encoding.from_hex
    machinepal.Crypto.Encoding.u256_from_hex_or_decimal machinepal.Crypto.Encoding.u256_to_decimal
    machinepal.Crypto.Encoding.to_hex machinepal.Crypto.Encoding.hash_to_hex
    machinepal.Crypto.Encoding.from_hex_to_hash machinepal.Crypto.Encoding.base64_encode
    machinepal.Crypto.Encoding.base64_decode machinepal.Crypto.Values.is_upper
    machinepal.Crypto.Values.is_lower machinepal.Crypto.Values.to_lower
    machinepal.Crypto.Values.is_xdigit machinepal.Crypto.Values.checksum_digit
    machinepal.Crypto.Values.checksum_digits machinepal.Crypto.Values.to_checksum_hex
    machinepal.Crypto.Values.address_to_hex machinepal.Crypto.Values.parse_hex_address
    machinepal.Crypto.Values.parse_flexible
    machinepal.Crypto.Values.token_amount_from_hex_or_decimal
    machinepal.Crypto.Values.validity_time_from_hex_or_decimal
    machinepal.Crypto.Values.token_amount_to_db_string machinepal.Crypto.Values.nonce_from_hex
    machinepal.Crypto.Values.signature_from_hex machinepal.Db.EasyNet.Tables.select_value
    machinepal.Db.EasyNet.Tables.update_state machinepal.Db.EasyNet.Tables.insert_into_state
    machinepal.Db.EasyNet.Tables.insert_transaction
    machinepal.Db.EasyNet.Transferring.write_receiver_row
    machinepal.Db.EasyNet.Transferring.persist_transfer
    machinepal.Db.EasyNet.Transferring.begin_scope machinepal.Db.EasyNet.Transferring.execute
    machinepal.Db.EasyNet.Transferring.commit_scope
    machinepal.Db.EasyNet.Transferring.transfer_covered
    machinepal.Db.EasyNet.Transferring.transfer_in_transaction
    machinepal.Db.EasyNet.Transferring.transfer_value_unsafe
    machinepal.Db.EasyNet.Operations.fund_user_wallet_with_funds_if_new_wallet_unsafe
    machinepal.Db.EasyNet.Operations.process_transfer_request
    machinepal.Db.EasyNet.Operations.get_balance machinepal.Db.EasyNet.Operations.new_wallet_unsafe
    machinepal.Tests.Demo.digits machinepal.Tests.Demo.encode_hex machinepal.Tests.Demo.decode_hex
    machinepal.Tests.Demo.at_key machinepal.Tests.Demo.tree_of machinepal.Tests.Demo.bytes
    machinepal.Tests.Demo.parse_demo machinepal.Tests.Demo.single machinepal.Tests.Demo.keccak_demo
    machinepal.Tests.Demo.first_bytes machinepal.Platform.decimal_value_from
    machinepal.Db.EasyNet.Rows.supply
demo_runs = (
  (record { balances = ((10, omega arith, refl), tt); distinct = (refl, tt) }),
  (record { known = refl; funded = omega arith; fits = omega arith }),
  (record { known = refl; funded = omega arith; fits = omega arith }),
  (λ h. some_ne_none h),
)

abbrev got {ℓ} : {A : Type ℓ} → A → Result A → A
got other (ok a) = a
got other (err e) = other

-- What the settlement request says.
abbrev settled_request : SettlementRequest demo
settled_request =
    got (settlement_request_for demo context_demo config_demo resource_demo payment_demo)
      (settlement_request_from_json demo settlement_tree)

abbrev settled_asset : EthAddress
settled_asset = got [] (parse_flexible demo settled_request.payment_requirements.asset true)

-- The settlement moves money, and so does the request that asks for it.
facilitator_runs :
    ((process_settle_request demo easynet_demo settlement_tree ledger_demo).1 ≢ ledger_demo)
    × ((on_request_start demo settling_request facilitator_demo).0 ≡ ok tt)
    × ((on_request_fully_received demo easynet_demo
          (str "settle")
          (on_request_start demo settling_request facilitator_demo).1).1.tables
        ≢ ledger_demo)
    × (settlement_request_from_json demo settlement_tree ≡ ok settled_request)
    × (parse_flexible demo settled_request.payment_requirements.asset true ≡ ok settled_asset)
    × (has_row
          (payer_text demo settled_request)
          (address_to_hex demo settled_asset false)
          ledger_demo.state
        ≡ true)
unfolding machinepal.Prelude.str machinepal.Prelude.text_eq machinepal.Prelude.starts_with
    machinepal.Prelude.contains_text machinepal.Prelude.is_empty
    machinepal.Crypto.Encoding.has_hex_prefix machinepal.Crypto.Encoding.drop_two
    machinepal.Crypto.Encoding.is_space machinepal.Crypto.Encoding.first_is
    machinepal.Crypto.Encoding.fold_bytes machinepal.Crypto.Encoding.zeros
    machinepal.Crypto.Encoding.pad32 machinepal.Crypto.Encoding.from_hex
    machinepal.Crypto.Encoding.u256_from_hex_or_decimal machinepal.Crypto.Encoding.u256_to_decimal
    machinepal.Crypto.Encoding.to_hex machinepal.Crypto.Encoding.hash_to_hex
    machinepal.Crypto.Encoding.from_hex_to_hash machinepal.Crypto.Encoding.base64_encode
    machinepal.Crypto.Encoding.base64_decode machinepal.Crypto.Values.is_upper
    machinepal.Crypto.Values.is_lower machinepal.Crypto.Values.to_lower
    machinepal.Crypto.Values.is_xdigit machinepal.Crypto.Values.checksum_digit
    machinepal.Crypto.Values.checksum_digits machinepal.Crypto.Values.to_checksum_hex
    machinepal.Crypto.Values.address_to_hex machinepal.Crypto.Values.parse_hex_address
    machinepal.Crypto.Values.parse_flexible
    machinepal.Crypto.Values.token_amount_from_hex_or_decimal
    machinepal.Crypto.Values.validity_time_from_hex_or_decimal
    machinepal.Crypto.Values.token_amount_to_db_string machinepal.Crypto.Values.nonce_from_hex
    machinepal.Crypto.Values.signature_from_hex machinepal.Db.EasyNet.Tables.select_value
    machinepal.Db.EasyNet.Tables.update_state machinepal.Db.EasyNet.Tables.insert_into_state
    machinepal.Db.EasyNet.Tables.insert_transaction
    machinepal.Db.EasyNet.Transferring.write_receiver_row
    machinepal.Db.EasyNet.Transferring.persist_transfer
    machinepal.Db.EasyNet.Transferring.begin_scope machinepal.Db.EasyNet.Transferring.execute
    machinepal.Db.EasyNet.Transferring.commit_scope
    machinepal.Db.EasyNet.Transferring.transfer_covered
    machinepal.Db.EasyNet.Transferring.transfer_in_transaction
    machinepal.Db.EasyNet.Transferring.transfer_value_unsafe
    machinepal.Db.EasyNet.Operations.fund_user_wallet_with_funds_if_new_wallet_unsafe
    machinepal.Db.EasyNet.Operations.process_transfer_request
    machinepal.Db.EasyNet.Operations.get_balance machinepal.Db.EasyNet.Operations.new_wallet_unsafe
    machinepal.Tests.Demo.digits machinepal.Tests.Demo.encode_hex machinepal.Tests.Demo.decode_hex
    machinepal.Tests.Demo.at_key machinepal.Tests.Demo.tree_of machinepal.Tests.Demo.bytes
    machinepal.Tests.Demo.parse_demo machinepal.Tests.Demo.single machinepal.Tests.Demo.keccak_demo
    machinepal.Tests.Demo.first_bytes machinepal.Platform.decimal_value_from
    machinepal.Db.EasyNet.Rows.supply machinepal.Crypto.Domain.unique_payment_key
    machinepal.Crypto.Domain.pack_uint256
    machinepal.Crypto.Domain.hash_transfer_with_authorization_struct
    machinepal.Crypto.Domain.get_domain_type_hash machinepal.Crypto.Domain.hash_domain
    machinepal.Crypto.Domain.hash_with_domain machinepal.Crypto.Domain.eip712_verify_raw
    machinepal.Crypto.Domain.verify_with_domain
    machinepal.Crypto.Domain.verify_authorization_signature
    machinepal.Payment.Payload.Json.make_authorization
    machinepal.Payment.Payload.Json.authorization_from_json
    machinepal.Payment.Payload.Json.payload_from_json
    machinepal.Payment.Payload.Json.payment_payload_from_json
    machinepal.Payment.Payload.ToJson.authorization_to_json
    machinepal.Payment.Payload.ToJson.payload_to_json
    machinepal.Payment.Payload.ToJson.payment_payload_to_json
    machinepal.Payment.Payload.Validation.check_validity_time
    machinepal.Payment.Payload.Validation.validate
    machinepal.Payment.Payload.Validation.validate_and_verify_signature
    machinepal.Payment.Messages.must_contain_string
    machinepal.Payment.Messages.make_payment_requirements
    machinepal.Payment.Messages.payment_requirements_to_json
    machinepal.Payment.Messages.output_schema_of
    machinepal.Payment.Messages.payment_requirements_from_json
    machinepal.Payment.Messages.get_payment_required_response_as_string
    machinepal.Payment.Messages.settlement_request_to_json machinepal.Payment.Messages.present_at
    machinepal.Payment.Messages.settlement_request_from_json
    machinepal.Payment.Messages.settlement_response_to_json
    machinepal.Payment.Messages.make_settlement_response
    machinepal.Payment.Messages.get_error_settlement_response
    machinepal.Payment.Messages.error_reason_of
    machinepal.Payment.Messages.settlement_response_from_json_string
    machinepal.Payment.Messages.original_json_to_base64
    machinepal.Payment.Messages.verify_response_to_json
    machinepal.Facilitator.EasyNet.check_balances
    machinepal.Facilitator.EasyNet.process_verify_request_unsafe
    machinepal.Facilitator.EasyNet.settle_reply machinepal.Facilitator.EasyNet.transfer_request
    machinepal.Facilitator.EasyNet.settle_verified machinepal.Facilitator.EasyNet.settle_request
    machinepal.Facilitator.EasyNet.process_settle_request
    machinepal.Facilitator.EasyNet.verify_reply
    machinepal.Facilitator.EasyNet.process_verify_request
    machinepal.Facilitator.Errors.get_error_string
    machinepal.Facilitator.Errors.error_string_to_enum
    machinepal.Facilitator.Errors.get_error_from_string
    machinepal.Facilitator.Errors.get_error_description
    machinepal.Facilitator.Processor.easynet_facilitator_prefix
    machinepal.Facilitator.Processor.settle_path machinepal.Facilitator.Processor.verify_path
    machinepal.Facilitator.Processor.trim_left
    machinepal.Facilitator.Processor.reply_400_bad_request
    machinepal.Facilitator.Processor.reply_500_internal_error
    machinepal.Facilitator.Processor.reply_405_method_not_allowed
    machinepal.Facilitator.Processor.reply_413_payload_too_large
    machinepal.Facilitator.Processor.reply_415_unsupported_media_type
    machinepal.Facilitator.Processor.is_json machinepal.Facilitator.Processor.is_endpoint
    machinepal.Facilitator.Processor.request_start machinepal.Facilitator.Processor.on_request_start
    machinepal.Facilitator.Processor.on_body_size_increase
    machinepal.Facilitator.Processor.ask_facilitator machinepal.Facilitator.Processor.answer_json
    machinepal.Facilitator.Processor.request_fully_received
    machinepal.Facilitator.Processor.on_request_fully_received machinepal.Http.Channel.is_reply_sent
    machinepal.Http.Channel.send_response machinepal.Http.Channel.answer
    machinepal.Http.Channel.drop_sender machinepal.X402.Responses.get_application_json_headers
    machinepal.X402.Responses.plain_error_body machinepal.Config.Resources.get_token_version
    machinepal.Config.Resources.get_token_address machinepal.Config.Resources.last_is
    machinepal.Config.Resources.drop_last machinepal.Config.Resources.match_string
    machinepal.Config.Resources.find_resource machinepal.Config.Resources.get_resource_by_path
    machinepal.Config.Resources.find_organization
    machinepal.Config.Resources.get_organization_by_subdomain_name
    machinepal.Config.Resources.index_organizations machinepal.Config.Resources.make_config
facilitator_runs = (
  (λ h. cons_ne_nil (ap (λ t. t.transactions) h)),
  (refl),
  (λ h. cons_ne_nil (ap (λ t. t.transactions) h)),
  (refl),
  (refl),
  (refl),
)

transfer_value_unsafe-balances_example :
    ((transfer_value_unsafe demo works transfer_demo ledger_demo).0 ≡ ok none)
    × ((w : Text)
        → balance w
            (asset demo transfer_demo)
            (transfer_value_unsafe demo works transfer_demo ledger_demo).1.state
          ≡ (if text_eq (receiver demo transfer_demo) w
              then balance
                  (receiver demo transfer_demo)
                  (asset demo transfer_demo)
                  ledger_demo.state
                + 7
              else if text_eq (sender demo transfer_demo) w
              then balance (sender demo transfer_demo) (asset demo transfer_demo) ledger_demo.state
                - 7
              else balance w (asset demo transfer_demo) ledger_demo.state))
transfer_value_unsafe-balances_example =
    transfer_value_unsafe-balances demo works transfer_demo ledger_demo demo-IsDocumented
      (λ s. refl) demo_runs.0 demo_runs.1

supply-transfer_value_unsafe_example :
    supply (asset demo to_self) (transfer_value_unsafe demo works to_self ledger_demo).1.state ≡ (
      if text_eq (sender demo to_self) (receiver demo to_self)
      then supply (asset demo to_self) ledger_demo.state + 7
      else supply (asset demo to_self) ledger_demo.state)
supply-transfer_value_unsafe_example =
    supply-transfer_value_unsafe demo works to_self ledger_demo demo-IsDocumented (λ s. refl)
      demo_runs.0 demo_runs.2

transfer_value_unsafe-atomic_example :
    (transfer_value_unsafe demo works too_much ledger_demo).1 ≡ ledger_demo
transfer_value_unsafe-atomic_example =
    transfer_value_unsafe-atomic demo works too_much ledger_demo demo_runs.3

process_transfer_request-IsLedger_example :
    IsLedger demo (process_transfer_request demo works transfer_demo ledger_demo).1.state
process_transfer_request-IsLedger_example =
    process_transfer_request-IsLedger demo works transfer_demo ledger_demo demo-IsDocumented
      demo_runs.0

process_settle_request-balances_example :
    balance
      (payer_text demo settled_request)
      (address_to_hex demo settled_asset false)
      (process_settle_request demo easynet_demo settlement_tree ledger_demo).1.state
    ≡ (if text_eq (payee_text demo settled_request) (payer_text demo settled_request)
        then balance
            (payee_text demo settled_request)
            (address_to_hex demo settled_asset false)
            ledger_demo.state
          + settled_request.payment_payload.payload.authorization.value
        else if text_eq (payer_text demo settled_request) (payer_text demo settled_request)
        then balance
            (payer_text demo settled_request)
            (address_to_hex demo settled_asset false)
            ledger_demo.state
          - settled_request.payment_payload.payload.authorization.value
        else balance
            (payer_text demo settled_request)
            (address_to_hex demo settled_asset false)
            ledger_demo.state)
process_settle_request-balances_example =
    process_settle_request-balances demo easynet_demo settlement_tree ledger_demo settled_request
      settled_asset demo-IsDocumented (λ s. refl) demo_runs.0 facilitator_runs.3 facilitator_runs.4
      facilitator_runs.5 facilitator_runs.0 (payer_text demo settled_request)

process_settle_request-IsAuthorized_example : IsAuthorized demo easynet_demo settlement_tree
process_settle_request-IsAuthorized_example =
    process_settle_request-IsAuthorized demo easynet_demo settlement_tree ledger_demo
      facilitator_runs.0

on_request_fully_received-IsAuthorized_example :
    (is_post settling_request.method ≡ true)
    × (is_json demo settling_request ≡ true)
    × (settling_request.path ≡ settle_path)
    × ((j : Tree) × (demo.parse (str "settle") ≡ ok j) × IsAuthorized demo easynet_demo j)
on_request_fully_received-IsAuthorized_example =
    on_request_fully_received-IsAuthorized demo easynet_demo settling_request (str "settle")
      facilitator_demo facilitator_runs.1 facilitator_runs.2
