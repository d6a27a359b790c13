-- ===== src/Tests/Serving.antt =====
-- The processor of requests, its backend and the handler at concrete inputs.
use mathlib.Core.List.{Memᴰ}
use machinepal.Prelude.{
  ℕ, ◌<◌, ◌≤◌, ◌≡◌, ◌≢◌, ◌⊎◌, refl, Bool, true, false, Text, str, List, [], ◌∷◌, ◌++◌, All, Option,
  none, some, length, arith,
}
use machinepal.Result.{Result, ok, err}
use machinepal.Http.{HttpMethod, get, trace, other, HttpResponse}
use machinepal.X402.Backend.{
  BackendReply, do_request, is_blocked, create_curl_headers_from_proxygen_headers,
}
use machinepal.X402.Backend.Forwarding.{
  IsEndToEnd, IsForwarded, create_curl_headers_from_proxygen_headers_iff, do_request-no_error,
}
use machinepal.X402.Processor.{on_request_fully_received}
use machinepal.X402.Processor.Events.{
  Event, request_started, body_grew, fully_received, connection_lost, handle_all,
  handle_all-at_most_one,
}
use machinepal.X402.Processor.Paid.{IsPaid, on_request_fully_received-IsPaid}
use machinepal.Server.Handler.{Handler}
use machinepal.Server.Handler.Bounds.{
  Callback, request_came, body_came, end_came, call_all, IsSmall, call_all-IsSmall,
}
use machinepal.Server.Handler.Processors.{x402_processor}
use machinepal.Tests.Demo.{demo}
use machinepal.Tests.World.{
  env_demo, curl_demo, state_demo, paying_request, organization_demo, resource_demo, no_settlements,
}

abbrev sold : HttpResponse demo
sold = record {
  status = 200;
  reason = [];
  headers = (str "X-PAYMENT-RESPONSE", str "answer") ∷ (str "a", str " b") ∷ [];
  body = str "B";
}

named :
    machinepal.Config.Resources.get_resource_by_path organization_demo (str "/r")
    ≡ some resource_demo
unfolding str machinepal.Config.Resources.get_resource_by_path
    machinepal.Config.Resources.match_string machinepal.Config.Resources.last_is
    machinepal.Config.Resources.find_resource machinepal.Prelude.text_eq
named = refl

abbrev events_demo : List (Event demo)
events_demo =
    request_started paying_request
    ∷ body_grew 5
    ∷ fully_received paying_request []
    ∷ fully_received paying_request []
    ∷ connection_lost
    ∷ []

abbrev handler_demo : Handler (x402_processor demo env_demo)
handler_demo = record {
  terminated = false;
  internal_error_sent = false;
  internal_errors = 0;
  body_buffer = [];
  processor = state_demo;
  received = [];
}

abbrev callbacks_demo : List (Callback demo)
callbacks_demo =
    request_came paying_request
    ∷ body_came (some (str "ab"))
    ∷ body_came none
    ∷ end_came paying_request
    ∷ []

abbrev reply_demo : BackendReply demo
reply_demo = record {
  http_status_code = 200;
  response_headers = (str "a", str " b") ∷ [];
  response_body = str "B";
}

-- What the processor sells, and what the backend answers.
serving_runs :
    ((on_request_fully_received demo env_demo paying_request [] state_demo).1.channel.handed
      ≡ sold ∷ [])
    × (do_request demo curl_demo (str "http://b/r") get paying_request.headers []
        ≡ ok (none, reply_demo))
unfolding machinepal.Prelude.str machinepal.Prelude.text_eq machinepal.Prelude.starts_with
    machinepal.Prelude.is_empty machinepal.Result.what machinepal.Crypto.Encoding.has_hex_prefix
    machinepal.Crypto.Encoding.drop_two machinepal.Crypto.Encoding.is_space
    machinepal.Crypto.Encoding.first_is machinepal.Crypto.Encoding.fold_bytes
    machinepal.Crypto.Encoding.zeros machinepal.Crypto.Encoding.pad32
    machinepal.Crypto.Encoding.from_hex machinepal.Crypto.Encoding.u256_from_hex_or_decimal
    machinepal.Crypto.Encoding.u256_to_decimal machinepal.Crypto.Encoding.to_hex
    machinepal.Crypto.Encoding.hash_to_hex machinepal.Crypto.Encoding.from_hex_to_hash
    machinepal.Crypto.Encoding.base64_encode machinepal.Crypto.Encoding.base64_decode
    machinepal.Crypto.Values.is_upper machinepal.Crypto.Values.is_lower
    machinepal.Crypto.Values.to_lower machinepal.Crypto.Values.is_xdigit
    machinepal.Crypto.Values.checksum_digit machinepal.Crypto.Values.checksum_digits
    machinepal.Crypto.Values.to_checksum_hex machinepal.Crypto.Values.address_to_hex
    machinepal.Crypto.Values.parse_hex_address machinepal.Crypto.Values.parse_flexible
    machinepal.Crypto.Values.token_amount_from_hex_or_decimal
    machinepal.Crypto.Values.validity_time_from_hex_or_decimal
    machinepal.Crypto.Values.token_amount_to_db_string machinepal.Crypto.Values.nonce_from_hex
    machinepal.Crypto.Values.signature_from_hex machinepal.Crypto.Domain.unique_payment_key
    machinepal.Crypto.Domain.pack_uint256
    machinepal.Crypto.Domain.hash_transfer_with_authorization_struct
    machinepal.Crypto.Domain.get_domain_type_hash machinepal.Crypto.Domain.hash_domain
    machinepal.Crypto.Domain.hash_with_domain machinepal.Crypto.Domain.eip712_verify_raw
    machinepal.Crypto.Domain.verify_with_domain
    machinepal.Crypto.Domain.verify_authorization_signature
    machinepal.Payment.Payload.Json.make_authorization
    machinepal.Payment.Payload.Json.authorization_from_json
    machinepal.Payment.Payload.Json.payload_from_json
    machinepal.Payment.Payload.Json.payment_payload_from_json
    machinepal.Payment.Payload.ToJson.authorization_to_json
    machinepal.Payment.Payload.ToJson.payload_to_json
    machinepal.Payment.Payload.ToJson.payment_payload_to_json
    machinepal.Payment.Payload.Validation.check_validity_time
    machinepal.Payment.Payload.Validation.validate
    machinepal.Payment.Payload.Validation.validate_and_verify_signature
    machinepal.Payment.Messages.must_contain_string
    machinepal.Payment.Messages.make_payment_requirements
    machinepal.Payment.Messages.payment_requirements_to_json
    machinepal.Payment.Messages.output_schema_of
    machinepal.Payment.Messages.payment_requirements_from_json
    machinepal.Payment.Messages.get_payment_required_response_as_string
    machinepal.Payment.Messages.settlement_request_to_json machinepal.Payment.Messages.present_at
    machinepal.Payment.Messages.settlement_request_from_json
    machinepal.Payment.Messages.settlement_response_to_json
    machinepal.Payment.Messages.make_settlement_response
    machinepal.Payment.Messages.get_error_settlement_response
    machinepal.Payment.Messages.error_reason_of
    machinepal.Payment.Messages.settlement_response_from_json_string
    machinepal.Payment.Messages.original_json_to_base64
    machinepal.Payment.Messages.verify_response_to_json machinepal.Payment.Manager.settlement_failed
    machinepal.Payment.Manager.being_processed machinepal.Payment.Manager.erase_key
    machinepal.Payment.Manager.decode_and_parse_payment machinepal.Payment.Manager.already_spent
    machinepal.Payment.Manager.lock_key machinepal.Payment.Manager.lock_payment_as_being_settled
    machinepal.Payment.Manager.unlock_payment_as_being_settled
    machinepal.Payment.Manager.check_against_already_settled_payments
    machinepal.Payment.Manager.record_successful_settlement
    machinepal.Payment.Manager.route_to_facilitator_and_settle
    machinepal.Payment.Manager.settlement_request_for machinepal.Payment.Manager.record_response
    machinepal.Payment.Manager.settle_new_payment
    machinepal.Payment.Manager.check_payment_is_new_and_settle_it_unsafe
    machinepal.Payment.Manager.settle_locked
    machinepal.Payment.Manager.check_payment_is_new_and_settle_it
    machinepal.Payment.Manager.settle_decoded
    machinepal.Payment.Manager.decode_pre_validate_and_settle_with_facilitator
    machinepal.Db.Payments.create_payment_record machinepal.Db.Payments.row_of
    machinepal.Db.Payments.payment_key machinepal.Db.Payments.write_payment
    machinepal.Db.Payments.payment_exists machinepal.Db.Payments.save_settled_payment
    machinepal.Db.Payments.settled_payment_exists machinepal.Tests.Demo.digits
    machinepal.Tests.Demo.encode_hex machinepal.Tests.Demo.decode_hex machinepal.Tests.Demo.at_key
    machinepal.Tests.Demo.tree_of machinepal.Tests.Demo.bytes machinepal.Tests.Demo.parse_demo
    machinepal.Tests.Demo.single machinepal.Tests.Demo.keccak_demo machinepal.Tests.Demo.first_bytes
    machinepal.Config.Resources.get_token_version machinepal.Config.Resources.get_token_address
    machinepal.Config.Resources.last_is machinepal.Config.Resources.drop_last
    machinepal.Config.Resources.match_string machinepal.Config.Resources.find_resource
    machinepal.Config.Resources.get_resource_by_path machinepal.Config.Resources.find_organization
    machinepal.Config.Resources.get_organization_by_subdomain_name
    machinepal.Config.Resources.index_organizations machinepal.Config.Resources.make_config
    machinepal.Platform.decimal_value_from machinepal.Facilitator.Errors.get_error_string
    machinepal.Facilitator.Errors.error_string_to_enum
    machinepal.Facilitator.Errors.get_error_from_string
    machinepal.Facilitator.Errors.get_error_description
    machinepal.X402.Responses.get_application_json_headers
    machinepal.X402.Responses.plain_error_body machinepal.X402.Responses.get_json_error_body
    machinepal.X402.Responses.reply_400_bad_request
    machinepal.X402.Responses.reply_404_resource_not_found
    machinepal.X402.Responses.reply_500_internal_error
    machinepal.X402.Responses.reply_502_bad_gateway
    machinepal.X402.Responses.reply_generic_http_error
    machinepal.X402.Responses.reply_pass_through_error
    machinepal.X402.Responses.reply_x402_resource_success
    machinepal.X402.Responses.reply_402_payment_required
    machinepal.X402.Responses.reply_402_if_no_payment_header
    machinepal.X402.Responses.send_settlement_error_response
    machinepal.X402.Processor.validate_and_extract_sub_domain_name
    machinepal.X402.Processor.validate_and_decode_path machinepal.X402.Processor.unknown_subdomain
    machinepal.X402.Processor.match_organization machinepal.X402.Processor.validate_method
    machinepal.X402.Processor.request_start machinepal.X402.Processor.on_request_start
    machinepal.X402.Processor.pass_through machinepal.X402.Processor.do_pass_through
    machinepal.X402.Processor.handle_pass_throw_or_error_on_no_resource_match
    machinepal.X402.Processor.serve_settled machinepal.X402.Processor.serve_resource
    machinepal.X402.Processor.request_fully_received
    machinepal.X402.Processor.on_request_fully_received machinepal.X402.Processor.body_too_large
    machinepal.X402.Processor.on_body_size_increase machinepal.X402.Backend.blocked_headers
    machinepal.X402.Backend.split_colon machinepal.X402.Backend.get_error_message
    machinepal.X402.Backend.is_blocked
    machinepal.X402.Backend.create_curl_headers_from_proxygen_headers
    machinepal.X402.Backend.header_callback machinepal.X402.Backend.execute_curl_request
    machinepal.X402.Backend.do_head_request machinepal.X402.Backend.do_request
    machinepal.X402.Host.take_text machinepal.X402.Host.drop_text machinepal.X402.Host.ends_with
    machinepal.X402.Host.before_last_colon machinepal.X402.Host.not_an_ip_address
    machinepal.X402.Host.not_an_ip_address_either machinepal.X402.Host.match_host_name
    machinepal.X402.Host.extract_sub_domain_name machinepal.Url.drop_first
    machinepal.Url.get_location_from_url machinepal.Url.is_ip_address machinepal.Url.is_domain_name
    machinepal.Url.is_valid_url machinepal.Url.decode_path machinepal.Http.Channel.is_reply_sent
    machinepal.Http.Channel.send_response machinepal.Http.Channel.answer
    machinepal.Http.Channel.drop_sender machinepal.X402.Processor.Events.handle
    machinepal.X402.Processor.Events.handle_all
serving_runs = ((refl), (refl))

on_request_fully_received-IsPaid_example :
    IsPaid demo env_demo resource_demo paying_request no_settlements
      (on_request_fully_received demo env_demo paying_request [] state_demo).1.settlements
on_request_fully_received-IsPaid_example =
    on_request_fully_received-IsPaid demo env_demo paying_request [] state_demo organization_demo
      resource_demo sold refl named serving_runs.0 (omega arith)

handle_all-at_most_one_example :
    length (handle_all demo env_demo events_demo state_demo).channel.handed ≤ 1
handle_all-at_most_one_example = handle_all-at_most_one demo env_demo events_demo state_demo refl

call_all-IsSmall_example :
    All
      (IsSmall (x402_processor demo env_demo))
      (call_all (x402_processor demo env_demo) callbacks_demo handler_demo).received
call_all-IsSmall_example =
    call_all-IsSmall (x402_processor demo env_demo) callbacks_demo handler_demo refl refl

do_request-no_error_example :
    (reply_demo.http_status_code < 400 ⊎ (reply_demo.http_status_code ≡ 402))
    × (get ≢ trace)
    × (get ≢ other)
do_request-no_error_example =
    do_request-no_error demo curl_demo (str "http://b/r") get paying_request.headers [] reply_demo
      serving_runs.1

create_curl_headers_from_proxygen_headers_iff_example :
    (Memᴰ
        (str "X-PAYMENT: pay")
        (create_curl_headers_from_proxygen_headers demo curl_demo paying_request.headers)
      → IsForwarded demo curl_demo (str "X-PAYMENT: pay") paying_request.headers)
    × ((name value : Text)
        → Memᴰ (name, value) paying_request.headers
        → IsEndToEnd (curl_demo.to_lower_ascii name)
        → Memᴰ
            (name ++ (str ": " ++ value))
            (create_curl_headers_from_proxygen_headers demo curl_demo paying_request.headers))
create_curl_headers_from_proxygen_headers_iff_example =
    create_curl_headers_from_proxygen_headers_iff demo curl_demo paying_request.headers
      (str "X-PAYMENT: pay")
