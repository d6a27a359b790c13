-- ===== src/Tests/Asking.antt =====
-- A facilitator's client over a concrete transfer.
use machinepal.Prelude.{ℕ, ◌↔◌, ◌≡◌, refl, true, false, Text, str, [], ◌∷◌, text_eq, is_empty}
use machinepal.Result.{ok, err, unauthorized_exception, verification_error, backend_exception}
use machinepal.Platform.{pos}
use machinepal.X402.Backend.{curle_ok}
use machinepal.Config.Resources.{last_is}
use machinepal.Payment.Messages.{
  SettlementRequest, settlement_request_to_json, settlement_response_from_json_string,
  error_reason_of,
}
use machinepal.Payment.Manager.{Context, route_to_facilitator_and_settle, settlement_request_for}
use machinepal.Facilitator.Client.{
  FacilitatorClient, PostCurl, make_easynet_facilitator_client, join_url, write_chunks,
  do_request_response, read_response, check_for_generic_http_error, exception_for_code,
  error_explanation_for_user, settle, make_facilitator_client, extract_cb_invalid_reason,
}
use machinepal.Facilitator.Client.Answers.{
  HasAnswer, do_request_response_iff, route_to_facilitator_and_settle-HasAnswer,
}
use machinepal.Tests.Demo.{demo, Tree, answer_tree, parse_demo, at_key, tree_of}
use machinepal.Tests.World.{context_demo, no_settlements, payment_demo, config_demo, resource_demo}
use machinepal.Tests.Paying.{refusing_answer}

-- Answers of one status; a 200 has the answer of a facilitator in two chunks.
abbrev curl_demo : ℕ → PostCurl
curl_demo code = record {
  can_init = true;
  perform =
      λ t. record { result = curle_ok; response_code = code; chunks = str "ans" ∷ str "wer" ∷ [] };
  connect = λ t. curle_ok;
  strerror = λ c. [];
}

abbrev client_demo : FacilitatorClient
client_demo = record {
  base_url = str "http://f/";
  auth_header_value = [];
  connect_timeout_ms = pos 5000;
  total_timeout_ms = pos 15000;
  proxy_url = [];
  extra_headers = [];
  verify_tls_certs = false;
}

client_runs :
    (make_easynet_facilitator_client (str "http://f/") ≡ ok client_demo)
    × (do_request_response demo (curl_demo 200) client_demo (str "/settle") (answer_tree true)
        ≡ ok (answer_tree false))
    × (do_request_response demo (curl_demo 401) client_demo (str "/settle") (answer_tree true)
        ≡ err (backend_exception unauthorized_exception (str "Unauthorized")))
    × (do_request_response demo (curl_demo 400) client_demo (str "/settle") (answer_tree true)
        ≡ err (backend_exception verification_error (str "Bad Request:")))
    × (join_url (str "http://f/") (str "/settle") ≡ str "http://f/settle")
unfolding make_easynet_facilitator_client make_facilitator_client do_request_response read_response
    check_for_generic_http_error exception_for_code error_explanation_for_user join_url last_is
    write_chunks str is_empty parse_demo text_eq extract_cb_invalid_reason at_key tree_of
client_runs = (refl, refl, refl, refl, refl)

-- The manager's context with that client.
abbrev asking_context : Context demo
asking_context = record context_demo {
  settle = λ r. settle demo (curl_demo 200) client_demo (settlement_request_to_json demo r);
}

abbrev request_demo : SettlementRequest demo
request_demo = settlement_request_for demo asking_context config_demo resource_demo payment_demo

do_request_response_iff_example :
    (do_request_response demo (curl_demo 200) client_demo (str "/settle") (answer_tree true)
      ≡ ok (answer_tree false))
    ↔ HasAnswer demo
        (curl_demo 200)
        client_demo
        (str "/settle")
        (answer_tree true)
        (answer_tree false)
do_request_response_iff_example =
    do_request_response_iff demo (curl_demo 200) client_demo (str "/settle") (answer_tree true)
      (answer_tree false)

asked :
    route_to_facilitator_and_settle demo asking_context request_demo no_settlements
    ≡ (ok refusing_answer, record no_settlements { asked = request_demo ∷ [] })
unfolding route_to_facilitator_and_settle settle settlement_response_from_json_string
    do_request_response read_response check_for_generic_http_error join_url last_is write_chunks str
    is_empty parse_demo text_eq at_key tree_of error_reason_of
asked = refl

route_to_facilitator_and_settle-HasAnswer_example :
    (j : Tree) × (text : Text) × HasAnswer demo
      (curl_demo 200)
      client_demo
      (str "/settle")
      (settlement_request_to_json demo request_demo)
      j
    × (demo.dump j ≡ ok text)
    × (settlement_response_from_json_string demo text ≡ ok refusing_answer)
route_to_facilitator_and_settle-HasAnswer_example =
    route_to_facilitator_and_settle-HasAnswer demo (curl_demo 200) asking_context client_demo
      request_demo no_settlements (record no_settlements { asked = request_demo ∷ [] })
      refusing_answer (λ r. refl) asked
