-- ===== src/Facilitator/Client.antt =====
-- src/facilitator_clients: FacilitatorClient over libcurl, CBFacilitatorClient and
-- EasyNetFacilitatorClient.
pub mod Answers
pub mod Joining
use machinepal.Prelude.{
  ℕ, zero, suc, ◌+◌, ◌-◌, ◌/◌, ◌%◌, Bool, true, false, ◌&&◌, ◌||◌, not, Text, str, List, [], ◌∷◌,
  ◌++◌, ltb, leb, ◌==◌, if◌then◌else◌, is_empty, Option, none, some,
}
use machinepal.Result.{
  Result, ok, err, Exception, runtime_error, logic_error, backend_exception, BackendException,
  bad_gateway_exception, forbidden_exception, gateway_timeout_exception, not_found_exception,
  service_unavailable_exception, too_many_requests_exception, unauthorized_exception,
  unknown_server_error_exception, verification_error, what, catch, check_state, ◌>>=◌, ◌>>◌,
}
use machinepal.Platform.{Platform, ℤ, pos}
use machinepal.Config.Resources.{last_is}
use machinepal.X402.Backend.{CurlCode, curle_ok, curle_other}

pub record FacilitatorClient : Type 0 where
  pub base_url : Text
  pub auth_header_value : Text
  pub connect_timeout_ms : ℤ
  pub total_timeout_ms : ℤ
  pub proxy_url : Text
  pub extra_headers : List Text
  -- verifyTLSCerts(), which EasyNetFacilitatorClient overrides
  pub verify_tls_certs : Bool

-- What a handle is told before a transfer of a POST.
pub record PostTransfer : Type 0 where
  pub url : Text
  pub headers : List Text
  pub post_fields : Text
  pub user_agent : Text
  pub connect_timeout_ms : ℤ
  pub timeout_ms : ℤ
  pub follow_location : Bool
  pub proxy : Option Text
  pub verify_peer_and_host : Bool

-- What a handle is told before a connection without a request.
pub record ConnectOnly : Type 0 where
  pub url : Text
  pub connect_timeout_ms : ℤ
  pub timeout_ms : ℤ
  pub verify_peer_and_host : Bool

-- What a transfer did: the chunks are those that the write callback was given.
pub record PostTransferred : Type 0 where
  pub result : CurlCode
  pub response_code : ℕ
  pub chunks : List Text

-- libcurl
pub record PostCurl : Type 0 where
  pub can_init : Bool
  pub perform : PostTransfer → PostTransferred
  pub connect : ConnectOnly → CurlCode
  pub strerror : CurlCode → Text

abbrev digits_from : ℕ → ℕ → Text → Text
digits_from zero n rest = rest
digits_from (suc fuel) n rest =
    let more = digits_from fuel (n / 10) ((48 + n % 10) ∷ rest) in
    if ltb n 10 then (48 + n) ∷ rest else more

-- std::to_string
abbrev pub to_string : ℕ → Text
to_string n = digits_from (suc n) n []

-- a ≤ b and 0 < a on long
abbrev le_long : ℤ → ℤ → Bool
le_long (pos a) (pos b) = leb a b
le_long (pos a) (ℤ.negsuc b) = false
le_long (ℤ.negsuc a) (pos b) = true
le_long (ℤ.negsuc a) (ℤ.negsuc b) = leb b a

abbrev is_positive : ℤ → Bool
is_positive (pos a) = ltb 0 a
is_positive (ℤ.negsuc a) = false

unfoldable pub make_facilitator_client : Text → Text → ℤ → ℤ → Result FacilitatorClient
make_facilitator_client base_url auth connect_timeout_ms total_timeout_ms = do
  check_state (is_positive connect_timeout_ms) (str "connectTimeoutMs_ > 0")
  check_state (is_positive total_timeout_ms) (str "totalTimeoutMs > 0")
  check_state (le_long connect_timeout_ms total_timeout_ms)
      (str "totalTimeoutMs_ >= connectTimeoutMs_")
  ok (record {
    base_url = base_url;
    auth_header_value = auth;
    connect_timeout_ms = connect_timeout_ms;
    total_timeout_ms = total_timeout_ms;
    proxy_url = [];
    extra_headers = [];
    verify_tls_certs = true;
  })

unfoldable pub make_easynet_facilitator_client : Text → Result FacilitatorClient
make_easynet_facilitator_client base_url = do
  client ← make_facilitator_client base_url [] (pos 5000) (pos 15000)
  ok (record client { verify_tls_certs = false })

unfoldable pub join_url : Text → Text → Text
join_url [] path = path
join_url (b ∷ base) [] = b ∷ base
join_url (b ∷ base) (c ∷ path) =
    let base_slash = last_is b'/' (b ∷ base) in
    let path_slash = c == b'/' in
    if base_slash && path_slash
    then (b ∷ base) ++ path
    else if not base_slash && not path_slash
    then (b ∷ base) ++ (str "/" ++ (c ∷ path))
    else (b ∷ base) ++ (c ∷ path)

-- writeCallback, over all the chunks of a response.
unfoldable pub write_chunks : List Text → Text → Text
write_chunks [] buf = buf
write_chunks (chunk ∷ chunks) buf = write_chunks chunks (buf ++ chunk)

unfoldable pub error_explanation_for_user : ℕ → Text → Text
error_explanation_for_user http_code invalid_reason =
    if http_code == 400
    then str "Bad Request" ++ (str ":" ++ invalid_reason)
    else if http_code == 401
    then str "Unauthorized"
    else if http_code == 403
    then str "Forbidden"
    else if http_code == 404
    then str "Not Found"
    else if http_code == 429
    then str "Too Many Requests"
    else if http_code == 500
    then str "Internal Server Error"
    else if http_code == 502
    then str "Bad Gateway"
    else if http_code == 503
    then str "Service Unavailable"
    else if http_code == 504
    then str "Gateway Timeout"
    else str "Unknown Error"

unfoldable pub exception_for_code : ℕ → BackendException
exception_for_code http_code =
    if http_code == 401
    then unauthorized_exception
    else if http_code == 403
    then forbidden_exception
    else if http_code == 404
    then not_found_exception
    else if http_code == 429
    then too_many_requests_exception
    else if http_code == 500
    then unknown_server_error_exception
    else if http_code == 502
    then bad_gateway_exception
    else if http_code == 503
    then service_unavailable_exception
    else if http_code == 504
    then gateway_timeout_exception
    else unknown_server_error_exception

-- What selfTest writes to the log of the service's health.
pub data HealthEntry : Type 0 where
  health_info : Text → HealthEntry
  health_critical : Text → CurlCode → Text → HealthEntry

abbrev test_entries : Text → CurlCode → (CurlCode → Text) → List HealthEntry
test_entries test_url curle_ok strerror =
    health_info (str "Facilitator Connection Test successful.") ∷ []
test_entries test_url code strerror = health_critical test_url code (strerror code) ∷ []

-- VERIFY_PAYLOAD_EXAMPLE
unfoldable pub verify_payload_example : Text
verify_payload_example =
    str
      "\n{\n    \"x402Version\": 1,\n    \"paymentPayload\": {\n        \"x402Version\": 1,\n        \"scheme\": \"exact\",\n        \"network\": \"base-sepolia\",\n        \"payload\": {\n            \"signature\": \"0xdeadbeefdeadbeefdeadbeefdeadbeefdeadbeefdeadbeefdeadbeefdeadbeefdeadbeef1b\",\n            \"authorization\": {\n                \"from\": \"0x1111111111111111111111111111111111111111\",\n                \"to\": \"0x2222222222222222222222222222222222222222\",\n                \"value\": \"1000\",\n                \"validAfter\": \"1716150000\",\n                \"validBefore\": \"1716153600\",\n                \"nonce\": \"0x1234567890abcdef\"\n            }\n        }\n    },\n    \"paymentRequirements\": {\n        \"scheme\": \"exact\",\n        \"network\": \"base-sepolia\",\n        \"maxAmountRequired\": \"1000\",\n        \"resource\": \"https://api.example.com/premium/data\",\n        \"description\": \"Test API data\",\n        \"mimeType\": \"application/json\",\n        \"payTo\": \"0x2222222222222222222222222222222222222222\",\n        \"maxTimeoutSeconds\": 10,\n        \"asset\": \"0x036CbD53842c5426634e7929541eC2318f3dCF7e\"\n    }\n}\n"

abbrev authorization_header : Text → List Text
authorization_header [] = []
authorization_header (c ∷ value) = (str "Authorization: " ++ (c ∷ value)) ∷ []

abbrev proxy_of : Text → Option Text
proxy_of [] = none
proxy_of (c ∷ url) = some (c ∷ url)

abbrev pub post_transfer : FacilitatorClient → Text → Text → PostTransfer
post_transfer client url payload = record {
  url = url;
  headers =
      str "Content-Type: application/json"
      ∷ (authorization_header client.auth_header_value ++ client.extra_headers);
  post_fields = payload;
  user_agent = str "MachinePal/1.0";
  connect_timeout_ms = client.connect_timeout_ms;
  timeout_ms = client.total_timeout_ms;
  follow_location = true;
  proxy = proxy_of client.proxy_url;
  verify_peer_and_host = client.verify_tls_certs;
}

abbrev pub init_easy : Bool → Text → Result (Unit {0})
init_easy true m = ok tt
init_easy false m = err (runtime_error m)

module _ (p : Platform) where
  abbrev reason_of : p.Json → Result Text
  reason_of j =
      if p.contains j (str "reason")
      then (do
        reason ← p.at j (str "reason")
        if p.is_string reason then p.get_string reason else ok [])
      else ok []

  unfoldable pub extract_cb_invalid_reason : Text → Text
  extract_cb_invalid_reason response_data = catch (p.parse response_data >>= reason_of) (λ e. [])

  -- The text that is logged before the throw is left out.
  unfoldable pub check_for_generic_http_error : Text → ℕ → Result (Unit {0})
  check_for_generic_http_error response_data http_code =
      if ltb http_code 200 || leb 300 http_code
      then err (
          backend_exception (exception_for_code http_code)
            (error_explanation_for_user http_code (extract_cb_invalid_reason response_data)))
      else ok tt

  abbrev pub check_bad_request : Text → ℕ → Result (Unit {0})
  check_bad_request response_data http_code =
      if http_code == 400
      then err (
          backend_exception verification_error
            (str "Bad Request" ++ (str ":" ++ extract_cb_invalid_reason response_data)))
      else ok tt

  abbrev pub check_not_empty : Text → Text → ℕ → Result (Unit {0})
  check_not_empty url response_data http_code =
      if is_empty response_data
      then err (
          runtime_error (
            str "HTTP server at "
            ++ (url
                ++ (str " returned empty response (HTTP " ++ (to_string http_code ++ str ")")))))
      else ok tt

  abbrev pub parse_response : Text → Text → ℕ → Result p.Json
  parse_response url response_data http_code = elim (p.parse response_data) [
    | ok j ↦ ok j
    | err e ↦ err (
        runtime_error (
          str "Failed to parse JSON (HTTP "
          ++ (to_string http_code
              ++ (str ") from "
                  ++ (url ++ (str ": " ++ (what e ++ (str " | Raw: " ++ response_data))))))))
  ]

module _ (p : Platform) (curl : PostCurl) where
  abbrev pub check_curl_code : CurlCode → Result (Unit {0})
  check_curl_code curle_ok = ok tt
  check_curl_code code = err (runtime_error (str "CURL error: " ++ curl.strerror code))

  -- What is made of a response.
  unfoldable pub read_response : Text → PostTransferred → Result p.Json
  read_response url t = do
    let response_data = write_chunks t.chunks []
    check_curl_code t.result
    check_bad_request p response_data t.response_code
    check_for_generic_http_error p response_data t.response_code
    check_not_empty p url response_data t.response_code
    parse_response p url response_data t.response_code

  unfoldable pub do_request_response : FacilitatorClient → Text → p.Json → Result p.Json
  do_request_response client path body = do
    let url = join_url client.base_url path
    payload ← p.dump body
    init_easy curl.can_init (str "Failed to init CURL easy handle")
    read_response url (curl.perform (post_transfer client url payload))

  unfoldable pub verify : FacilitatorClient → p.Json → Result p.Json
  verify client request = do_request_response client (str "/verify") request

  unfoldable pub settle : FacilitatorClient → p.Json → Result p.Json
  settle client request = do_request_response client (str "/settle") request

  -- CBFacilitatorClient's verify, settle and postJson do not read what they are given.
  unfoldable pub cb_post_json : FacilitatorClient → Text → p.Json → Result p.Json
  cb_post_json client path request = do
    example ← p.parse verify_payload_example
    do_request_response client path example

  unfoldable pub cb_verify : FacilitatorClient → p.Json → Result p.Json
  cb_verify client request = do
    example ← p.parse verify_payload_example
    do_request_response client (str "/verify") example

  unfoldable pub cb_settle : FacilitatorClient → p.Json → Result p.Json
  cb_settle client request = do
    example ← p.parse verify_payload_example
    do_request_response client (str "/settle") example

  -- The entries written to the log, or the exception.
  unfoldable pub self_test : FacilitatorClient → Result (List HealthEntry)
  self_test client = do
    let test_url = client.base_url ++ str "/settle"
    init_easy curl.can_init (str "selfTest: Failed to init CURL easy handle")
    let code = curl.connect (record {
      url = test_url;
      connect_timeout_ms = client.connect_timeout_ms;
      timeout_ms = client.total_timeout_ms;
      verify_peer_and_host = client.verify_tls_certs;
    })
    ok (
        health_info (str "Testing connection to facilitator endpoint:" ++ test_url)
        ∷ test_entries test_url code curl.strerror)
