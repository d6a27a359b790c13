-- ===== src/X402/Backend.antt =====
-- src/x402_protocol: HttpEndpointConnection over libcurl, IBackendError, BackendCurlError and
-- BackendHttpError.
pub mod Forwarding
use machinepal.Prelude.{
  ℕ, Text, str, List, [], ◌∷◌, ◌++◌, Bool, true, false, ◌&&◌, not, any, leb, ◌==◌, if◌then◌else◌,
  text_eq, is_empty, starts_with, Option, none, some,
}
use machinepal.Result.{Result, ok, err, runtime_error, ◌>>=◌, ◌>>◌, check_state}
use machinepal.Platform.{Platform}
use machinepal.Http.{HttpMethod, get, post, head, options, put, delete}

pub data BackendError : Type 0 where
  backend_curl_error : Text → BackendError
  backend_http_error : ℕ → BackendError

-- The CURLcodes that the program names, and any other.
pub data CurlCode : Type 0 where
  curle_ok curle_peer_failed_verification curle_ssl_connect_error curle_operation_timedout :
      CurlCode
  curle_couldnt_resolve_host curle_couldnt_connect : CurlCode
  curle_other : ℕ → CurlCode

-- The option that configures a transfer's method, with the body that is sent.
pub data CurlMethod : Type 0 where
  curl_get curl_nobody : CurlMethod
  curl_post : Text → CurlMethod
  curl_custom : Text → Option Text → CurlMethod

pub record Transfer : Type 0 where
  pub method : CurlMethod
  pub url : Text
  pub headers : List Text

-- What a transfer did: the header lines and the body that its callbacks were given.
pub record Transferred : Type 0 where
  pub result : CurlCode
  pub response_code : ℕ
  pub header_lines : List Text
  pub body : Text

-- libcurl, and folly's functions on texts.
pub record Curl : Type 0 where
  pub can_init : Bool
  pub perform : Transfer → Transferred
  pub strerror : CurlCode → Text
  pub to_lower_ascii : Text → Text
  pub trim_whitespace : Text → Text

-- The three results that doRequest has besides the error it returns.
pub record BackendReply (p : Platform) : Type 0 where
  pub http_status_code : ℕ
  pub response_headers : p.Headers
  pub response_body : Text

unfoldable pub blocked_headers : List Text
blocked_headers =
    str "host"
    ∷ str "content-length"
    ∷ str "transfer-encoding"
    ∷ str "connection"
    ∷ str "expect"
    ∷ str "keep-alive"
    ∷ str "proxy-authenticate"
    ∷ str "proxy-authorization"
    ∷ str "upgrade"
    ∷ []

-- raw.find(':'), with what stands before and after it.
unfoldable pub split_colon : Text → Option (Text × Text)
split_colon [] = none
split_colon (c ∷ t) =
    let rest = split_colon t in
    if c == b':'
    then some ([], t)
    else elim rest [ none ↦ none | some (key, value) ↦ some (c ∷ key, value) ]

unfoldable pub get_error_message : Curl → CurlCode → Text
get_error_message curl code = curl.strerror code ++ elim code [
  | curle_peer_failed_verification ↦
      str
        " (SSL Certificate Problem). \nPossible causes:\n1. The server is using a self-signed certificate.\n2. The system's CA bundle is outdated or missing.\n3. System clock is incorrect (certificate appears expired or not yet valid)."
  | curle_ssl_connect_error ↦
      str
        " (SSL Handshake Failed). \nYou may be trying to connect to non-HTTPS endoint. Or there may be a mismatch in supportedTLS ciphers \n"
  | curle_operation_timedout ↦
      str
        " (Connection Timeout). \nThe server took too long to respond. Check your firewall settings or the server's load."
  | curle_couldnt_resolve_host ↦
      str
        " (DNS Resolution Failed). \nCould not translate the hostname to an IP address. Check your DNS configuration or internet connection."
  | curle_couldnt_connect ↦
      str " (Connection Refused). \nTarget port is not listening or is blocked by a firewall."
  | curle_ok ↦ []
  | curle_other n ↦ []
]

-- httpStatusCode >= 400 && httpStatusCode != 402
abbrev pub is_http_error : ℕ → Bool
is_http_error status = leb 400 status && not (status == 402)

abbrev init_curl : Bool → Result (Unit {0})
init_curl true = ok tt
init_curl false = err (runtime_error (str "Could not initialize CURL object"))

module _ (p : Platform) (curl : Curl) where
  unfoldable pub is_blocked : Text → Bool
  unfolding blocked_headers
  is_blocked name = any (text_eq (curl.to_lower_ascii name)) blocked_headers

  abbrev curl_headers : List (Text × Text) → List Text
  curl_headers [] = []
  curl_headers ((name, value) ∷ headers) =
      if is_blocked name
      then curl_headers headers
      else (name ++ (str ": " ++ value)) ∷ curl_headers headers

  unfoldable pub create_curl_headers_from_proxygen_headers : p.Headers → List Text
  create_curl_headers_from_proxygen_headers headers = curl_headers (p.visited headers)

  unfoldable pub header_callback : Text → p.Headers → p.Headers
  unfolding split_colon
  header_callback raw headers =
      if is_empty (curl.trim_whitespace raw)
      then headers
      else if starts_with raw (str "HTTP/")
      then headers
      else elim (split_colon raw) [
        | none ↦ headers
        | some (k, v) ↦
            let key = curl.trim_whitespace k in
            if is_empty key then headers else p.add headers key (curl.trim_whitespace v)
      ]

  abbrev run_header_callbacks : List Text → p.Headers → p.Headers
  run_header_callbacks [] headers = headers
  run_header_callbacks (line ∷ lines) headers =
      run_header_callbacks lines (header_callback line headers)

  unfoldable pub execute_curl_request :
      Text → CurlMethod → p.Headers → Result (Option BackendError × BackendReply p)
  execute_curl_request url method request_headers = do
    init_curl curl.can_init
    check_state (not (is_empty url)) (str "!url_.empty()")
    let t = curl.perform (record {
      method = method;
      url = url;
      headers = create_curl_headers_from_proxygen_headers request_headers;
    })
    let headers = run_header_callbacks t.header_lines p.no_headers
    ok (elim t.result [
      | curle_ok ↦ (
        if is_http_error t.response_code then some (backend_http_error t.response_code) else none,
        record {
          http_status_code = t.response_code;
          response_headers = headers;
          response_body = t.body;
        },
      )
      | code ↦ (
        some (backend_curl_error (get_error_message curl code)),
        record { http_status_code = 0; response_headers = headers; response_body = t.body },
      )
    ])

  -- doHeadRequest drops the body.
  unfoldable pub do_head_request : Text → p.Headers → Result (Option BackendError × BackendReply p)
  do_head_request url request_headers = do
    (error, reply) ← execute_curl_request url curl_nobody request_headers
    ok (error, record reply { response_body = [] })

  unfoldable pub do_request :
      Text → HttpMethod → p.Headers → Text → Result (Option BackendError × BackendReply p)
  do_request url get request_headers request_body =
      execute_curl_request url curl_get request_headers
  do_request url post request_headers request_body =
      execute_curl_request url (curl_post request_body) request_headers
  do_request url head request_headers request_body = do_head_request url request_headers
  do_request url options request_headers request_body =
      execute_curl_request url (curl_custom (str "OPTIONS") none) request_headers
  do_request url put request_headers request_body =
      execute_curl_request url (curl_custom (str "PUT") (some request_body)) request_headers
  do_request url delete request_headers request_body =
      execute_curl_request url (curl_custom (str "DELETE") none) request_headers
  do_request url method request_headers request_body = ok (
    some (backend_http_error 501),
    record { http_status_code = 0; response_headers = p.no_headers; response_body = [] },
  )
