-- ===== src/X402/Backend/Forwarding.antt =====
-- What HttpEndpointConnection lets through to the backend, and which answers of the backend it
-- hands on without an error.
use mathlib.Core.List.{Memᴰ}
use machinepal.Prelude.{
  ℕ, ◌<◌, ◌≡◌, ◌≢◌, refl, sym, ap, Text, str, List, [], ◌∷◌, ◌++◌, false, Option, none, some, ◌⊎◌,
  inl, inr, Bool-cases, arith, ◌↔◌, text_eq_iff,
}
use machinepal.Result.{Result, ok, err, Exception, ok-injective}
use machinepal.Platform.{Platform}
use machinepal.Http.{HttpMethod, get, post, head, options, put, delete, trace, other}
use machinepal.X402.Backend.{
  Curl, CurlMethod, curl_nobody, BackendError, BackendReply, is_blocked, blocked_headers,
  is_http_error, curl_headers, create_curl_headers_from_proxygen_headers, execute_curl_request,
  do_head_request, do_request,
}

-- A name in lower case that is none of the nine that concern one connection or the message's framing.
pub record IsEndToEnd (name : Text) : Type 0 where
  pub not_host : name ≢ str "host"
  pub not_content_length : name ≢ str "content-length"
  pub not_transfer_encoding : name ≢ str "transfer-encoding"
  pub not_connection : name ≢ str "connection"
  pub not_expect : name ≢ str "expect"
  pub not_keep_alive : name ≢ str "keep-alive"
  pub not_proxy_authenticate : name ≢ str "proxy-authenticate"
  pub not_proxy_authorization : name ≢ str "proxy-authorization"
  pub not_upgrade : name ≢ str "upgrade"

-- A header of the request that concerns its whole way, as the line that goes to the backend.
pub record IsForwarded (p : Platform) (curl : Curl) (line : Text) (headers : List (Text × Text))
    : Type 0 where
  pub name : Text
  pub value : Text
  pub there : Memᴰ (name, value) headers
  pub allowed : IsEndToEnd (curl.to_lower_ascii name)
  pub spelt : line ≡ name ++ (str ": " ++ value)

-- The same, by the test of the code.
record IsSent (p : Platform) (curl : Curl) (line : Text) (headers : List (Text × Text))
    : Type 0 where
  name : Text
  value : Text
  there : Memᴰ (name, value) headers
  allowed : is_blocked p curl name ≡ false
  spelt : line ≡ name ++ (str ": " ++ value)

module _ (p : Platform) (curl : Curl) where
  is_blocked_iff :
      (name : Text) → (is_blocked p curl name ≡ false) ↔ IsEndToEnd (curl.to_lower_ascii name)
  unfolding is_blocked blocked_headers
  is_blocked_iff name =
      let low = curl.to_lower_ascii name in
      (
        λ h. record {
          not_host = λ e. ground (arith, h, text_eq_iff low (str "host"));
          not_content_length = λ e. ground (arith, h, text_eq_iff low (str "content-length"));
          not_transfer_encoding = λ e. ground (arith, h, text_eq_iff low (str "transfer-encoding"));
          not_connection = λ e. ground (arith, h, text_eq_iff low (str "connection"));
          not_expect = λ e. ground (arith, h, text_eq_iff low (str "expect"));
          not_keep_alive = λ e. ground (arith, h, text_eq_iff low (str "keep-alive"));
          not_proxy_authenticate =
              λ e. ground (arith, h, text_eq_iff low (str "proxy-authenticate"));
          not_proxy_authorization =
              λ e. ground (arith, h, text_eq_iff low (str "proxy-authorization"));
          not_upgrade = λ e. ground (arith, h, text_eq_iff low (str "upgrade"));
        },
        λ h. ground (
          arith,
          text_eq_iff low (str "host"),
          text_eq_iff low (str "content-length"),
          text_eq_iff low (str "transfer-encoding"),
          text_eq_iff low (str "connection"),
          text_eq_iff low (str "expect"),
          text_eq_iff low (str "keep-alive"),
          text_eq_iff low (str "proxy-authenticate"),
          text_eq_iff low (str "proxy-authorization"),
          text_eq_iff low (str "upgrade"),
          h,
        ),
      )

  later :
      (line : Text) (h : Text × Text) (headers : List (Text × Text))
      → IsSent p curl line headers
      → IsSent p curl line (h ∷ headers)
  later line h headers f = record {
    name = f.name;
    value = f.value;
    there = Memᴰ.tail f.there;
    allowed = f.allowed;
    spelt = f.spelt;
  }

  sound :
      (line : Text) (headers : List (Text × Text))
      → Memᴰ line (curl_headers p curl headers)
      → IsSent p curl line headers
  sound line [] m = elim m [ ]
  sound line ((name, value) ∷ headers) m = elim (Bool-cases (is_blocked p curl name)) [
    | inl blocked ↦ later line (name, value) headers (sound line headers (rw blocked at m))
    | inr allowed ↦ elim (rw allowed at m) [
      | Memᴰ.head e ↦ record {
        name = name;
        value = value;
        there = Memᴰ.head refl;
        allowed = allowed;
        spelt = e;
      }
      | Memᴰ.tail m' ↦ later line (name, value) headers (sound line headers m')
    ]
  ]

  forwarded :
      (line : Text) (headers : List (Text × Text))
      → IsSent p curl line headers
      → IsForwarded p curl line headers
  forwarded line headers f = record {
    name = f.name;
    value = f.value;
    there = f.there;
    allowed = (is_blocked_iff f.name).0 f.allowed;
    spelt = f.spelt;
  }

  complete :
      (name value : Text) (headers : List (Text × Text))
      → Memᴰ (name, value) headers
      → is_blocked p curl name ≡ false
      → Memᴰ (name ++ (str ": " ++ value)) (curl_headers p curl headers)
  complete name value [] m allowed = elim m [ ]
  complete name value ((n, v) ∷ headers) (Memᴰ.head e) allowed =
      let same_name : n ≡ name = ap (λ h. h.0) (sym e) in
      let same_value : v ≡ value = ap (λ h. h.1) (sym e) in
      rw same_name (rw allowed (Memᴰ.head (rw same_value refl)))
  complete name value ((n, v) ∷ headers) (Memᴰ.tail m) allowed =
      elim (Bool-cases (is_blocked p curl n)) [
        | inl blocked ↦ rw blocked (complete name value headers m allowed)
        | inr passes ↦ rw passes (Memᴰ.tail (complete name value headers m allowed))
      ]

some_ne_none : {e : BackendError} → ◌≡◌ {A = Option BackendError} (some e) none → ⊥
some_ne_none h = cc

err_ne_ok {ℓ} : {A : Type ℓ} {e : Exception} {a : A} → ◌≡◌ {A = Result A} (err e) (ok a) → ⊥
err_ne_ok h = cc

status_fine : (status : ℕ) → is_http_error status ≡ false → status < 400 ⊎ (status ≡ 402)
status_fine status h = ground arith

module _ (p : Platform) (curl : Curl) (url : Text) (headers : p.Headers) where
  executed :
      (m : CurlMethod) (reply : BackendReply p)
      → execute_curl_request p curl url m headers ≡ ok (none, reply)
      → is_http_error reply.http_status_code ≡ false
  unfolding execute_curl_request
  executed m reply h = ground arith

  headed_by :
      (m : Result (Option BackendError × BackendReply p)) (reply : BackendReply p)
      → execute_curl_request p curl url curl_nobody headers ≡ m
      → do_head_request p curl url headers ≡ ok (none, reply)
      → is_http_error reply.http_status_code ≡ false
  unfolding do_head_request
  headed_by (ok (some e, r)) reply m h =
      absurd (some_ne_none (ap (λ x. x.0) (ok-injective (rw m at h))))
  headed_by (ok (none, r)) reply m h =
      let same : r.http_status_code ≡ reply.http_status_code =
        ap (λ x. x.1.http_status_code) (ok-injective (rw m at h)) in
      rw (sym same) (executed curl_nobody r m)
  headed_by (err e) reply m h = absurd (err_ne_ok (rw m at h))

-- The backend is sent exactly those of the request's headers, one line `name: value` each, whose
-- lower-case names are none of host, content-length, transfer-encoding, connection, expect,
-- keep-alive, proxy-authenticate, proxy-authorization and upgrade.
pub create_curl_headers_from_proxygen_headers_iff :
    (p : Platform) (curl : Curl) (headers : p.Headers) (line : Text)
    → (Memᴰ line (create_curl_headers_from_proxygen_headers p curl headers)
        → IsForwarded p curl line (p.visited headers))
      × ((name value : Text)
          → Memᴰ (name, value) (p.visited headers)
          → IsEndToEnd (curl.to_lower_ascii name)
          → Memᴰ
              (name ++ (str ": " ++ value))
              (create_curl_headers_from_proxygen_headers p curl headers))
unfolding create_curl_headers_from_proxygen_headers
create_curl_headers_from_proxygen_headers_iff p curl headers line = (
  λ m. forwarded p curl line (p.visited headers) (sound p curl line (p.visited headers) m),
  λ name value there allowed.
      complete p curl name value (p.visited headers) there ((is_blocked_iff p curl name).1 allowed),
)

-- Whatever the method, an answer that comes without an error has a status below 400, or 402; and a
-- method that is none of the six never gets one.
pub do_request-no_error :
    (p : Platform) (curl : Curl) (url : Text) (method : HttpMethod) (headers : p.Headers)
    (body : Text) (reply : BackendReply p)
    → do_request p curl url method headers body ≡ ok (none, reply)
    → (reply.http_status_code < 400 ⊎ (reply.http_status_code ≡ 402))
      × (method ≢ trace)
      × (method ≢ other)
unfolding do_request
do_request-no_error p curl url get headers body reply h =
    (status_fine _ (executed p curl url headers _ reply h), (λ e. cc), (λ e. cc))
do_request-no_error p curl url post headers body reply h =
    (status_fine _ (executed p curl url headers _ reply h), (λ e. cc), (λ e. cc))
do_request-no_error p curl url head headers body reply h =
    (status_fine _ (headed_by p curl url headers _ reply refl h), (λ e. cc), (λ e. cc))
do_request-no_error p curl url options headers body reply h =
    (status_fine _ (executed p curl url headers _ reply h), (λ e. cc), (λ e. cc))
do_request-no_error p curl url put headers body reply h =
    (status_fine _ (executed p curl url headers _ reply h), (λ e. cc), (λ e. cc))
do_request-no_error p curl url delete headers body reply h =
    (status_fine _ (executed p curl url headers _ reply h), (λ e. cc), (λ e. cc))
do_request-no_error p curl url trace headers body reply h =
    absurd (some_ne_none (ap (λ x. x.0) (ok-injective h)))
do_request-no_error p curl url other headers body reply h =
    absurd (some_ne_none (ap (λ x. x.0) (ok-injective h)))
