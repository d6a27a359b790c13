-- ===== src/Facilitator/Client/Answers.antt =====
-- The answers that the facilitator's client returns (FacilitatorClient::doRequestResponse), and those
-- that routeToFacilitatorAndSettle is left with.
use machinepal.Prelude.{◌≤◌, ◌<◌, ◌≡◌, ◌≢◌, ◌↔◌, ◌∙◌, sym, true, Text, str, [], arith, is_empty}
use machinepal.Result.{ok, >>=-eq-ok}
use machinepal.Platform.{Platform}
use machinepal.Exec.{read-eq-ok}
use machinepal.X402.Backend.{curle_ok}
use machinepal.Payment.Messages.{
  SettlementRequest, SettlementResponse, settlement_request_to_json,
  settlement_response_from_json_string,
}
use machinepal.Payment.Manager.{Settlements, Context, route_to_facilitator_and_settle}
use machinepal.Facilitator.Client.{
  FacilitatorClient, PostCurl, PostTransferred, join_url, write_chunks, post_transfer,
  check_curl_code, check_bad_request, check_not_empty, read_response, check_for_generic_http_error,
  do_request_response, settle, init_easy,
}

-- The transfer ended, its status is 2xx, and its body parses.
pub record IsAnswered (p : Platform) (t : PostTransferred) (j : p.Json) : Type 0 where
  pub result : t.result ≡ curle_ok
  pub at_least : 200 ≤ t.response_code
  pub below : t.response_code < 300
  pub not_empty : write_chunks t.chunks [] ≢ []
  pub parsed : p.parse (write_chunks t.chunks []) ≡ ok j

module _ (p : Platform) (curl : PostCurl) where
  read_response-IsAnswered :
      (url : Text) (t : PostTransferred) (j : p.Json)
      → read_response p curl url t ≡ ok j
      → IsAnswered p t j
  unfolding read_response check_for_generic_http_error is_empty
  read_response-IsAnswered url t j h =
      let (u0, transferred, r0) = >>=-eq-ok (check_curl_code p curl t.result) _ h in
      let (u1, accepted, r1) =
        >>=-eq-ok (check_bad_request p (write_chunks t.chunks []) t.response_code) _ r0 in
      let (u2, good, r2) =
        >>=-eq-ok (check_for_generic_http_error p (write_chunks t.chunks []) t.response_code) _
          r1 in
      let (u3, full, r3) =
        >>=-eq-ok (check_not_empty p url (write_chunks t.chunks []) t.response_code) _ r2 in
      record {
        result = ground arith;
        at_least = ground arith;
        below = ground arith;
        not_empty = λ e. ground arith;
        parsed = ground arith;
      }

  IsAnswered-read_response :
      (url : Text) (t : PostTransferred) (j : p.Json)
      → IsAnswered p t j
      → read_response p curl url t ≡ ok j
  unfolding read_response check_for_generic_http_error is_empty
  IsAnswered-read_response url t j a =
      rw (a.result) (ground (arith, a.at_least, a.below, a.not_empty, a.parsed))

  -- The body of a request was sent, and answered.
  abbrev pub HasAnswer : FacilitatorClient → Text → p.Json → p.Json → Type 0
  HasAnswer client path body j =
      (payload : Text) × (p.dump body ≡ ok payload)
      × (curl.can_init ≡ true)
      × IsAnswered p (curl.perform (post_transfer client (join_url client.base_url path) payload)) j

  -- A request to the facilitator returns exactly the JSON of a body that is not empty and came with
  -- a status of 200 to 299; all else throws.
  pub do_request_response_iff :
      (client : FacilitatorClient) (path : Text) (body j : p.Json)
      → (do_request_response p curl client path body ≡ ok j) ↔ HasAnswer client path body j
  unfolding do_request_response
  do_request_response_iff client path body j = (
    λ h.
        let (payload, dumped, r0) = >>=-eq-ok (p.dump body) _ h in
        let (u, ready, r1) = >>=-eq-ok (init_easy curl.can_init _) _ r0 in
        (payload, dumped, ground arith, read_response-IsAnswered _ _ j r1),
    λ h.
        let (payload, dumped, ready, answered) = h in
        ground (
          arith,
          dumped,
          ready,
          IsAnswered-read_response (join_url client.base_url path) _ j answered,
        ),
  )

  -- Where facilitatorClient()->settle is the client's, a payment's settlement that returns was
  -- answered with a status of 200 to 299, and the response is what that body reads as.
  pub route_to_facilitator_and_settle-HasAnswer :
      (c : Context p) (client : FacilitatorClient) (q : SettlementRequest p)
      (s after : Settlements p) (response : SettlementResponse)
      → ((r : SettlementRequest p)
          → c.settle r ≡ settle p curl client (settlement_request_to_json p r))
      → route_to_facilitator_and_settle p c q s ≡ (ok response, after)
      → (j : p.Json) × (text : Text) × HasAnswer client
          (str "/settle")
          (settlement_request_to_json p q)
          j
        × (p.dump j ≡ ok text)
        × (settlement_response_from_json_string p text ≡ ok response)
  unfolding route_to_facilitator_and_settle settle
  route_to_facilitator_and_settle-HasAnswer c client q s after response is_client h =
      let (j, settled, r0) = read-eq-ok (c.settle q) _ _ h in
      let (text, dumped, r1) = read-eq-ok (p.dump j) _ _ r0 in
      let answered =
        (do_request_response_iff client (str "/settle") (settlement_request_to_json p q) j).0
          (sym (is_client q) ∙ settled) in
      (j, text, answered, dumped, ground arith)
