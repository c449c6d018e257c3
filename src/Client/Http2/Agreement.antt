-- ===== src/Client/Http2/Agreement.antt =====
-- The two clients beside each other.
use api_poll.Prelude.{
  ℕ, ◌+◌, ◌≡◌, refl, sum_of, Bool, true, false, Option, none, some, Bytes, utf8, arith,
}
use api_poll.Entity.{Header, new_http_response}
use api_poll.Client.{
  Raw, Decompressors, Result, ok, failed, Count, requests_total, failed_creation, failed_request,
  failed_body, failed_rate_limited, rate_limited_total, successful_requests, responses_total,
  status_class, decode_response_body, try_from, conclude, decoded, request,
}
use api_poll.Client.Http2.{
  Answer, decode_http2_body, decode_read, http2_status_class, http2_status_counts, after_read,
  request_http2,
}

-- A result under the other client's name, with these headers.
abbrev pub renamed : Header → Result → Result
renamed headers (ok r) = ok (record r { client_name = utf8 "http/2.0"; headers = headers })
renamed headers (failed e) = failed e

-- An answer with the status, the encoding and the body of what the other client gets.
abbrev pub as_answer : Header → Option Raw → Option Answer
as_answer headers none = none
as_answer headers (some r) = some (record {
  status_code = r.status_code;
  headers = headers;
  content_encoding = r.content_encoding;
  read = some r.body;
})

abbrev pub as_request : Count → ℕ
as_request requests_total = 1
as_request _ = 0

abbrev pub as_response : Count → ℕ
as_response (responses_total n c) = 1
as_response _ = 0

abbrev pub as_failure : Count → ℕ
as_failure failed_creation = 1
as_failure failed_request = 1
as_failure failed_body = 1
as_failure _ = 0

abbrev pub returned : Result → ℕ
returned (ok r) = 1
returned (failed e) = 0

-- A response's status is counted as neither.
status_weight :
    (w : Count → ℕ) (n : ℕ)
    → w rate_limited_total ≡ 0
    → w failed_rate_limited ≡ 0
    → w successful_requests ≡ 0
    → sum_of w (http2_status_counts n) ≡ 0
unfolding sum_of
status_weight w n a b c = ground (arith, a, b, c)

module _ (d : Decompressors) (id requested_at received_at : ℕ) (proxy_addr : Bytes) where
  -- For a request that can be created, and the same status code, encoding and body, or no answer at all,
  -- the client over HTTP/2 returns what the client over fasthttp returns without retries, but for the
  -- client's name and the headers, which it leaves as the transport gives them; and it increments the
  -- same counters.
  pub request_http2-request :
      (canonical : Bytes → Bytes) (longer : ℕ → ℕ) (delay : ℕ) (raw : Option Raw) (headers : Header)
      → let r =
          (request d canonical id requested_at received_at proxy_addr
            (λ i. raw)
            longer
            0
            delay).0 in
        request_http2 d id requested_at received_at proxy_addr true (as_answer headers raw)
        ≡ (renamed headers r.0, r.1)
  unfolding request_http2 request try_from conclude decode_read decode_response_body
      new_http_response http2_status_class status_class
  request_http2-request canonical longer delay none headers = refl
  request_http2-request canonical longer delay (some r) headers =
      same (decode_http2_body d r.content_encoding r.body)
    where
      same :
          (o : Option Bytes)
          → after_read d id requested_at received_at proxy_addr
              (record {
                status_code = r.status_code;
                headers = headers;
                content_encoding = r.content_encoding;
                read = some r.body;
              })
              o
            ≡ (
              renamed headers (decoded d canonical id requested_at received_at proxy_addr r o).0,
              (decoded d canonical id requested_at received_at proxy_addr r o).1,
            )
      same none = refl
      same (some b) = refl

  -- Whatever happens, a request is counted once as a request, and once as a response or as one kind of
  -- failure; it is counted as a response exactly when it returns one.
  pub request_http2_counted :
      (created : Bool) (answer : Option Answer)
      → let r = request_http2 d id requested_at received_at proxy_addr created answer in
        (sum_of as_request r.1 ≡ 1)
        × (sum_of as_response r.1 + sum_of as_failure r.1 ≡ 1)
        × (sum_of as_response r.1 ≡ returned r.0)
  unfolding request_http2 sum_of
  request_http2_counted false answer = (refl, refl, refl)
  request_http2_counted true none = (refl, refl, refl)
  request_http2_counted true (some a) = settled (decode_read d a)
    where
      settled :
          (o : Option Bytes)
          → let r = after_read d id requested_at received_at proxy_addr a o in
            (sum_of as_request r.1 ≡ 1)
            × (sum_of as_response r.1 + sum_of as_failure r.1 ≡ 1)
            × (sum_of as_response r.1 ≡ returned r.0)
      settled none = (refl, refl, refl)
      settled (some body) =
          let q = status_weight as_request a.status_code refl refl refl in
          let s = status_weight as_response a.status_code refl refl refl in
          let f = status_weight as_failure a.status_code refl refl refl in
          (omega (arith, q), omega (arith, s, f), omega (arith, s))
