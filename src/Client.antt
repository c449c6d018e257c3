-- ===== src/Client.antt =====
-- `Request` of pkg/httptools/client_fasthttp.go: the retries, the decoding of the body and the metrics.
-- What the transport answers to each attempt is a parameter, as are the decompressors and the product
-- of a delay with the float multiplier, and the canonical form that net/http gives the name of a header.
-- The number of retries is not negative. The header texts of the request and the logs are left out.
pub mod Headers
pub mod Retry
pub mod Http2
pub mod Dial
pub mod Create
mod Tests
use api_poll.Prelude.{
  ℕ, zero, suc, ◌+◌, Bool, true, false, ◌&&◌, List, [], ◌∷◌, ◌++◌, Option, none, some, Bytes, utf8,
  bytes_eq, leb, ltb, ◌==◌, if◌then◌else◌,
}
use api_poll.Entity.{Response, Header, new_http_response, status_ok, status_too_many_requests}

-- What the transport gives for an attempt that succeeds: the names and values of `headers` are those that
-- VisitAll visits, in its order.
pub record Raw : Type 0 where
  pub status_code : ℕ
  pub headers : List (Bytes × Bytes)
  pub content_encoding : Bytes
  pub body : Bytes

pub record Decompressors : Type 0 where
  pub gzip : Bytes → Option Bytes
  pub deflate : Bytes → Option Bytes
  pub brotli : Bytes → Option Bytes
  pub zstd : Bytes → Option Bytes

pub data StatusClass : Type 0 where
  success redirection client_error server_error unknown : StatusClass

-- `getStatusClass`.
unfoldable pub status_class : ℕ → StatusClass
status_class n =
    if leb 200 n && ltb n 300
    then success
    else if leb 300 n && ltb n 400
    then redirection
    else if leb 400 n && ltb n 500
    then client_error
    else if leb 500 n
    then server_error
    else unknown

-- The counters that a request increments, in order.
pub data Count : Type 0 where
  requests_total rate_limited_total successful_requests : Count
  failed_creation failed_request failed_body failed_rate_limited : Count
  responses_total : ℕ → StatusClass → Count

pub data RequestError : Type 0 where
  request_creation request_failed body_read : RequestError

pub data Result : Type 0 where
  ok : Response → Result
  failed : RequestError → Result

-- What the loop of `Request` leaves: whether `lastErr` is set, the response of an attempt that
-- succeeded, how often the transport was called, and the sleeps.
pub record Tried : Type 0 where
  pub last_err : Bool
  pub response : Option Raw
  pub calls : ℕ
  pub sleeps : List ℕ

-- `decodeResponseBody`.
unfoldable pub decode_response_body : Decompressors → Raw → Option Bytes
unfolding bytes_eq
decode_response_body d r =
    if bytes_eq r.content_encoding (utf8 "gzip")
    then d.gzip r.body
    else if bytes_eq r.content_encoding (utf8 "deflate")
    then d.deflate r.body
    else if bytes_eq r.content_encoding (utf8 "br")
    then d.brotli r.body
    else if bytes_eq r.content_encoding (utf8 "zstd")
    then d.zstd r.body
    else some r.body

-- The method Set of `http.Header`, for a name in its canonical form: the value replaces those that the
-- name has.
unfoldable pub set_header : Bytes → Bytes → Header → Header
unfolding bytes_eq
set_header name value [] = (name, value ∷ []) ∷ []
set_header name value ((n, values) ∷ h) =
    let rest = set_header name value h in
    if bytes_eq n name then (n, value ∷ []) ∷ h else (n, values) ∷ rest

-- `convertHeaders`, from the headers that it has set before.
unfoldable pub convert_headers : (Bytes → Bytes) → Header → List (Bytes × Bytes) → Header
unfolding set_header
convert_headers canonical h [] = h
convert_headers canonical h ((name, value) ∷ visited) =
    convert_headers canonical (set_header (canonical name) value h) visited

module _ (attempt : ℕ → Option Raw) (longer : ℕ → ℕ) where
  -- The loop at attempt `i`, with the retries that are left after it, the delay and whether `lastErr`
  -- is set.
  pub try_from : ℕ → ℕ → ℕ → Bool → Tried
  try_from zero i delay err = elim (attempt i) [
    | some r ↦ record { last_err = err; response = some r; calls = 1; sleeps = [] }
    | none ↦ record { last_err = true; response = none; calls = 1; sleeps = [] }
  ]
  try_from (suc left) i delay err =
      let rest = try_from left (suc i) (longer delay) true in
      elim (attempt i) [
        | some r ↦ record { last_err = err; response = some r; calls = 1; sleeps = [] }
        | none ↦ record rest { calls = rest.calls + 1; sleeps = delay ∷ rest.sleeps }
      ]

-- The counters of a response with a status code.
abbrev pub status_counts : ℕ → List Count
status_counts n =
    if n == status_too_many_requests
    then rate_limited_total ∷ failed_rate_limited ∷ []
    else if n == status_ok
    then successful_requests ∷ []
    else []

-- What `Request` makes of the loop's end. The identifier and the times of the response are read from
-- outside. A loop that leaves neither an error nor a response does not occur.
module _ (d : Decompressors) (canonical : Bytes → Bytes) (id requested_at received_at : ℕ)
    (proxy_addr : Bytes) where
  abbrev pub response_of : Raw → Bytes → Response
  response_of r body =
      new_http_response id received_at requested_at r.status_code
        (convert_headers canonical [] r.headers) body proxy_addr (utf8 "fasthttp")

  abbrev pub decoded : Raw → Option Bytes → Result × List Count
  decoded r none = (failed body_read, requests_total ∷ failed_body ∷ [])
  decoded r (some body) = (
    ok (response_of r body),
    requests_total
        ∷ responses_total r.status_code (status_class r.status_code)
        ∷ status_counts r.status_code,
  )

  pub conclude : Bool → Option Raw → Result × List Count
  unfolding decode_response_body new_http_response status_class convert_headers
  conclude true response = (failed request_failed, requests_total ∷ failed_request ∷ [])
  conclude false none = (failed request_failed, requests_total ∷ failed_request ∷ [])
  conclude false (some r) = decoded r (decode_response_body d r)

  -- `Request` with a number of retries and the delay after the first failure.
  pub request : (ℕ → Option Raw) → (ℕ → ℕ) → ℕ → ℕ → (Result × List Count) × Tried
  unfolding try_from conclude
  request attempt longer max_retries retry_delay =
      let t = try_from attempt longer max_retries 0 retry_delay false in
      (conclude t.last_err t.response, t)
