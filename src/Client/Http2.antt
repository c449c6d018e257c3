-- ===== src/Client/Http2.antt =====
-- `Request` of pkg/httptools/client_http2.go, which does not retry. Its body is read from the
-- connection, which can fail, and then decoded. The names of the counters and the decompressors are
-- those of the other client, but the switches over the encodings and over the status are its own.
pub mod Agreement
use api_poll.Prelude.{
  ℕ, Bool, true, false, ◌&&◌, List, [], ◌∷◌, Option, none, some, Bytes, utf8, bytes_eq, leb, ltb,
  ◌==◌, if◌then◌else◌,
}
use api_poll.Entity.{Response, Header, new_http_response, status_ok, status_too_many_requests}
use api_poll.Client.{
  Decompressors, Result, ok, failed, request_creation, request_failed, body_read, Count,
  requests_total, rate_limited_total, successful_requests, failed_creation, failed_request,
  failed_body, failed_rate_limited, responses_total, StatusClass, success, redirection,
  client_error, server_error, unknown,
}

-- What the transport gives for a request: `read` is what is read of the body.
pub record Answer : Type 0 where
  pub status_code : ℕ
  pub headers : Header
  pub content_encoding : Bytes
  pub read : Option Bytes

-- The switch of `decodeResponseBody`, for an encoding and a body that has been read.
abbrev pub decode_http2_body : Decompressors → Bytes → Bytes → Option Bytes
unfolding bytes_eq
decode_http2_body d enc body =
    if bytes_eq enc (utf8 "gzip")
    then d.gzip body
    else if bytes_eq enc (utf8 "deflate")
    then d.deflate body
    else if bytes_eq enc (utf8 "br")
    then d.brotli body
    else if bytes_eq enc (utf8 "zstd")
    then d.zstd body
    else some body

-- `decodeResponseBody`.
unfoldable pub decode_read : Decompressors → Answer → Option Bytes
decode_read d a = elim a.read [
  | none ↦ none
  | some body ↦ decode_http2_body d a.content_encoding body
]

-- `getStatusClass`.
unfoldable pub http2_status_class : ℕ → StatusClass
http2_status_class n =
    if leb 200 n && ltb n 300
    then success
    else if leb 300 n && ltb n 400
    then redirection
    else if leb 400 n && ltb n 500
    then client_error
    else if leb 500 n
    then server_error
    else unknown

-- The counters of the switch over the status code.
abbrev pub http2_status_counts : ℕ → List Count
http2_status_counts n =
    if n == status_too_many_requests
    then rate_limited_total ∷ failed_rate_limited ∷ []
    else if n == status_ok
    then successful_requests ∷ []
    else []

module _ (d : Decompressors) (id requested_at received_at : ℕ) (proxy_addr : Bytes) where
  abbrev pub http2_response : Answer → Bytes → Response
  http2_response a body =
      new_http_response id received_at requested_at a.status_code a.headers body proxy_addr
        (utf8 "http/2.0")

  abbrev pub after_read : Answer → Option Bytes → Result × List Count
  after_read a none = (failed body_read, requests_total ∷ failed_body ∷ [])
  after_read a (some body) = (
    ok (http2_response a body),
    requests_total
        ∷ responses_total a.status_code (http2_status_class a.status_code)
        ∷ http2_status_counts a.status_code,
  )

  -- `Request`: whether the request can be created, and the transport's answer.
  pub request_http2 : Bool → Option Answer → Result × List Count
  unfolding decode_read new_http_response http2_status_class
  request_http2 false answer = (failed request_creation, requests_total ∷ failed_creation ∷ [])
  request_http2 true none = (failed request_failed, requests_total ∷ failed_request ∷ [])
  request_http2 true (some a) = after_read a (decode_read d a)
