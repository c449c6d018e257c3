-- ===== src/Client/Tests.antt =====
-- Runs of a request whose first two attempts fail, and of one that is served at once.
use api_poll.Prelude.{
  ℕ, zero, suc, ◌*◌, ◌-◌, ◌≡◌, ◌↔◌, ◌⊎◌, refl, ◌<◌, ◌≤◌, true, false, ◌&&◌, List, [], ◌∷◌, Option,
  none, some, Bytes, bytes_eq, utf8, leb, if◌then◌else◌,
}
use api_poll.Entity.{Header}
use api_poll.Client.{
  Raw, Decompressors, failed, request_failed, requests_total, failed_request, convert_headers,
  request,
}
use api_poll.Client.Headers.{values_of, convert_headers_last}
use api_poll.Client.Http2.{request_http2}
use api_poll.Client.Http2.Agreement.{renamed, as_answer, request_http2-request}
use api_poll.Client.Dial.{Connection, Network, proxy_target, dial}
use api_poll.Client.Dial.Closing.{Tidy, dial-Tidy}
use api_poll.Client.Dial.Tunnel.{IsTunnelled, dial-IsTunnelled}
use api_poll.Client.Retry.{delays, after_failures, returns, request_ends}

-- A header in two spellings.
abbrev visited : List (Bytes × Bytes)
visited = (utf8 "age", utf8 "1") ∷ (utf8 "Via", utf8 "p") ∷ (utf8 "Age", utf8 "2") ∷ []

abbrev canonical : Bytes → Bytes
canonical [] = []
canonical (c ∷ s) = (if leb b'a' c && leb c b'z' then c - 32 else c) ∷ s

abbrev raw : Raw
raw = record { status_code = 200; headers = visited; content_encoding = utf8 "gzip"; body = 9 ∷ [] }

abbrev tools : Decompressors
tools = record {
  gzip = λ b. some (1 ∷ b);
  deflate = λ b. none;
  brotli = λ b. none;
  zstd = λ b. none;
}

abbrev third_time : ℕ → Option Raw
third_time zero = none
third_time (suc zero) = none
third_time (suc (suc n)) = some raw

abbrev double : ℕ → ℕ
double n = 2 * n

three_calls :
    (request tools canonical 0 5 6 [] third_time double 3 100).1
    ≡ record { last_err = true; response = some raw; calls = 3; sleeps = 100 ∷ 200 ∷ [] }
unfolding request
three_calls = refl

-- With one retry, which is too few.
request_ends_example :
    let q = request tools canonical 0 5 6 [] third_time double 1 100 in
    ((k : ℕ) × (r : Raw) × (k ≤ 1)
      × ((j : ℕ) → j < k → third_time j ≡ none)
      × (third_time k ≡ some r)
      × (q ≡ (
        returns tools canonical 0 5 6 [] third_time double k r,
        record {
          last_err = after_failures third_time double k false;
          response = some r;
          calls = suc k;
          sleeps = delays third_time double k 100;
        },
      )))
    ⊎ (((j : ℕ) → j ≤ 1 → third_time j ≡ none)
        × (q ≡ (
          (failed request_failed, requests_total ∷ failed_request ∷ []),
          record { last_err = true; response = none; calls = 2; sleeps = 100 ∷ [] },
        )))
request_ends_example = request_ends tools canonical 0 5 6 [] third_time double 1 100

convert_headers_last_example :
    values_of (utf8 "Age") (convert_headers canonical [] visited) ≡ some (utf8 "2" ∷ [])
unfolding bytes_eq
convert_headers_last_example = convert_headers_last canonical (utf8 "Age") visited

abbrev headers : Header
headers = (utf8 "Age", utf8 "1" ∷ utf8 "2" ∷ []) ∷ (utf8 "Via", utf8 "p" ∷ []) ∷ []

request_http2-request_example :
    let r = (request tools canonical 0 5 6 [] (λ i. some raw) double 0 100).0 in
    request_http2 tools 0 5 6 [] true (as_answer headers (some raw)) ≡ (renamed headers r.0, r.1)
request_http2-request_example =
    request_http2-request tools 0 5 6 [] canonical double 100 (some raw) headers

-- A proxy that grants every tunnel.
abbrev granting : Connection
granting = record {
  writable = λ request. true;
  lines = utf8 "HTTP/1.1 200 OK" ∷ utf8 "Via: p" ∷ [] ∷ utf8 "data" ∷ [];
}

abbrev net : Network
net = record {
  parse_url = λ url. some (utf8 "p:1", none);
  connect = λ host. some granting;
  base64 = λ text. text;
}

reaches : (dial net (utf8 "u:p@h:1") (utf8 "a:443")).0 ≡ none
unfolding dial
reaches = refl

dial-Tidy_example : Tidy (dial net (utf8 "u:p@h:1") (utf8 "a:443"))
dial-Tidy_example = dial-Tidy net (utf8 "u:p@h:1") (utf8 "a:443")

dial-IsTunnelled_example :
    ((dial net (utf8 "u:p@h:1") (utf8 "a:443")).0 ≡ none)
    ↔ IsTunnelled net (utf8 "a:443") (proxy_target net (utf8 "u:p@h:1"))
dial-IsTunnelled_example = dial-IsTunnelled net (utf8 "u:p@h:1") (utf8 "a:443")
