-- ===== src/Entity.antt =====
-- internal/entity/upbit.go, and the response of pkg/httptools/response.go that the fetchers read.
-- The JSON decoders and encoders of internal/entity/upbit_easyjson.go are in Codec; the fetchers take a
-- decoder as a parameter. Times are nanoseconds since an epoch, and
-- identifiers are integers, which do not wrap.
pub mod Latest
pub mod RetryAfter
pub mod Codec
mod Tests
use api_poll.Prelude.{ℕ, Bool, List, [], Bytes, ◌==◌}
use api_poll.Prelude.Int.{ℤ}

pub record Notice : Type 0 where
  pub id : ℤ
  pub category : Bytes
  pub title : Bytes
  pub listed_at : ℕ
  pub first_listed_at : ℕ

pub record SingleAnnouncement : Type 0 where
  pub success : Bool
  pub error_code : ℤ
  pub error_message : Bytes
  pub content : Notice

-- The method `NewsTitle` of an announcement.
abbrev pub news_title : SingleAnnouncement → Bytes
news_title a = a.content.title

pub record Announcements : Type 0 where
  pub success : Bool
  pub error_code : ℤ
  pub error_message : Bytes
  pub total_pages : ℤ
  pub total_count : ℤ
  pub notices : List Notice

-- `http.Header`: canonical names, each with its values.
abbrev pub Header : Type 0
Header = List (Bytes × List Bytes)

pub record Response : Type 0 where
  pub id : ℕ
  pub requested_at : ℕ
  pub received_at : ℕ
  pub status_code : ℕ
  pub headers : Header
  pub body : Bytes
  pub proxy_addr : Bytes
  pub client_name : Bytes

abbrev pub status_ok : ℕ
status_ok = 200

abbrev pub status_too_many_requests : ℕ
status_too_many_requests = 429

unfoldable pub is_ok : Response → Bool
is_ok r = r.status_code == status_ok

unfoldable pub is_too_many_requests : Response → Bool
is_too_many_requests r = r.status_code == status_too_many_requests

-- `NewHTTPResponse`, with the new identifier and the clock's reading as arguments.
unfoldable pub new_http_response : ℕ → ℕ → ℕ → ℕ → Header → Bytes → Bytes → Bytes → Response
new_http_response id now requested_at status headers body proxy_addr client_name = record {
  id = id;
  requested_at = requested_at;
  received_at = now;
  status_code = status;
  headers = headers;
  body = body;
  proxy_addr = proxy_addr;
  client_name = client_name;
}

-- The zero value of `Response`, which a failed fetch puts on the channel and a closed channel gives.
abbrev pub zero_response : Response
zero_response = record {
  id = 0;
  requested_at = 0;
  received_at = 0;
  status_code = 0;
  headers = [];
  body = [];
  proxy_addr = [];
  client_name = [];
}
