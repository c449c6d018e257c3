-- ===== src/Client/Create.antt =====
-- `NewClientFastHTTP` of pkg/httptools/client_fasthttp.go and `NewClientHTTP2` of
-- pkg/httptools/client_http2.go. The check of a URL by net/url is a parameter, as is the float 2; the
-- options of the transports, the logger and the metrics are left out.
pub mod Agreement
use api_poll.Prelude.{
  ℕ, ◌≡◌, refl, Bool, true, false, List, [], ◌∷◌, ◌++◌, Option, none, some, Bytes, utf8, bytes_eq,
  contains, if◌then◌else◌, if_cases,
}
use api_poll.Prelude.Int.{pos}
use api_poll.Proxy.{Proxy, proxy_string}
use api_poll.Builder.{RetriesConfig}
use api_poll.Client.Dial.{Network, proxy_target, auth_of}

pub record ClientConfig (F : Type 0) : Type 0 where
  pub proxy : Option Proxy
  pub retries : RetriesConfig F

-- The fields that a constructor sets, and the proxy that the transport goes through.
pub record Created (F : Type 0) : Type 0 where
  pub proxy_addr : Bytes
  pub ip_address : Bytes
  pub retries : RetriesConfig F
  pub through : Option Bytes

-- The first configuration, or the default with a delay before the first retry.
abbrev pub config_of : {F : Type 0} → F → ℕ → List (ClientConfig F) → ClientConfig F
config_of two delay [] = record {
  proxy = none;
  retries = record { max_retries = pos 3; retry_delay = delay; retry_delay_multiplier = two };
}
config_of two delay (c ∷ cs) = c

abbrev pub through_proxy : {F : Type 0} → RetriesConfig F → Proxy → Created F
through_proxy retries p = record {
  proxy_addr = proxy_string p;
  ip_address = p.host;
  retries = retries;
  through = some (proxy_string p);
}

abbrev pub direct : {F : Type 0} → RetriesConfig F → Bytes → Created F
direct retries host = record {
  proxy_addr = utf8 "direct";
  ip_address = host;
  retries = retries;
  through = none;
}

-- Without a proxy the constructor reads a field of nil, and panics.
unfoldable pub fasthttp_with : {F : Type 0} → RetriesConfig F → Option Proxy → Option (Created F)
unfolding bytes_eq proxy_string
fasthttp_with retries none = none
fasthttp_with retries (some p) =
    some (if bytes_eq (proxy_string p) [] then direct retries p.host else through_proxy retries p)

unfoldable pub new_client_fasthttp : {F : Type 0} → F → List (ClientConfig F) → Option (Created F)
unfolding fasthttp_with
new_client_fasthttp two configs =
    let cfg = config_of two 1_000_000_000 configs in fasthttp_with cfg.retries cfg.proxy

-- The URL of the proxy is parsed, which may fail.
unfoldable pub http2_with :
    {F : Type 0} → (Bytes → Bool) → RetriesConfig F → Option Proxy → Option (Created F)
unfolding bytes_eq proxy_string
http2_with valid_url retries none = some (direct retries (utf8 "127.0.0.1"))
http2_with valid_url retries (some p) =
    if bytes_eq (proxy_string p) []
    then some (direct retries p.host)
    else if valid_url (proxy_string p)
    then some (through_proxy retries p)
    else none

unfoldable pub new_client_http2 :
    {F : Type 0} → (Bytes → Bool) → F → List (ClientConfig F) → Option (Created F)
unfolding http2_with
new_client_http2 valid_url two configs =
    let cfg = config_of two 5_000_000_000 configs in http2_with valid_url cfg.retries cfg.proxy
