-- ===== src/Client/Create/Agreement.antt =====
-- The clients that the two constructors make.
use api_poll.Prelude.{
  ◌≡◌, refl, Bool, List, [], ◌∷◌, Option, none, some, Bytes, utf8, bytes_eq, contains,
  if◌then◌else◌,
}
use api_poll.Proxy.{Proxy, proxy_string}
use api_poll.Builder.{RetriesConfig}
use api_poll.Client.Dial.{Network, proxy_target, auth_of}
use api_poll.Client.Create.{
  ClientConfig, config_of, direct, fasthttp_with, new_client_fasthttp, http2_with, new_client_http2,
}

-- Of a configuration with a proxy, both clients; of one without, what each makes of it.
abbrev pub Agree : {F : Type 0} → (Bytes → Bool) → F → List (ClientConfig F) → Option Proxy → Type 0
Agree valid_url two configs none =
    (new_client_fasthttp two configs ≡ none)
    × (new_client_http2 valid_url two configs
        ≡ some (direct (config_of two 5_000_000_000 configs).retries (utf8 "127.0.0.1")))
Agree valid_url two configs (some p) =
    new_client_http2 valid_url two configs
    ≡ (if valid_url (proxy_string p) then new_client_fasthttp two configs else none)

with_config :
    {F : Type 0} (valid_url : Bytes → Bool) (two : F) (retries : RetriesConfig F)
    (proxy : Option Proxy) (cs : List (ClientConfig F))
    → Agree valid_url two (record { proxy = proxy; retries = retries } ∷ cs) proxy
unfolding new_client_fasthttp new_client_http2 fasthttp_with http2_with bytes_eq proxy_string
with_config valid_url two retries none cs = (refl, refl)
with_config {F} valid_url two retries (some p) cs = refl

-- What the constructors make of configurations: without a proxy the one panics and the other gives a
-- client that goes direct; with a proxy both give the same client, if net/url takes the proxy's URL,
-- and otherwise the one for HTTP/2 fails.
pub new_client_http2-new_client_fasthttp :
    {F : Type 0} (valid_url : Bytes → Bool) (two : F) (configs : List (ClientConfig F))
    → Agree valid_url two configs (config_of two 0 configs).proxy
unfolding new_client_fasthttp new_client_http2 fasthttp_with http2_with
new_client_http2-new_client_fasthttp valid_url two [] = (refl, refl)
new_client_http2-new_client_fasthttp valid_url two (c ∷ cs) =
    with_config valid_url two c.retries c.proxy cs

-- The dialler takes the address of a client's proxy apart as a URL.
proxy_target-proxy_string :
    (net : Network) (p : Proxy)
    → proxy_target net (proxy_string p)
      ≡ elim (net.parse_url (proxy_string p)) [ none ↦ none | some u ↦ some (auth_of u.1, u.0) ]
unfolding proxy_target contains proxy_string
proxy_target-proxy_string net p = refl
