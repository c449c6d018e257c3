-- ===== src/Builder/Tests.antt =====
-- A build with two proxies at different locations.
use api_poll.Prelude.{
  ◌+◌, ◌-◌, ◌/◌, ℕ, ◌≡◌, refl, Bool, true, [], ◌∷◌, Option, some, Bytes, utf8, bytes_eq, ◌==◌,
}
use api_poll.Prelude.Int.{pos}
use api_poll.Proxy.{Proxy}
use api_poll.Queue.{new_groups, new_pool, len}
use api_poll.Queue.Groups.{Order, Visits}
use api_poll.Builder.{
  Rates, Services, ok, err, too_few_proxies, ProxyRotatingPollerBuilder, ProxyRotatingPoller, build,
  with_target_rps,
}

abbrev services : Services
services = record { Logger = Unit; Schedule = Unit; Notifier = Unit; Metrics = Unit }

-- Rates as numbers of requests in a thousand seconds.
abbrev rates : Rates ℕ
rates = record {
  not_positive = λ r. r == 0;
  interval = λ r. 1_000_000_000_000 / r;
  ceil_ratio = λ a b. pos ((a + b - 1) / b);
}

abbrev proxy : ℕ → Proxy
proxy n = record { username = []; password = []; host = n ∷ []; port = pos 8080 }

abbrev host_of : Proxy → Option Bytes
host_of p = some p.host

abbrev builder : ProxyRotatingPollerBuilder services ℕ Bytes
builder = record {
  url = utf8 "https://upbit.com";
  target_rps = 200;
  single_proxy_max_rps = 100;
  proxies = proxy 1 ∷ proxy 2 ∷ [];
  init_proxy_client_fn = some host_of;
  logger = tt;
  work_schedule = tt;
  notifier = tt;
  metrics = tt;
}

abbrev same_place : Bytes → Option Bytes
same_place a = some (7 ∷ [])

abbrev as_listed : Order Bytes
as_listed k m = m

as_listed-Visits : Visits as_listed
unfolding Visits
as_listed-Visits k w m = refl

abbrev built : ProxyRotatingPoller services ℕ Bytes
built = record {
  url = utf8 "https://upbit.com";
  target_rps = 200;
  single_proxy_max_rps = 100;
  clients_by_location = record {
    members =
        record { clients = (1 ∷ []) ∷ []; last_acquired_at = 5 }
        ∷ record { clients = (2 ∷ []) ∷ []; last_acquired_at = 5 }
        ∷ [];
    client_rest_interval = 10_000_000_000;
  };
  total_clients_count = 2;
  work_schedule = tt;
  logger = tt;
  notifier = tt;
  metrics = tt;
}

abbrev address : Bytes → Bytes
address a = a

abbrev valid_url : Bytes → Bool
valid_url u = true

builds : build rates valid_url address same_place as_listed 5 builder ≡ ok built
unfolding build bytes_eq new_groups new_pool len
builds = refl

-- Two proxies at one place are two groups, and three are asked for.
refused :
    build rates valid_url address same_place as_listed 5 (with_target_rps 201 builder)
    ≡ err (too_few_proxies (pos 3) 2)
unfolding build with_target_rps bytes_eq new_groups new_pool len
refused = refl
