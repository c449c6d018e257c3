-- ===== src/Fetchers/Tests.antt =====
-- The constructor of the fetcher of notices with two proxies.
use api_poll.Prelude.{
  ℕ, ◌+◌, ◌-◌, ◌/◌, ◌≡◌, refl, Bool, true, [], ◌∷◌, ◌++◌, Option, some, Bytes, utf8, ◌==◌,
}
use api_poll.Prelude.Int.{ℤ, pos}
use api_poll.Proxy.{Proxy, proxy_string}
use api_poll.Queue.Groups.{Order, Visits}
use api_poll.Builder.{Rates, Services, RetriesConfig, ProxyRotatingPoller}
use api_poll.Client.Create.{Created, through_proxy}
use api_poll.Notice
use api_poll.Notice.Init
use api_poll.Fetchers.{Deps, Noops, constructed, new_notice_by_id_fetcher}
use api_poll.Fetchers.Built.{IsPollerOf, new_notice_by_id_fetcher-asks}

abbrev services : Services
services = record { Logger = ℕ; Schedule = ℕ; Notifier = ℕ; Metrics = ℕ }

-- Rates as numbers of requests in a thousand seconds.
abbrev rates : Rates ℕ
rates = record {
  not_positive = λ r. r == 0;
  interval = λ r. 1_000_000_000_000 / r;
  ceil_ratio = λ a b. pos ((a + b - 1) / b);
}

abbrev noops : Noops services
noops = record { discard_logger = 0; noop_notifier = 0; noop_metrics = 0; noop_work_schedule = 0 }

abbrev proxy : ℕ → Proxy
proxy n = record { username = []; password = []; host = n ∷ []; port = pos 8080 }

abbrev retries : RetriesConfig ℕ
retries = record { max_retries = pos 2; retry_delay = 7; retry_delay_multiplier = 2 }

abbrev deps : Deps services ℕ
deps = record {
  target_rps = 200;
  proxies = proxy 1 ∷ proxy 2 ∷ [];
  retries = retries;
  work_schedule = 1;
  logger = 2;
  notifier = 3;
  metrics = 4;
}

abbrev valid_url : Bytes → Bool
valid_url u = true

abbrev same_place : Bytes → Option Bytes
same_place a = some (7 ∷ [])

abbrev as_listed : Order (Created ℕ)
as_listed k m = m

as_listed-Visits : Visits as_listed
unfolding Visits
as_listed-Visits k w m = refl

abbrev notice_url : ℤ → Bytes
notice_url (pos n) = utf8 "/notices/" ++ n ∷ []
notice_url _ = []

abbrev position : Init.Position
position = record { last_news_title = utf8 "old"; next_news_id = pos 5 }

abbrev fetcher : Notice.Fetcher
fetcher = record {
  last_news_title = utf8 "old";
  next_news_id = pos 5;
  url = notice_url (pos 5);
  news = [];
  detected = 0;
  messages = 0;
  banned = [];
}

abbrev poller : ProxyRotatingPoller services ℕ (Created ℕ)
poller = record {
  url = notice_url (pos 5);
  target_rps = 200;
  single_proxy_max_rps = 100;
  clients_by_location = record {
    members =
        record { clients = through_proxy retries (proxy 1) ∷ []; last_acquired_at = 9 }
        ∷ record { clients = through_proxy retries (proxy 2) ∷ []; last_acquired_at = 9 }
        ∷ [];
    client_rest_interval = 10_000_000_000;
  };
  total_clients_count = 2;
  work_schedule = 1;
  logger = 2;
  notifier = 3;
  metrics = 4;
}

constructs :
    new_notice_by_id_fetcher rates valid_url 0 2 same_place as_listed 9 noops notice_url 100 deps
      (Init.initialised position)
    ≡ constructed fetcher poller
unfolding new_notice_by_id_fetcher proxy_string
constructs = refl

new_notice_by_id_fetcher-asks_example :
    (Init.initialised position ≡ Init.initialised position)
    × (fetcher.url ≡ notice_url (pos 5))
    × IsPollerOf rates valid_url 0 2 same_place as_listed 9 noops fetcher.url 100 deps poller
new_notice_by_id_fetcher-asks_example =
    new_notice_by_id_fetcher-asks rates valid_url 0 2 same_place as_listed 9 noops notice_url 100
      deps (Init.initialised position) fetcher poller as_listed-Visits constructs
