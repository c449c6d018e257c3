-- ===== src/Builder.antt =====
-- pkg/httptools/proxy_rotating_poller_builder.go: what a poller is built from. A rate is a float, of
-- which the code uses a test and two quotients; these are the parameter `Rates`. The logger, the
-- notifier, the metrics and the work schedule are handed on as they are.
pub mod Built
pub mod Kept
mod Tests
use api_poll.Prelude.{
  ℕ, Bool, true, false, not, List, [], ◌∷◌, Option, none, some, Bytes, length, ◌==◌, if◌then◌else◌,
}
use api_poll.Prelude.Int.{ℤ, pos, ltb_ℤ}
use api_poll.Proxy.{Proxy}
use api_poll.Queue.{ByLocation, Pool, new_groups, new_pool, len}

-- The uses of floats: `rate <= 0`, the nanoseconds of `1 / rate` in seconds, and the ceiling of a
-- quotient of two rates.
pub record Rates (F : Type 0) : Type 0 where
  pub not_positive : F → Bool
  pub interval : F → ℕ
  pub ceil_ratio : F → F → ℤ

-- What the poller is given and does not look into.
pub record Services : Type 1 where
  pub Logger : Type 0
  pub Schedule : Type 0
  pub Notifier : Type 0
  pub Metrics : Type 0

pub data BuildError : Type 0 where
  invalid_url target_rps_required single_proxy_max_rps_required init_client_fn_required : BuildError
  proxies_required client_failed : BuildError
  too_few_proxies : ℤ → ℕ → BuildError

pub data BuildResult (A : Type 0) : Type 0 where
  ok : A → BuildResult A
  err : BuildError → BuildResult A

pub record RetriesConfig (F : Type 0) : Type 0 where
  pub max_retries : ℤ
  pub retry_delay : ℕ
  pub retry_delay_multiplier : F

module _ (S : Services) (F C : Type 0) where
  -- `initProxyClientFn` is a function or nil; its error is passed on.
  pub record ProxyRotatingPollerBuilder : Type 0 where
    pub url : Bytes
    pub target_rps : F
    pub single_proxy_max_rps : F
    pub proxies : List Proxy
    pub init_proxy_client_fn : Option (Proxy → Option C)
    pub logger : S.Logger
    pub work_schedule : S.Schedule
    pub notifier : S.Notifier
    pub metrics : S.Metrics

  -- The fields of `ProxyRotatingPoller` that `Build` sets.
  pub record ProxyRotatingPoller : Type 0 where
    pub url : Bytes
    pub target_rps : F
    pub single_proxy_max_rps : F
    pub clients_by_location : Pool C
    pub total_clients_count : ℕ
    pub work_schedule : S.Schedule
    pub logger : S.Logger
    pub notifier : S.Notifier
    pub metrics : S.Metrics

-- The retries of `UseFastHTTP` and `UseHTTP2`: those of the first configuration, or the default.
abbrev pub retries_of : {F : Type 0} → F → List (RetriesConfig F) → RetriesConfig F
retries_of two [] = record {
  max_retries = pos 3;
  retry_delay = 1_000_000_000;
  retry_delay_multiplier = two;
}
retries_of two (c ∷ cs) = c

module _ {S : Services} {F C : Type 0} where
  -- The setters that keep every other field.
  unfoldable pub with_url :
      Bytes → ProxyRotatingPollerBuilder S F C → ProxyRotatingPollerBuilder S F C
  with_url url b = record b { url = url }

  unfoldable pub with_target_rps :
      F → ProxyRotatingPollerBuilder S F C → ProxyRotatingPollerBuilder S F C
  with_target_rps rate b = record b { target_rps = rate }

  unfoldable pub with_single_proxy_max_rps :
      F → ProxyRotatingPollerBuilder S F C → ProxyRotatingPollerBuilder S F C
  with_single_proxy_max_rps rate b = record b { single_proxy_max_rps = rate }

  unfoldable pub with_proxies :
      List Proxy → ProxyRotatingPollerBuilder S F C → ProxyRotatingPollerBuilder S F C
  with_proxies proxies b = record b { proxies = proxies }

  unfoldable pub with_init_proxy_client_fn :
      Option (Proxy → Option C)
      → ProxyRotatingPollerBuilder S F C
      → ProxyRotatingPollerBuilder S F C
  with_init_proxy_client_fn init b = record b { init_proxy_client_fn = init }

  unfoldable pub with_work_schedule :
      S.Schedule → ProxyRotatingPollerBuilder S F C → ProxyRotatingPollerBuilder S F C
  with_work_schedule schedule b = record b { work_schedule = schedule }

  unfoldable pub with_logger :
      S.Logger → ProxyRotatingPollerBuilder S F C → ProxyRotatingPollerBuilder S F C
  with_logger logger b = record b { logger = logger }

  unfoldable pub with_notifier :
      S.Notifier → ProxyRotatingPollerBuilder S F C → ProxyRotatingPollerBuilder S F C
  with_notifier notifier b = record b { notifier = notifier }

  unfoldable pub with_metrics :
      S.Metrics → ProxyRotatingPollerBuilder S F C → ProxyRotatingPollerBuilder S F C
  with_metrics metrics b = record b { metrics = metrics }

  -- Both take the client's constructor from its module; `two` is the float 2.
  pub use_client :
      (RetriesConfig F → Proxy → Option C)
      → F
      → List (RetriesConfig F)
      → ProxyRotatingPollerBuilder S F C
      → ProxyRotatingPollerBuilder S F C
  use_client new_client two config b = record b {
    init_proxy_client_fn = some (new_client (retries_of two config));
  }

-- The loop over the proxies, up to the first error.
unfoldable pub create_clients : {C : Type 0} → (Proxy → Option C) → List Proxy → Option (List C)
create_clients init [] = some []
create_clients init (p ∷ ps) =
    let rest = create_clients init ps in
    elim (init p) [ none ↦ none | some c ↦ elim rest [ none ↦ none | some cs ↦ some (c ∷ cs) ] ]

-- The rounds of the constructor of the queue are enough, so there always are groups.
abbrev pub groups_or_none : {C : Type 0} → Option (List (List C)) → List (List C)
groups_or_none none = []
groups_or_none (some gs) = gs

module _ {F C : Type 0} (rates : Rates F) (address : C → Bytes) (locate : Bytes → Option Bytes)
    (order : ℕ → ByLocation C → ByLocation C) (now : ℕ) where
  -- `NewClientsQueuePool` for the clients and the rate of one of them.
  abbrev pub pool_of : F → List C → Pool C
  pool_of rate clients =
      new_pool now (rates.interval rate) (groups_or_none (new_groups address locate order clients))

module _ {S : Services} {F C : Type 0} (rates : Rates F) (valid_url : Bytes → Bool)
    (address : C → Bytes) (locate : Bytes → Option Bytes) (order : ℕ → ByLocation C → ByLocation C)
    (now : ℕ) where
  -- What `Build` does when it has the clients.
  pub finish : ProxyRotatingPollerBuilder S F C → List C → BuildResult (ProxyRotatingPoller S F C)
  unfolding new_groups new_pool len
  finish b clients =
      let pool = pool_of rates address locate order now b.single_proxy_max_rps clients in
      let expected = rates.ceil_ratio b.target_rps b.single_proxy_max_rps in
      if ltb_ℤ (pos (len pool)) expected
      then err (too_few_proxies expected (len pool))
      else ok (record {
        url = b.url;
        target_rps = b.target_rps;
        single_proxy_max_rps = b.single_proxy_max_rps;
        clients_by_location = pool;
        total_clients_count = length clients;
        work_schedule = b.work_schedule;
        logger = b.logger;
        notifier = b.notifier;
        metrics = b.metrics;
      })

  -- `Build` from the check of `initProxyClientFn` on.
  abbrev pub build_with :
      ProxyRotatingPollerBuilder S F C
      → Option (Proxy → Option C)
      → BuildResult (ProxyRotatingPoller S F C)
  build_with b none = err init_client_fn_required
  build_with b (some init) =
      if length b.proxies == 0
      then err proxies_required
      else elim (create_clients init b.proxies) [ none ↦ err client_failed | some cs ↦ finish b cs ]

  unfoldable pub build : ProxyRotatingPollerBuilder S F C → BuildResult (ProxyRotatingPoller S F C)
  unfolding finish create_clients
  build b =
      if not (valid_url b.url)
      then err invalid_url
      else if rates.not_positive b.target_rps
      then err target_rps_required
      else if rates.not_positive b.single_proxy_max_rps
      then err single_proxy_max_rps_required
      else build_with b b.init_proxy_client_fn
