-- ===== src/Fetchers.antt =====
-- The constructors of the three fetchers of internal/core: an initialisation, whose result is given, and
-- `initPoller`, which is the same in all three but for the URL and the rate of a single proxy. What
-- `fmt.Sprintf` makes of an endpoint and a number is a parameter.
pub mod Built
pub mod FromJson
mod Tests
use api_poll.Prelude.{ℕ, Bool, List, [], ◌∷◌, Option, none, some, Bytes, if◌then◌else◌}
use api_poll.Prelude.Int.{ℤ, pos}
use api_poll.Proxy.{Proxy}
use api_poll.Queue.{ByLocation}
use api_poll.Builder.{
  Rates, Services, BuildError, BuildResult, ok, err, RetriesConfig, retries_of,
  ProxyRotatingPollerBuilder, ProxyRotatingPoller, with_url, with_target_rps,
  with_single_proxy_max_rps, with_proxies, with_init_proxy_client_fn, with_work_schedule,
  with_logger, with_notifier, with_metrics, build,
}
use api_poll.Client.Create.{Created, new_client_http2}
use api_poll.Poller.{Session, StreamError, start_streaming}
use api_poll.Announcement.Start
use api_poll.Announcement.ById
use api_poll.Announcement.Latest
use api_poll.Notice
use api_poll.Notice.Init

-- The fields of the container and of its configuration that `initPoller` reads.
pub record Deps (S : Services) (F : Type 0) : Type 0 where
  pub target_rps : F
  pub proxies : List Proxy
  pub retries : RetriesConfig F
  pub work_schedule : S.Schedule
  pub logger : S.Logger
  pub notifier : S.Notifier
  pub metrics : S.Metrics

-- What a new builder has for a nil interface.
pub record Noops (S : Services) : Type 0 where
  pub discard_logger : S.Logger
  pub noop_notifier : S.Notifier
  pub noop_metrics : S.Metrics
  pub noop_work_schedule : S.Schedule

-- How a constructor ends. The events of an initialisation may not suffice for its end.
pub data Constructed (E A P : Type 0) : Type 0 where
  still_searching : Constructed E A P
  init_failed : E → Constructed E A P
  no_poller : BuildError → Constructed E A P
  constructed : A → P → Constructed E A P

abbrev pub with_poller : {E A P : Type 0} → A → BuildResult P → Constructed E A P
with_poller a (err e) = no_poller e
with_poller a (ok p) = constructed a p

abbrev pub Poller : Services → Type 0 → Type 0
Poller S F = ProxyRotatingPoller S F (Created F)

module _ {F : Type 0} (valid_url : Bytes → Bool) (two : F) where
  unfoldable pub new_client : RetriesConfig F → Proxy → Option (Created F)
  unfolding new_client_http2
  new_client retries p =
      new_client_http2 valid_url two (record { proxy = some p; retries = retries } ∷ [])

module _ {S : Services} {F : Type 0} (valid_url : Bytes → Bool) (zero_rate two : F)
    (noops : Noops S) where
  -- `NewProxyRotatingPollerBuilder`.
  unfoldable pub new_builder : ProxyRotatingPollerBuilder S F (Created F)
  unfolding new_client
  new_builder = record {
    url = [];
    target_rps = zero_rate;
    single_proxy_max_rps = zero_rate;
    proxies = [];
    init_proxy_client_fn = some (new_client valid_url two (retries_of two []));
    logger = noops.discard_logger;
    work_schedule = noops.noop_work_schedule;
    notifier = noops.noop_notifier;
    metrics = noops.noop_metrics;
  }

  -- The builder of `initPoller` before `Build`.
  unfoldable pub builder_of : Bytes → F → Deps S F → ProxyRotatingPollerBuilder S F (Created F)
  unfolding new_builder with_url with_target_rps with_single_proxy_max_rps with_proxies
      with_work_schedule with_logger with_notifier with_metrics with_init_proxy_client_fn
  builder_of url single_proxy_max_rps deps =
      with_init_proxy_client_fn (some (new_client valid_url two deps.retries)) (
        with_metrics deps.metrics (
          with_notifier deps.notifier (
            with_logger deps.logger (
              with_work_schedule deps.work_schedule (
                with_proxies deps.proxies (
                  with_single_proxy_max_rps single_proxy_max_rps
                    (with_target_rps deps.target_rps (with_url url new_builder))))))))

module _ {S : Services} {F : Type 0} (rates : Rates F) (valid_url : Bytes → Bool)
    (zero_rate two : F) (locate : Bytes → Option Bytes)
    (order : ℕ → ByLocation (Created F) → ByLocation (Created F)) (now : ℕ) (noops : Noops S) where
  unfoldable pub init_poller : Bytes → F → Deps S F → BuildResult (Poller S F)
  unfolding builder_of build
  init_poller url single_proxy_max_rps deps =
      build rates valid_url (λ c. c.ip_address) locate order now
        (builder_of valid_url zero_rate two noops url single_proxy_max_rps deps)

  -- `initPoller` of the three fetchers; the announcements are asked for one to a page.
  unfoldable pub init_announcement_by_id_poller :
      (ℤ → Bytes) → ℤ → F → Deps S F → BuildResult (Poller S F)
  unfolding init_poller
  init_announcement_by_id_poller announcement_url next_news_id =
      init_poller (announcement_url next_news_id)

  unfoldable pub init_notice_by_id_poller :
      (ℤ → Bytes) → ℤ → F → Deps S F → BuildResult (Poller S F)
  unfolding init_poller
  init_notice_by_id_poller notice_url next_news_id = init_poller (notice_url next_news_id)

  unfoldable pub init_announcements_poller : (ℤ → Bytes) → F → Deps S F → BuildResult (Poller S F)
  unfolding init_poller
  init_announcements_poller announcements_url = init_poller (announcements_url (pos 1))

  unfoldable pub new_announcement_by_id_fetcher :
      (ℤ → Bytes)
      → F
      → Deps S F
      → Start.Init
      → Constructed Start.InitError ById.Fetcher (Poller S F)
  unfolding init_announcement_by_id_poller
  new_announcement_by_id_fetcher announcement_url rate deps (Start.searching p) = still_searching
  new_announcement_by_id_fetcher announcement_url rate deps (Start.aborted e) = init_failed e
  new_announcement_by_id_fetcher announcement_url rate deps (Start.initialised p) =
      let url = announcement_url p.next_news_id in
      with_poller
        (record {
          last_news_title = p.last_news_title;
          next_news_id = p.next_news_id;
          url = url;
          news = [];
          detected = 0;
          messages = 0;
        })
        (init_announcement_by_id_poller announcement_url p.next_news_id rate deps)

  unfoldable pub new_notice_by_id_fetcher :
      (ℤ → Bytes)
      → F
      → Deps S F
      → Init.Init
      → Constructed Init.InitError Notice.Fetcher (Poller S F)
  unfolding init_notice_by_id_poller Init.new_fetcher
  new_notice_by_id_fetcher notice_url rate deps (Init.searching p) = still_searching
  new_notice_by_id_fetcher notice_url rate deps (Init.aborted e) = init_failed e
  new_notice_by_id_fetcher notice_url rate deps (Init.initialised p) =
      with_poller (Init.new_fetcher notice_url p)
        (init_notice_by_id_poller notice_url p.next_news_id rate deps)

  unfoldable pub new_announcements_fetcher :
      (ℤ → Bytes)
      → F
      → Deps S F
      → Option Latest.Fetcher
      → Constructed Unit Latest.Fetcher (Poller S F)
  unfolding init_announcements_poller
  new_announcements_fetcher announcements_url rate deps none = init_failed tt
  new_announcements_fetcher announcements_url rate deps (some f) =
      with_poller f (init_announcements_poller announcements_url rate deps)

-- `StreamNewAnnouncementTitles`: the poller gets the URL again before it is started.
unfoldable pub stream_new_announcement_titles :
    (ℤ → Bytes) → Session → ById.Fetcher → Session × ById.Fetcher × Option StreamError
unfolding start_streaming
stream_new_announcement_titles announcement_url s f =
    let (t, e) = start_streaming s in
    (t, if s.streaming then f else record f { url = announcement_url f.next_news_id }, e)

-- `StreamNewNewsTitles`, whose poller keeps its URL.
unfoldable pub stream_new_news_titles : Session → Session × Option StreamError
unfolding start_streaming
stream_new_news_titles s = start_streaming s
