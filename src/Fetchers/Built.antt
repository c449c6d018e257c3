-- ===== src/Fetchers/Built.antt =====
-- What the poller of a fetcher asks, and through which proxies.
use api_poll.Prelude.{
  ℕ, ◌≡◌, refl, ap, ◌∙◌, sym, subst, Bool, List, [], ◌∷◌, Option, none, some, Bytes, bytes_eq,
  if_cases, arith,
}
use api_poll.Prelude.Int.{ℤ}
use api_poll.Proxy.{Proxy, proxy_string}
use api_poll.Queue.Groups.{Order, Visits}
use api_poll.Builder.{
  Rates, Services, BuildResult, ok, err, RetriesConfig, ProxyRotatingPoller, create_clients,
}
use api_poll.Builder.Kept.{build-Keeps}
use api_poll.Builder.Built.{IsBuilt, build-IsBuilt}
use api_poll.Client.Create.{Created, direct, through_proxy}
use api_poll.Notice
use api_poll.Notice.Init
use api_poll.Announcement.Start
use api_poll.Announcement.ById
use api_poll.Fetchers.{
  Deps, Noops, constructed, with_poller, new_client, builder_of, init_poller,
  new_notice_by_id_fetcher, new_announcement_by_id_fetcher,
}

module _ {F : Type 0} where
  -- A client for each proxy in order, at its host, with the retries.
  abbrev pub Stand : RetriesConfig F → List Proxy → List (Created F) → Type 0
  Stand retries [] [] = Unit
  Stand retries [] (c ∷ cs) = ⊥
  Stand retries (p ∷ ps) [] = ⊥
  Stand retries (p ∷ ps) (c ∷ cs) =
      (c.ip_address ≡ p.host) × (c.retries ≡ retries) × Stand retries ps cs

  abbrev StandsFor : RetriesConfig F → Proxy → Option (Created F) → Type 0
  StandsFor retries p none = Unit
  StandsFor retries p (some c) = (c.ip_address ≡ p.host) × (c.retries ≡ retries)

  abbrev AllStand : RetriesConfig F → List Proxy → Option (List (Created F)) → Type 0
  AllStand retries ps none = Unit
  AllStand retries ps (some cs) = Stand retries ps cs

  abbrev init_of : Option (Proxy → Option (Created F)) → Proxy → Option (Created F)
  init_of none p = none
  init_of (some init) p = init p

  new_client-StandsFor :
      (valid_url : Bytes → Bool) (two : F) (retries : RetriesConfig F) (p : Proxy)
      → StandsFor retries p (new_client valid_url two retries p)
  unfolding new_client
  new_client-StandsFor valid_url two retries p =
      if_cases (StandsFor retries p) (bytes_eq (proxy_string p) []) (some (direct retries p.host)) _
        (λ empty. (refl, refl))
        (λ named.
          if_cases (StandsFor retries p) (valid_url (proxy_string p))
            (some (through_proxy retries p)) none (λ valid. (refl, refl)) (λ bad. tt))

  create_clients-AllStand :
      (init : Proxy → Option (Created F)) (retries : RetriesConfig F) (ps : List Proxy)
      → ((p : Proxy) → StandsFor retries p (init p))
      → AllStand retries ps (create_clients init ps)
  unfolding create_clients
  create_clients-AllStand init retries [] h = tt
  create_clients-AllStand init retries (p ∷ ps) h =
      step (init p) (h p) (create_clients init ps) (create_clients-AllStand init retries ps h)
    where
      step :
          (o : Option (Created F))
          → StandsFor retries p o
          → (r : Option (List (Created F))) → AllStand retries ps r
          → AllStand retries
              (p ∷ ps)
              (elim o [ none ↦ none | some c ↦ elim r [ none ↦ none | some cs ↦ some (c ∷ cs) ] ])
      step none g r k = tt
      step (some c) g none k = tt
      step (some c) g (some cs) k = (g.0, g.1, k)

with_poller-constructed :
    {E A P : Type 0} (a f : A) (r : BuildResult P) (p : P)
    → with_poller {E = E} a r ≡ constructed f p
    → (f ≡ a) × (r ≡ ok p)
with_poller-constructed a f (err e) p h = let no : ⊥ = ground (arith, h) in elim no [ ]
with_poller-constructed a f (ok q) p h =
    let same : f ≡ a = ground (arith, h) in
    let built : q ≡ p = ground (arith, h) in (same, ap ok built)

module _ {S : Services} {F : Type 0} (rates : Rates F) (valid_url : Bytes → Bool)
    (zero_rate two : F) (locate : Bytes → Option Bytes) (order : Order (Created F)) (now : ℕ)
    (noops : Noops S) where
  -- What a poller of `initPoller` is.
  pub record IsPollerOf (url : Bytes) (rate : F) (deps : Deps S F)
      (p : ProxyRotatingPoller S F (Created F)) : Type 0 where
    pub clients : List (Created F)
    pub stand : Stand deps.retries deps.proxies clients
    pub built :
        IsBuilt rates valid_url
          (λ c. c.ip_address)
          locate
          order
          now
          (builder_of valid_url zero_rate two noops url rate deps)
          p
          clients
    pub asks : p.url ≡ url
    pub at_rate : (p.target_rps ≡ deps.target_rps) × (p.single_proxy_max_rps ≡ rate)
    pub on_schedule : p.work_schedule ≡ deps.work_schedule
    pub tells : (p.logger ≡ deps.logger) × (p.notifier ≡ deps.notifier) × (p.metrics ≡ deps.metrics)

  -- A poller of `initPoller` has the clients of the proxies.
  pub init_poller-IsPollerOf :
      (url : Bytes) (rate : F) (deps : Deps S F) (p : ProxyRotatingPoller S F (Created F))
      → Visits order
      → init_poller rates valid_url zero_rate two locate order now noops url rate deps ≡ ok p
      → IsPollerOf url rate deps p
  unfolding init_poller
  init_poller-IsPollerOf url rate deps p v e =
      let b = builder_of valid_url zero_rate two noops url rate deps in
      let (init, cs, i, c, built) =
        build-IsBuilt rates valid_url (λ c. c.ip_address) locate order now b p v e in
      let kept = build-Keeps rates valid_url (λ c. c.ip_address) locate order now b p e in
      let made : create_clients (new_client valid_url two deps.retries) deps.proxies ≡ some cs =
        ap (λ f. create_clients f deps.proxies) (ap init_of i) ∙ c in
      let stand = subst (AllStand deps.retries deps.proxies) made (
        create_clients-AllStand (new_client valid_url two deps.retries) deps.retries deps.proxies
          (new_client-StandsFor valid_url two deps.retries)) in
      record {
        clients = cs;
        stand = stand;
        built = built;
        asks = kept.0;
        at_rate = (kept.1, kept.2);
        on_schedule = kept.3;
        tells = (kept.4, kept.5, kept.6);
      }

  -- A fetcher of notices that is constructed is where its initialisation ended; its poller asks for
  -- the URL of its next identifier at the rates of the configuration, through one client for each proxy,
  -- in order, at the host of the proxy and with the retries of the configuration, grouped and counted as
  -- the builder promises; and it has the schedule, the logger, the notifier and the metrics of the
  -- container. The order of a map's range has to visit each location once.
  pub new_notice_by_id_fetcher-asks :
      (notice_url : ℤ → Bytes) (rate : F) (deps : Deps S F) (init : Init.Init) (f : Notice.Fetcher)
      (p : ProxyRotatingPoller S F (Created F))
      → Visits order
      → new_notice_by_id_fetcher rates valid_url zero_rate two locate order now noops notice_url
          rate deps init
        ≡ constructed f p
      → (init
          ≡ Init.initialised
              (record { last_news_title = f.last_news_title; next_news_id = f.next_news_id }))
        × (f.url ≡ notice_url f.next_news_id)
        × IsPollerOf f.url rate deps p
  unfolding new_notice_by_id_fetcher
  new_notice_by_id_fetcher-asks notice_url rate deps (Init.searching q) f p v e =
      let no : ⊥ = ground (arith, e) in elim no [ ]
  new_notice_by_id_fetcher-asks notice_url rate deps (Init.aborted x) f p v e =
      let no : ⊥ = ground (arith, e) in elim no [ ]
  new_notice_by_id_fetcher-asks notice_url rate deps (Init.initialised q) f p v e =
      let (same, made) = with_poller-constructed _ f _ p e in
      subst
        (λ g.
          (Init.initialised q
            ≡ Init.initialised
                (record { last_news_title = g.last_news_title; next_news_id = g.next_news_id }))
          × (g.url ≡ notice_url g.next_news_id)
          × IsPollerOf g.url rate deps p)
        (sym same)
        (refl, refl, init_poller-IsPollerOf (notice_url q.next_news_id) rate deps p v made)

  -- The same for the fetcher of announcements by identifier.
  pub new_announcement_by_id_fetcher-asks :
      (announcement_url : ℤ → Bytes) (rate : F) (deps : Deps S F) (init : Start.Init)
      (f : ById.Fetcher) (p : ProxyRotatingPoller S F (Created F))
      → Visits order
      → new_announcement_by_id_fetcher rates valid_url zero_rate two locate order now noops
          announcement_url rate deps init
        ≡ constructed f p
      → (init
          ≡ Start.initialised
              (record { last_news_title = f.last_news_title; next_news_id = f.next_news_id }))
        × (f.url ≡ announcement_url f.next_news_id)
        × IsPollerOf f.url rate deps p
  unfolding new_announcement_by_id_fetcher
  new_announcement_by_id_fetcher-asks announcement_url rate deps (Start.searching q) f p v e =
      let no : ⊥ = ground (arith, e) in elim no [ ]
  new_announcement_by_id_fetcher-asks announcement_url rate deps (Start.aborted x) f p v e =
      let no : ⊥ = ground (arith, e) in elim no [ ]
  new_announcement_by_id_fetcher-asks announcement_url rate deps (Start.initialised q) f p v e =
      let (same, made) = with_poller-constructed _ f _ p e in
      subst
        (λ g.
          (Start.initialised q
            ≡ Start.initialised
                (record { last_news_title = g.last_news_title; next_news_id = g.next_news_id }))
          × (g.url ≡ announcement_url g.next_news_id)
          × IsPollerOf g.url rate deps p)
        (sym same)
        (refl, refl, init_poller-IsPollerOf (announcement_url q.next_news_id) rate deps p v made)
