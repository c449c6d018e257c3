-- ===== src/Builder/Kept.antt =====
-- The fields that `Build` hands on.
use api_poll.Prelude.{
  ℕ, ◌≡◌, refl, subst, Bool, not, List, Option, none, some, Bytes, length, ◌==◌, if_cases,
}
use api_poll.Prelude.Int.{pos, ltb_ℤ}
use api_poll.Proxy.{Proxy}
use api_poll.Queue.{new_pool, len, ByLocation}
use api_poll.Builder.{
  Rates, Services, BuildResult, ok, err, client_failed, ProxyRotatingPollerBuilder,
  ProxyRotatingPoller, create_clients, pool_of, finish, build_with, build,
}

module _ {S : Services} {F C : Type 0} (rates : Rates F) (valid_url : Bytes → Bool)
    (address : C → Bytes) (locate : Bytes → Option Bytes) (order : ℕ → ByLocation C → ByLocation C)
    (now : ℕ) where
  abbrev pub Keeps :
      ProxyRotatingPollerBuilder S F C → BuildResult (ProxyRotatingPoller S F C) → Type 0
  Keeps b (err e) = Unit
  Keeps b (ok p) =
      (p.url ≡ b.url)
      × (p.target_rps ≡ b.target_rps)
      × (p.single_proxy_max_rps ≡ b.single_proxy_max_rps)
      × (p.work_schedule ≡ b.work_schedule)
      × (p.logger ≡ b.logger)
      × (p.notifier ≡ b.notifier)
      × (p.metrics ≡ b.metrics)

  finish-Keeps :
      (b : ProxyRotatingPollerBuilder S F C) (cs : List C)
      → Keeps b (finish rates valid_url address locate order now b cs)
  unfolding finish new_pool len
  finish-Keeps b cs =
      let pool = pool_of rates address locate order now b.single_proxy_max_rps cs in
      if_cases {A = BuildResult (ProxyRotatingPoller S F C)} (Keeps b)
        (ltb_ℤ (pos (len pool)) (rates.ceil_ratio b.target_rps b.single_proxy_max_rps)) _ _
        (λ few. tt) (λ many. (refl, refl, refl, refl, refl, refl, refl))

  clients-Keeps :
      (b : ProxyRotatingPollerBuilder S F C) (found : Option (List C))
      → Keeps b (elim found [
        | none ↦ err client_failed
        | some cs ↦ finish rates valid_url address locate order now b cs
      ])
  clients-Keeps b none = tt
  clients-Keeps b (some cs) = finish-Keeps b cs

  with-Keeps :
      (b : ProxyRotatingPollerBuilder S F C) (f : Option (Proxy → Option C))
      → Keeps b (build_with rates valid_url address locate order now b f)
  with-Keeps b none = tt
  with-Keeps b (some init) =
      if_cases {A = BuildResult (ProxyRotatingPoller S F C)} (Keeps b) (length b.proxies == 0) _ _
        (λ empty. tt) (λ proxies. clients-Keeps b (create_clients init b.proxies))

  built-Keeps :
      (b : ProxyRotatingPollerBuilder S F C)
      → Keeps b (build rates valid_url address locate order now b)
  unfolding build
  built-Keeps b =
      if_cases {A = BuildResult (ProxyRotatingPoller S F C)} (Keeps b) (not (valid_url b.url)) _ _
        (λ bad. tt)
        (λ good.
          if_cases {A = BuildResult (ProxyRotatingPoller S F C)} (Keeps b)
            (rates.not_positive b.target_rps) _ _ (λ low. tt)
            (λ target.
              if_cases {A = BuildResult (ProxyRotatingPoller S F C)} (Keeps b)
                (rates.not_positive b.single_proxy_max_rps) _ _ (λ low. tt)
                (λ single. with-Keeps b b.init_proxy_client_fn)))

  -- A poller that is built has these fields of the builder.
  pub build-Keeps :
      (b : ProxyRotatingPollerBuilder S F C) (p : ProxyRotatingPoller S F C)
      → build rates valid_url address locate order now b ≡ ok p
      → Keeps b (ok p)
  build-Keeps b p e = subst (Keeps b) e (built-Keeps b)
