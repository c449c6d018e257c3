-- ===== src/Builder/Built.antt =====
-- What a poller that `Build` returns can rely on.
use api_poll.Prelude.{
  ℕ, suc, ◌<◌, ◌≡◌, refl, ap, ◌∙◌, sym, subst, Bool, true, false, not, List, [], ◌∷◌, Option, none,
  some, Bytes, length, sum_of, concat, arith, ◌==◌, if_cases,
}
use api_poll.Prelude.Int.{ℤ, pos, ltb_ℤ, ◌≤ℤ◌}
use api_poll.Proxy.{Proxy}
use api_poll.Queue.{new_groups, new_pool, len, location_of}
use api_poll.Queue.Groups.{Order, Visits, new_groups_keeps}
use api_poll.Queue.Groups.Locations.{Spread, new_groups-Spread}
use api_poll.Queue.Rest.{groups}
use api_poll.Builder.{
  Rates, Services, BuildResult, ok, err, client_failed, ProxyRotatingPollerBuilder,
  ProxyRotatingPoller, create_clients, groups_or_none, pool_of, finish, build_with, build,
}

abbrev OfLength : {C : Type 0} → ℕ → Option (List C) → Type 0
OfLength n none = Unit
OfLength n (some cs) = length cs ≡ n

create_clients-OfLength :
    {C : Type 0} (init : Proxy → Option C) (ps : List Proxy)
    → OfLength (length ps) (create_clients init ps)
unfolding create_clients
create_clients-OfLength init [] = refl
create_clients-OfLength {C} init (p ∷ ps) =
    step (init p) (create_clients init ps) (create_clients-OfLength init ps)
  where
    step :
        (o : Option C) (r : Option (List C))
        → OfLength (length ps) r
        → OfLength
            (suc (length ps))
            (elim o [ none ↦ none | some c ↦ elim r [ none ↦ none | some cs ↦ some (c ∷ cs) ] ])
    step none r h = tt
    step (some c) none h = tt
    step (some c) (some cs) h = ap suc h

create_clients-length :
    {C : Type 0} (init : Proxy → Option C) (ps : List Proxy) (cs : List C)
    → create_clients init ps ≡ some cs
    → length cs ≡ length ps
create_clients-length init ps cs e =
    subst (OfLength (length ps)) e (create_clients-OfLength init ps)

at_most : (a b : ℤ) → ltb_ℤ a b ≡ false → b ≤ℤ a
at_most a b h = ground arith

groups-new_pool :
    {C : Type 0} (now interval : ℕ) (gs : List (List C))
    → groups (new_pool now interval gs).members ≡ gs
unfolding new_pool
groups-new_pool now interval [] = refl
groups-new_pool now interval (g ∷ gs) = ap (λ hs. g ∷ hs) (groups-new_pool now interval gs)

module _ {S : Services} {F C : Type 0} (rates : Rates F) (valid_url : Bytes → Bool)
    (address : C → Bytes) (locate : Bytes → Option Bytes) (order : Order C) (now : ℕ) where
  pub record IsBuilt (b : ProxyRotatingPollerBuilder S F C) (p : ProxyRotatingPoller S F C)
      (cs : List C) : Type 0 where
    pub counted : p.total_clients_count ≡ length b.proxies
    pub not_empty : 0 < length b.proxies
    pub kept : (w : C → ℕ) → sum_of w (concat (groups p.clients_by_location.members)) ≡ sum_of w cs
    pub spread : Spread (location_of address locate) (groups p.clients_by_location.members)
    pub enough :
        rates.ceil_ratio b.target_rps b.single_proxy_max_rps ≤ℤ pos (len p.clients_by_location)
    pub rests : p.clients_by_location.client_rest_interval ≡ rates.interval b.single_proxy_max_rps
    pub target : rates.not_positive p.target_rps ≡ false
    pub url : valid_url p.url ≡ true

  -- The clients are those of the proxies, in order.
  abbrev pub IsBuiltFrom :
      ProxyRotatingPollerBuilder S F C → BuildResult (ProxyRotatingPoller S F C) → Type 0
  IsBuiltFrom b (err e) = Unit
  IsBuiltFrom b (ok p) =
      (init : Proxy → Option C) × (cs : List C) × (b.init_proxy_client_fn ≡ some init)
      × (create_clients init b.proxies ≡ some cs)
      × IsBuilt b p cs

  finish-IsBuiltFrom :
      (b : ProxyRotatingPollerBuilder S F C) (init : Proxy → Option C) (cs : List C)
      → Visits order
      → valid_url b.url ≡ true
      → rates.not_positive b.target_rps ≡ false
      → b.init_proxy_client_fn ≡ some init
      → 0 < length b.proxies
      → create_clients init b.proxies ≡ some cs
      → IsBuiltFrom b (finish rates valid_url address locate order now b cs)
  unfolding finish new_pool len
  finish-IsBuiltFrom b init cs v u t i n c =
      let pool = pool_of rates address locate order now b.single_proxy_max_rps cs in
      let (gs, found, keeps) = new_groups_keeps address locate order cs v in
      let same : groups pool.members ≡ gs =
        groups-new_pool now (rates.interval b.single_proxy_max_rps)
          (groups_or_none (new_groups address locate order cs))
        ∙ ap groups_or_none found in
      if_cases {A = BuildResult (ProxyRotatingPoller S F C)} (IsBuiltFrom b)
        (ltb_ℤ (pos (len pool)) (rates.ceil_ratio b.target_rps b.single_proxy_max_rps)) _ _
        (λ few. tt)
        (λ many. (
          init,
          cs,
          i,
          c,
          record {
            counted = create_clients-length init b.proxies cs c;
            not_empty = n;
            kept = λ w. ap (λ hs. sum_of w (concat hs)) same ∙ keeps w;
            spread =
                subst (Spread (location_of address locate)) (sym same)
                  (new_groups-Spread address locate order cs gs v found);
            enough =
                at_most (pos (len pool)) (rates.ceil_ratio b.target_rps b.single_proxy_max_rps)
                  many;
            rests = refl;
            target = t;
            url = u;
          },
        ))

  build-IsBuiltFrom :
      (b : ProxyRotatingPollerBuilder S F C)
      → Visits order
      → IsBuiltFrom b (build rates valid_url address locate order now b)
  unfolding build
  build-IsBuiltFrom b v =
      if_cases {A = BuildResult (ProxyRotatingPoller S F C)} (IsBuiltFrom b) (not (valid_url b.url))
        _ _ (λ bad. tt)
        (λ good.
          if_cases {A = BuildResult (ProxyRotatingPoller S F C)} (IsBuiltFrom b)
            (rates.not_positive b.target_rps) _ _ (λ low. tt)
            (λ target.
              if_cases {A = BuildResult (ProxyRotatingPoller S F C)} (IsBuiltFrom b)
                (rates.not_positive b.single_proxy_max_rps) _ _ (λ low. tt)
                (λ single. with_fn (ground (arith, good)) target b.init_proxy_client_fn refl)))
    where
      with_clients :
          (init : Proxy → Option C) (found : Option (List C))
          → valid_url b.url ≡ true
          → rates.not_positive b.target_rps ≡ false
          → b.init_proxy_client_fn ≡ some init
          → 0 < length b.proxies
          → create_clients init b.proxies ≡ found
          → IsBuiltFrom b (elim found [
            | none ↦ err client_failed
            | some cs ↦ finish rates valid_url address locate order now b cs
          ])
      with_clients init none u t i n e = tt
      with_clients init (some cs) u t i n e = finish-IsBuiltFrom b init cs v u t i n e

      with_fn :
          valid_url b.url ≡ true
          → rates.not_positive b.target_rps ≡ false
          → (f : Option (Proxy → Option C)) → b.init_proxy_client_fn ≡ f
          → IsBuiltFrom b (build_with rates valid_url address locate order now b f)
      with_fn u t none i = tt
      with_fn u t (some init) i =
          if_cases {A = BuildResult (ProxyRotatingPoller S F C)} (IsBuiltFrom b)
            (length b.proxies == 0) _ _ (λ empty. tt)
            (λ proxies.
              with_clients init (create_clients init b.proxies) u t i (ground (arith, proxies))
                refl)

  -- A poller that `Build` returns has a client for each proxy, made in order, and each of them once in
  -- its pool's groups; no group has two clients at one location; the groups are at least as many as
  -- the target rate needs; they rest for the interval of a single proxy's rate; and the target rate
  -- and the URL have passed their checks.
  pub build-IsBuilt :
      (b : ProxyRotatingPollerBuilder S F C) (p : ProxyRotatingPoller S F C)
      → Visits order
      → build rates valid_url address locate order now b ≡ ok p
      → (init : Proxy → Option C) × (cs : List C) × (b.init_proxy_client_fn ≡ some init)
        × (create_clients init b.proxies ≡ some cs)
        × IsBuilt b p cs
  build-IsBuilt b p v e = subst (IsBuiltFrom b) e (build-IsBuiltFrom b v)
