-- ===== src/Notice/Bans.antt =====
-- Refused proxies: one message for each ban, none while it lasts, and none when it is lifted.
use api_poll.Prelude.{
  ℕ, ◌+◌, ◌<◌, ◌≤◌, ◌≡◌, refl, List, [], ◌∷◌, none, some, arith, Bytes, bytes_eq_self,
}
use api_poll.Notice.{Fetcher, too_many_requests, Banned, banned_at, unban, hour}

-- The times of 429 responses of one proxy, in order.
pub refuse_all : Bytes → List ℕ → Fetcher → Fetcher
refuse_all p [] f = f
refuse_all p (t ∷ ts) f = refuse_all p ts (too_many_requests t p f)

abbrev pub AllBelow : ℕ → List ℕ → Type 0
AllBelow n [] = Unit
AllBelow n (t ∷ ts) = (t < n) × AllBelow n ts

refused_within :
    (p : Bytes) (now t : ℕ) (f : Fetcher)
    → banned_at p f.banned ≡ some t
    → now < t + hour
    → too_many_requests now p f ≡ f
unfolding too_many_requests
refused_within p now t f e h = rw (e, too_many_requests) (ground arith)

refuse_all_within :
    (p : Bytes) (ts : List ℕ) (t : ℕ) (f : Fetcher)
    → banned_at p f.banned ≡ some t
    → AllBelow (t + hour) ts
    → refuse_all p ts f ≡ f
unfolding refuse_all
refuse_all_within p [] t f e h = refl
refuse_all_within p (u ∷ ts) t f e h =
    rw (refused_within p u t f e h.0) (refuse_all_within p ts t f e h.1)

banned_at-unban : (p : Bytes) (m : Banned) → banned_at p (unban p m) ≡ none
unfolding banned_at unban
banned_at-unban p [] = refl
banned_at-unban p ((q, t) ∷ m) = ground (arith, banned_at-unban p m)

abbrev newly_banned : Bytes → ℕ → Fetcher → Fetcher
newly_banned p t f = record f { banned = (p, t) ∷ f.banned; messages = f.messages + 1 }

refused_first :
    (p : Bytes) (t : ℕ) (f : Fetcher)
    → banned_at p f.banned ≡ none
    → too_many_requests t p f ≡ newly_banned p t f
unfolding too_many_requests
refused_first p t f free = rw (free, too_many_requests) refl

banned_at_newly :
    (p : Bytes) (t : ℕ) (f : Fetcher) → banned_at p (newly_banned p t f).banned ≡ some t
unfolding banned_at
banned_at_newly p t f = rw (bytes_eq_self p) refl

refused_late :
    (p : Bytes) (now t : ℕ) (f : Fetcher)
    → banned_at p f.banned ≡ some t
    → t + hour ≤ now
    → too_many_requests now p f ≡ record f { banned = unban p f.banned }
unfolding too_many_requests
refused_late p now t f e h = rw (e, too_many_requests) (ground arith)

-- A proxy that is not banned and is refused at `t`, then at any times less than an hour after `t`, then
-- at a time an hour or more after `t`, causes one message in all; it is then not banned any more.
pub refused_once :
    (p : Bytes) (t later : ℕ) (ts : List ℕ) (f : Fetcher)
    → banned_at p f.banned ≡ none
    → AllBelow (t + hour) ts
    → t + hour ≤ later
    → let g = too_many_requests later p (refuse_all p (t ∷ ts) f) in
      (g.messages ≡ f.messages + 1) × (banned_at p g.banned ≡ none) × (g.news ≡ f.news)
unfolding refuse_all
refused_once p t later ts f free soon late =
    let g = newly_banned p t f in
    rw (refused_first p t f free) (
      rw (refuse_all_within p ts t g (banned_at_newly p t f) soon) (
        rw (refused_late p later t g (banned_at_newly p t f) late)
          (refl, banned_at-unban p g.banned, refl)))
