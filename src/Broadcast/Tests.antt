-- ===== src/Broadcast/Tests.antt =====
-- Runs of the broadcast, and the theorems at concrete states.
use api_poll.Prelude.{
  ℕ, zero, suc, set, ◌<◌, ◌≤◌, ◌≡◌, refl, true, false, [], ◌∷◌, some, arith, get_elem?, length,
}
use api_poll.Broadcast.{
  Broadcast, returns, new_broadcast, follow_with, fill_memory, memory_capacity, send, unfollow,
}
use api_poll.Broadcast.Channel.{Chan, Heap, done, fresh, close_on}
use api_poll.Broadcast.Channels.{count, IsOpen}
use api_poll.Broadcast.Safe.{Ends}
use api_poll.Broadcast.Delivery.{HasRoom, Delivers, send-Delivers}
use api_poll.Broadcast.Memory.{holding, send-overtakes-memory}
use api_poll.Broadcast.Invariant.{IsValid, follows, unfollows, sends, closes, receives, run}
use api_poll.Broadcast.Invariant.Preserved.{run-new_broadcast}

-- A broadcast with one follower.
abbrev with_one : Chan ℕ → Broadcast ℕ
with_one c = record { followers = 0 ∷ []; capacity = 2; closed = false; heap = c ∷ [] }

only_zero : (P : ℕ → Type 0) (f : ℕ) → 0 < count f (0 ∷ []) → P 0 → P f
unfolding count
only_zero P zero h p = p
only_zero P (suc f) h p = absurd (ground arith)

with_one-IsValid : (c : Chan ℕ) → c.shut ≡ false → length c.buffer ≤ c.cap → IsValid (with_one c)
unfolding count
with_one-IsValid c o le = record {
  room = omega arith;
  distinct = λ f. ground arith;
  opened = λ f p. only_zero (IsOpen (c ∷ [])) f p (c, refl, o);
  bounded = bounded_one;
  ended = λ e. cc;
}
  where
    bounded_one : (f : ℕ) (d : Chan ℕ) → get_elem? (c ∷ []) f ≡ some d → length d.buffer ≤ d.cap
    bounded_one zero d e = ground arith
    bounded_one (suc f) d e = cc

abbrev half_full : Chan ℕ
half_full = record { cap = 2; buffer = 7 ∷ []; shut = false }

abbrev full : Chan ℕ
full = record { cap = 1; buffer = 7 ∷ []; shut = false }

one-HasRoom : (f : ℕ) → 0 < count f (0 ∷ []) → HasRoom (half_full ∷ []) f
one-HasRoom f p = only_zero (HasRoom (half_full ∷ [])) f p (half_full, refl, refl, omega arith)

run-new_broadcast_example : Ends IsValid (
    run {A = ℕ}
      (follows ∷ sends 4 ∷ receives 0 ∷ unfollows 0 ∷ closes ∷ sends 5 ∷ [])
      (new_broadcast 0))
run-new_broadcast_example =
    run-new_broadcast 0 (follows ∷ sends 4 ∷ receives 0 ∷ unfollows 0 ∷ closes ∷ sends 5 ∷ [])

send-Delivers_example :
    (h' : Heap ℕ) × (send 9 (with_one half_full)
      ≡ done (record (with_one half_full) { heap = h' }, returns tt))
    × Delivers (0 ∷ []) 9 (half_full ∷ []) h'
send-Delivers_example =
    send-Delivers 9 (with_one half_full) (with_one-IsValid half_full refl (omega arith)) refl
      one-HasRoom

send-overtakes-memory_example :
    (b' : Broadcast ℕ) × (h : Heap ℕ) × (follow_with
        (memory_capacity (with_one half_full) (1 ∷ 2 ∷ []))
        (with_one half_full)
      ≡ (b', returns 1))
    × (send 9 b' ≡ done (record b' { heap = h }, returns tt))
    × (fill_memory 1 (1 ∷ 2 ∷ []) (record b' { heap = h })
        ≡ done (record b' {
          heap = set h 1 (
              holding (fresh (memory_capacity (with_one half_full) (1 ∷ 2 ∷ []))) (9 ∷ 1 ∷ 2 ∷ []));
        }))
send-overtakes-memory_example =
    send-overtakes-memory (1 ∷ 2 ∷ []) 9 (with_one half_full)
      (with_one-IsValid half_full refl (omega arith)) refl one-HasRoom

-- Two followers; the first leaves, and the last one takes its place.
leave_first :
    unfollow 0 (record (with_one full) { followers = 0 ∷ 1 ∷ 2 ∷ [] })
    ≡ done (record (with_one (record full { shut = true })) { followers = 2 ∷ 1 ∷ [] }, returns tt)
unfolding unfollow close_on
leave_first = refl
