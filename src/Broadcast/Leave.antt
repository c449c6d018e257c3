-- ===== src/Broadcast/Leave.antt =====
-- `Unfollow` on both branches.
use api_poll.Prelude.{
  ℕ, ◌+◌, ◌≡◌, refl, true, some, arith, get_elem?, get_elem?-set_ne, set, Option-cases, Bool-cases,
  if◌then◌else◌, inl, inr, ◌⊎◌, ◌==◌, subst,
}
use api_poll.Broadcast.{
  Broadcast, returns, fails, follower_not_found, unfollow, find_follower, drop_follower,
}
use api_poll.Broadcast.Channel.{Chan, done}
use api_poll.Broadcast.Channels.{count, ne_of_test, close_on_open, get_elem?-set-some}
use api_poll.Broadcast.Invariant.{IsValid}
use api_poll.Broadcast.Unfollow.{one_if, count-drop_follower, find_follower-pos, find_follower-none}

module _ {A : Type 0} where
  -- Between calls, `Unfollow` of a channel that is not followed returns ErrFollowerNotFound and
  -- changes nothing; of a followed channel it closes that channel, takes exactly it out of the
  -- followers, keeps what the channel still buffers, and leaves every other channel as it was.
  pub unfollow-total :
      (ch : ℕ) (b : Broadcast A)
      → IsValid b
      → ((count ch b.followers ≡ 0) × (unfollow ch b ≡ done (b, fails follower_not_found)))
        ⊎ ((b' : Broadcast A) × (c : Chan A) × (unfollow ch b ≡ done (b', returns tt))
            × ((f : ℕ) → count f b.followers ≡ count f b'.followers + one_if ch f)
            × (get_elem? b.heap ch ≡ some c)
            × ((f : ℕ)
                → get_elem? b'.heap f
                  ≡ (if ch == f then some (record c { shut = true }) else get_elem? b.heap f))
            × (b'.closed ≡ b.closed))
  unfolding unfollow
  unfollow-total ch b inv = elim (Option-cases (find_follower ch b.followers)) [
    | inl missing ↦ inl (find_follower-none ch b.followers missing, rw (missing, unfollow) refl)
    | inr (i, at_i) ↦
        let (c, e, o) = inv.opened ch (find_follower-pos ch b.followers i at_i) in
        let d : Chan A = record c { shut = true } in
        let h = set b.heap ch d in
        inr (
          record b { followers = drop_follower i b.followers; heap = h },
          c,
          rw (at_i, unfollow) (rw (close_on_open ch b.heap c e o) refl),
          λ f. count-drop_follower ch b.followers i f at_i,
          e,
          λ f. elim (Bool-cases (ch == f)) [
            | inl same ↦
                let q : ch ≡ f = ground arith in
                rw same (subst (λ k. get_elem? h k ≡ some d) q (get_elem?-set-some b.heap ch c d e))
            | inr differs ↦ rw differs (get_elem?-set_ne b.heap d (ne_of_test ch f differs))
          ],
          refl,
        )
  ]
