-- ===== src/Broadcast/Memory.antt =====
-- `FollowWithMemory`: the room it asks for, and what a concurrent `Send` does between its halves.
use api_poll.Prelude.{
  ℕ, zero, suc, ◌+◌, ◌≤◌, ◌<◌, ◌≡◌, refl, false, List, [], ◌∷◌, ◌++◌, some, arith, length,
  get_elem?, set, append_assoc, append-nil, length-append, ◌∙◌, subst, inl, inr, Bool-cases, ◌==◌,
  lt→ltb,
}
use api_poll.Broadcast.{
  Broadcast, returns, follow_with, follow_with_memory, fill, fill_memory, memory_capacity, send,
}
use api_poll.Broadcast.Channel.{Chan, Heap, done, fresh, pushed, send_on}
use api_poll.Broadcast.Channels.{
  get_elem?-append_last, get_elem?-append_left, get_elem?-set-some, count, count-append,
}
use api_poll.Broadcast.Delivery.{HasRoom, Delivers, send-Delivers}
use api_poll.Broadcast.Invariant.{IsValid}
use api_poll.Broadcast.Invariant.Preserved.{followed, followed-IsValid}

module _ {A : Type 0} where
  abbrev pub holding : Chan A → List A → Chan A
  holding c vs = record c { buffer = vs }

  send_on_room :
      (f : ℕ) (v : A) (h : Heap A) (c : Chan A)
      → get_elem? h f ≡ some c
      → c.shut ≡ false
      → length c.buffer < c.cap
      → send_on f v h ≡ done (set h f (pushed v c))
  unfolding send_on
  send_on_room f v h c e o lt = ground arith

  set-set : (h : Heap A) (f : ℕ) (c d : Chan A) → set (set h f c) f d ≡ set h f d
  set-set [] f c d = refl
  set-set (x ∷ h) zero c d = refl
  set-set (x ∷ h) (suc f) c d = rw (set-set h f c d)

  set_self : (h : Heap A) (f : ℕ) (c : Chan A) → get_elem? h f ≡ some c → set h f c ≡ h
  set_self [] f c e = refl
  set_self (x ∷ h) zero c e = ground arith
  set_self (x ∷ h) (suc f) c e = rw (set_self h f c e)

  -- A channel with room for the whole list takes it without waiting, in order.
  fill_room :
      (f : ℕ) (vs : List A) (h : Heap A) (c : Chan A)
      → get_elem? h f ≡ some c
      → c.shut ≡ false
      → length c.buffer + length vs ≤ c.cap
      → fill f vs h ≡ done (set h f (holding c (c.buffer ++ vs)))
  unfolding fill
  fill_room f [] h c e o le = rw append-nil (rw (set_self h f c e) refl)
  fill_room f (v ∷ vs) h c e o le = rw (send_on_room f v h c e o (omega arith)) (
      fill_room f vs (set h f (pushed v c)) (pushed v c) (get_elem?-set-some h f c (pushed v c) e) o
        (omega (arith, length-append c.buffer (v ∷ [])))
      ∙ rw (set-set, append_assoc) refl)

  set-append_last : (h : Heap A) (c d : Chan A) → set (h ++ c ∷ []) (length h) d ≡ h ++ d ∷ []
  set-append_last [] c d = refl
  set-append_last (x ∷ h) c d = rw (set-append_last h c d)

  memory_fits : (b : Broadcast A) (memory : List A) → length memory + 1 ≤ memory_capacity b memory
  unfolding memory_capacity
  memory_fits b memory = omega arith

  -- With no call between its halves, `FollowWithMemory` on an open broadcast returns without waiting;
  -- the new follower's channel holds the whole memory in order, and nothing else has changed.
  pub follow_with_memory_total :
      (memory : List A) (b : Broadcast A)
      → b.closed ≡ false
      → follow_with_memory memory b
        ≡ done (
          record b {
            followers = b.followers ++ length b.heap ∷ [];
            heap = b.heap ++ holding (fresh (memory_capacity b memory)) memory ∷ [];
          },
          returns (length b.heap),
        )
  unfolding follow_with_memory
  follow_with_memory_total memory b o =
      let c = fresh (memory_capacity b memory) in
      simp o (
        rw
          (fill_room (length b.heap) memory (b.heap ++ c ∷ []) c (get_elem?-append_last b.heap c)
            refl (omega (arith, memory_fits b memory)))
          (rw (set-append_last b.heap c (holding c memory)) refl))

  room_after_follow :
      (b : Broadcast A) (c : Chan A)
      → c.shut ≡ false
      → length c.buffer < c.cap
      → ((f : ℕ) → 0 < count f b.followers → HasRoom b.heap f)
      → (f : ℕ) → 0 < count f (b.followers ++ length b.heap ∷ [])
      → HasRoom (b.heap ++ c ∷ []) f
  unfolding count
  room_after_follow b c o lt room f p = elim (Bool-cases (length b.heap == f)) [
    | inl same ↦
        subst (HasRoom (b.heap ++ c ∷ [])) (let q : length b.heap ≡ f = ground arith in q)
          (c, get_elem?-append_last b.heap c, o, lt)
    | inr other ↦
        let (d, e, od, ltd) =
          room f (ground (arith, count-append f b.followers (length b.heap ∷ []))) in
        (d, get_elem?-append_left b.heap (c ∷ []) f d e, od, ltd)
  ]

  new_gets :
      (v : A) (b : Broadcast A) (c : Chan A) (h : Heap A)
      → Delivers (b.followers ++ length b.heap ∷ []) v (b.heap ++ c ∷ []) h
      → get_elem? h (length b.heap) ≡ some (pushed v c)
  unfolding count
  new_gets v b c h d =
      d (length b.heap)
      ∙ rw
          (lt→ltb 0 (count (length b.heap) (b.followers ++ length b.heap ∷ []))
            (ground (arith, count-append (length b.heap) b.followers (length b.heap ∷ []))))
          (rw (get_elem?-append_last b.heap c) refl)

  -- The order can break: a `Send` that gets the mutex between the halves of `FollowWithMemory`, on a
  -- broadcast whose followers have room, puts its value before the whole memory in the new channel.
  pub send-overtakes-memory :
      (memory : List A) (v : A) (b : Broadcast A)
      → IsValid b
      → b.closed ≡ false
      → ((f : ℕ) → 0 < count f b.followers → HasRoom b.heap f)
      → (b' : Broadcast A) × (h : Heap A) × (follow_with (memory_capacity b memory) b
          ≡ (b', returns (length b.heap)))
        × (send v b' ≡ done (record b' { heap = h }, returns tt))
        × (fill_memory (length b.heap) memory (record b' { heap = h })
            ≡ done (record b' {
              heap =
                  set h (length b.heap) (holding (fresh (memory_capacity b memory)) (v ∷ memory));
            }))
  unfolding follow_with fill_memory
  send-overtakes-memory memory v b inv o room =
      let n = memory_capacity b memory in
      let c = fresh n in
      let b' = followed n b in
      let (h, sent, d) =
        send-Delivers v b' (followed-IsValid n b inv o) o
          (room_after_follow b c refl (omega (arith, memory_fits b memory)) room) in
      let at_new = new_gets v b c h d in
      (
        b',
        h,
        simp o refl,
        sent,
        rw
            (fill_room (length b.heap) memory h (pushed v c) at_new refl
              (omega (arith, memory_fits b memory)))
            refl,
      )
