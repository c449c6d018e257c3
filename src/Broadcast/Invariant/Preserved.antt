-- ===== src/Broadcast/Invariant/Preserved.antt =====
-- Every call keeps the invariant of a broadcast, and no sequence of calls panics.
use api_poll.Prelude.{
  ℕ, ◌≤◌, ◌≡◌, refl, false, List, [], ◌∷◌, ◌++◌, some, arith, length, get_elem?, get_elem?-set_ne,
  set, inl, inr, ltb, subst, sym, ◌∙◌, ◌==◌, Option-cases, Bool-cases, if_cases,
}
use api_poll.Broadcast.{
  Broadcast, Reply, new_broadcast, follow_with, follow, follow_with_memory, send_all, send,
  close_all, close, unfollow, find_follower, drop_follower, fill, after_follow, memory_capacity,
}
use api_poll.Broadcast.Channel.{Chan, Heap, Outcome, fresh, close_on}
use api_poll.Broadcast.Channels.{
  count, count-append, IsOpen, get_elem?-append_left, get_elem?-append_last, get_elem?-append_one,
  get_elem?-lt, ne_of_test, get_elem?-set-some,
}
use api_poll.Broadcast.Safe.{
  Ends, >>=-Ends, IsBounded, Keeps, send_all-Keeps, fill-Keeps, Closes, close_on-Closes,
  close_all-IsBounded, set-IsBounded,
}
use api_poll.Broadcast.Unfollow.{count-drop_follower, find_follower-pos}
use api_poll.Broadcast.Invariant.{
  IsValid, Call, follows, follows_with, unfollows, sends, closes, receives, popped, receive,
  state_of, step, run,
}

module _ {A : Type 0} where
  new_broadcast-IsValid : (n : ℕ) → IsValid (new_broadcast {A = A} n)
  unfolding new_broadcast count
  new_broadcast-IsValid n = record {
    room = ground arith;
    distinct = λ f. omega arith;
    opened = λ f p. absurd (omega arith);
    bounded = λ f c e. cc;
    ended = λ e. cc;
  }

  -- A number that no `make` gave out is no follower.
  fresh-count : (b : Broadcast A) → IsValid b → count (length b.heap) b.followers ≡ 0
  fresh-count b inv = elim (Bool-cases (ltb 0 (count (length b.heap) b.followers))) [
    | inl pos ↦
        let (c, e, o) = inv.opened (length b.heap) (ground arith) in
        absurd (omega (arith, get_elem?-lt b.heap (length b.heap) c e))
    | inr none_left ↦ ground arith
  ]

  -- The state after a `follow` that succeeds.
  abbrev pub followed : ℕ → Broadcast A → Broadcast A
  followed n b = record b {
    followers = b.followers ++ length b.heap ∷ [];
    heap = b.heap ++ fresh n ∷ [];
  }

  pub followed-IsValid :
      (n : ℕ) (b : Broadcast A) → IsValid b → b.closed ≡ false → IsValid (followed n b)
  unfolding count
  followed-IsValid n b inv o = record {
    room = inv.room;
    distinct = λ f.
        ground (
          arith,
          count-append f b.followers (length b.heap ∷ []),
          inv.distinct f,
          fresh-count b inv,
        );
    opened = λ f p. elim (Bool-cases (length b.heap == f)) [
      | inl same ↦
          subst (IsOpen (b.heap ++ fresh n ∷ [])) (let q : length b.heap ≡ f = ground arith in q)
            (fresh n, get_elem?-append_last b.heap (fresh n), refl)
      | inr other ↦
          let (c, e, op) =
            inv.opened f (ground (arith, count-append f b.followers (length b.heap ∷ []))) in
          (c, get_elem?-append_left b.heap (fresh n ∷ []) f c e, op)
    ];
    bounded = λ f c e. elim (get_elem?-append_one b.heap (fresh n) c f e) [
      | inl old ↦ inv.bounded f c old
      | inr new ↦ subst (λ x. length x.buffer ≤ x.cap) new (omega arith)
    ];
    ended = λ e. cc;
  }

  follow_with-IsValid : (n : ℕ) (b : Broadcast A) → IsValid b → IsValid (follow_with n b).0
  unfolding follow_with
  follow_with-IsValid n b inv =
      if_cases {A = Broadcast A × Reply ℕ} (λ p. IsValid p.0) b.closed _ _ (λ _. inv)
        (λ o. followed-IsValid n b inv o)

  -- A heap that keeps open channels open and buffers bounded can take the old one's place.
  heap-IsValid :
      (b : Broadcast A) (h : Heap A) → IsValid b → Keeps b.heap h → IsValid (record b { heap = h })
  heap-IsValid b h inv k = record {
    room = inv.room;
    distinct = inv.distinct;
    opened = λ f p. k.opened f (inv.opened f p);
    bounded = k.bounded inv.bounded;
    ended = inv.ended;
  }

  send-IsValid : (v : A) (b : Broadcast A) → IsValid b → Ends IsValid (step (sends v) b)
  unfolding step send
  send-IsValid v b inv =
      if_cases {A = Outcome (Broadcast A × Reply (Unit {0}))} (λ m. Ends IsValid (state_of m))
        b.closed _ _ (λ _. inv)
        λ o.
          >>=-Ends {S = Broadcast A × Reply (Unit {0})} (λ p. IsValid p.0) IsValid _ _
            (>>=-Ends (Keeps b.heap) (λ p. IsValid p.0) (send_all b.followers v b.heap) _
              (send_all-Keeps b.followers v b.heap inv.opened) (λ h k. heap-IsValid b h inv k))
            (λ p q. q)

  close-IsValid : (b : Broadcast A) → IsValid b → Ends IsValid (close b)
  unfolding close count
  close-IsValid b inv =
      if_cases (Ends IsValid) b.closed _ _ (λ _. inv)
        λ o.
          >>=-Ends IsBounded IsValid (close_all b.followers b.heap) _
            (close_all-IsBounded b.followers b.heap inv.distinct inv.opened inv.bounded)
            λ h k. record {
              room = inv.room;
              distinct = λ f. omega arith;
              opened = λ f p. absurd (omega arith);
              bounded = k;
              ended = λ e. refl;
            }

  unfollow-IsValid : (ch : ℕ) (b : Broadcast A) → IsValid b → Ends IsValid (step (unfollows ch) b)
  unfolding step unfollow drop_follower
  unfollow-IsValid ch b inv = elim (Option-cases (find_follower ch b.followers)) [
    | inl missing ↦ rw (missing, unfollow) inv
    | inr (i, at_i) ↦
        rw (at_i, unfollow)
          (>>=-Ends (λ p. IsValid p.0) IsValid _ _
            (>>=-Ends (Closes ch b.heap) (λ p. IsValid p.0) (close_on ch b.heap) _
              (close_on-Closes ch b.heap inv.bounded
                (inv.opened ch (find_follower-pos ch b.followers i at_i)))
              (λ h k. left_out ch i h at_i k))
            (λ p q. q))
  ]
    where
      left_out :
          (ch i : ℕ) (h : Heap A)
          → find_follower ch b.followers ≡ some i
          → Closes ch b.heap h
          → IsValid (record b { followers = drop_follower i b.followers; heap = h })
      left_out ch i h at_i k = record {
        room = inv.room;
        distinct = λ f. ground (arith, inv.distinct f, count-drop_follower ch b.followers i f at_i);
        opened = λ f p.
            k.others f (ground (arith, inv.distinct f, count-drop_follower ch b.followers i f at_i))
              (inv.opened f (ground (arith, count-drop_follower ch b.followers i f at_i)));
        bounded = k.bounded inv.bounded;
        ended = λ e. subst (λ fs. drop_follower i fs ≡ []) (sym (inv.ended e)) refl;
      }

  length-popped : (c : Chan A) → length c.buffer ≤ c.cap → length (popped c).buffer ≤ c.cap
  length-popped c le = shorter c.buffer le
    where
      shorter :
          (vs : List A)
          → length vs ≤ c.cap
          → length (let r : List A = elim vs [ [] ↦ [] | w ∷ ws ↦ ws ] in r) ≤ c.cap
      shorter [] h = h
      shorter (w ∷ ws) h = omega arith

  receive-IsValid : (ch : ℕ) (b : Broadcast A) → IsValid b → IsValid (receive ch b)
  unfolding receive
  receive-IsValid ch b inv = elim (Option-cases (get_elem? b.heap ch)) [
    | inl absent ↦ rw (absent, receive) inv
    | inr (c, e) ↦
        rw (e, receive)
          (heap-IsValid b _ inv (record {
            opened = λ g o. set-popped g c e o;
            bounded = set-IsBounded b.heap ch c (popped c) e (length-popped c (inv.bounded ch c e));
          }))
  ]
    where
      set-popped :
          (g : ℕ) (c : Chan A)
          → get_elem? b.heap ch ≡ some c
          → IsOpen b.heap g
          → IsOpen (set b.heap ch (popped c)) g
      set-popped g c e (x, at_g, o) = elim (Bool-cases (ch == g)) [
        | inl same ↦
            let q : ch ≡ g = ground arith in
            let p : some c ≡ some x = sym (subst (λ k. get_elem? b.heap k ≡ some c) q e) ∙ at_g in
            (
              popped c,
              subst (λ k. get_elem? (set b.heap ch (popped c)) k ≡ some (popped c)) q
                  (get_elem?-set-some b.heap ch c (popped c) e),
              ground arith,
            )
        | inr other ↦ (x, get_elem?-set_ne b.heap _ (ne_of_test ch g other) ∙ at_g, o)
      ]

  follow_with_memory-IsValid :
      (memory : List A) (b : Broadcast A) → IsValid b → Ends IsValid (step (follows_with memory) b)
  unfolding step follow_with_memory
  follow_with_memory-IsValid memory b inv =
      let n = memory_capacity b memory in
      let h = b.heap ++ fresh n ∷ [] in
      if_cases (λ p. Ends IsValid (state_of (after_follow memory p))) b.closed _ _ (λ _. inv)
        λ o.
          >>=-Ends (λ p. IsValid p.0) IsValid _ _
            (>>=-Ends IsValid (λ p. IsValid p.0) _ _
              (>>=-Ends (Keeps h) IsValid (fill (length b.heap) memory h) _
                (fill-Keeps (length b.heap) memory h
                  (fresh n, get_elem?-append_last b.heap (fresh n), refl))
                (λ k kept. heap-IsValid _ k (followed-IsValid n b inv o) kept))
              (λ b' v. v))
            (λ p q. q)

  pub step-IsValid : (c : Call A) (b : Broadcast A) → IsValid b → Ends IsValid (step c b)
  unfolding step follow
  step-IsValid follows b inv = follow_with-IsValid b.capacity b inv
  step-IsValid (follows_with memory) b inv = follow_with_memory-IsValid memory b inv
  step-IsValid (unfollows ch) b inv = unfollow-IsValid ch b inv
  step-IsValid (sends v) b inv = send-IsValid v b inv
  step-IsValid closes b inv = close-IsValid b inv
  step-IsValid (receives ch) b inv = receive-IsValid ch b inv

  run-IsValid : (cs : List (Call A)) (b : Broadcast A) → IsValid b → Ends IsValid (run cs b)
  unfolding run
  run-IsValid [] b inv = inv
  run-IsValid (c ∷ cs) b inv =
      >>=-Ends IsValid IsValid (step c b) (run cs) (step-IsValid c b inv) (run-IsValid cs)

-- From a new broadcast, no sequence of calls and receives, each made after the one before it has
-- returned, panics by a send on a closed channel or a second close; and in every state that such a
-- sequence reaches the followers are distinct open channels, no buffer exceeds its capacity, and a
-- closed broadcast has no followers.
pub run-new_broadcast :
    {A : Type 0} (n : ℕ) (cs : List (Call A)) → Ends IsValid (run cs (new_broadcast n))
run-new_broadcast n cs = run-IsValid cs (new_broadcast n) (new_broadcast-IsValid n)
