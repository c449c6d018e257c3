-- ===== src/Broadcast/Delivery.antt =====
-- Where a value goes: `Send` on every branch.
use api_poll.Prelude.{
  ℕ, ◌≤◌, ◌<◌, ◌≡◌, refl, false, List, [], ◌∷◌, some, arith, length, get_elem?, set,
  get_elem?-set_ne, ltb, inl, inr, ◌==◌, Bool-cases, ◌∙◌, subst, if◌then◌else◌,
}
use mathlib.Core.Option
use api_poll.Broadcast.{Broadcast, returns, send, send_all}
use api_poll.Broadcast.Invariant.{IsValid}
use api_poll.Broadcast.Channel.{Chan, Heap, done, waits, pushed, send_on}
use api_poll.Broadcast.Channels.{
  count, IsOpen, send_on_open, get_elem?-set-some, ne_of_test, set-IsOpen,
}

module _ {A : Type 0} where
  -- Channel `f` is open and can take a value at once.
  abbrev pub HasRoom : Heap A → ℕ → Type 0
  HasRoom h f =
      (c : Chan A) × (get_elem? h f ≡ some c) × (c.shut ≡ false) × (length c.buffer < c.cap)

  -- Channel `f` is open and full.
  abbrev pub IsFull : Heap A → ℕ → Type 0
  IsFull h f =
      (c : Chan A) × (get_elem? h f ≡ some c) × (c.shut ≡ false) × (c.cap ≤ length c.buffer)

  -- Each channel of the list got `v` once, behind what it held, and no other channel changed.
  abbrev pub Delivers : List ℕ → A → Heap A → Heap A → Type 0
  Delivers fs v h h' =
      (j : ℕ)
      → get_elem? h' j
        ≡ (if ltb 0 (count j fs) then Option.map (pushed v) (get_elem? h j) else get_elem? h j)

  send_on-HasRoom :
      (f : ℕ) (v : A) (h : Heap A)
      → HasRoom h f
      → (h' : Heap A) × (send_on f v h ≡ done h') × Delivers (f ∷ []) v h h'
  unfolding send_on count
  send_on-HasRoom f v h (c, e, o, room) = (
    set h f (pushed v c),
    ground arith,
    λ j. elim (Bool-cases (f == j)) [
      | inl same ↦
          let p : f ≡ j = ground arith in
          let q =
            subst (λ k. get_elem? (set h f (pushed v c)) k ≡ some (pushed v c)) p
              (get_elem?-set-some h f c (pushed v c) e) in
          let at_j = subst (λ k. get_elem? h k ≡ some c) p e in rw (same, q, at_j) refl
      | inr other ↦ rw (other, get_elem?-set_ne h (pushed v c) (ne_of_test f j other)) refl
    ],
  )

  keeps_room :
      (f : ℕ) (fs : List ℕ) (v : A) (h h' : Heap A)
      → count f fs ≡ 0
      → Delivers (f ∷ []) v h h'
      → ((g : ℕ) → 0 < count g fs → HasRoom h g)
      → (g : ℕ) → 0 < count g fs
      → HasRoom h' g
  unfolding count
  keeps_room f fs v h h' out d room g p = elim (Bool-cases (f == g)) [
    | inl same ↦ let q : f ≡ g = ground arith in absurd (ground arith)
    | inr other ↦ let (c, e, o, lt) = room g p in (c, d g ∙ rw other e, o, lt)
  ]

  Delivers-cons :
      (f : ℕ) (fs : List ℕ) (v : A) (h k h' : Heap A)
      → count f fs ≡ 0
      → Delivers (f ∷ []) v h k
      → Delivers fs v k h'
      → Delivers (f ∷ fs) v h h'
  unfolding count
  Delivers-cons f fs v h k h' out d d' j = elim (Bool-cases (f == j)) [
    | inl same ↦
        let p : count j fs ≡ 0 =
          subst (λ x. count x fs ≡ 0) (let q : f ≡ j = ground arith in q) out in
        d' j ∙ rw p (d j ∙ rw same refl)
    | inr other ↦ d' j ∙ rw (d j) (rw other refl)
  ]

  send_on-IsFull : (f : ℕ) (v : A) (h : Heap A) → IsFull h f → send_on f v h ≡ waits
  unfolding send_on
  send_on-IsFull f v h (c, e, o, full) = ground arith

  send_all-HasRoom :
      (fs : List ℕ) (v : A) (h : Heap A)
      → ((f : ℕ) → count f fs ≤ 1)
      → ((f : ℕ) → 0 < count f fs → HasRoom h f)
      → (h' : Heap A) × (send_all fs v h ≡ done h') × Delivers fs v h h'
  unfolding send_all count
  send_all-HasRoom [] v h once room = (h, refl, λ j. refl)
  send_all-HasRoom (f ∷ fs) v h once room =
      let (k, sent, d) = send_on-HasRoom f v h (room f (ground arith)) in
      let out : count f fs ≡ 0 = ground (arith, once f) in
      let (h', rest, d') =
        send_all-HasRoom fs v k (λ g. ground (arith, once g))
          (keeps_room f fs v h k out d (λ g p. room g (ground arith))) in
      (h', rw sent rest, Delivers-cons f fs v h k h' out d d')

  -- A full follower anywhere in the list stops the loop, whatever the others can take.
  send_all-IsFull :
      (fs : List ℕ) (v : A) (h : Heap A) (slow : ℕ)
      → ((f : ℕ) → count f fs ≤ 1)
      → ((f : ℕ) → 0 < count f fs → IsOpen h f)
      → 0 < count slow fs
      → IsFull h slow
      → send_all fs v h ≡ waits
  unfolding send_all count
  send_all-IsFull [] v h slow once open_all p full = absurd (omega arith)
  send_all-IsFull (f ∷ fs) v h slow once open_all p full = elim (Bool-cases (f == slow)) [
    | inl same ↦
        rw (send_on-IsFull f v h (subst (IsFull h) (let q : slow ≡ f = ground arith in q) full))
          refl
    | inr other ↦
        let (c, e, o) = open_all f (ground arith) in
        elim (send_on_open f v h c e o) [
          | inl (w, _) ↦ rw w refl
          | inr (sent, _) ↦
              let (d, at_slow, shut, fl) = full in
              rw sent (
                send_all-IsFull fs v (set h f (pushed v c)) slow (λ g. ground (arith, once g))
                  (λ g q. set-IsOpen h f g c (pushed v c) e o (open_all g (ground arith)))
                  (ground arith)
                  (
                    d,
                    get_elem?-set_ne h (pushed v c) (ne_of_test f slow other) ∙ at_slow,
                    shut,
                    fl,
                  ))
        ]
  ]

  -- Between calls, `Send` on an open broadcast whose followers all have room returns nil, appends the
  -- value once to every follower's channel, and changes no other channel, no follower and no flag.
  pub send-Delivers :
      (v : A) (b : Broadcast A)
      → IsValid b
      → b.closed ≡ false
      → ((f : ℕ) → 0 < count f b.followers → HasRoom b.heap f)
      → (h' : Heap A) × (send v b ≡ done (record b { heap = h' }, returns tt))
        × Delivers b.followers v b.heap h'
  unfolding send
  send-Delivers v b inv o room =
      let (h', sent, d) = send_all-HasRoom b.followers v b.heap inv.distinct room in
      (h', rw (o, sent) refl, d)

  -- Between calls, `Send` on an open broadcast waits, holding the mutex, as soon as the channel of
  -- one follower is full, whatever room the other followers have.
  pub send-waits :
      (v : A) (b : Broadcast A) (slow : ℕ)
      → IsValid b
      → b.closed ≡ false
      → 0 < count slow b.followers
      → IsFull b.heap slow
      → send v b ≡ waits
  unfolding send
  send-waits v b slow inv o p full =
      rw o (rw (send_all-IsFull b.followers v b.heap slow inv.distinct inv.opened p full) refl)
