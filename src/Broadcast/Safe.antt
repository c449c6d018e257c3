-- ===== src/Broadcast/Safe.antt =====
-- Sends and closes on open channels do not panic, and what they keep of the heap.
use api_poll.Prelude.{
  ℕ, ◌≤◌, ◌<◌, ◌≡◌, true, false, List, [], ◌∷◌, some, arith, length, get_elem?, set,
  get_elem?-set_ne, length-append, inl, inr, ◌==◌, Bool-cases, some, subst, sym, ◌∙◌,
}
use api_poll.Broadcast.{send_all, close_all, fill}
use api_poll.Broadcast.Channel.{
  Chan, Heap, Outcome, done, waits, panicked, ◌>>=◌, pushed, send_on, close_on,
}
use api_poll.Broadcast.Channels.{
  count, IsOpen, send_on_open, close_on_open, set-IsOpen, get_elem?-set-some, ne_of_test,
}

-- A predicate on the state that an outcome leaves. A call that waits has not returned yet.
abbrev pub Ends : {S : Type 0} → (S → Type 0) → Outcome S → Type 0
Ends P (done s) = P s
Ends P waits = Unit
Ends P panicked = ⊥

pub >>=-Ends :
    {S T : Type 0} (P : S → Type 0) (Q : T → Type 0) (m : Outcome S) (f : S → Outcome T)
    → Ends P m
    → ((s : S) → P s → Ends Q (f s))
    → Ends Q (m >>= f)
>>=-Ends P Q (done s) f h k = k s h
>>=-Ends P Q waits f h k = tt
>>=-Ends P Q panicked f h k = absurd h

pub Ends-map :
    {S : Type 0} (P Q : S → Type 0) (m : Outcome S) → ((s : S) → P s → Q s) → Ends P m → Ends Q m
Ends-map P Q (done s) k h = k s h
Ends-map P Q waits k h = tt
Ends-map P Q panicked k h = h

module _ {A : Type 0} where
  -- No buffer holds more than its capacity.
  abbrev pub IsBounded : Heap A → Type 0
  IsBounded h = (f : ℕ) (c : Chan A) → get_elem? h f ≡ some c → length c.buffer ≤ c.cap

  pub set-IsBounded :
      (h : Heap A) (f : ℕ) (c d : Chan A)
      → get_elem? h f ≡ some c
      → length d.buffer ≤ d.cap
      → IsBounded h
      → IsBounded (set h f d)
  set-IsBounded h f c d e le b g x at_g = elim (Bool-cases (f == g)) [
    | inl same ↦
        let p : f ≡ g = ground arith in
        let q : some d ≡ some x =
          sym (subst (λ k. get_elem? (set h f d) k ≡ some d) p (get_elem?-set-some h f c d e))
          ∙ at_g in
        ground arith
    | inr other ↦ b g x (sym (get_elem?-set_ne h d (ne_of_test f g other)) ∙ at_g)
  ]

  -- What a run of sends leaves as it was.
  pub record Keeps (h h' : Heap A) : Type 0 where
    pub opened : (g : ℕ) → IsOpen h g → IsOpen h' g
    pub bounded : IsBounded h → IsBounded h'

  Keeps-refl : (h : Heap A) → Keeps h h
  Keeps-refl h = record { opened = λ g o. o; bounded = λ b. b }

  Keeps-trans : (h k l : Heap A) → Keeps h k → Keeps k l → Keeps h l
  Keeps-trans h k l p q = record {
    opened = λ g o. q.opened g (p.opened g o);
    bounded = λ b. q.bounded (p.bounded b);
  }

  length-pushed :
      (v : A) (c : Chan A) → length c.buffer < c.cap → length (pushed v c).buffer ≤ c.cap
  length-pushed v c h = omega (arith, length-append c.buffer (v ∷ []))

  send_on-Keeps : (f : ℕ) (v : A) (h : Heap A) → IsOpen h f → Ends (Keeps h) (send_on f v h)
  send_on-Keeps f v h (c, e, o) = elim (send_on_open f v h c e o) [
    | inl (w, _) ↦ rw w tt
    | inr (d, room) ↦ rw d (record {
      opened = λ g. set-IsOpen h f g c (pushed v c) e o;
      bounded = set-IsBounded h f c (pushed v c) e (length-pushed v c room);
    })
  ]

  pub send_all-Keeps :
      (fs : List ℕ) (v : A) (h : Heap A)
      → ((f : ℕ) → 0 < count f fs → IsOpen h f)
      → Ends (Keeps h) (send_all fs v h)
  unfolding send_all count
  send_all-Keeps [] v h o = Keeps-refl h
  send_all-Keeps (f ∷ fs) v h o =
      >>=-Ends (Keeps h) (Keeps h) (send_on f v h) (send_all fs v)
        (send_on-Keeps f v h (o f (ground arith)))
        λ h' k.
          Ends-map (Keeps h') (Keeps h) (send_all fs v h') (λ l. Keeps-trans h h' l k)
            (send_all-Keeps fs v h' (λ g p. k.opened g (o g (ground arith))))

  pub fill-Keeps : (f : ℕ) (vs : List A) (h : Heap A) → IsOpen h f → Ends (Keeps h) (fill f vs h)
  unfolding fill
  fill-Keeps f [] h o = Keeps-refl h
  fill-Keeps f (v ∷ vs) h o =
      >>=-Ends (Keeps h) (Keeps h) (send_on f v h) (fill f vs) (send_on-Keeps f v h o) λ h' k.
        Ends-map (Keeps h') (Keeps h) (fill f vs h') (λ l. Keeps-trans h h' l k)
          (fill-Keeps f vs h' (k.opened f o))

  -- Closing one channel keeps the others open.
  pub record Closes (f : ℕ) (h h' : Heap A) : Type 0 where
    pub others : (g : ℕ) → (f == g) ≡ false → IsOpen h g → IsOpen h' g
    pub bounded : IsBounded h → IsBounded h'

  pub close_on-Closes :
      (f : ℕ) (h : Heap A) → IsBounded h → IsOpen h f → Ends (Closes f h) (close_on f h)
  close_on-Closes f h b (c, e, o) = rw (close_on_open f h c e o) (record {
    others = λ g ne (x, at_g, open_g). (x, get_elem?-set_ne h _ (ne_of_test f g ne) ∙ at_g, open_g);
    bounded = set-IsBounded h f c (record c { shut = true }) e (b f c e);
  })

  pub close_all-IsBounded :
      (fs : List ℕ) (h : Heap A)
      → ((f : ℕ) → count f fs ≤ 1)
      → ((f : ℕ) → 0 < count f fs → IsOpen h f)
      → IsBounded h
      → Ends IsBounded (close_all fs h)
  unfolding close_all count
  close_all-IsBounded [] h once o b = b
  close_all-IsBounded (f ∷ fs) h once o b =
      >>=-Ends (Closes f h) IsBounded (close_on f h) (close_all fs)
        (close_on-Closes f h b (o f (ground arith)))
        λ h' k.
          close_all-IsBounded fs h' (λ g. ground (arith, once g))
            (λ g p. k.others g (ground (arith, once g)) (o g (ground arith))) (k.bounded b)
