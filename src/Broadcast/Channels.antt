-- ===== src/Broadcast/Channels.antt =====
-- Facts about the heap of channels and about lists of channel numbers.
use api_poll.Prelude.{
  ℕ, zero, suc, ◌+◌, ◌≤◌, ◌<◌, ◌≡◌, refl, ◌≢◌, true, false, List, [], ◌∷◌, ◌++◌, some, arith,
  length, get_elem?, set, ◌==◌, ◌⊎◌, inl, inr, subst, get_elem?-set_ne, if◌then◌else◌, Bool-cases,
}
use api_poll.Broadcast.Channel.{Chan, Heap, done, waits, pushed, send_on, close_on}

-- How often a number stands in a list.
unfoldable pub count : ℕ → List ℕ → ℕ
count j [] = 0
count j (f ∷ fs) = if f == j then suc (count j fs) else count j fs

pub count-append : (j : ℕ) (fs gs : List ℕ) → count j (fs ++ gs) ≡ count j fs + count j gs
unfolding count
count-append j [] gs = omega arith
count-append j (f ∷ fs) gs = ground (arith, count-append j fs gs)

module _ {ℓ} {A : Type ℓ} where
  pub get_elem?-set-some :
      (h : List A) (f : ℕ) (c d : A) → get_elem? h f ≡ some c → get_elem? (set h f d) f ≡ some d
  get_elem?-set-some [] f c d e = cc
  get_elem?-set-some (x ∷ h) zero c d e = refl
  get_elem?-set-some (x ∷ h) (suc f) c d e = get_elem?-set-some h f c d e

  pub get_elem?-append_left :
      (h k : List A) (f : ℕ) (c : A) → get_elem? h f ≡ some c → get_elem? (h ++ k) f ≡ some c
  get_elem?-append_left [] k f c e = cc
  get_elem?-append_left (x ∷ h) k zero c e = e
  get_elem?-append_left (x ∷ h) k (suc f) c e = get_elem?-append_left h k f c e

  pub get_elem?-append_last : (h : List A) (c : A) → get_elem? (h ++ c ∷ []) (length h) ≡ some c
  get_elem?-append_last [] c = refl
  get_elem?-append_last (x ∷ h) c = get_elem?-append_last h c

  pub get_elem?-lt : (h : List A) (f : ℕ) (c : A) → get_elem? h f ≡ some c → f < length h
  get_elem?-lt [] f c e = cc
  get_elem?-lt (x ∷ h) zero c e = omega arith
  get_elem?-lt (x ∷ h) (suc f) c e = omega (arith, get_elem?-lt h f c e)

  -- A new entry is the only one that an append adds.
  pub get_elem?-append_one :
      (h : List A) (c d : A) (f : ℕ)
      → get_elem? (h ++ c ∷ []) f ≡ some d
      → (get_elem? h f ≡ some d) ⊎ (c ≡ d)
  get_elem?-append_one [] c d zero e = inr (ground arith)
  get_elem?-append_one [] c d (suc f) e = cc
  get_elem?-append_one (x ∷ h) c d zero e = inl e
  get_elem?-append_one (x ∷ h) c d (suc f) e = get_elem?-append_one h c d f e

-- Channel `f` exists and is open.
abbrev pub IsOpen {ℓ} : {A : Type ℓ} → Heap A → ℕ → Type ℓ
IsOpen h f = (c : Chan _) × (get_elem? h f ≡ some c) × (c.shut ≡ false)

pub ne_of_test : (f j : ℕ) → (f == j) ≡ false → f ≢ j
ne_of_test f j h e = ground arith

module _ {A : Type 0} where
  -- The two ends of a send on an open channel.
  pub send_on_open :
      (f : ℕ) (v : A) (h : Heap A) (c : Chan A)
      → get_elem? h f ≡ some c
      → c.shut ≡ false
      → ((send_on f v h ≡ waits) × (c.cap ≤ length c.buffer))
        ⊎ ((send_on f v h ≡ done (set h f (pushed v c))) × (length c.buffer < c.cap))
  unfolding send_on
  send_on_open f v h c e o = ground arith

  pub close_on_open :
      (f : ℕ) (h : Heap A) (c : Chan A)
      → get_elem? h f ≡ some c
      → c.shut ≡ false
      → close_on f h ≡ done (set h f (record c { shut = true }))
  unfolding close_on
  close_on_open f h c e o = ground arith

  -- Writing an open channel's entry leaves the open channels open, if the new entry is.
  pub set-IsOpen :
      (h : Heap A) (f j : ℕ) (c d : Chan A)
      → get_elem? h f ≡ some c
      → d.shut ≡ false
      → IsOpen h j
      → IsOpen (set h f d) j
  set-IsOpen h f j c d e o (x, at_j, open_j) = elim (Bool-cases (f == j)) [
    | inl same ↦
        let p : f ≡ j = ground arith in
        (d, subst (λ k. get_elem? (set h f d) k ≡ some d) p (get_elem?-set-some h f c d e), o)
    | inr other ↦ (x, rw (get_elem?-set_ne h d (ne_of_test f j other)) at_j, open_j)
  ]
