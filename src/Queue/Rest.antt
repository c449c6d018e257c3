-- ===== src/Queue/Rest.antt =====
-- The rest that a group of clients gets between two polls.
use api_poll.Prelude.{
  ℕ, ◌+◌, ◌≤◌, ◌<◌, ◌≡◌, refl, List, [], ◌∷◌, ◌++◌, none, some, arith, length, ap, ◌∙◌, sym,
  append-nil, append_assoc,
}
use api_poll.Queue.{Member, Pool, Acquired, acquire, release}

module _ {A : Type 0} where
  -- A client of a poll is used from the instant that `Acquire` returns.
  abbrev pub used_at : Acquired A → ℕ
  used_at a = a.acquired_at + a.slept

  -- The pool with one more group in front.
  abbrev pub with_first : Member A → Pool A → Pool A
  with_first m q = record q { members = m ∷ q.members }

  -- `Acquire` takes the group that has waited longest, never more than the rest interval after it was
  -- asked, and not before the rest interval has passed since the instant that was stored with the group.
  pub acquire-rests :
      (now : ℕ) (m : Member A) (q : Pool A)
      → m.last_acquired_at ≤ now
      → (a : Acquired A) × (acquire now (with_first m q) ≡ some (a, q))
        × (a.clients ≡ m.clients)
        × (m.last_acquired_at + q.client_rest_interval ≤ used_at a)
        × (now ≤ used_at a)
        × (used_at a ≤ now + q.client_rest_interval)
  unfolding acquire
  acquire-rests now m q h = (_, refl, refl, ground arith, ground arith, ground arith)

  abbrev pub alone : Member A → ℕ → Pool A
  alone m interval = record { members = m ∷ []; client_rest_interval = interval }

  -- The instant that a release stores is that of the call of `Acquire`, from before its sleep: a group
  -- that has to sleep, is released, and is asked for again within the interval after the first call, is
  -- used again earlier than the rest interval after its first use, by as much as it had slept.
  pub rest_cut_short :
      (now later interval : ℕ) (m : Member A)
      → m.last_acquired_at ≤ now
      → now < m.last_acquired_at + interval
      → m.last_acquired_at + interval ≤ later
      → later ≤ now + interval
      → (a b : Acquired A) × (p q : Pool A) × (acquire now (alone m interval) ≡ some (a, p))
        × (acquire later (release a p) ≡ some (b, q))
        × (b.clients ≡ m.clients)
        × (used_at b + a.slept ≡ used_at a + interval)
        × (0 < a.slept)
  unfolding acquire release
  rest_cut_short now later interval m h1 h2 h3 h4 =
      (_, _, _, _, refl, refl, refl, ground arith, ground arith)

  -- One group taken and given back.
  rotate : ℕ → Pool A → Pool A
  unfolding acquire release
  rotate now q = elim (acquire now q) [ none ↦ q | some r ↦ release r.0 r.1 ]

  pub rotate_all : List ℕ → Pool A → Pool A
  rotate_all [] q = q
  rotate_all (t ∷ ts) q = rotate_all ts (rotate t q)

  abbrev pub groups : List (Member A) → List (List A)
  groups [] = []
  groups (m ∷ ms) = m.clients ∷ groups ms

  groups-append : (ms ns : List (Member A)) → groups (ms ++ ns) ≡ groups ms ++ groups ns
  groups-append [] ns = refl
  groups-append (m ∷ ms) ns = ap (λ gs. m.clients ∷ gs) (groups-append ms ns)

  rotate_turns :
      (ts : List ℕ) (ms back : List (Member A)) (interval : ℕ)
      → length ts ≡ length ms
      → groups
          (rotate_all ts (record { members = ms ++ back; client_rest_interval = interval })).members
        ≡ groups back ++ groups ms
  unfolding rotate rotate_all release
  rotate_turns [] [] back interval h = sym (append-nil (groups back))
  rotate_turns [] (m ∷ ms) back interval h = let no : ⊥ = omega (arith, h) in elim no [ ]
  rotate_turns (t ∷ ts) [] back interval h = let no : ⊥ = omega (arith, h) in elim no [ ]
  rotate_turns (t ∷ ts) (m ∷ ms) back interval h =
      let m' : Member A = record { clients = m.clients; last_acquired_at = t } in
      ap
        (λ l.
          groups (rotate_all ts (record { members = l; client_rest_interval = interval })).members)
        (append_assoc ms back (m' ∷ []))
      ∙ rotate_turns ts ms (back ++ m' ∷ []) interval (omega (arith, h))
      ∙ ap (λ gs. gs ++ groups ms) (groups-append back (m' ∷ []))
      ∙ append_assoc (groups back) (m.clients ∷ []) (groups ms)

  -- When as many groups are acquired and released, one after another, as the pool has, whatever the
  -- instants, every group has had its turn: the queue has the same groups in the same order.
  pub rotate_all_lem :
      (ts : List ℕ) (q : Pool A)
      → length ts ≡ length q.members
      → groups (rotate_all ts q).members ≡ groups q.members
  rotate_all_lem ts q h =
      ap
        (λ l.
          groups
            (rotate_all ts
              (record { members = l; client_rest_interval = q.client_rest_interval })).members)
        (sym (append-nil q.members))
      ∙ rotate_turns ts q.members [] q.client_rest_interval h
