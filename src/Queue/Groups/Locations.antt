-- ===== src/Queue/Groups/Locations.antt =====
-- No group has two clients of one location.
use api_poll.Prelude.{
  sum_of, sum_of-append, ℕ, zero, suc, ◌+◌, ◌≤◌, ◌≡◌, refl, Bool, true, false, List, [], ◌∷◌,
  Option, none, some, Bytes, bytes_eq, bytes_eq→eq, bytes_eq_self, bytes_eq_sym, length, arith,
  if_cases, ◌∙◌, ap, not, Bool-cases, inl, inr, subst, sym, ◌*◌,
}
use api_poll.Queue.{
  Entry, ByLocation, add_client, taken, left, put_group, groups_of, location_of, by_location,
  new_groups,
}
use api_poll.Queue.Groups.{Order, Visits}

abbrev pub tally : Bool → ℕ
tally true = 1
tally false = 0

module _ {A : Type 0} (loc : A → Bytes) where
  -- How many of the clients are at a location.
  abbrev pub at : Bytes → A → ℕ
  at l c = tally (bytes_eq (loc c) l)

  -- Whether an entry is the location's, and how many of its clients are elsewhere.
  abbrev keyed : Bytes → Entry A → ℕ
  keyed l e = tally (bytes_eq e.0 l)

  abbrev stray : Entry A → ℕ
  stray e = sum_of (λ c. tally (not (bytes_eq (loc c) e.0))) e.1

  taken-at :
      (l : Bytes) (m : ByLocation A) → sum_of (at l) (taken m) ≤ sum_of (keyed l) m + sum_of stray m
  unfolding sum_of taken
  taken-at l [] = omega arith
  taken-at l ((k, []) ∷ m) = omega (arith, taken-at l m)
  taken-at l ((k, c ∷ cs) ∷ m) = elim (Bool-cases (bytes_eq (loc c) k)) [
    | inl same ↦
        let e : at l c ≡ tally (bytes_eq k l) =
          ap (λ x. tally (bytes_eq x l)) (bytes_eq→eq (loc c) k same) in
        omega (arith, taken-at l m, e)
    | inr other ↦
        let e : tally (not (bytes_eq (loc c) k)) ≡ 1 = ap (λ x. tally (not x)) other in
        let b : at l c ≤ 1 = tally_bound (bytes_eq (loc c) l) in omega (arith, taken-at l m, e, b)
  ]
    where
      tally_bound : (b : Bool) → tally b ≤ 1
      tally_bound true = omega arith
      tally_bound false = omega arith

  left-keyed : (l : Bytes) (m : ByLocation A) → sum_of (keyed l) (left m) ≤ sum_of (keyed l) m
  unfolding sum_of left
  left-keyed l [] = omega arith
  left-keyed l ((k, []) ∷ m) = omega (arith, left-keyed l m)
  left-keyed l ((k, c ∷ cs) ∷ m) = omega (arith, left-keyed l m)

  left-stray : (m : ByLocation A) → sum_of stray (left m) ≤ sum_of stray m
  unfolding sum_of left
  left-stray [] = omega arith
  left-stray ((k, []) ∷ m) = omega (arith, left-stray m)
  left-stray ((k, c ∷ cs) ∷ m) = omega (arith, left-stray m)

  -- Every group of a list has at most one client at each location.
  abbrev pub Spread : List (List A) → Type 0
  Spread [] = Unit
  Spread (g ∷ gs) = ((l : Bytes) → sum_of (at l) g ≤ 1) × Spread gs

  abbrev SpreadIfEnded : Option (List (List A)) → Type 0
  SpreadIfEnded none = Unit
  SpreadIfEnded (some gs) = Spread gs

  put_group-SpreadIfEnded :
      (group : List A) (groups : Option (List (List A)))
      → ((l : Bytes) → sum_of (at l) group ≤ 1)
      → SpreadIfEnded groups
      → SpreadIfEnded (put_group group groups)
  put_group-SpreadIfEnded group none one s = tt
  put_group-SpreadIfEnded [] (some gs) one s = s
  put_group-SpreadIfEnded (c ∷ cs) (some gs) one s = (one, s)

  groups_of-SpreadIfEnded :
      (order : Order A) (rounds : ℕ) (m : ByLocation A)
      → Visits order
      → ((l : Bytes) → sum_of (keyed l) m ≤ 1)
      → sum_of stray m ≡ 0
      → SpreadIfEnded (groups_of order rounds m)
  unfolding groups_of Visits
  groups_of-SpreadIfEnded order rounds [] v one none_stray = tt
  groups_of-SpreadIfEnded order zero (e ∷ m) v one none_stray = tt
  groups_of-SpreadIfEnded order (suc rounds) (e ∷ m) v one none_stray =
      let visited = order rounds (e ∷ m) in
      put_group-SpreadIfEnded (taken visited) (groups_of order rounds (left visited))
        (λ l. omega (
          arith,
          taken-at l visited,
          v rounds (keyed l) (e ∷ m),
          v rounds stray (e ∷ m),
          one l,
          none_stray,
        ))
        (groups_of-SpreadIfEnded order rounds (left visited) v
          (λ l. omega (arith, left-keyed l visited, v rounds (keyed l) (e ∷ m), one l))
          (omega (arith, left-stray visited, v rounds stray (e ∷ m), none_stray)))

  keyed-add_other :
      (l k : Bytes) (c : A) (m : ByLocation A)
      → bytes_eq k l ≡ false
      → sum_of (keyed l) (add_client k c m) ≡ sum_of (keyed l) m
  unfolding sum_of add_client
  keyed-add_other l k c [] h = let e : tally (bytes_eq k l) ≡ 0 = ap tally h in omega (arith, e)
  keyed-add_other l k c ((j, cs) ∷ m) h =
      if_cases {A = ByLocation A} (λ n. sum_of (keyed l) n ≡ keyed l (j, cs) + sum_of (keyed l) m)
        (bytes_eq j k) _ _ (λ same. refl) (λ other. omega (arith, keyed-add_other l k c m h))

  keyed-add_same :
      (l : Bytes) (c : A) (m : ByLocation A)
      → sum_of (keyed l) m ≤ 1
      → sum_of (keyed l) (add_client l c m) ≤ 1
  unfolding sum_of add_client
  keyed-add_same l c [] h =
      let e : tally (bytes_eq l l) ≡ 1 = ap tally (bytes_eq_self l) in omega (arith, e)
  keyed-add_same l c ((j, cs) ∷ m) h =
      if_cases {A = ByLocation A} (λ n. sum_of (keyed l) n ≤ 1) (bytes_eq j l) _ _ (λ same. h)
        (λ other.
          let e : tally (bytes_eq j l) ≡ 0 = ap tally other in
          omega (arith, e, keyed-add_same l c m (omega (arith, h))))

  keyed-add_client :
      (k : Bytes) (c : A) (m : ByLocation A)
      → ((l : Bytes) → sum_of (keyed l) m ≤ 1)
      → (l : Bytes) → sum_of (keyed l) (add_client k c m) ≤ 1
  keyed-add_client k c m h l = elim (Bool-cases (bytes_eq k l)) [
    | inl same ↦
        subst (λ j. sum_of (keyed l) (add_client j c m) ≤ 1) (sym (bytes_eq→eq k l same))
          (keyed-add_same l c m (h l))
    | inr other ↦ omega (arith, keyed-add_other l k c m other, h l)
  ]

  stray-add_client :
      (c : A) (m : ByLocation A) → sum_of stray (add_client (loc c) c m) ≡ sum_of stray m
  unfolding sum_of add_client
  stray-add_client c [] =
      let e : tally (not (bytes_eq (loc c) (loc c))) ≡ 0 =
        ap (λ b. tally (not b)) (bytes_eq_self (loc c)) in
      omega (arith, e)
  stray-add_client c ((j, cs) ∷ m) =
      if_cases {A = ByLocation A} (λ n. sum_of stray n ≡ stray (j, cs) + sum_of stray m)
        (bytes_eq j (loc c)) _ _
        (λ same.
          let e : tally (not (bytes_eq (loc c) j)) ≡ 0 =
            ap (λ b. tally (not b)) (bytes_eq_sym j (loc c) ∙ same) in
          omega (arith, e, sum_of-append (λ d. tally (not (bytes_eq (loc d) j))) cs (c ∷ [])))
        (λ other. omega (arith, stray-add_client c m))

module _ {A : Type 0} (address : A → Bytes) (locate : Bytes → Option Bytes) where
  by_location-distinct :
      (cs : List A) (m : ByLocation A)
      → ((l : Bytes) → sum_of (keyed (location_of address locate) l) m ≤ 1)
      → sum_of (stray (location_of address locate)) m ≡ 0
      → ((l : Bytes)
          → sum_of (keyed (location_of address locate) l) (by_location address locate cs m) ≤ 1)
        × (sum_of (stray (location_of address locate)) (by_location address locate cs m) ≡ 0)
  unfolding by_location
  by_location-distinct [] m h s = (h, s)
  by_location-distinct (c ∷ cs) m h s =
      let loc = location_of address locate in
      by_location-distinct cs (add_client (loc c) c m) (keyed-add_client loc (loc c) c m h)
        (stray-add_client loc c m ∙ s)

  -- No group of the queue has two clients at one location, in whatever order the map is ranged over.
  pub new_groups-Spread :
      (order : Order A) (clients : List A) (gs : List (List A))
      → Visits order
      → new_groups address locate order clients ≡ some gs
      → Spread (location_of address locate) gs
  unfolding new_groups sum_of
  new_groups-Spread order clients gs v e =
      let loc = location_of address locate in
      let (one, none_stray) = by_location-distinct clients [] (λ l. omega arith) refl in
      subst (SpreadIfEnded loc) e (
        groups_of-SpreadIfEnded loc order (2 * length clients)
          (by_location address locate clients []) v one none_stray)
