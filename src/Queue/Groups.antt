-- ===== src/Queue/Groups.antt =====
-- The grouping by location: what the groups hold, and how many rounds it takes.
pub mod Locations
use api_poll.Prelude.{
  sum_of, sum_of-append, concat, ℕ, zero, suc, ◌+◌, ◌*◌, ◌≤◌, ◌<◌, ◌≡◌, refl, Bool, true, false,
  List, [], ◌∷◌, ◌++◌, Option, none, some, Bytes, bytes_eq, bytes_eq→eq, bytes_eq_self, length,
  length-append, arith, if_cases, if◌then◌else◌, ◌∙◌, ap,
}
use api_poll.Queue.{
  Entry, ByLocation, add_client, taken, left, put_group, groups_of, location_of, by_location,
  new_groups,
}

abbrev pub Order : Type 0 → Type 0
Order A = ℕ → ByLocation A → ByLocation A

-- A range over a map meets each entry once: every weight has the same sum in its order.
unfoldable pub Visits : {A : Type 0} → Order A → Type 0
Visits {A} order = (k : ℕ) (w : Entry A → ℕ) (m : ByLocation A) → sum_of w (order k m) ≡ sum_of w m

module _ {A : Type 0} where
  abbrev pub held : (A → ℕ) → Entry A → ℕ
  held w e = sum_of w e.1

  -- One range takes out what it does not leave.
  taken-left :
      (w : A → ℕ) (m : ByLocation A)
      → sum_of w (taken m) + sum_of (held w) (left m) ≡ sum_of (held w) m
  unfolding sum_of taken left
  taken-left w [] = refl
  taken-left w ((l, []) ∷ m) = omega (arith, taken-left w m)
  taken-left w ((l, c ∷ cs) ∷ m) = omega (arith, taken-left w m)

  -- The size of the map: an entry is deleted one round after its last client is taken.
  abbrev size : Entry A → ℕ
  size e = suc (length e.1)

  left_smaller : (m : ByLocation A) → sum_of size (left m) + sum_of (λ e. 1) m ≡ sum_of size m
  unfolding sum_of left
  left_smaller [] = refl
  left_smaller ((l, []) ∷ m) = omega (arith, left_smaller m)
  left_smaller ((l, c ∷ cs) ∷ m) = omega (arith, left_smaller m)

  -- The groups hold, of whatever is counted, as much as the count says.
  abbrev Hold : ((A → ℕ) → ℕ) → Option (List (List A)) → Type 0
  Hold n groups =
      (gs : List (List A)) × (groups ≡ some gs) × ((w : A → ℕ) → sum_of w (concat gs) ≡ n w)

  put_group_holds :
      (group : List A) (groups : Option (List (List A))) (n : (A → ℕ) → ℕ)
      → Hold n groups
      → Hold (λ w. sum_of w group + n w) (put_group group groups)
  unfolding sum_of concat
  put_group_holds [] groups n (gs, e, h) = (gs, ap (put_group []) e, λ w. omega (arith, h w))
  put_group_holds (c ∷ cs) groups n (gs, e, h) = (
    (c ∷ cs) ∷ gs,
    ap (put_group (c ∷ cs)) e,
    λ w. omega (arith, h w, sum_of-append w (c ∷ cs) (concat gs)),
  )

  -- With a round for each client and each entry, the loop ends, and whatever is counted of the clients
  -- is the same in the groups as in the map.
  groups_of_holds :
      (order : Order A) (rounds : ℕ) (m : ByLocation A)
      → Visits order
      → sum_of size m ≤ rounds
      → Hold (λ w. sum_of (held w) m) (groups_of order rounds m)
  unfolding groups_of Visits sum_of concat
  groups_of_holds order rounds [] v h = ([], refl, λ w. refl)
  groups_of_holds order zero (e ∷ m) v h = let no : ⊥ = omega arith in elim no [ ]
  groups_of_holds order (suc rounds) (e ∷ m) v h =
      let visited = order rounds (e ∷ m) in
      let room : sum_of size (left visited) ≤ rounds =
        omega (arith, left_smaller visited, v rounds (λ f. 1) (e ∷ m), v rounds size (e ∷ m), h) in
      let (gs, same, kept) =
        put_group_holds (taken visited) (groups_of order rounds (left visited))
          (λ w. sum_of (held w) (left visited))
          (groups_of_holds order rounds (left visited) v room) in
      (gs, same, λ w. omega (arith, kept w, taken-left w visited, v rounds (held w) (e ∷ m)))

  size-add_client :
      (l : Bytes) (c : A) (m : ByLocation A) → sum_of size (add_client l c m) ≤ sum_of size m + 2
  unfolding sum_of add_client
  size-add_client l c [] = omega arith
  size-add_client l c ((k, cs) ∷ m) =
      if_cases {A = ByLocation A} (λ n. sum_of size n ≤ suc (length cs) + sum_of size m + 2)
        (bytes_eq k l) _ _ (λ same. omega (arith, length-append cs (c ∷ [])))
        (λ other. omega (arith, size-add_client l c m))

  held-add_client :
      (w : A → ℕ) (l : Bytes) (c : A) (m : ByLocation A)
      → sum_of (held w) (add_client l c m) ≡ sum_of (held w) m + w c
  unfolding sum_of add_client
  held-add_client w l c [] = omega arith
  held-add_client w l c ((k, cs) ∷ m) =
      if_cases {A = ByLocation A} (λ n. sum_of (held w) n ≡ sum_of w cs + sum_of (held w) m + w c)
        (bytes_eq k l) _ _ (λ same. omega (arith, sum_of-append w cs (c ∷ [])))
        (λ other. omega (arith, held-add_client w l c m))

module _ {A : Type 0} (address : A → Bytes) (locate : Bytes → Option Bytes) where
  abbrev loc : A → Bytes
  loc = location_of address locate

  held-by_location :
      (w : A → ℕ) (cs : List A) (m : ByLocation A)
      → sum_of (held w) (by_location address locate cs m) ≡ sum_of (held w) m + sum_of w cs
  unfolding sum_of by_location
  held-by_location w [] m = omega arith
  held-by_location w (c ∷ cs) m =
      omega (arith, held-by_location w cs (add_client (loc c) c m), held-add_client w (loc c) c m)

  size-by_location :
      (cs : List A) (m : ByLocation A)
      → sum_of size (by_location address locate cs m) ≤ sum_of size m + 2 * length cs
  unfolding sum_of by_location
  size-by_location [] m = omega arith
  size-by_location (c ∷ cs) m =
      omega (arith, size-by_location cs (add_client (loc c) c m), size-add_client (loc c) c m)

  -- In whatever order the map is ranged over, the constructor's loop ends within two rounds for each
  -- client, and whatever is counted of the clients, it is the same in the groups as in the list: no
  -- client is lost and none is doubled.
  pub new_groups_keeps :
      (order : Order A) (clients : List A)
      → Visits order
      → (gs : List (List A)) × (new_groups address locate order clients ≡ some gs)
        × ((w : A → ℕ) → sum_of w (concat gs) ≡ sum_of w clients)
  unfolding new_groups sum_of
  new_groups_keeps order clients v =
      let m = by_location address locate clients [] in
      let (gs, same, kept) =
        groups_of_holds order (2 * length clients) m v
          (omega (arith, size-by_location clients [])) in
      (gs, same, λ w. omega (arith, kept w, held-by_location w clients []))
