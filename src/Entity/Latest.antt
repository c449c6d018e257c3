-- ===== src/Entity/Latest.antt =====
-- `slices.SortFunc(notices, func(a, b) int { return a.ID - b.ID })` and the last element, as both
-- fetchers by identifier take it. The order that the library gives to equal identifiers is its own;
-- here it is that of an insertion sort.
use mathlib.Core.List.{Mem, Perm, mem-cons_self, mem-cons_of_mem, mem-cons, not-mem-nil}
use mathlib.Core.Logic.Or
use native.Mathlib.Bridge.{le_prop}
use mathlib.Core.List.Perm
use api_poll.Prelude.{
  ◌≡◌, refl, true, false, List, [], ◌∷◌, Option, none, some, arith, Bool-cases, inl, inr, subst,
}
use api_poll.Prelude.Int.{ℤ, ◌≤ℤ◌, ltb_ℤ}
use api_poll.Entity.{Notice}

unfoldable pub insert_by_id : Notice → List Notice → List Notice
insert_by_id n [] = n ∷ []
insert_by_id n (m ∷ ms) = elim (ltb_ℤ n.id m.id) [
  | true ↦ n ∷ m ∷ ms
  | false ↦ m ∷ insert_by_id n ms
]

unfoldable pub sort_by_id : List Notice → List Notice
unfolding insert_by_id
sort_by_id [] = []
sort_by_id (n ∷ ns) = insert_by_id n (sort_by_id ns)

unfoldable pub last_notice : List Notice → Option Notice
last_notice [] = none
last_notice (n ∷ []) = some n
last_notice (n ∷ m ∷ ms) = last_notice (m ∷ ms)

-- The notice with the greatest identifier, as the code finds it.
unfoldable pub newest : List Notice → Option Notice
unfolding sort_by_id last_notice
newest ns = last_notice (sort_by_id ns)

insert-perm : (n : Notice) (ms : List Notice) → Perm (insert_by_id n ms) (n ∷ ms)
unfolding insert_by_id
insert-perm n [] = Perm.refl (n ∷ [])
insert-perm n (m ∷ ms) = elim (Bool-cases (ltb_ℤ n.id m.id)) [
  | inl less ↦ rw (less, insert_by_id) (Perm.refl (n ∷ m ∷ ms))
  | inr more ↦
      rw (more, insert_by_id) (Perm.trans (Perm.cons m (insert-perm n ms)) (Perm.swap n m ms))
]

sort-perm : (ns : List Notice) → Perm (sort_by_id ns) ns
unfolding sort_by_id
sort-perm [] = Perm.refl []
sort-perm (n ∷ ns) = Perm.trans (insert-perm n (sort_by_id ns)) (Perm.cons n (sort-perm ns))

-- Each identifier is at most the next.
abbrev IsSorted : List Notice → Type 0
IsSorted [] = Unit
IsSorted (n ∷ []) = Unit
IsSorted (n ∷ m ∷ ms) = (n.id ≤ℤ m.id) × IsSorted (m ∷ ms)

insert-IsSorted : (n : Notice) (ms : List Notice) → IsSorted ms → IsSorted (insert_by_id n ms)
unfolding insert_by_id
insert-IsSorted n [] s = tt
insert-IsSorted n (m ∷ []) s = ground arith
insert-IsSorted n (m ∷ k ∷ ks) s = ground (arith, insert-IsSorted n (k ∷ ks) s.1)

sort-IsSorted : (ns : List Notice) → IsSorted (sort_by_id ns)
unfolding sort_by_id
sort-IsSorted [] = tt
sort-IsSorted (n ∷ ns) = insert-IsSorted n (sort_by_id ns) (sort-IsSorted ns)

≤ℤ-trans : (a b c : ℤ) → a ≤ℤ b → b ≤ℤ c → a ≤ℤ c
≤ℤ-trans a b c p q = omega arith

last-mem : (ns : List Notice) (n : Notice) → last_notice ns ≡ some n → Mem n ns
unfolding last_notice
last-mem [] n e = cc
last-mem (k ∷ []) n e = let p : k ≡ n = ground arith in subst (λ x. Mem x (k ∷ [])) p mem-cons_self
last-mem (k ∷ m ∷ ms) n e = mem-cons_of_mem k (last-mem (m ∷ ms) n e)

last_bound :
    (ns : List Notice) (n m : Notice)
    → IsSorted ns
    → last_notice ns ≡ some n
    → Mem m ns
    → m.id ≤ℤ n.id
unfolding last_notice
last_bound [] n m s e i = absurd (not-mem-nil i)
last_bound (k ∷ []) n m s e i =
    let p : k ≡ n = ground arith in
    Or.elim le_prop (mem-cons.0 i) (λ q. rw (q, p) (omega arith)) (λ j. absurd (not-mem-nil j))
last_bound (k ∷ l ∷ ls) n m s e i =
    Or.elim le_prop (mem-cons.0 i)
      (λ q. rw q (≤ℤ-trans k.id l.id n.id s.0 (last_bound (l ∷ ls) n l s.1 e mem-cons_self)))
      (λ j. last_bound (l ∷ ls) n m s.1 e j)

last-insert :
    (n : Notice) (ms : List Notice) → (k : Notice) × (last_notice (insert_by_id n ms) ≡ some k)
unfolding insert_by_id last_notice
last-insert n [] = (n, refl)
last-insert n (m ∷ ms) = elim (Bool-cases (ltb_ℤ n.id m.id)) [
  | inl less ↦ rw (less, insert_by_id) (last_some m ms)
  | inr more ↦ rw (more, insert_by_id) (last_behind m (insert_by_id n ms) (last-insert n ms))
]
  where
    last_some : (m : Notice) (ms : List Notice) → (k : Notice) × (last_notice (m ∷ ms) ≡ some k)
    last_some m [] = (m, refl)
    last_some m (l ∷ ls) = last_some l ls

    last_behind :
        (m : Notice) (ms : List Notice)
        → (k : Notice) × (last_notice ms ≡ some k)
        → (k : Notice) × (last_notice (m ∷ ms) ≡ some k)
    last_behind m [] h = (m, refl)
    last_behind m (l ∷ ls) h = h

-- A list that is not empty has one.
pub newest-some : (n : Notice) (ns : List Notice) → (k : Notice) × (newest (n ∷ ns) ≡ some k)
unfolding newest sort_by_id
newest-some n ns = last-insert n (sort_by_id ns)

-- The notice that is taken is one of the list, and no notice of the list has a greater identifier.
pub newest-greatest :
    (ns : List Notice) (n : Notice)
    → newest ns ≡ some n
    → Mem n ns × ((m : Notice) → Mem m ns → m.id ≤ℤ n.id)
unfolding newest
newest-greatest ns n e = (
  (Perm.mem_iff (sort-perm ns)).0 (last-mem (sort_by_id ns) n e),
  λ m i. last_bound (sort_by_id ns) n m (sort-IsSorted ns) e ((Perm.mem_iff (sort-perm ns)).1 i),
)
