-- ===== src/Broadcast/Unfollow.antt =====
-- `Unfollow` overwrites the entry by the last one and shortens the slice.
use api_poll.Prelude.{
  ℕ, zero, suc, ◌+◌, ◌-◌, ◌<◌, ◌≡◌, refl, List, [], ◌∷◌, none, some, arith, length, set, take,
  get_or, ◌==◌, if◌then◌else◌, subst, length-set,
}
use api_poll.Broadcast.{find_follower, drop_follower}
use api_poll.Broadcast.Channels.{count}

abbrev pub one_if : ℕ → ℕ → ℕ
one_if x j = if x == j then 1 else 0

count-set :
    (fs : List ℕ) (i v j : ℕ)
    → i < length fs
    → count j (set fs i v) + one_if (get_or fs i 0) j ≡ count j fs + one_if v j
unfolding count
count-set [] i v j h = elim h [ ]
count-set (f ∷ fs) zero v j h = ground arith
count-set (f ∷ fs) (suc i) v j h = ground (arith, count-set fs i v j)

count-take_last :
    (f : ℕ) (fs : List ℕ) (j : ℕ)
    → count j (f ∷ fs)
      ≡ count j (take (length fs) (f ∷ fs)) + one_if (get_or (f ∷ fs) (length fs) 0) j
unfolding count
count-take_last f [] j = ground arith
count-take_last f (g ∷ fs) j = ground (arith, count-take_last g fs j)

get_or-set_copy : (fs : List ℕ) (i k : ℕ) → get_or (set fs i (get_or fs k 0)) k 0 ≡ get_or fs k 0
get_or-set_copy fs i k = same fs i k (get_or fs k 0) refl
  where
    same : (fs : List ℕ) (i k v : ℕ) → v ≡ get_or fs k 0 → get_or (set fs i v) k 0 ≡ get_or fs k 0
    same [] i k v e = refl
    same (f ∷ fs) zero zero v e = e
    same (f ∷ fs) zero (suc k) v e = refl
    same (f ∷ fs) (suc i) zero v e = refl
    same (f ∷ fs) (suc i) (suc k) v e = same fs i k v e

count-take_pred :
    (fs : List ℕ) (n j : ℕ)
    → length fs ≡ suc n
    → count j fs ≡ count j (take n fs) + one_if (get_or fs n 0) j
count-take_pred [] n j e = absurd (omega arith)
count-take_pred (f ∷ fs) n j e =
    subst (λ k. count j (f ∷ fs) ≡ count j (take k (f ∷ fs)) + one_if (get_or (f ∷ fs) k 0) j)
      (let p : length fs ≡ n = omega arith in p) (count-take_last f fs j)

pub find_follower_lem :
    (ch : ℕ) (fs : List ℕ) (i : ℕ)
    → find_follower ch fs ≡ some i
    → (i < length fs) × (get_or fs i 0 ≡ ch)
unfolding find_follower
find_follower_lem ch [] i e = cc
find_follower_lem ch (f ∷ fs) zero e = ground arith
find_follower_lem ch (f ∷ fs) (suc i) e = ground (arith, find_follower_lem ch fs i)

-- What is taken out, with its multiplicity.
pub count-drop_follower :
    (ch : ℕ) (fs : List ℕ) (i j : ℕ)
    → find_follower ch fs ≡ some i
    → count j fs ≡ count j (drop_follower i fs) + one_if ch j
unfolding drop_follower
count-drop_follower ch fs i j e =
    let (lt, at_i) = find_follower_lem ch fs i e in
    let last = get_or fs (length fs - 1) 0 in
    omega (
      arith,
      subst (λ x. count j (set fs i last) + one_if x j ≡ count j fs + one_if last j) at_i
          (count-set fs i last j lt),
      subst
          (λ x.
            count j (set fs i last) ≡ count j (take (length fs - 1) (set fs i last)) + one_if x j)
          (get_or-set_copy fs i (length fs - 1))
          (count-take_pred (set fs i last) (length fs - 1) j (omega (arith, length-set fs i last))),
    )

pub find_follower-pos :
    (ch : ℕ) (fs : List ℕ) (i : ℕ) → find_follower ch fs ≡ some i → 0 < count ch fs
find_follower-pos ch fs i e = ground (arith, count-drop_follower ch fs i ch e)

pub find_follower-none : (ch : ℕ) (fs : List ℕ) → find_follower ch fs ≡ none → count ch fs ≡ 0
unfolding find_follower count
find_follower-none ch [] e = refl
find_follower-none ch (f ∷ fs) e = ground (arith, find_follower-none ch fs)
