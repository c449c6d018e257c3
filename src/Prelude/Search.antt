-- ===== src/Prelude/Search.antt =====
-- What strings.Index finds: the first place where the pattern stands.
use api_poll.Prelude.{
  ℕ, zero, suc, ◌+◌, ◌≤◌, ◌<◌, ◌≡◌, refl, true, false, List, [], ◌∷◌, ◌++◌, some, arith, Bytes,
  has_prefix, index, length, take, drop, Option-cases, Bool-cases, inl, inr, ap, sym,
  take-append-drop, ◌∙◌, ◌⊎◌,
}

-- No place before the `i`-th begins with `p`.
abbrev pub NoneBefore : ℕ → Bytes → Bytes → Type 0
NoneBefore i s p = (j : ℕ) → j < i → has_prefix (drop j s) p ≡ false

pub has_prefix-split : (s p : Bytes) → has_prefix s p ≡ true → s ≡ p ++ drop (length p) s
unfolding has_prefix
has_prefix-split s [] h = refl
has_prefix-split [] (c ∷ p) h = cc
has_prefix-split (d ∷ s) (c ∷ p) h = ground (arith, has_prefix-split s p)

pub has_prefix-append : (p s : Bytes) → has_prefix (p ++ s) p ≡ true
unfolding has_prefix
has_prefix-append [] s = refl
has_prefix-append (c ∷ p) s = ground (arith, has_prefix-append p s)

pub drop-append : {A : Type 0} (xs ys : List A) → drop (length xs) (xs ++ ys) ≡ ys
drop-append [] ys = refl
drop-append (x ∷ xs) ys = drop-append xs ys

pub take-append : {A : Type 0} (xs ys : List A) → take (length xs) (xs ++ ys) ≡ xs
take-append [] ys = refl
take-append (x ∷ xs) ys = rw (take-append xs ys)

drop-nil : {A : Type 0} (n : ℕ) → drop {A = A} n [] ≡ []
drop-nil zero = refl
drop-nil (suc n) = refl

pub drop-drop : {A : Type 0} (m n : ℕ) (xs : List A) → drop m (drop n xs) ≡ drop (n + m) xs
drop-drop m zero xs = ap (λ k. drop k xs) (let e : m ≡ zero + m = omega arith in e)
drop-drop m (suc n) [] = drop-nil m ∙ sym (drop-nil (suc n + m))
drop-drop m (suc n) (x ∷ xs) =
    drop-drop m n xs
    ∙ ap (λ k. drop k (x ∷ xs)) (let e : suc (n + m) ≡ suc n + m = omega arith in e)

index_cons :
    (c : ℕ) (s p : Bytes) (i : ℕ)
    → index (c ∷ s) p ≡ some i
    → ((has_prefix (c ∷ s) p ≡ true) × (i ≡ 0))
      ⊎ ((k : ℕ) × (has_prefix (c ∷ s) p ≡ false) × (index s p ≡ some k) × (i ≡ suc k))
unfolding index
index_cons c s p i e = elim (Bool-cases (has_prefix (c ∷ s) p)) [
  | inl here ↦ inl (here, ground arith)
  | inr no_match ↦ elim (Option-cases (index s p)) [
    | inl absent ↦ absurd (ground arith)
    | inr (k, at_k) ↦ inr (k, no_match, at_k, ground arith)
  ]
]

-- The place that is returned fits, and no place before it does.
pub index-first :
    (s p : Bytes) (i : ℕ) → index s p ≡ some i → (has_prefix (drop i s) p ≡ true) × NoneBefore i s p
index-first [] p i e = unfold index in (ground arith, λ j lt. absurd (ground arith))
index-first (c ∷ s) p i e = elim (index_cons c s p i e) [
  | inl (here, z) ↦ (rw z here, λ j lt. absurd (omega arith))
  | inr (k, no_match, at_k, z) ↦
      let (there, before) = index-first s p k at_k in
      (rw z there, later c s p k i z no_match before)
]
  where
    later :
        (c : ℕ) (s p : Bytes) (k i : ℕ)
        → i ≡ suc k
        → has_prefix (c ∷ s) p ≡ false
        → NoneBefore k s p
        → NoneBefore i (c ∷ s) p
    later c s p k i z no_match before zero lt = no_match
    later c s p k i z no_match before (suc j) lt = before j (omega arith)

-- A place that fits, with none before it, is the one that is returned.
pub index_complete :
    (s p : Bytes) (i : ℕ)
    → i ≤ length s
    → has_prefix (drop i s) p ≡ true
    → NoneBefore i s p
    → index s p ≡ some i
unfolding index
index_complete [] p zero le there before = rw there refl
index_complete [] p (suc i) le there before = absurd (omega arith)
index_complete (c ∷ s) p zero le there before = rw there refl
index_complete (c ∷ s) p (suc i) le there before =
    rw (before 0 (omega arith))
      (rw (index_complete s p i (omega arith) there (λ j lt. before (suc j) (omega arith))) refl)

-- The text is what stands before the place, the pattern, and what stands after.
pub index-split :
    (s p : Bytes) (i : ℕ) → index s p ≡ some i → s ≡ take i s ++ (p ++ drop (i + length p) s)
index-split s p i e =
    sym (take-append-drop i s)
    ∙ ap (◌++◌ (take i s)) (
        has_prefix-split (drop i s) p (index-first s p i e).0
        ∙ ap (◌++◌ p) (drop-drop (length p) i s))
