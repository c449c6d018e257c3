-- ===== src/Container/Entries.antt =====
-- The entries of one map: what each call does to every key, to the size and to the keys' difference.
use api_poll.Prelude.{
  ℕ, ◌+◌, ◌≡◌, refl, true, false, [], ◌∷◌, Option, none, some, if◌then◌else◌, sym, ◌∙◌, arith,
}
use api_poll.Container.{Key, MapTs, map_size, assign, get_ok, delete}

abbrev pub count_none : {V : Type 0} → Option V → ℕ
count_none none = 1
count_none (some v) = 0

abbrev pub count_some : {V : Type 0} → Option V → ℕ
count_some none = 0
count_some (some v) = 1

module _ {K : Type 0} ⦃key : Key K⦄ where
  -- Tests on keys that are equal, and on keys that are not.
  same_test : (j k i : K) → key.equal j k ≡ true → key.equal j i ≡ key.equal k i
  same_test j k i e = ground (
    arith,
    key.equal_sym j k e,
    key.equal_trans j k i e,
    key.equal_trans k j i (key.equal_sym j k e),
  )

  test_same : (i j k : K) → key.equal j k ≡ true → key.equal i j ≡ key.equal i k
  test_same i j k e = ground (
    arith,
    λ (h : key.equal i j ≡ true). key.equal_trans i j k h e,
    λ (h : key.equal i k ≡ true). key.equal_trans i k j h (key.equal_sym j k e),
  )

  other_test : (j k i : K) → key.equal j k ≡ false → key.equal k i ≡ true → key.equal j i ≡ false
  other_test j k i e f = sym (test_same j k i f) ∙ e

module _ {K V : Type 0} ⦃key : Key K⦄ where
  -- The keys of the entries differ.
  abbrev pub IsDistinct : MapTs K V → Type 0
  IsDistinct [] = Unit
  IsDistinct ((j, w) ∷ m) = (get_ok j m ≡ none) × IsDistinct m

  -- Equal keys read the same.
  get_ok_same : (j k : K) (m : MapTs K V) → key.equal j k ≡ true → get_ok j m ≡ get_ok k m
  unfolding get_ok
  get_ok_same j k [] e = refl
  get_ok_same j k ((i, w) ∷ m) e = ground (arith, test_same i j k e, get_ok_same j k m e)

  pub get_ok-assign :
      (k i : K) (v : V) (m : MapTs K V)
      → get_ok i (assign k v m) ≡ (if key.equal k i then some v else get_ok i m)
  unfolding assign get_ok
  get_ok-assign k i v [] = refl
  get_ok-assign k i v ((j, w) ∷ m) =
      ground (arith, same_test j k i, other_test j k i, get_ok-assign k i v m)

  pub size-assign :
      (k : K) (v : V) (m : MapTs K V)
      → map_size (assign k v m) ≡ map_size m + count_none (get_ok k m)
  unfolding assign get_ok map_size
  size-assign k v [] = refl
  size-assign k v ((j, w) ∷ m) = ground (arith, size-assign k v m)

  pub get_ok-delete :
      (k i : K) (m : MapTs K V)
      → IsDistinct m
      → get_ok i (delete k m) ≡ (if key.equal k i then none else get_ok i m)
  unfolding delete get_ok
  get_ok-delete k i [] d = ground arith
  get_ok-delete k i ((j, w) ∷ m) d =
      ground
        (arith, same_test j k i, other_test j k i, get_ok-delete k i m d.1, d.0, get_ok_same j i m)

  pub size-delete :
      (k : K) (m : MapTs K V) → map_size (delete k m) + count_some (get_ok k m) ≡ map_size m
  unfolding delete get_ok map_size
  size-delete k [] = refl
  size-delete k ((j, w) ∷ m) = ground (arith, size-delete k m)

  pub assign-IsDistinct : (k : K) (v : V) (m : MapTs K V) → IsDistinct m → IsDistinct (assign k v m)
  unfolding assign get_ok
  assign-IsDistinct k v [] d = (refl, tt)
  assign-IsDistinct k v ((j, w) ∷ m) d = ground (
    arith,
    get_ok-assign k j v m,
    other_test j k j,
    key.equal_self j,
    get_ok_same j k m,
    assign-IsDistinct k v m d.1,
  )

  pub delete-IsDistinct : (k : K) (m : MapTs K V) → IsDistinct m → IsDistinct (delete k m)
  unfolding delete get_ok
  delete-IsDistinct k [] d = tt
  delete-IsDistinct k ((j, w) ∷ m) d =
      ground (arith, get_ok-delete k j m d.1, delete-IsDistinct k m d.1)
