-- ===== src/Container/Tests.antt =====
-- Runs of a sharded map with three shards and signed numbers as keys.
use api_poll.Prelude.{
  ℕ, ◌^◌, ◌+◌, ◌≡◌, ◌≢◌, refl, arith, Bool, true, false, ◌&&◌, ◌||◌, List, [], ◌∷◌, some, ◌==◌,
}
use api_poll.Prelude.Int.{pos, negsuc}
use api_poll.Container.Hash.{int64, int16, float64, hashed_bytes, hashed_bytes-injective}
use api_poll.Container.{
  Key, new_map_ts, new_sharded, sharded_get_ok, sharded_get, sharded_has, get_ok, get, has,
  sharded_size, map_size, for_each, parse_sizes,
}
use api_poll.Container.Refinement.{
  Call, sets, deletes, clears, run_map, run_sharded, run_sharded-run_map,
}

-- A number and a sign, which a zero has as well: as keys the two zeros are equal.
abbrev Signed : Type 0
Signed = Bool × ℕ

abbrev same_sign : Bool → Bool → Bool
same_sign true b = b
same_sign false true = false
same_sign false false = true

abbrev same_number : Signed → Signed → Bool
same_number (s, j) (t, k) = (j == k) && ((k == 0) || same_sign s t)

equal_itself : (k : Signed) → same_number k k ≡ true
equal_itself (true, k) = ground arith
equal_itself (false, k) = ground arith

equal_back : (j k : Signed) → same_number j k ≡ true → same_number k j ≡ true
equal_back (true, j) (true, k) = ground arith
equal_back (true, j) (false, k) = ground arith
equal_back (false, j) (true, k) = ground arith
equal_back (false, j) (false, k) = ground arith

equal_on :
    (i j k : Signed) → same_number i j ≡ true → same_number j k ≡ true → same_number i k ≡ true
equal_on (true, i) (true, j) (true, k) = ground arith
equal_on (true, i) (true, j) (false, k) = ground arith
equal_on (true, i) (false, j) (true, k) = ground arith
equal_on (true, i) (false, j) (false, k) = ground arith
equal_on (false, i) (true, j) (true, k) = ground arith
equal_on (false, i) (true, j) (false, k) = ground arith
equal_on (false, i) (false, j) (true, k) = ground arith
equal_on (false, i) (false, j) (false, k) = ground arith

instance abbrev signed : Key Signed
signed = record {
  equal = same_number;
  equal_self = equal_itself;
  equal_sym = equal_back;
  equal_trans = equal_on;
}

-- The hash leaves out the sign, unlike `getHash`.
abbrev absolute : Signed → ℕ
absolute (s, k) = k

absolute_respects : (j k : Signed) → same_number j k ≡ true → absolute j ≡ absolute k
absolute_respects (s, j) (t, k) e = ground (arith, e)

abbrev calls : List (Call Signed ℕ)
calls =
    sets (true, 0) 10
    ∷ clears
    ∷ sets (true, 4) 40
    ∷ sets (true, 0) 11
    ∷ sets (false, 0) 20
    ∷ sets (true, 4) 41
    ∷ deletes (true, 1)
    ∷ []

default_sizes : parse_sizes (pos 0 ∷ []) ≡ (512, 256)
unfolding parse_sizes
default_sizes = refl

reads_last :
    sharded_get_ok absolute
      (true, 0)
      (run_sharded absolute calls (new_sharded (pos 8 ∷ pos 3 ∷ [])))
    ≡ some 20
unfolding sharded_get_ok run_sharded new_sharded
reads_last = refl

run_sharded-run_map_example :
    let c = run_sharded absolute calls (new_sharded (pos 8 ∷ pos 3 ∷ [])) in
    let m = run_map calls new_map_ts in
    ((k : Signed) → sharded_get_ok absolute k c ≡ get_ok k m)
    × ((default : ℕ) (k : Signed) → sharded_get absolute default k c ≡ get default k m)
    × ((k : Signed) → sharded_has absolute k c ≡ has k m)
    × (sharded_size c ≡ map_size m)
    × (for_each (λ n k v. n + 1) 0 c ≡ map_size m)
run_sharded-run_map_example =
    run_sharded-run_map absolute absolute_respects (pos 8 ∷ pos 3 ∷ []) calls

-- Two keys whose lower halves are the same.
hashed_bytes-injective_example : hashed_bytes int64 (pos (2 ^ 32 + 5)) ≢ hashed_bytes int64 (pos 5)
hashed_bytes-injective_example =
    hashed_bytes-injective int64 (pos (2 ^ 32 + 5)) (pos 5) (omega arith) (omega arith)
      λ e. ground (arith, e)

hashed : hashed_bytes int16 (negsuc 299) ≡ 212 ∷ 254 ∷ []
unfolding hashed_bytes
hashed = refl

-- The two zeros of a float, which are equal as keys.
zeros_differ : hashed_bytes float64 (2 ^ 63) ≡ 0 ∷ 0 ∷ 0 ∷ 0 ∷ 0 ∷ 0 ∷ 0 ∷ 128 ∷ []
unfolding hashed_bytes
zeros_differ = refl
