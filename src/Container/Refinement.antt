-- ===== src/Container/Refinement.antt =====
-- The calls of the sharded map beside those of one map.
use api_poll.Prelude.{
  ℕ, zero, suc, ◌+◌, ◌%◌, ◌<◌, ◌≡◌, refl, true, false, List, [], none, some, ◌∷◌, length, get_or,
  replicate, sum_of, ap, sym, subst, arith, length-replicate,
}
use api_poll.Prelude.Int.{ℤ, pos, negsuc}
use api_poll.Container.{
  Key, MapTs, ShardedMapTs, new_map_ts, cleared, map_size, assign, get_ok, get, has, delete,
  sharded_get, sharded_has, new_sharded, clear_sharded, sharded_size, sharded_assign,
  sharded_get_ok, sharded_delete, parse_sizes, visit, for_each, at_least_one,
}
use api_poll.Container.Entries.{IsDistinct}
use api_poll.Container.Agreement.{Agrees, assign-Agrees, delete-Agrees, clear-Agrees}

-- The calls that change a map.
pub data Call (K V : Type 0) : Type 0 where
  sets : K → V → Call K V
  deletes : K → Call K V
  clears : Call K V

module _ {K V : Type 0} ⦃key : Key K⦄ where
  pub run_map : List (Call K V) → MapTs K V → MapTs K V
  unfolding assign delete cleared
  run_map [] m = m
  run_map (sets k v ∷ cs) m = run_map cs (assign k v m)
  run_map (deletes k ∷ cs) m = run_map cs (delete k m)
  run_map (clears ∷ cs) m = run_map cs (cleared m)

positive : (c : ℤ) (d : ℕ) → 0 < d → 0 < at_least_one c d
positive (pos zero) d h = h
positive (pos (suc n)) d h = omega arith
positive (negsuc n) d h = h

-- The number of shards is never zero, so that the index is defined.
some_shards : (sizes : List ℤ) → 0 < (parse_sizes sizes).1
unfolding parse_sizes
some_shards [] = omega arith
some_shards (c ∷ []) = omega arith
some_shards (c ∷ n ∷ rest) = positive n 256 (omega arith)

fresh_size : (K V : Type 0) (n : ℕ) → sharded_size (replicate n (new_map_ts {K = K} {V = V})) ≡ 0
unfolding new_map_ts sharded_size sum_of map_size
fresh_size K V zero = refl
fresh_size K V (suc n) = omega (arith, fresh_size K V n)

visit_count : {K V : Type 0} (m : MapTs K V) (n : ℕ) → visit (λ i k v. i + 1) n m ≡ n + map_size m
unfolding visit map_size
visit_count [] n = omega arith
visit_count ((k, v) ∷ m) n = omega (arith, visit_count m (n + 1))

visits_each :
    {K V : Type 0} (c : ShardedMapTs K V) (n : ℕ)
    → for_each (λ i k v. i + 1) n c ≡ n + sharded_size c
unfolding for_each sharded_size sum_of
visits_each [] n = omega arith
visits_each (m ∷ c) n = omega (arith, visits_each c (visit (λ i k v. i + 1) n m), visit_count m n)

-- The sharded map beside one map.
module _ {K V : Type 0} ⦃key : Key K⦄ (hash : K → ℕ) where
  unfoldable pub run_sharded : List (Call K V) → ShardedMapTs K V → ShardedMapTs K V
  unfolding sharded_assign sharded_delete clear_sharded
  run_sharded [] c = c
  run_sharded (sets k v ∷ cs) c = run_sharded cs (sharded_assign hash k v c)
  run_sharded (deletes k ∷ cs) c = run_sharded cs (sharded_delete hash k c)
  run_sharded (clears ∷ cs) c = run_sharded cs (clear_sharded c)

  fresh_shard : (n i : ℕ) → get_or (replicate n (new_map_ts {K = K} {V = V})) i [] ≡ []
  unfolding new_map_ts
  fresh_shard zero i = refl
  fresh_shard (suc n) zero = refl
  fresh_shard (suc n) (suc i) = fresh_shard n i

  new-Agrees : (sizes : List ℤ) → Agrees hash (new_sharded sizes) (new_map_ts {K = K} {V = V})
  unfolding new_sharded new_map_ts sharded_size map_size sharded_get_ok get_ok
  new-Agrees sizes = record {
    shards = omega (
      arith,
      length-replicate (parse_sizes sizes).1 (new_map_ts {K = K} {V = V}),
      some_shards sizes,
    );
    shard_distinct = λ i. subst IsDistinct (sym (fresh_shard (parse_sizes sizes).1 i)) tt;
    distinct = tt;
    reads = λ k.
        ap (get_ok k)
          (fresh_shard (parse_sizes sizes).1 (hash k % length (new_sharded {K = K} {V = V} sizes)));
    sized = fresh_size K V (parse_sizes sizes).1;
  }

-- A hash that equal keys share.
module _ {K V : Type 0} ⦃key : Key K⦄ (hash : K → ℕ)
    (respects : (j k : K) → key.equal j k ≡ true → hash j ≡ hash k) where
  run-Agrees :
      (cs : List (Call K V)) (c : ShardedMapTs K V) (m : MapTs K V)
      → Agrees hash c m
      → Agrees hash (run_sharded hash cs c) (run_map cs m)
  unfolding run_sharded run_map
  run-Agrees [] c m a = a
  run-Agrees (sets k v ∷ cs) c m a =
      run-Agrees cs (sharded_assign hash k v c) (assign k v m)
        (assign-Agrees hash respects k v c m a)
  run-Agrees (deletes k ∷ cs) c m a =
      run-Agrees cs (sharded_delete hash k c) (delete k m) (delete-Agrees hash respects k c m a)
  run-Agrees (clears ∷ cs) c m a =
      run-Agrees cs (clear_sharded c) (cleared m) (clear-Agrees hash c m a)

  -- Whatever calls are made on a new sharded map, of whatever sizes, with keys that are equal to themselves
  -- and a hash that is the same for equal keys: every key then reads by GetOK, Get and Has as it does in
  -- one map after the same calls, and the size, which is also the number of entries that ForEach visits,
  -- is that map's.
  pub run_sharded-run_map :
      (sizes : List ℤ) (cs : List (Call K V))
      → let c = run_sharded hash cs (new_sharded sizes) in
        let m = run_map cs new_map_ts in
        ((k : K) → sharded_get_ok hash k c ≡ get_ok k m)
        × ((default : V) (k : K) → sharded_get hash default k c ≡ get default k m)
        × ((k : K) → sharded_has hash k c ≡ has k m)
        × (sharded_size c ≡ map_size m)
        × (for_each (λ n k v. n + 1) 0 c ≡ map_size m)
  unfolding sharded_get sharded_has sharded_get_ok get has
  run_sharded-run_map sizes cs =
      let c = run_sharded hash cs (new_sharded sizes) in
      let a = run-Agrees cs (new_sharded sizes) new_map_ts (new-Agrees hash sizes) in
      (
        a.reads,
        λ default k. ap (λ o. elim o [ none ↦ default | some v ↦ v ]) (a.reads k),
        λ k. ap (λ o. elim o [ none ↦ false | some v ↦ true ]) (a.reads k),
        a.sized,
        omega (arith, visits_each c 0, a.sized),
      )
