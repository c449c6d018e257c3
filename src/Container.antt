-- ===== src/Container.antt =====
-- pkg/container: a map under a lock, and a map that spreads its keys over several of those. A key type
-- has a Boolean test for equality, as Go's `comparable`; the hash of package hash/maphash is a parameter. A Go
-- map is a list of entries with different keys, and the order of a range over it is that of the list.
pub mod Entries
pub mod Agreement
pub mod Refinement
pub mod Hash
mod Tests
use api_poll.Prelude.{
  ℕ, zero, suc, ◌+◌, ◌%◌, ◌≡◌, Bool, true, false, List, [], ◌∷◌, ◌++◌, Option, none, some, length,
  get_or, set, replicate, map, sum_of, ltb, if◌then◌else◌,
}
use api_poll.Prelude.Int.{ℤ, pos, ltb_ℤ}

-- `==` on the keys, an equivalence: two keys that are equal need not be the same, as the two zeros of a
-- float are not. A NaN, which is not equal to itself, is no key here.
pub record Key (K : Type 0) : Type 0 where
  pub equal : K → K → Bool
  pub equal_self : (k : K) → equal k k ≡ true
  pub equal_sym : (j k : K) → equal j k ≡ true → equal k j ≡ true
  pub equal_trans : (i j k : K) → equal i j ≡ true → equal j k ≡ true → equal i k ≡ true

abbrev pub map_ts_default_capacity : ℕ
map_ts_default_capacity = 256

abbrev pub sharded_map_default_shard_capacity : ℕ
sharded_map_default_shard_capacity = 512

abbrev pub sharded_map_ts_default_shards_count : ℕ
sharded_map_ts_default_shards_count = map_ts_default_capacity

-- The capacity of `make` is a hint and has no part in what a map holds.
abbrev pub MapTs : Type 0 → Type 0 → Type 0
MapTs K V = List (K × V)

module _ {K V : Type 0} where
  pub new_map_ts : MapTs K V
  new_map_ts = []

  -- `Clear`, which makes a new map.
  pub cleared : MapTs K V → MapTs K V
  cleared m = []

  pub map_size : MapTs K V → ℕ
  map_size m = length m

module _ {K V : Type 0} ⦃key : Key K⦄ where
  -- `Set`. Where an equal key is there, Go writes the new one over it if the two can differ.
  pub assign : K → V → MapTs K V → MapTs K V
  assign k v [] = (k, v) ∷ []
  assign k v ((j, w) ∷ m) = if key.equal j k then (k, v) ∷ m else (j, w) ∷ assign k v m

  -- `GetOK`; `none` is the zero value with `false`.
  pub get_ok : K → MapTs K V → Option V
  get_ok k [] = none
  get_ok k ((j, w) ∷ m) = if key.equal j k then some w else get_ok k m

  -- `Get`, with the zero value of the type.
  pub get : V → K → MapTs K V → V
  unfolding get_ok
  get default k m = elim (get_ok k m) [ none ↦ default | some v ↦ v ]

  pub has : K → MapTs K V → Bool
  unfolding get_ok
  has k m = elim (get_ok k m) [ none ↦ false | some v ↦ true ]

  pub delete : K → MapTs K V → MapTs K V
  delete k [] = []
  delete k ((j, w) ∷ m) = if key.equal j k then m else (j, w) ∷ delete k m

abbrev pub ShardedMapTs : Type 0 → Type 0 → Type 0
ShardedMapTs K V = List (MapTs K V)

-- `parseShardedMapTSSizes`: the capacity of a shard and the number of shards.
abbrev pub at_least_one : ℤ → ℕ → ℕ
at_least_one (ℤ.pos zero) default = default
at_least_one (ℤ.pos (suc n)) default = suc n
at_least_one (ℤ.negsuc n) default = default

unfoldable pub parse_sizes : List ℤ → ℕ × ℕ
parse_sizes [] = (sharded_map_default_shard_capacity, sharded_map_ts_default_shards_count)
parse_sizes (c ∷ []) =
    (at_least_one c sharded_map_default_shard_capacity, sharded_map_ts_default_shards_count)
parse_sizes (c ∷ n ∷ rest) = (
  at_least_one c sharded_map_default_shard_capacity,
  at_least_one n sharded_map_ts_default_shards_count,
)

module _ {K V : Type 0} where
  -- `NewShardedMapTS`.
  pub new_sharded : List ℤ → ShardedMapTs K V
  unfolding parse_sizes new_map_ts
  new_sharded sizes = replicate (parse_sizes sizes).1 new_map_ts

  -- `Clear` and `Size`, shard by shard.
  pub clear_sharded : ShardedMapTs K V → ShardedMapTs K V
  unfolding cleared
  clear_sharded c = map cleared c

  pub sharded_size : ShardedMapTs K V → ℕ
  unfolding map_size sum_of
  sharded_size c = sum_of map_size c

  -- `ForEach` with a function that keeps a state: what it has seen after all shards.
  pub visit : {S : Type 0} → (S → K → V → S) → S → MapTs K V → S
  visit f s [] = s
  visit f s ((k, v) ∷ m) = visit f (f s k v) m

  pub for_each : {S : Type 0} → (S → K → V → S) → S → ShardedMapTs K V → S
  unfolding visit
  for_each f s [] = s
  for_each f s (m ∷ c) = for_each f (visit f s m) c

module _ {K V : Type 0} ⦃key : Key K⦄ (hash : K → ℕ) where
  -- The index of `getShard`.
  abbrev pub shard_index : K → ShardedMapTs K V → ℕ
  shard_index k c = hash k % length c

  abbrev pub get_shard : K → ShardedMapTs K V → MapTs K V
  get_shard k c = get_or c (shard_index k c) []

  pub sharded_assign : K → V → ShardedMapTs K V → ShardedMapTs K V
  unfolding assign
  sharded_assign k v c = set c (shard_index k c) (assign k v (get_shard k c))

  pub sharded_get_ok : K → ShardedMapTs K V → Option V
  unfolding get_ok
  sharded_get_ok k c = get_ok k (get_shard k c)

  pub sharded_get : V → K → ShardedMapTs K V → V
  unfolding get
  sharded_get default k c = get default k (get_shard k c)

  pub sharded_has : K → ShardedMapTs K V → Bool
  unfolding has
  sharded_has k c = has k (get_shard k c)

  pub sharded_delete : K → ShardedMapTs K V → ShardedMapTs K V
  unfolding delete
  sharded_delete k c = set c (shard_index k c) (delete k (get_shard k c))
