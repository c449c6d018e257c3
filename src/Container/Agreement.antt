-- ===== src/Container/Agreement.antt =====
-- When a sharded map reads as one map, and that each call on both keeps it so.
use api_poll.Prelude.{
  ℕ, zero, suc, ◌+◌, ◌%◌, ◌<◌, ◌≡◌, refl, Bool, true, false, [], ◌∷◌, Option, none, some, length,
  get_or, set, map, sum_of, if◌then◌else◌, if_cases, Bool-cases, inl, inr, ap, ◌∙◌, ◌⊎◌, sym, subst,
  arith, get_or-set, sum_of-set, length-set, length-map, ◌==◌,
}
use api_poll.Container.{
  Key, MapTs, ShardedMapTs, cleared, map_size, assign, get_ok, delete, clear_sharded, sharded_size,
  sharded_assign, sharded_get_ok, sharded_delete, shard_index, get_shard,
}
use api_poll.Container.Entries.{
  count_none, count_some, IsDistinct, get_ok-assign, size-assign, get_ok-delete, size-delete,
  assign-IsDistinct, delete-IsDistinct,
}

module _ {K V : Type 0} ⦃key : Key K⦄ (hash : K → ℕ) where
  -- The sharded map reads as the map, and has its size.
  pub record Agrees (c : ShardedMapTs K V) (m : MapTs K V) : Type 0 where
    pub shards : 0 < length c
    pub shard_distinct : (i : ℕ) → IsDistinct (get_or c i [])
    pub distinct : IsDistinct m
    pub reads : (k : K) → sharded_get_ok hash k c ≡ get_ok k m
    pub sized : sharded_size c ≡ map_size m

  index-lt : (k : K) (c : ShardedMapTs K V) → 0 < length c → shard_index hash k c < length c
  index-lt k c h = omega arith

  set-IsDistinct :
      (c : ShardedMapTs K V) (i : ℕ) (n : MapTs K V)
      → i < length c
      → ((j : ℕ) → IsDistinct (get_or c j []))
      → IsDistinct n
      → (j : ℕ) → IsDistinct (get_or (set c i n) j [])
  set-IsDistinct c i n h d e j =
      subst IsDistinct (sym (get_or-set c i j n [] h))
        (if_cases IsDistinct (i == j) _ _ (λ _. e) (λ _. d j))

  -- The shard of a key after another key's shard was written.
  read-set :
      (i k : K) (n : MapTs K V) (c : ShardedMapTs K V)
      → 0 < length c
      → sharded_get_ok hash i (set c (shard_index hash k c) n) ≡ (
          if shard_index hash k c == shard_index hash i c
          then get_ok i n
          else sharded_get_ok hash i c)
  unfolding sharded_get_ok
  read-set i k n c h =
      ap (λ l. get_ok i (get_or (set c (shard_index hash k c) n) (hash i % l) []))
        (length-set c (shard_index hash k c) n)
      ∙ ap (get_ok i)
          (get_or-set c (shard_index hash k c) (shard_index hash i c) n [] (index-lt k c h))
      ∙ get_ok_if (shard_index hash k c == shard_index hash i c)
    where
      get_ok_if :
          (b : Bool)
          → get_ok i (if b then n else get_shard hash i c)
            ≡ (if b then get_ok i n else get_ok i (get_shard hash i c))
      get_ok_if true = refl
      get_ok_if false = refl

  get_or_empty :
      (c : ShardedMapTs K V) (f : MapTs K V → MapTs K V)
      → ((m : MapTs K V) → f m ≡ [])
      → (i : ℕ) → get_or (map f c) i [] ≡ []
  get_or_empty [] f e i = refl
  get_or_empty (m ∷ c) f e zero = e m
  get_or_empty (m ∷ c) f e (suc i) = get_or_empty c f e i

  size_empty :
      (c : ShardedMapTs K V) (f : MapTs K V → MapTs K V)
      → ((m : MapTs K V) → f m ≡ [])
      → sharded_size (map f c) ≡ 0
  unfolding sharded_size sum_of map_size
  size_empty [] f e = refl
  size_empty (m ∷ c) f e = omega (arith, size_empty c f e, ap length (e m))

  pub clear-Agrees :
      (c : ShardedMapTs K V) (m : MapTs K V) → Agrees c m → Agrees (clear_sharded c) (cleared m)
  unfolding clear_sharded cleared sharded_get_ok get_ok map_size
  clear-Agrees c m a = record {
    shards = omega (arith, a.shards, length-map c cleared);
    shard_distinct = λ i. subst IsDistinct (sym (get_or_empty c cleared (λ n. refl) i)) tt;
    distinct = tt;
    reads =
        λ k. ap (get_ok k) (get_or_empty c cleared (λ n. refl) (hash k % length (map cleared c)));
    sized = size_empty c cleared (λ n. refl);
  }

-- A hash that equal keys share.
module _ {K V : Type 0} ⦃key : Key K⦄ (hash : K → ℕ)
    (respects : (j k : K) → key.equal j k ≡ true → hash j ≡ hash k) where
  -- A call on one key, which leaves that key with `o` in its shard and in the map.
  write-Agrees :
      (k : K) (o : Option V) (c : ShardedMapTs K V) (m n m' : MapTs K V)
      → Agrees hash c m
      → ((i : K) → get_ok i n ≡ (if key.equal k i then o else get_ok i (get_shard hash k c)))
      → ((i : K) → get_ok i m' ≡ (if key.equal k i then o else get_ok i m))
      → IsDistinct n
      → IsDistinct m'
      → map_size n + map_size m ≡ map_size m' + map_size (get_shard hash k c)
      → Agrees hash (set c (shard_index hash k c) n) m'
  unfolding sharded_size sharded_get_ok
  write-Agrees k o c m n m' a on of dn dm' sizes = record {
    shards = omega (arith, a.shards, length-set c (shard_index hash k c) n);
    shard_distinct =
        set-IsDistinct hash c (shard_index hash k c) n (index-lt hash k c a.shards) a.shard_distinct
          dn;
    distinct = dm';
    reads = λ i. read-set hash i k n c a.shards ∙ read i ∙ sym (of i);
    sized = omega (
      arith,
      sum_of-set map_size c (shard_index hash k c) n [] (index-lt hash k c a.shards),
      sizes,
      a.sized,
    );
  }
    where
      apart :
          (i : K)
          → (shard_index hash k c == shard_index hash i c) ≡ false
          → (key.equal k i ≡ true) ⊎ (key.equal k i ≡ false)
          → sharded_get_ok hash i c ≡ (if key.equal k i then o else get_ok i m)
      apart i elsewhere (inl same) =
          let e : shard_index hash k c ≡ shard_index hash i c =
            ap (λ h. h % length c) (respects k i same) in
          let no : ⊥ = ground (arith, e, elsewhere) in elim no [ ]
      apart i elsewhere (inr differ) = simp differ (a.reads i)

      read :
          (i : K)
          → (if shard_index hash k c == shard_index hash i c
              then get_ok i n
              else sharded_get_ok hash i c)
            ≡ (if key.equal k i then o else get_ok i m)
      read i =
          if_cases {A = Option V} (λ x. x ≡ (if key.equal k i then o else get_ok i m))
            (shard_index hash k c == shard_index hash i c) _ _
            (λ here.
              let e : shard_index hash k c ≡ shard_index hash i c = ground arith in
              on i
              ∙ ap (λ x. if key.equal k i then o else x)
                  (ap (λ j. get_ok i (get_or c j [])) e ∙ a.reads i))
            (λ elsewhere. apart i elsewhere (Bool-cases (key.equal k i)))

  pub assign-Agrees :
      (k : K) (v : V) (c : ShardedMapTs K V) (m : MapTs K V)
      → Agrees hash c m
      → Agrees hash (sharded_assign hash k v c) (assign k v m)
  unfolding sharded_assign sharded_get_ok
  assign-Agrees k v c m a =
      let s = get_shard hash k c in
      write-Agrees k (some v) c m (assign k v s) (assign k v m) a (λ i. get_ok-assign k i v s)
        (λ i. get_ok-assign k i v m)
        (assign-IsDistinct k v s (a.shard_distinct (shard_index hash k c)))
        (assign-IsDistinct k v m a.distinct)
        (omega (arith, size-assign k v s, size-assign k v m, ap count_none (a.reads k)))

  pub delete-Agrees :
      (k : K) (c : ShardedMapTs K V) (m : MapTs K V)
      → Agrees hash c m
      → Agrees hash (sharded_delete hash k c) (delete k m)
  unfolding sharded_delete sharded_get_ok
  delete-Agrees k c m a =
      let s = get_shard hash k c in
      let d = a.shard_distinct (shard_index hash k c) in
      write-Agrees k none c m (delete k s) (delete k m) a (λ i. get_ok-delete k i s d)
        (λ i. get_ok-delete k i m a.distinct) (delete-IsDistinct k s d)
        (delete-IsDistinct k m a.distinct)
        (omega (arith, size-delete k s, size-delete k m, ap count_some (a.reads k)))
