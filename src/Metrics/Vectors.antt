-- ===== src/Metrics/Vectors.antt =====
-- The vectors of the service after one more is put, and what a consistent state is.
use api_poll.Prelude.{
  ◌≡◌, refl, ◌⊎◌, inl, inr, Bool, true, false, ◌||◌, List, [], ◌∷◌, Option, some, Bytes, bytes_eq,
  bytes_eq→eq, bytes_eq_self, length, if_cases,
}
use api_poll.Metrics.{
  Kind, counter, gauge, histogram, Vectors, Entry, PrometheusService, State, find_vector, vectors,
  put_vector,
}

unfoldable pub has_name : Bytes → List Bytes → Bool
has_name n [] = false
has_name n (m ∷ ms) = bytes_eq m n || has_name n ms

-- The registry accepts only names that it does not have.
abbrev pub RefusesRepeats : (List Bytes → Bytes → List Bytes → Bool) → Type 0
RefusesRepeats accepts =
    (names : List Bytes) (n : Bytes) (labels : List Bytes)
    → accepts names n labels ≡ true
    → has_name n names ≡ false

module _ {F : Type 0} where
  abbrev pub find_in : Kind → Bytes → State F → Option (List Bytes)
  find_in kind n s = find_vector n (vectors kind s.service)

  -- An update that is logged went to a vector with as many label names as it has values.
  abbrev pub Fits : State F → Entry F → Type 0
  Fits s e =
      (names : List Bytes) × (find_in e.kind e.name s ≡ some names)
      × (length e.values ≡ length names)

  abbrev pub AllEntries : (Entry F → Type 0) → List (Entry F) → Type 0
  AllEntries P [] = Unit
  AllEntries P (e ∷ es) = P e × AllEntries P es

  -- Every vector's name is in the registry, and it is the name of a vector of one kind only.
  pub record IsConsistent (s : State F) : Type 0 where
    pub in_registry :
        (k : Kind) (n : Bytes) (names : List Bytes)
        → find_in k n s ≡ some names
        → has_name n s.registered ≡ true
    pub one_kind :
        (j k : Kind) (n : Bytes) (names other : List Bytes)
        → find_in j n s ≡ some names
        → find_in k n s ≡ some other
        → j ≡ k
    pub log_fits : AllEntries (Fits s) s.log

find_vector_head :
    (name n : Bytes) (names ls : List Bytes) (vs : Vectors)
    → find_vector n ((name, names) ∷ vs) ≡ some ls
    → (name ≡ n) ⊎ (find_vector n vs ≡ some ls)
unfolding find_vector
find_vector_head name n names ls vs =
    if_cases (λ o. o ≡ some ls → (name ≡ n) ⊎ (find_vector n vs ≡ some ls)) (bytes_eq name n) _ _
      (λ same h. inl (bytes_eq→eq name n same)) (λ other h. inr h)

find_vector_self :
    (name : Bytes) (names : List Bytes) (vs : Vectors)
    → find_vector name ((name, names) ∷ vs) ≡ some names
unfolding find_vector
find_vector_self name names vs = simp (bytes_eq_self name) refl

find_vector_kept :
    (name n : Bytes) (names ls : List Bytes) (vs : Vectors)
    → bytes_eq name n ≡ false
    → find_vector n vs ≡ some ls
    → find_vector n ((name, names) ∷ vs) ≡ some ls
unfolding find_vector
find_vector_kept name n names ls vs other h = simp other h

at_kind :
    (kind : Kind) {name n : Bytes} {R : Type 0} → (name ≡ n) ⊎ R → ((kind ≡ kind) × (name ≡ n)) ⊎ R
at_kind kind (inl e) = inl (refl, e)
at_kind kind (inr r) = inr r

pub find_put_inv :
    (kind k : Kind) (name n : Bytes) (names ls : List Bytes) (s : PrometheusService)
    → find_vector n (vectors k (put_vector kind name names s)) ≡ some ls
    → ((k ≡ kind) × (name ≡ n)) ⊎ (find_vector n (vectors k s) ≡ some ls)
find_put_inv counter counter name n names ls s h =
    at_kind counter (find_vector_head name n names ls s.counters h)
find_put_inv gauge gauge name n names ls s h =
    at_kind gauge (find_vector_head name n names ls s.gauges h)
find_put_inv histogram histogram name n names ls s h =
    at_kind histogram (find_vector_head name n names ls s.histograms h)
find_put_inv counter gauge name n names ls s h = inr h
find_put_inv counter histogram name n names ls s h = inr h
find_put_inv gauge counter name n names ls s h = inr h
find_put_inv gauge histogram name n names ls s h = inr h
find_put_inv histogram counter name n names ls s h = inr h
find_put_inv histogram gauge name n names ls s h = inr h

pub find_put_self :
    (kind : Kind) (name : Bytes) (names : List Bytes) (s : PrometheusService)
    → find_vector name (vectors kind (put_vector kind name names s)) ≡ some names
find_put_self counter name names s = find_vector_self name names s.counters
find_put_self gauge name names s = find_vector_self name names s.gauges
find_put_self histogram name names s = find_vector_self name names s.histograms

pub find_put_kept :
    (kind k : Kind) (name n : Bytes) (names ls : List Bytes) (s : PrometheusService)
    → bytes_eq name n ≡ false
    → find_vector n (vectors k s) ≡ some ls
    → find_vector n (vectors k (put_vector kind name names s)) ≡ some ls
find_put_kept counter counter name n names ls s e h =
    find_vector_kept name n names ls s.counters e h
find_put_kept gauge gauge name n names ls s e h = find_vector_kept name n names ls s.gauges e h
find_put_kept histogram histogram name n names ls s e h =
    find_vector_kept name n names ls s.histograms e h
find_put_kept counter gauge name n names ls s e h = h
find_put_kept counter histogram name n names ls s e h = h
find_put_kept gauge counter name n names ls s e h = h
find_put_kept gauge histogram name n names ls s e h = h
find_put_kept histogram counter name n names ls s e h = h
find_put_kept histogram gauge name n names ls s e h = h
