-- ===== src/Metrics/Labels.antt =====
-- Labels that are keys and values in turn.
use api_poll.Prelude.{
  suc, ◌≡◌, refl, ap, Bool, true, List, [], ◌∷◌, Option, none, some, Bytes, length, ◌==◌, arith,
  if_cases, option_cases,
}
use api_poll.Metrics.{
  Kind, Update, State, find_vector, vectors, put_vector, get_label_names, get_label_values,
  create_vector, get_or_create, with_label_values, all_valid, tell,
}

unfoldable pub in_turn : List (Bytes × Bytes) → List Bytes
in_turn [] = []
in_turn ((k, v) ∷ ps) = k ∷ v ∷ in_turn ps

unfoldable pub keys : List (Bytes × Bytes) → List Bytes
keys [] = []
keys ((k, v) ∷ ps) = k ∷ keys ps

unfoldable pub values_of : List (Bytes × Bytes) → List Bytes
values_of [] = []
values_of ((k, v) ∷ ps) = v ∷ values_of ps

get_label_names-in_turn : (ps : List (Bytes × Bytes)) → get_label_names (in_turn ps) ≡ keys ps
unfolding get_label_names in_turn keys
get_label_names-in_turn [] = refl
get_label_names-in_turn ((k, v) ∷ ps) = ap (λ ks. k ∷ ks) (get_label_names-in_turn ps)

get_label_values-in_turn :
    (ps : List (Bytes × Bytes)) → get_label_values (in_turn ps) ≡ values_of ps
unfolding get_label_values in_turn values_of
get_label_values-in_turn [] = refl
get_label_values-in_turn ((k, v) ∷ ps) = ap (λ vs. v ∷ vs) (get_label_values-in_turn ps)

length-keys : (ps : List (Bytes × Bytes)) → length (values_of ps) ≡ length (keys ps)
unfolding keys values_of
length-keys [] = refl
length-keys ((k, v) ∷ ps) = ap suc (length-keys ps)

abbrev pub with_vector : {F : Type 0} → Kind → Bytes → List Bytes → State F → State F
with_vector kind name names s = record s {
  service = put_vector kind name names s.service;
  registered = name ∷ s.registered;
}

get_or_create_first :
    {F : Type 0} (accepts : List Bytes → Bytes → List Bytes → Bool) (kind : Kind) (name : Bytes)
    (names : List Bytes) (s : State F)
    → find_vector name (vectors kind s.service) ≡ none
    → accepts s.registered name names ≡ true
    → get_or_create accepts kind name names s ≡ (with_vector kind name names s, some names)
unfolding get_or_create create_vector
get_or_create_first {F} accepts kind name names s missing accepted =
    let first : State F × Option (List Bytes) → Type 0 =
      λ r. r ≡ (with_vector kind name names s, some names) in
    option_cases first (find_vector name (vectors kind s.service)) _ _
      (λ e.
        if_cases first (accepts s.registered name names) _ _ (λ yes. refl)
          (λ no. let no : ⊥ = ground (arith, accepted, no) in elim no [ ]))
      (λ existing e. let no : ⊥ = ground (arith, missing, e) in elim no [ ])

-- The first update of a name that the registry accepts, with labels that are keys and values in turn,
-- with values that are valid UTF-8, does not panic: the vector gets the keys as its label names, and the update is stored under the
-- values.
pub tell-first :
    {F : Type 0} (valid : Bytes → Bool) (accepts : List Bytes → Bytes → List Bytes → Bool)
    (kind : Kind) (u : Update F) (name : Bytes) (ps : List (Bytes × Bytes)) (s : State F)
    → find_vector name (vectors kind s.service) ≡ none
    → accepts s.registered name (keys ps) ≡ true
    → all_valid valid (values_of ps) ≡ true
    → tell valid accepts kind u name (in_turn ps) s ≡ (
      record (with_vector kind name (keys ps) s) {
        log = record { kind = kind; name = name; values = values_of ps; update = u } ∷ s.log;
      },
      true,
    )
unfolding tell with_label_values
tell-first valid accepts kind u name ps s missing accepted utf8 =
    let same : (length (values_of ps) == length (keys ps)) ≡ true =
      ground (arith, length-keys ps) in
    rw
      (
        get_label_names-in_turn ps,
        get_label_values-in_turn ps,
        get_or_create_first accepts kind name (keys ps) s missing accepted,
      )
      (simp (same, utf8) refl)
