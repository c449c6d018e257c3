-- ===== src/Metrics/Consistent.antt =====
-- What all calls keep of the maps, the registry and the log.
use api_poll.Prelude.{
  ◌≡◌, sym, ◌∙◌, subst, inl, inr, Bool, ◌&&◌, true, false, List, [], ◌∷◌, Option, none, some, Bytes,
  bytes_eq, bytes_eq_self, bytes_eq→eq, ◌≢◌, length, ◌==◌, arith, if_cases, option_cases,
  Bool-cases,
}
use api_poll.Metrics.{
  Kind, counter, gauge, histogram, Update, increments, decrements, sets, observes, Entry, State,
  new_service, find_vector, vectors, put_vector, create_vector, get_or_create, with_label_values,
  all_valid, tell, increment_counter, set_gauge, increment_gauge, decrement_gauge,
  observe_histogram, time_histogram, Call, increments_counter, increments_gauge, decrements_gauge,
  sets_gauge, observes_histogram, times_histogram, call, run, get_label_names,
}
use api_poll.Metrics.Vectors.{
  has_name, RefusesRepeats, find_in, Fits, AllEntries, IsConsistent, find_put_inv, find_put_self,
  find_put_kept,
}

has_name_head : (name n : Bytes) (ms : List Bytes) → name ≡ n → has_name n (name ∷ ms) ≡ true
unfolding has_name
has_name_head name n ms e =
    let same : bytes_eq name n ≡ true =
      subst (λ m. bytes_eq name m ≡ true) e (bytes_eq_self name) in
    ground (arith, same)

has_name_tail :
    (name n : Bytes) (ms : List Bytes) → has_name n ms ≡ true → has_name n (name ∷ ms) ≡ true
unfolding has_name
has_name_tail name n ms h = ground (arith, h)

module _ {F : Type 0} where
  map_entries :
      (P Q : Entry F → Type 0)
      → ((e : Entry F) → P e → Q e)
      → (es : List (Entry F)) → AllEntries P es
      → AllEntries Q es
  map_entries P Q f [] h = tt
  map_entries P Q f (e ∷ es) (h, hs) = (f e h, map_entries P Q f es hs)

  -- A name that the registry does not have is the name of no vector.
  absent :
      (s : State F)
      → IsConsistent s
      → (name : Bytes) → has_name name s.registered ≡ false
      → (k : Kind) (n : Bytes) (names : List Bytes) → find_in k n s ≡ some names
      → name ≢ n
  absent s c name lacks k n names h e =
      let has : has_name name s.registered ≡ true =
        subst (λ m. has_name m s.registered ≡ true) (sym e) (c.in_registry k n names h) in
      let no : ⊥ = ground (arith, has, lacks) in elim no [ ]

  other_name :
      (s : State F)
      → IsConsistent s
      → (name : Bytes) → has_name name s.registered ≡ false
      → (k : Kind) (n : Bytes) (names : List Bytes) → find_in k n s ≡ some names
      → bytes_eq name n ≡ false
  other_name s c name lacks k n names h = elim (Bool-cases (bytes_eq name n)) [
    | inl same ↦
        let no : ⊥ = absent s c name lacks k n names h (bytes_eq→eq name n same) in elim no [ ]
    | inr other ↦ other
  ]

  put-IsConsistent :
      (kind : Kind) (name : Bytes) (names : List Bytes) (s : State F)
      → IsConsistent s
      → has_name name s.registered ≡ false
      → IsConsistent (record s {
        service = put_vector kind name names s.service;
        registered = name ∷ s.registered;
      })
  put-IsConsistent kind name names s c lacks = record {
    in_registry = λ k n ls h. elim (find_put_inv kind k name n names ls s.service h) [
      | inl (e, f) ↦ has_name_head name n s.registered f
      | inr old ↦ has_name_tail name n s.registered (c.in_registry k n ls old)
    ];
    one_kind = λ j k n ls ms h i. elim (find_put_inv kind j name n names ls s.service h) [
      | inl (e, f) ↦ elim (find_put_inv kind k name n names ms s.service i) [
        | inl (g, _) ↦ e ∙ sym g
        | inr old ↦ let no : ⊥ = absent s c name lacks k n ms old f in elim no [ ]
      ]
      | inr old ↦ elim (find_put_inv kind k name n names ms s.service i) [
        | inl (g, f) ↦ let no : ⊥ = absent s c name lacks j n ls old f in elim no [ ]
        | inr other ↦ c.one_kind j k n ls ms old other
      ]
    ];
    log_fits =
        map_entries _ _
          (λ e (ls, h, l). (
            ls,
            find_put_kept kind e.kind name e.name names ls s.service
                (other_name s c name lacks e.kind e.name ls h) h,
            l,
          ))
          s.log c.log_fits;
  }

  log-IsConsistent :
      (e : Entry F) (s : State F)
      → IsConsistent s
      → Fits s e
      → IsConsistent (record s { log = e ∷ s.log })
  log-IsConsistent e s c h = record {
    in_registry = c.in_registry;
    one_kind = c.one_kind;
    log_fits = (h, c.log_fits);
  }

  -- A consistent state with the label names of a vector in it, if there is one.
  abbrev Gives : Kind → Bytes → State F × Option (List Bytes) → Type 0
  Gives kind name (s, none) = IsConsistent s
  Gives kind name (s, some names) = IsConsistent s × (find_in kind name s ≡ some names)

  with_label_values-IsConsistent :
      (valid : Bytes → Bool) (e : Entry F) (r : State F × Option (List Bytes))
      → Gives e.kind e.name r
      → IsConsistent (with_label_values valid e r).0
  unfolding with_label_values
  with_label_values-IsConsistent valid e (s, none) c = c
  with_label_values-IsConsistent valid e (s, some names) (c, h) =
      if_cases {A = State F × Bool} (λ r. IsConsistent r.0)
        ((length e.values == length names) && all_valid valid e.values) _ _
        (λ same. log-IsConsistent e s c (names, h, ground (arith, same))) (λ other. c)

nothing_new :
    (k : Kind) (n : Bytes) (names : List Bytes) → find_vector n (vectors k new_service) ≢ some names
unfolding find_vector
nothing_new counter n names h = let no : ⊥ = ground (arith, h) in elim no [ ]
nothing_new gauge n names h = let no : ⊥ = ground (arith, h) in elim no [ ]
nothing_new histogram n names h = let no : ⊥ = ground (arith, h) in elim no [ ]

module _ {F : Type 0} (valid : Bytes → Bool) (accepts : List Bytes → Bytes → List Bytes → Bool)
    (refuses_repeats : RefusesRepeats accepts) where
  get_or_create-Gives :
      (kind : Kind) (name : Bytes) (names : List Bytes) (s : State F)
      → IsConsistent s
      → Gives kind name (get_or_create accepts kind name names s)
  unfolding get_or_create create_vector
  get_or_create-Gives kind name names s c =
      option_cases (Gives kind name) (find_vector name (vectors kind s.service)) _ _
        (λ missing.
          if_cases {A = State F × Option (List Bytes)} (Gives kind name)
            (accepts s.registered name names) _ _
            (λ accepted. (
              put-IsConsistent kind name names s c
                  (refuses_repeats s.registered name names accepted),
              find_put_self kind name names s.service,
            ))
            (λ refused. c))
        (λ existing e. (c, e))

  tell-IsConsistent :
      (kind : Kind) (u : Update F) (name : Bytes) (labels : List Bytes) (s : State F)
      → IsConsistent s
      → IsConsistent (tell valid accepts kind u name labels s).0
  unfolding tell
  tell-IsConsistent kind u name labels s c =
      with_label_values-IsConsistent valid _ _
        (get_or_create-Gives kind name (get_label_names labels) s c)

  call-IsConsistent :
      (k : Call F) (s : State F) → IsConsistent s → IsConsistent (call valid accepts k s).0
  unfolding call increment_counter increment_gauge decrement_gauge set_gauge observe_histogram
      time_histogram
  call-IsConsistent (increments_counter name labels) s c =
      tell-IsConsistent counter increments name labels s c
  call-IsConsistent (increments_gauge name labels) s c =
      tell-IsConsistent gauge increments name labels s c
  call-IsConsistent (decrements_gauge name labels) s c =
      tell-IsConsistent gauge decrements name labels s c
  call-IsConsistent (sets_gauge name value labels) s c =
      tell-IsConsistent gauge (sets value) name labels s c
  call-IsConsistent (observes_histogram name value labels) s c =
      tell-IsConsistent histogram (observes value) name labels s c
  call-IsConsistent (times_histogram name value labels) s c =
      tell-IsConsistent histogram (observes value) name labels s c

  run_from-IsConsistent :
      (cs : List (Call F)) (s : State F) → IsConsistent s → IsConsistent (run valid accepts cs s)
  unfolding run
  run_from-IsConsistent [] s c = c
  run_from-IsConsistent (k ∷ cs) s c =
      run_from-IsConsistent cs (call valid accepts k s).0 (call-IsConsistent k s c)

-- With a registry that refuses a name that it has, whatever is called of a new service and whatever
-- panics on the way: every vector's name is in the registry, a name belongs to vectors of one kind
-- only, and an update was stored only with as many values as its vector has label names.
pub run-IsConsistent :
    {F : Type 0} (valid : Bytes → Bool) (accepts : List Bytes → Bytes → List Bytes → Bool)
    (registered : List Bytes) (cs : List (Call F))
    → RefusesRepeats accepts
    → IsConsistent
        (run valid accepts cs (record { service = new_service; registered = registered; log = [] }))
run-IsConsistent valid accepts registered cs refuses_repeats =
    run_from-IsConsistent valid accepts refuses_repeats cs _ (record {
      in_registry = λ k n names h. let no : ⊥ = nothing_new k n names h in elim no [ ];
      one_kind = λ j k n names other h i. let no : ⊥ = nothing_new j n names h in elim no [ ];
      log_fits = tt;
    })
