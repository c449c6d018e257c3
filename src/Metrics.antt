-- ===== src/Metrics.antt =====
-- internal/service/metrics.go: named vectors of counters, gauges and histograms. The registry of
-- Prometheus is a parameter, which says whether a name with label names can be registered, as is the test
-- for valid UTF-8; a vector
-- is its label names, and what it is told is logged. A panic, which the callers may recover from, leaves
-- what was done before it. The metrics server is left out.
pub mod Labels
pub mod Vectors
pub mod Consistent
mod Tests
use api_poll.Prelude.{
  ℕ, Bool, true, false, ◌&&◌, List, [], ◌∷◌, Option, none, some, Bytes, bytes_eq, length, ◌==◌,
  if◌then◌else◌,
}

pub data Kind : Type 0 where
  counter gauge histogram : Kind

-- What a vector is told; the numbers are floats.
pub data Update (F : Type 0) : Type 0 where
  increments decrements : Update F
  sets observes : F → Update F

-- A vector's name and its label names.
abbrev pub Vectors : Type 0
Vectors = List (Bytes × List Bytes)

pub record Entry (F : Type 0) : Type 0 where
  pub kind : Kind
  pub name : Bytes
  pub values : List Bytes
  pub update : Update F

pub record PrometheusService : Type 0 where
  pub counters : Vectors
  pub gauges : Vectors
  pub histograms : Vectors

-- With the service: the names in the registry, and the log, newest first.
pub record State (F : Type 0) : Type 0 where
  pub service : PrometheusService
  pub registered : List Bytes
  pub log : List (Entry F)

abbrev pub new_service : PrometheusService
new_service = record { counters = []; gauges = []; histograms = [] }

-- `getLabelNames` and `getLabelValues`, for keys and values in turn.
unfoldable pub get_label_names : List Bytes → List Bytes
get_label_names [] = []
get_label_names (k ∷ []) = k ∷ []
get_label_names (k ∷ v ∷ ls) = k ∷ get_label_names ls

unfoldable pub get_label_values : List Bytes → List Bytes
get_label_values [] = []
get_label_values (k ∷ []) = []
get_label_values (k ∷ v ∷ ls) = v ∷ get_label_values ls

unfoldable pub find_vector : Bytes → Vectors → Option (List Bytes)
unfolding bytes_eq
find_vector name [] = none
find_vector name ((n, names) ∷ vs) =
    let rest = find_vector name vs in if bytes_eq n name then some names else rest

abbrev pub vectors : Kind → PrometheusService → Vectors
vectors counter s = s.counters
vectors gauge s = s.gauges
vectors histogram s = s.histograms

abbrev pub put_vector : Kind → Bytes → List Bytes → PrometheusService → PrometheusService
put_vector counter name names s = record s { counters = (name, names) ∷ s.counters }
put_vector gauge name names s = record s { gauges = (name, names) ∷ s.gauges }
put_vector histogram name names s = record s { histograms = (name, names) ∷ s.histograms }

abbrev pub all_valid : (Bytes → Bool) → List Bytes → Bool
all_valid valid [] = true
all_valid valid (v ∷ vs) = valid v && all_valid valid vs

-- `WithLabelValues` panics when there are not as many values as label names, or one of the values is not
-- valid UTF-8.
unfoldable pub with_label_values :
    {F : Type 0} → (Bytes → Bool) → Entry F → State F × Option (List Bytes) → State F × Bool
with_label_values valid e (s, none) = (s, false)
with_label_values valid e (s, some names) =
    if (length e.values == length names) && all_valid valid e.values
    then (record s { log = e ∷ s.log }, true)
    else (s, false)

module _ {F : Type 0} (accepts : List Bytes → Bytes → List Bytes → Bool) where
  -- `promauto.NewCounterVec` and the others panic when the registry refuses.
  unfoldable pub create_vector : Kind → Bytes → List Bytes → State F → State F × Option (List Bytes)
  create_vector kind name names s =
      if accepts s.registered name names
      then (
        record s {
          service = put_vector kind name names s.service;
          registered = name ∷ s.registered;
        },
        some names,
      )
      else (s, none)

  -- `getOrCreateCounter`, `getOrCreateGauge` and `getOrCreateHistogram`: the label names of the vector.
  unfoldable pub get_or_create : Kind → Bytes → List Bytes → State F → State F × Option (List Bytes)
  unfolding find_vector create_vector
  get_or_create kind name names s = elim (find_vector name (vectors kind s.service)) [
    | some existing ↦ (s, some existing)
    | none ↦ create_vector kind name names s
  ]

module _ {F : Type 0} (valid : Bytes → Bool)
    (accepts : List Bytes → Bytes → List Bytes → Bool) where
  -- The service after an update, and whether it did not panic.
  unfoldable pub tell : Kind → Update F → Bytes → List Bytes → State F → State F × Bool
  unfolding get_label_names get_label_values get_or_create with_label_values
  tell kind u name labels s =
      with_label_values valid
        (record { kind = kind; name = name; values = get_label_values labels; update = u })
        (get_or_create accepts kind name (get_label_names labels) s)

  pub increment_counter : Bytes → List Bytes → State F → State F × Bool
  unfolding tell
  increment_counter = tell counter increments

  pub set_gauge : Bytes → F → List Bytes → State F → State F × Bool
  unfolding tell
  set_gauge name value = tell gauge (sets value) name

  pub increment_gauge : Bytes → List Bytes → State F → State F × Bool
  unfolding tell
  increment_gauge = tell gauge increments

  pub decrement_gauge : Bytes → List Bytes → State F → State F × Bool
  unfolding tell
  decrement_gauge = tell gauge decrements

  pub observe_histogram : Bytes → F → List Bytes → State F → State F × Bool
  unfolding tell
  observe_histogram name value = tell histogram (observes value) name

  -- `StartTimer` and `ObserveDuration` of its timer, with no other call in between.
  pub time_histogram : Bytes → F → List Bytes → State F → State F × Bool
  unfolding tell
  time_histogram name duration = tell histogram (observes duration) name

-- The calls of the service.
pub data Call (F : Type 0) : Type 0 where
  increments_counter increments_gauge decrements_gauge : Bytes → List Bytes → Call F
  sets_gauge observes_histogram times_histogram : Bytes → F → List Bytes → Call F

module _ {F : Type 0} (valid : Bytes → Bool)
    (accepts : List Bytes → Bytes → List Bytes → Bool) where
  pub call : Call F → State F → State F × Bool
  unfolding increment_counter increment_gauge decrement_gauge set_gauge observe_histogram
      time_histogram
  call (increments_counter name labels) = increment_counter valid accepts name labels
  call (increments_gauge name labels) = increment_gauge valid accepts name labels
  call (decrements_gauge name labels) = decrement_gauge valid accepts name labels
  call (sets_gauge name value labels) = set_gauge valid accepts name value labels
  call (observes_histogram name value labels) = observe_histogram valid accepts name value labels
  call (times_histogram name duration labels) = time_histogram valid accepts name duration labels

  -- Calls one after another; a panic of one does not stop the others.
  pub run : List (Call F) → State F → State F
  unfolding call
  run [] s = s
  run (c ∷ cs) s = run cs (call c s).0
