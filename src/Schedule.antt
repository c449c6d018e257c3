-- ===== src/Schedule.antt =====
-- internal/entity/work_schedule.go: the weekly hours in which the poller works. Instants and durations
-- are nanoseconds in ℤ. The time zone database is not part of the program: a zone is the parameter
-- `Zone`, which says what a local clock shows. A panic is a result.
pub mod Clock
pub mod Hours
pub mod Week
mod Tests
use api_poll.Prelude.{
  ℕ, zero, suc, ◌+◌, ◌*◌, Bool, true, false, ◌&&◌, List, [], ◌∷◌, Option, none, some, Bytes,
  bytes_eq, ltb, leb, ◌==◌, ◌≤◌, ◌<◌, if◌then◌else◌,
}
use api_poll.Prelude.Int.{ℤ, pos, negsuc, ◌+ℤ◌, ◌-ℤ◌, ltb_ℤ}
use Clock.{parse_clock, format_clock}

pub data Weekday : Type 0 where
  sunday monday tuesday wednesday thursday friday saturday : Weekday
  other : Bytes → Weekday

pub data Error : Type 0 where
  invalid_weekday no_work_session : Error

-- What a call ends in: a value, an error, or a panic.
pub data Result (A : Type 0) : Type 0 where
  ok : A → Result A
  err : Error → Result A
  panics : Result A

infixl 5 ◌>>=◌
abbrev pub ◌>>=◌ : {A B : Type 0} → Result A → (A → Result B) → Result B
ok a >>= f = f a
err e >>= f = err e
panics >>= f = panics

-- The method `Next`.
unfoldable pub next : Weekday → Result Weekday
next sunday = ok monday
next monday = ok tuesday
next tuesday = ok wednesday
next wednesday = ok thursday
next thursday = ok friday
next friday = ok saturday
next saturday = ok sunday
next (other s) = panics

abbrev pub weekdays : List Weekday
weekdays = sunday ∷ monday ∷ tuesday ∷ wednesday ∷ thursday ∷ friday ∷ saturday ∷ []

unfoldable pub new_weekday_from_int : ℕ → Result Weekday
new_weekday_from_int zero = ok sunday
new_weekday_from_int (suc zero) = ok monday
new_weekday_from_int (suc (suc zero)) = ok tuesday
new_weekday_from_int (suc (suc (suc zero))) = ok wednesday
new_weekday_from_int (suc (suc (suc (suc zero)))) = ok thursday
new_weekday_from_int (suc (suc (suc (suc (suc zero))))) = ok friday
new_weekday_from_int (suc (suc (suc (suc (suc (suc zero)))))) = ok saturday
new_weekday_from_int (suc (suc (suc (suc (suc (suc (suc n))))))) = err invalid_weekday

abbrev number : Weekday → ℕ
number sunday = 0
number monday = 1
number tuesday = 2
number wednesday = 3
number thursday = 4
number friday = 5
number saturday = 6
number (other s) = 7

abbrev name : Weekday → Bytes
name (other s) = s
name d = []

unfoldable pub weekday_eq : Weekday → Weekday → Bool
unfolding bytes_eq
weekday_eq d e = (number d == number e) && bytes_eq (name d) (name e)

pub record DailySchedule : Type 0 where
  pub start_time : Bytes
  pub end_time : Bytes
  pub preparation_time : ℤ

-- The map's entries, newest first.
pub record WorkSchedule : Type 0 where
  pub time_zone : Bytes
  pub schedule : List (Weekday × DailySchedule)

unfoldable pub new_work_schedule : Bytes → WorkSchedule
new_work_schedule zone = record { time_zone = zone; schedule = [] }

unfoldable pub find_day : Weekday → List (Weekday × DailySchedule) → Option DailySchedule
unfolding weekday_eq
find_day day [] = none
find_day day ((d, s) ∷ m) = if weekday_eq d day then some s else find_day day m

unfoldable pub get_daily_schedule : Weekday → WorkSchedule → Option DailySchedule
unfolding find_day
get_daily_schedule day ws = find_day day ws.schedule

unfoldable pub set_time_zone : Bytes → WorkSchedule → WorkSchedule
set_time_zone zone ws = record ws { time_zone = zone }

unfoldable pub get_time_zone : WorkSchedule → Bytes
get_time_zone ws = ws.time_zone

-- A loaded time zone. `on_day now h m` is `h:m` on the local day of `now`; `zero_day h m` is what the
-- zone's clock shows at `h:m` UTC on the day that time.Parse gives to a text with no date,
-- a time of day like those.
pub record Zone : Type 0 where
  pub weekday : ℤ → ℕ
  pub weekday-lt : (t : ℤ) → weekday t < 7
  pub on_day : ℤ → ℕ → ℕ → ℤ
  pub zero_day : ℕ → ℕ → ℕ × ℕ
  pub zero_day-lt : (h m : ℕ) → h < 24 → m < 60 → ((zero_day h m).0 < 24) × ((zero_day h m).1 < 60)

-- `time.LoadLocation`, whose error makes every method panic.
abbrev pub Zones : Type 0
Zones = Bytes → Option Zone

abbrev pub or_panic : {A : Type 0} → Option A → Result A
or_panic none = panics
or_panic (some a) = ok a

-- `startTime.After(endTime)` for two times of one day.
abbrev after_clock : ℕ × ℕ → ℕ × ℕ → Bool
after_clock (h, m) (k, n) = ltb (k * 60 + n) (h * 60 + m)

abbrev pub inside : ℤ → ℤ × ℤ → Bool
inside now (a, b) = ltb_ℤ a now && ltb_ℤ now b

-- Situations 1 to 3 of `NextWorkSession`; `none` if none of them applies.
abbrev pub situation : ℤ → ℤ × ℤ → Option ℤ
situation now (a, b) =
    if inside now (a, b)
    then some (pos 0)
    else if ltb_ℤ now a
    then some (a -ℤ now)
    else if ltb_ℤ b now
    then some (b -ℤ now)
    else none

-- How a round of the loop ends: with an answer, or with the day of the next round.
pub data Round : Type 0 where
  answers : ℤ → Round
  again : Weekday → Round

abbrev pub of_situation : Weekday → Option ℤ → Round
of_situation day (some d) = answers d
of_situation day none = again day

-- Situation 0 goes on to the next day; a day with hours of which no situation applies is kept.
unfoldable pub round_of : ℤ → Weekday → Option (ℤ × ℤ) → Result Round
unfolding next
round_of now day none = next day >>= λ d. ok (again d)
round_of now day (some hours) = ok (of_situation day (situation now hours))

module _ (zones : Zones) where
  -- `SetDailySchedule`.
  unfoldable pub set_daily_schedule :
      Weekday → Bytes → Bytes → ℤ → WorkSchedule → Result WorkSchedule
  unfolding parse_clock format_clock
  set_daily_schedule day start end preparation ws = do
    s ← or_panic (parse_clock start)
    e ← or_panic (parse_clock end)
    z ← (if after_clock s e then panics else or_panic (zones ws.time_zone))
    ok (record ws {
      schedule =
          (
            day,
            record {
              start_time = format_clock (z.zero_day s.0 s.1);
              end_time = format_clock (z.zero_day e.0 e.1);
              preparation_time = preparation;
            },
          )
          ∷ ws.schedule;
    })

  -- `getTimes`: the hours of `day`, put on the date of `now` whatever day that is.
  unfoldable pub get_times : ℤ → DailySchedule → Zone → Result (ℤ × ℤ)
  unfolding parse_clock
  get_times now s z = do
    a ← or_panic (parse_clock s.start_time)
    b ← or_panic (parse_clock s.end_time)
    ok (z.on_day now a.0 a.1, z.on_day now b.0 b.1)

  -- `getTimesWithPreparation`; `none` is its `false`.
  unfoldable pub get_times_with_preparation : ℤ → Weekday → WorkSchedule → Result (Option (ℤ × ℤ))
  unfolding get_times get_daily_schedule
  get_times_with_preparation now day ws = elim (get_daily_schedule day ws) [
    | none ↦ ok none
    | some s ↦ do
      z ← or_panic (zones ws.time_zone)
      t ← get_times now s z
      ok (some (t.0 -ℤ s.preparation_time, t.1 +ℤ s.preparation_time))
  ]

  -- `WorkNow` at the instant `now`.
  unfoldable pub work_now : ℤ → WorkSchedule → Result Bool
  unfolding new_weekday_from_int get_times_with_preparation
  work_now now ws = do
    z ← or_panic (zones ws.time_zone)
    day ← elim (new_weekday_from_int (z.weekday now)) [
      | ok d ↦ ok d
      | err e ↦ panics
      | panics ↦ panics
    ]
    t ← get_times_with_preparation now day ws
    ok (elim t [ none ↦ false | some hours ↦ inside now hours ])

  -- The loop of `NextWorkSession`, by the rounds that are left.
  unfoldable pub search_session : ℕ → ℤ → Weekday → WorkSchedule → Result ℤ
  unfolding get_times_with_preparation round_of
  search_session zero now day ws = err no_work_session
  search_session (suc rounds) now day ws =
      (get_times_with_preparation now day ws >>= round_of now day) >>= λ r. elim r [
        | answers d ↦ ok d
        | again d ↦ search_session rounds now d ws
      ]

  -- `NextWorkSession` at the instant `now`. The index into `Weekdays` is that of the weekday.
  unfoldable pub next_work_session : ℤ → WorkSchedule → Result ℤ
  unfolding search_session new_weekday_from_int
  next_work_session now ws = do
    z ← or_panic (zones ws.time_zone)
    day ← elim (new_weekday_from_int (z.weekday now)) [
      | ok d ↦ ok d
      | err e ↦ panics
      | panics ↦ panics
    ]
    search_session 7 now day ws
