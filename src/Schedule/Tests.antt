-- ===== src/Schedule/Tests.antt =====
-- Runs of the schedule, and the theorems at a concrete zone and week.
use api_poll.Prelude.{ℕ, none, ◌+◌, ◌*◌, ◌≡◌, ◌⊎◌, refl, true, false, [], ◌∷◌, some, arith, utf8}
use api_poll.Prelude.Int.{pos, negsuc, ◌+ℤ◌, ◌-ℤ◌}
use api_poll.Schedule.{
  sunday, monday, ok, panics, ◌>>=◌, set_daily_schedule, err, no_work_session, WorkSchedule,
  DailySchedule, Zone, Zones, next, new_weekday_from_int, get_daily_schedule,
  get_times_with_preparation, work_now, next_work_session,
}
use api_poll.Schedule.Clock.{parse_clock}
use api_poll.Schedule.Week.{Earlier, Sets, set_daily_schedule-Sets}
use api_poll.Schedule.Hours.{◌<ℤ◌, day_situations, day_off}

-- A clock that counts minutes, on a Sunday, in a zone with no offset.
abbrev utc : Zone
utc = record {
  weekday = λ t. 0;
  weekday-lt = λ t. omega arith;
  on_day = λ t h m. pos (h * 60 + m);
  zero_day = λ h m. (h, m);
  zero_day-lt = λ h m p q. (p, q);
}

abbrev zones : Zones
zones name = some utc

abbrev office : DailySchedule
office = record { start_time = utf8 "09:00"; end_time = utf8 "18:00"; preparation_time = pos 10 }

abbrev on_sundays : WorkSchedule
on_sundays = record { time_zone = utf8 "UTC"; schedule = (sunday, office) ∷ [] }

abbrev on_mondays : WorkSchedule
on_mondays = record { time_zone = utf8 "UTC"; schedule = (monday, office) ∷ [] }

sunday_hours :
    get_times_with_preparation zones (pos 600) sunday on_sundays ≡ ok (some (pos 530, pos 1090))
unfolding get_times_with_preparation ◌+ℤ◌ ◌-ℤ◌
sunday_hours = refl

-- In the evening the wait is negative; at the very end of the hours there is none.
evening : next_work_session zones (pos 1200) on_sundays ≡ ok (negsuc 109)
unfolding next_work_session ◌+ℤ◌ ◌-ℤ◌
evening = refl

closing_time : next_work_session zones (pos 1090) on_sundays ≡ err no_work_session
unfolding next_work_session ◌+ℤ◌ ◌-ℤ◌
closing_time = refl

-- In the evening, at 20:00.
day_situations_example :
    ((pos 530 <ℤ pos 1200)
      × (pos 1200 <ℤ pos 1090)
      × (work_now zones (pos 1200) on_sundays ≡ ok true)
      × (next_work_session zones (pos 1200) on_sundays ≡ ok (pos 0)))
    ⊎ ((pos 1200 <ℤ pos 530)
        × (work_now zones (pos 1200) on_sundays ≡ ok false)
        × (next_work_session zones (pos 1200) on_sundays ≡ ok (pos 530 -ℤ pos 1200)))
    ⊎ ((pos 1090 <ℤ pos 1200)
        × (work_now zones (pos 1200) on_sundays ≡ ok false)
        × (next_work_session zones (pos 1200) on_sundays ≡ ok (pos 1090 -ℤ pos 1200))
        × ((pos 1090 -ℤ pos 1200) <ℤ pos 0))
    ⊎ (((pos 1200 ≡ pos 530) ⊎ (pos 1200 ≡ pos 1090))
        × (work_now zones (pos 1200) on_sundays ≡ ok false)
        × (next_work_session zones (pos 1200) on_sundays ≡ err no_work_session))
unfolding new_weekday_from_int get_daily_schedule parse_clock ◌+ℤ◌ ◌-ℤ◌
day_situations_example =
    day_situations zones on_sundays (pos 1200) utc office (9, 0) (18, 0) refl refl refl sunday refl
      refl (omega arith)

-- On a Sunday morning, with hours on Mondays only.
day_off_example :
    (work_now zones (pos 600) on_mondays ≡ ok false)
    × (next_work_session zones (pos 600) on_mondays ≡ ok (pos 0))
unfolding new_weekday_from_int next get_daily_schedule parse_clock ◌+ℤ◌ ◌-ℤ◌
day_off_example =
    day_off zones on_mondays (pos 600) utc office (9, 0) (18, 0) refl refl refl sunday monday refl
      refl refl refl (omega arith) (omega arith)

-- The hours of Mondays, which are given with an hour of one digit.
set_daily_schedule-Sets_example :
    ((ws' : WorkSchedule) × (s : ℕ × ℕ) × (e : ℕ × ℕ) × (z : Zone) × (parse_clock (utf8 "7:05")
        ≡ some s)
      × (parse_clock (utf8 "18:30") ≡ some e)
      × ¬ Earlier e s
      × (zones on_sundays.time_zone ≡ some z)
      × (set_daily_schedule zones monday (utf8 "7:05") (utf8 "18:30") (pos 10) on_sundays ≡ ok ws')
      × Sets zones (pos 600) monday (utf8 "7:05") (utf8 "18:30") (pos 10) on_sundays ws' s e z)
    ⊎ ((set_daily_schedule zones monday (utf8 "7:05") (utf8 "18:30") (pos 10) on_sundays ≡ panics)
        × ((parse_clock (utf8 "7:05") ≡ none)
            ⊎ (parse_clock (utf8 "18:30") ≡ none)
            ⊎ ((s : ℕ × ℕ) × (e : ℕ × ℕ) × (parse_clock (utf8 "7:05") ≡ some s)
                × (parse_clock (utf8 "18:30") ≡ some e)
                × Earlier e s)
            ⊎ (zones on_sundays.time_zone ≡ none)))
set_daily_schedule-Sets_example =
    set_daily_schedule-Sets zones (pos 600) monday (utf8 "7:05") (utf8 "18:30") (pos 10) on_sundays

monday_start :
    (set_daily_schedule zones monday (utf8 "7:05") (utf8 "18:30") (pos 10) on_sundays >>= λ ws.
    get_times_with_preparation zones (pos 600) monday ws)
    ≡ ok (some (pos 415, pos 1120))
unfolding set_daily_schedule get_times_with_preparation ◌+ℤ◌ ◌-ℤ◌
monday_start = refl
