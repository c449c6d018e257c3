-- ===== src/Schedule/Week.antt =====
-- The week as a ring, and the map from days to hours.
use api_poll.Prelude.{
  ℕ, if◌then◌else◌, zero, suc, ◌+◌, ◌*◌, ◌%◌, ◌<◌, ◌≡◌, ◌⊎◌, inl, inr, refl, true, false, ◌∷◌, none,
  some, arith, Bytes, ltb, bytes_eq_self, Option-cases, Bool-cases, if◌then◌else◌,
}
use api_poll.Prelude.Int.{ℤ, ◌+ℤ◌, ◌-ℤ◌}
use api_poll.Schedule.{
  Weekday, sunday, monday, tuesday, wednesday, thursday, friday, saturday, other, ok, panics, ◌>>=◌,
  WorkSchedule, DailySchedule, Zone, Zones, next, new_weekday_from_int, weekday_eq, find_day,
  get_daily_schedule, get_times_with_preparation, set_daily_schedule,
}
use api_poll.Schedule.Hours.{widened}
use api_poll.Schedule.Clock.{
  parse_clock, format_clock, parse_clock-format_clock, parse_clock_bounds,
}

-- `Next` steps through the days as `NewWeekdayFromInt` numbers them, and after Saturday begins again.
pub next-new_weekday_from_int :
    (n : ℕ) → n < 7 → (new_weekday_from_int n >>= next) ≡ new_weekday_from_int ((n + 1) % 7)
unfolding new_weekday_from_int next
next-new_weekday_from_int zero h = refl
next-new_weekday_from_int (suc zero) h = refl
next-new_weekday_from_int (suc (suc zero)) h = refl
next-new_weekday_from_int (suc (suc (suc zero))) h = refl
next-new_weekday_from_int (suc (suc (suc (suc zero)))) h = refl
next-new_weekday_from_int (suc (suc (suc (suc (suc zero))))) h = refl
next-new_weekday_from_int (suc (suc (suc (suc (suc (suc zero)))))) h = refl
next-new_weekday_from_int (suc (suc (suc (suc (suc (suc (suc n))))))) h = absurd (omega arith)

-- The hours that are stored: what the zone's clock shows for the given times, taken as UTC.
abbrev pub stored : Zone → ℕ × ℕ → ℕ × ℕ → ℤ → DailySchedule
stored z s e preparation = record {
  start_time = format_clock (z.zero_day s.0 s.1);
  end_time = format_clock (z.zero_day e.0 e.1);
  preparation_time = preparation;
}

weekday_eq_self : (d : Weekday) → weekday_eq d d ≡ true
unfolding weekday_eq
weekday_eq_self (other s) = bytes_eq_self s
weekday_eq_self sunday = refl
weekday_eq_self monday = refl
weekday_eq_self tuesday = refl
weekday_eq_self wednesday = refl
weekday_eq_self thursday = refl
weekday_eq_self friday = refl
weekday_eq_self saturday = refl

-- Whether `e` is earlier than `s`, for two times of one day.
abbrev pub Earlier : ℕ × ℕ → ℕ × ℕ → Type 0
Earlier e s = e.0 * 60 + e.1 < s.0 * 60 + s.1

module _ (zones : Zones) (now : ℤ) (day : Weekday) (start end : Bytes) (preparation : ℤ)
    (ws : WorkSchedule) where
  -- What a call that ends without a panic leaves, for the times `s` and `e` and the zone `z`.
  abbrev pub Sets : WorkSchedule → ℕ × ℕ → ℕ × ℕ → Zone → Type 0
  Sets ws' s e z =
      (weekday_eq day day ≡ true)
      × ((d : Weekday)
          → get_times_with_preparation zones now d ws' ≡ (
              if weekday_eq day d
              then ok (
                  some (
                    z.on_day now (z.zero_day s.0 s.1).0 (z.zero_day s.0 s.1).1 -ℤ preparation,
                    z.on_day now (z.zero_day e.0 e.1).0 (z.zero_day e.0 e.1).1 +ℤ preparation,
                  ))
              else get_times_with_preparation zones now d ws))

  stored_times :
      (s e : ℕ × ℕ) (z : Zone)
      → parse_clock start ≡ some s
      → parse_clock end ≡ some e
      → zones ws.time_zone ≡ some z
      → Sets (record ws { schedule = (day, stored z s e preparation) ∷ ws.schedule }) s e z
  unfolding get_times_with_preparation get_daily_schedule find_day
  stored_times s e z ps pe pz =
      let bs = parse_clock_bounds start s.0 s.1 ps in
      let be = parse_clock_bounds end e.0 e.1 pe in
      let ls = z.zero_day-lt s.0 s.1 bs.0 bs.1 in
      let le = z.zero_day-lt e.0 e.1 be.0 be.1 in
      let ws' = record ws { schedule = (day, stored z s e preparation) ∷ ws.schedule } in
      (
        weekday_eq_self day,
        λ d. elim (Bool-cases (weekday_eq day d)) [
          | inl this ↦ rw this (
              widened zones ws' now z (stored z s e preparation) (z.zero_day s.0 s.1)
                (z.zero_day e.0 e.1) pz
                (parse_clock-format_clock (z.zero_day s.0 s.1).0 (z.zero_day s.0 s.1).1 ls.0 ls.1)
                (parse_clock-format_clock (z.zero_day e.0 e.1).0 (z.zero_day e.0 e.1).1 le.0 le.1) d
                (rw this refl))
          | inr apart ↦ rw apart (rw (apart, get_times_with_preparation) refl)
        ],
      )

  -- SetDailySchedule panics exactly when a text is not a time of day, the start is after the end or the
  -- zone can not be loaded. Otherwise getTimesWithPreparation then gives for that day, on the date of
  -- `now`, the times of day that the zone's clock shows for the given ones, less and plus the
  -- preparation: what is printed into the schedule is read back. What it gives for the other days is
  -- what it gave before.
  pub set_daily_schedule-Sets :
      ((ws' : WorkSchedule) × (s : ℕ × ℕ) × (e : ℕ × ℕ) × (z : Zone) × (parse_clock start ≡ some s)
        × (parse_clock end ≡ some e)
        × ¬ Earlier e s
        × (zones ws.time_zone ≡ some z)
        × (set_daily_schedule zones day start end preparation ws ≡ ok ws')
        × Sets ws' s e z)
      ⊎ ((set_daily_schedule zones day start end preparation ws ≡ panics)
          × ((parse_clock start ≡ none)
              ⊎ (parse_clock end ≡ none)
              ⊎ ((s : ℕ × ℕ) × (e : ℕ × ℕ) × (parse_clock start ≡ some s)
                  × (parse_clock end ≡ some e)
                  × Earlier e s)
              ⊎ (zones ws.time_zone ≡ none)))
  unfolding set_daily_schedule
  set_daily_schedule-Sets = elim (Option-cases (parse_clock start)) [
    | inl ns ↦ inr (rw ns refl, inl ns)
    | inr (s, ps) ↦ elim (Option-cases (parse_clock end)) [
      | inl ne ↦ inr (rw ps (rw ne refl), inr (inl ne))
      | inr (e, pe) ↦ elim (Bool-cases (ltb (e.0 * 60 + e.1) (s.0 * 60 + s.1))) [
        | inl wrong ↦
            inr (rw ps (rw pe (rw wrong refl)), inr (inr (inl (s, e, ps, pe, earlier s e wrong))))
        | inr right ↦ elim (Option-cases (zones ws.time_zone)) [
          | inl nz ↦ inr (rw ps (rw pe (rw right (rw nz refl))), inr (inr (inr nz)))
          | inr (z, pz) ↦ inl (
            record ws { schedule = (day, stored z s e preparation) ∷ ws.schedule },
            s,
            e,
            z,
            ps,
            pe,
            not_earlier s e right,
            pz,
            rw ps (rw pe (rw right (rw pz refl))),
            stored_times s e z ps pe pz,
          )
        ]
      ]
    ]
  ]
    where
      earlier : (s e : ℕ × ℕ) → ltb (e.0 * 60 + e.1) (s.0 * 60 + s.1) ≡ true → Earlier e s
      earlier s e h = ground arith

      not_earlier : (s e : ℕ × ℕ) → ltb (e.0 * 60 + e.1) (s.0 * 60 + s.1) ≡ false → ¬ Earlier e s
      not_earlier s e h l = ground arith
