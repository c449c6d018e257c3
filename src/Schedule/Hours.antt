-- ===== src/Schedule/Hours.antt =====
-- What `WorkNow` and `NextWorkSession` answer, on a day with hours and on a day without.
use api_poll.Prelude.{
  ℕ, zero, suc, ◌+◌, ◌<◌, ◌≡◌, refl, Bool, true, false, inl, inr, Option, none, some, arith, sym,
  ◌∙◌, ap, ◌⊎◌,
}
use api_poll.Schedule.Clock.{parse_clock}
use api_poll.Prelude.Int.{◌+ℤ◌, ℤ, pos, ◌-ℤ◌, -ℤ_parts, eq_of_parts, ◌≤ℤ◌, pos_part, neg_part}
use api_poll.Schedule.{
  Weekday, Result, ok, err, no_work_session, WorkSchedule, Zone, Zones, next, new_weekday_from_int,
  DailySchedule, get_daily_schedule, get_times, get_times_with_preparation, inside, situation,
  answers, again, of_situation, round_of, search_session, work_now, next_work_session,
}

infix 50 ◌<ℤ◌
abbrev pub ◌<ℤ◌ : ℤ → ℤ → Type 0
◌<ℤ◌ a b = pos_part a + neg_part b < pos_part b + neg_part a

abbrev pub answer : Option ℤ → Result ℤ
answer none = err no_work_session
answer (some d) = ok d

module _ (zones : Zones) (ws : WorkSchedule) (now : ℤ) where
  inside-situation : (hours : ℤ × ℤ) → inside now hours ≡ true → situation now hours ≡ some (pos 0)
  inside-situation hours i = rw i refl

  search_again :
      (rounds : ℕ) (day day' : Weekday) (t : Option (ℤ × ℤ))
      → get_times_with_preparation zones now day ws ≡ ok t
      → round_of now day t ≡ ok (again day')
      → search_session zones (suc rounds) now day ws ≡ search_session zones rounds now day' ws
  unfolding search_session
  search_again rounds day day' t e r = rw e (rw r refl)

  search_answers :
      (rounds : ℕ) (day : Weekday) (t : Option (ℤ × ℤ)) (d : ℤ)
      → get_times_with_preparation zones now day ws ≡ ok t
      → round_of now day t ≡ ok (answers d)
      → search_session zones (suc rounds) now day ws ≡ ok d
  unfolding search_session
  search_answers rounds day t d e r = rw e (rw r refl)

  round_situation :
      (day : Weekday) (hours : ℤ × ℤ) (o : Option ℤ)
      → situation now hours ≡ o
      → round_of now day (some hours) ≡ ok (of_situation day o)
  unfolding round_of
  round_situation day hours o e = ap (λ x. ok (of_situation day x)) e

  -- A day whose hours match none of the situations is asked again in every round.
  search_stuck :
      (rounds : ℕ) (day : Weekday) (hours : ℤ × ℤ)
      → get_times_with_preparation zones now day ws ≡ ok (some hours)
      → situation now hours ≡ none
      → search_session zones rounds now day ws ≡ err no_work_session
  search_stuck zero day hours e s = unfold search_session in refl
  search_stuck (suc rounds) day hours e s =
      search_again rounds day day (some hours) e (round_situation day hours none s)
      ∙ search_stuck rounds day hours e s

  search_today :
      (rounds : ℕ) (day : Weekday) (hours : ℤ × ℤ)
      → get_times_with_preparation zones now day ws ≡ ok (some hours)
      → search_session zones (suc rounds) now day ws ≡ answer (situation now hours)
  search_today rounds day hours e = cases (situation now hours) refl
    where
      cases :
          (o : Option ℤ)
          → situation now hours ≡ o
          → search_session zones (suc rounds) now day ws ≡ answer (situation now hours)
      cases none s = search_stuck (suc rounds) day hours e s ∙ sym (ap answer s)
      cases (some d) s =
          search_answers rounds day (some hours) d e (round_situation day hours (some d) s)
          ∙ sym (ap answer s)

  -- Both methods on a day with hours, by the test and the situation that they compute.
  today_hours :
      (z : Zone) (day : Weekday) (hours : ℤ × ℤ)
      → zones ws.time_zone ≡ some z
      → new_weekday_from_int (z.weekday now) ≡ ok day
      → get_times_with_preparation zones now day ws ≡ ok (some hours)
      → (work_now zones now ws ≡ ok (inside now hours))
        × (next_work_session zones now ws ≡ answer (situation now hours))
  unfolding work_now next_work_session
  today_hours z day hours ez ed eh =
      (rw ez (rw ed (rw eh refl)), rw ez (rw ed (search_today 6 day hours eh)))

  -- A day without hours and a next day with hours that hold `now`.
  tomorrow_today :
      (z : Zone) (day tomorrow : Weekday) (hours : ℤ × ℤ)
      → zones ws.time_zone ≡ some z
      → new_weekday_from_int (z.weekday now) ≡ ok day
      → get_times_with_preparation zones now day ws ≡ ok none
      → next day ≡ ok tomorrow
      → get_times_with_preparation zones now tomorrow ws ≡ ok (some hours)
      → inside now hours ≡ true
      → (work_now zones now ws ≡ ok false) × (next_work_session zones now ws ≡ ok (pos 0))
  unfolding work_now next_work_session
  tomorrow_today z day tomorrow hours ez ed eh en et i = (
    rw ez (rw ed (rw eh refl)),
    rw ez (
        rw ed (
          search_again 6 day tomorrow none eh (unfold round_of in rw en refl)
          ∙ search_answers 5 tomorrow (some hours) (pos 0) et
              (round_situation tomorrow hours (some (pos 0)) (inside-situation hours i)))),
  )

sub-negative : (b n : ℤ) → b <ℤ n → (b -ℤ n) <ℤ pos 0
sub-negative b n h = omega (arith, -ℤ_parts b n)

module _ (now a b : ℤ) (order : a ≤ℤ b) where
  -- What the tests of the two methods find in each of the four places that `now` can have.
  situations :
      ((a <ℤ now) × (now <ℤ b) × (inside now (a, b) ≡ true) × (situation now (a, b) ≡ some (pos 0)))
      ⊎ ((now <ℤ a) × (inside now (a, b) ≡ false) × (situation now (a, b) ≡ some (a -ℤ now)))
      ⊎ ((b <ℤ now) × (inside now (a, b) ≡ false) × (situation now (a, b) ≡ some (b -ℤ now)))
      ⊎ (((now ≡ a) ⊎ (now ≡ b)) × (inside now (a, b) ≡ false) × (situation now (a, b) ≡ none))
  situations = ground (arith, eq_of_parts now a, eq_of_parts now b)

strictly_inside : (now a b : ℤ) → a <ℤ now → now <ℤ b → inside now (a, b) ≡ true
strictly_inside now a b l u = ground (arith, l, u)

-- The start of a day's work: its hour and minute on the date of `now`, less the preparation.
abbrev pub begins : Zone → ℤ → DailySchedule → ℕ × ℕ → ℤ
begins z now s (h, m) = z.on_day now h m -ℤ s.preparation_time

-- The end of it, with the preparation added.
abbrev pub ends : Zone → ℤ → DailySchedule → ℕ × ℕ → ℤ
ends z now s (h, m) = z.on_day now h m +ℤ s.preparation_time

module _ (zones : Zones) (ws : WorkSchedule) (now : ℤ) (z : Zone) (s : DailySchedule)
    (start end : ℕ × ℕ) (loaded : zones ws.time_zone ≡ some z)
    (starts : parse_clock s.start_time ≡ some start)
    (stops : parse_clock s.end_time ≡ some end) where
  -- The hours of a day with a schedule whose texts are times of day.
  pub widened :
      (day : Weekday)
      → get_daily_schedule day ws ≡ some s
      → get_times_with_preparation zones now day ws
        ≡ ok (some (begins z now s start, ends z now s end))
  unfolding get_times_with_preparation get_times
  widened day e =
      rw (e, get_times_with_preparation) (rw loaded (rw (starts, get_times) (rw stops refl)))

  -- On a weekday with hours, and unless the preparation, which may be negative, leaves the end of the
  -- widened hours before their start: strictly between start and end WorkNow says true and the wait is
  -- zero; before the start WorkNow says false and the wait is the time to the start; after the end
  -- WorkNow says false and the wait is negative, minus the time since the end; at the very start and
  -- at the very end WorkNow says false and NextWorkSession fails with ErrNoWorkSession.
  pub day_situations :
      (day : Weekday)
      → new_weekday_from_int (z.weekday now) ≡ ok day
      → get_daily_schedule day ws ≡ some s
      → begins z now s start ≤ℤ ends z now s end
      → let a = begins z now s start in
        let b = ends z now s end in
        ((a <ℤ now)
          × (now <ℤ b)
          × (work_now zones now ws ≡ ok true)
          × (next_work_session zones now ws ≡ ok (pos 0)))
        ⊎ ((now <ℤ a)
            × (work_now zones now ws ≡ ok false)
            × (next_work_session zones now ws ≡ ok (a -ℤ now)))
        ⊎ ((b <ℤ now)
            × (work_now zones now ws ≡ ok false)
            × (next_work_session zones now ws ≡ ok (b -ℤ now))
            × ((b -ℤ now) <ℤ pos 0))
        ⊎ (((now ≡ a) ⊎ (now ≡ b))
            × (work_now zones now ws ≡ ok false)
            × (next_work_session zones now ws ≡ err no_work_session))
  day_situations day ed es order =
      let a = begins z now s start in
      let b = ends z now s end in
      let r = today_hours zones ws now z day (a, b) loaded ed (widened day es) in
      let w = λ (t : Bool) (i : inside now (a, b) ≡ t). r.0 ∙ ap ok i in
      let n = λ (o : Option ℤ) (i : situation now (a, b) ≡ o). r.1 ∙ ap answer i in
      elim (situations now a b order) [
        | inl (l, u, i, j) ↦ inl (l, u, w true i, n (some (pos 0)) j)
        | inr (inl (l, i, j)) ↦ inr (inl (l, w false i, n (some (a -ℤ now)) j))
        | inr (inr (inl (l, i, j))) ↦
            inr (inr (inl (l, w false i, n (some (b -ℤ now)) j, sub-negative b now l)))
        | inr (inr (inr (at, i, j))) ↦ inr (inr (inr (at, w false i, n none j)))
      ]

  -- On a weekday without hours, when the next weekday has hours: these are put on today's date, and where
  -- `now` is strictly between their start and end, with the preparation, WorkNow says false although the
  -- wait of NextWorkSession is zero.
  pub day_off :
      (day tomorrow : Weekday)
      → new_weekday_from_int (z.weekday now) ≡ ok day
      → get_daily_schedule day ws ≡ none
      → next day ≡ ok tomorrow
      → get_daily_schedule tomorrow ws ≡ some s
      → begins z now s start <ℤ now
      → now <ℤ ends z now s end
      → (work_now zones now ws ≡ ok false) × (next_work_session zones now ws ≡ ok (pos 0))
  unfolding get_times_with_preparation
  day_off day tomorrow ed free en es l u =
      let a = begins z now s start in
      let b = ends z now s end in
      tomorrow_today zones ws now z day tomorrow (a, b) loaded ed
        (rw (free, get_times_with_preparation) refl) en (widened tomorrow es)
        (strictly_inside now a b l u)
