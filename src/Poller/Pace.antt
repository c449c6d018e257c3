-- ===== src/Poller/Pace.antt =====
-- The pacing arithmetic: a debt is paid back by shorter pauses, and nothing is lost.
use api_poll.Prelude.{ℕ, zero, suc, ◌≡◌, List, [], ◌∷◌, arith, length, ◌⊎◌}
use api_poll.Prelude.Int.{ℤ, pos, ◌+ℤ◌, ◌-ℤ◌, ◌≤ℤ◌, int_laws, -ℤ_parts, eq_of_parts, parts_of_eq}
use api_poll.Poller.{pace}

-- The pause and the debt are never negative, at most one of them is positive, and their difference is
-- what is left of the interval after the elapsed time and the old debt.
pub pace_balance :
    (interval elapsed debt : ℤ)
    → (pos 0 ≤ℤ (pace interval elapsed debt).0)
      × (pos 0 ≤ℤ (pace interval elapsed debt).1)
      × (((pace interval elapsed debt).0 ≡ pos 0) ⊎ ((pace interval elapsed debt).1 ≡ pos 0))
      × ((pace interval elapsed debt).0 -ℤ (pace interval elapsed debt).1
          ≡ interval -ℤ elapsed -ℤ debt)
unfolding pace
pace_balance interval elapsed debt = ground (
  arith,
  -ℤ_parts (pos 0) (interval -ℤ elapsed -ℤ debt),
  eq_of_parts (pos 0 -ℤ (pos 0 -ℤ (interval -ℤ elapsed -ℤ debt))) (interval -ℤ elapsed -ℤ debt),
  -ℤ_parts (pos 0) (pos 0 -ℤ (interval -ℤ elapsed -ℤ debt)),
  eq_of_parts (interval -ℤ elapsed -ℤ debt -ℤ pos 0) (interval -ℤ elapsed -ℤ debt),
  -ℤ_parts (interval -ℤ elapsed -ℤ debt) (pos 0),
)

-- The turns of one call, by their elapsed times: the sum of these and of the pauses, and the debt that
-- is left.
pub spent : ℤ → ℤ → List ℤ → ℤ × ℤ
unfolding pace
spent interval debt [] = (pos 0, debt)
spent interval debt (e ∷ es) =
    let p = pace interval e debt in let rest = spent interval p.1 es in (e +ℤ p.0 +ℤ rest.0, rest.1)

abbrev times : ℕ → ℤ → ℤ
times zero i = pos 0
times (suc n) i = i +ℤ times n i

-- The same for a call that begins with a debt, which its polls make up for.
pub spent_lem :
    (interval debt : ℤ) (es : List ℤ)
    → (spent interval debt es).0 +ℤ debt ≡ times (length es) interval +ℤ (spent interval debt es).1
unfolding spent
spent_lem interval debt [] = omega int_laws
spent_lem interval debt (e ∷ es) = omega (
  int_laws,
  parts_of_eq (pace_balance interval e debt).3,
  parts_of_eq (spent_lem interval (pace interval e debt).1 es),
)

spent_debt : (interval debt : ℤ) (es : List ℤ) → pos 0 ≤ℤ debt → pos 0 ≤ℤ (spent interval debt es).1
unfolding spent
spent_debt interval debt [] h = h
spent_debt interval debt (e ∷ es) h =
    spent_debt interval (pace interval e debt).1 es (pace_balance interval e debt).1

-- The measured elapsed times and the pauses of the polls of one call, which begins with no debt, come
-- to at least one interval for each poll; what exceeds that is the debt that is left.
pub never_too_fast :
    (interval : ℤ) (es : List ℤ)
    → (times (length es) interval ≤ℤ (spent interval (pos 0) es).0)
      × ((spent interval (pos 0) es).0
          ≡ times (length es) interval +ℤ (spent interval (pos 0) es).1)
never_too_fast interval es = (
  omega (
    int_laws,
    parts_of_eq (spent_lem interval (pos 0) es),
    spent_debt interval (pos 0) es (omega arith),
  ),
  omega (int_laws, parts_of_eq (spent_lem interval (pos 0) es)),
)
