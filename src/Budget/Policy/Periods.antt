-- ===== src/Budget/Policy/Periods.antt =====
-- Where the period of a policy starts.
use burnlens.Prelude.{◌+◌, ◌≤◌, ◌<◌, ◌≡◌, arith}
use burnlens.Budget.Policy.{DateTime, weekday, period_start}

-- A weekly period starts on the last Monday that is not after the day, for a day from Python's
-- first one on.
pub weekly_starts_on_monday :
    (now : DateTime)
    → 0 < now.ordinal
    → let start = period_start "weekly" now in
      (weekday (record now { ordinal = start }) ≡ 0)
      × (start ≤ now.ordinal)
      × (now.ordinal < start + 7)
unfolding period_start weekday
weekly_starts_on_monday now h = (omega arith, omega arith, omega arith)
