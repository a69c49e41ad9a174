-- ===== src/RateLimit/Tests.antt =====
-- The theorems on the limiter at work: two requests in ten ticks.
use burnlens.Prelude.{ℕ, ◌≤◌, ◌≡◌, refl, some, none, List, [], ◌∷◌, arith}
use burnlens.Prelude.Lists.{length, filter}
use burnlens.RateLimit.{Buckets, drop_old, check_bucket, check, first_rule, dispatch, default_rules}
use burnlens.RateLimit.Window.{passing, run, run-passing}
use burnlens.RateLimit.Bound.{is_inside, run_bound}

abbrev times : List ℕ
times = 0 ∷ 1 ∷ 2 ∷ 11 ∷ 12 ∷ []

passed : run 2 10 times [] [] ≡ 0 ∷ 1 ∷ 11 ∷ 12 ∷ []
unfolding check_bucket drop_old
passed = refl

abbrev busy : Buckets
busy = λ prefix client. 1 ∷ 2 ∷ 3 ∷ []

reset_refused : (dispatch default_rules 1 "/auth/reset-password/x" "10.0.0.1" 4 busy).0 ≡ some 900
unfolding dispatch first_rule check check_bucket drop_old
reset_refused = refl

unlimited : (dispatch default_rules 1 "/health" "10.0.0.1" 4 busy).0 ≡ none
unfolding dispatch first_rule
unlimited = refl

run-passing_example : run 2 10 times [] [] ≡ passing 2 10 times []
run-passing_example =
    run-passing 2 10 0 times
      (omega arith, (omega arith, (omega arith, (omega arith, (omega arith, tt)))))

run_bound_example : length (filter (is_inside 10 1) (run 2 10 times [] [])) ≤ 2
run_bound_example =
    run_bound 2 10 0 1 times
      (omega arith, (omega arith, (omega arith, (omega arith, (omega arith, tt)))))
