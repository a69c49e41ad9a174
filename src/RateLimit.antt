-- ===== src/RateLimit.antt =====
-- burnlens_cloud/rate_limit.py: the sliding window and the middleware over it. Instants are those of
-- the monotonic clock, in its ticks, and a window is a number of ticks.
pub mod Window
pub mod Bound
mod Tests
use burnlens.Prelude.{
  ℕ, ◌+◌, ◌*◌, String, Bool, true, false, not, ◌&&◌, Option, none, some, List, [], ◌∷◌, ◌++◌, ◌==◌,
  ltb, leb, starts_with, if◌then◌else◌,
}
use burnlens.Prelude.Lists.{length}

-- a bucket for each prefix and each client's address
abbrev pub Buckets : Type 0
Buckets = String → String → List ℕ

-- the loop that drops what has left the window
unfoldable pub drop_old : ℕ → ℕ → List ℕ → List ℕ
drop_old window now [] = []
drop_old window now (t ∷ bucket) =
    let rest = drop_old window now bucket in if ltb (t + window) now then rest else t ∷ bucket

-- `check` on the bucket of a key
unfoldable pub check_bucket : ℕ → ℕ → ℕ → List ℕ → Bool × List ℕ
check_bucket max_requests window now bucket =
    let recent = drop_old window now bucket in
    if leb max_requests (length recent) then (false, recent) else (true, recent ++ now ∷ [])

-- `check`
unfoldable pub check : String → String → ℕ → ℕ → ℕ → Buckets → Bool × Buckets
check prefix client max_requests window now buckets =
    let (allowed, bucket) = check_bucket max_requests window now (buckets prefix client) in
    (allowed, λ p c. if p == prefix && c == client then bucket else buckets p c)

pub record Rule : Type 0 where
  pub prefix : String
  pub max_requests : ℕ
  pub window_seconds : ℕ

-- the first rule whose prefix the path has
unfoldable pub first_rule : String → List Rule → Option Rule
first_rule path [] = none
first_rule path (r ∷ rules) =
    let rest = first_rule path rules in if starts_with path r.prefix then some r else rest

limited_by : Option Rule → ℕ → String → ℕ → Buckets → Option ℕ × Buckets
limited_by none ticks client now buckets = (none, buckets)
limited_by (some r) ticks client now buckets =
    let (allowed, buckets') =
      check r.prefix client r.max_requests (r.window_seconds * ticks) now buckets in
    (if allowed then none else some r.window_seconds, buckets')

-- `dispatch` at so many ticks a second: the seconds to retry after where it answers 429, and `none`
-- where it calls the next handler
unfoldable pub dispatch : List Rule → ℕ → String → String → ℕ → Buckets → Option ℕ × Buckets
unfolding limited_by
dispatch rules ticks path client now buckets =
    limited_by (first_rule path rules) ticks client now buckets

-- `DEFAULT_RULES`
abbrev pub default_rules : List Rule
default_rules =
    record { prefix = "/auth/login"; max_requests = 10; window_seconds = 60 }
    ∷ record { prefix = "/auth/signup"; max_requests = 5; window_seconds = 60 }
    ∷ record { prefix = "/auth/invite"; max_requests = 20; window_seconds = 60 }
    ∷ record { prefix = "/auth/reset-password"; max_requests = 3; window_seconds = 900 }
    ∷ record { prefix = "/auth/resend-verification"; max_requests = 3; window_seconds = 900 }
    ∷ record { prefix = "/v1/ingest"; max_requests = 600; window_seconds = 60 }
    ∷ []
