-- ===== src/RateLimit/Bound.antt =====
-- How many requests pass in a window, wherever it lies.
use mathlib.Core.List.{append-nil}
use burnlens.Prelude.{
  ℕ, ◌+◌, ◌≤◌, ◌≡◌, refl, Bool, true, ◌&&◌, List, [], ◌∷◌, ◌++◌, ltb, leb, Bool-cases, inl, inr,
  arith,
}
use burnlens.Prelude.Lists.{length, filter}
use burnlens.RateLimit.Window.{is_recent, passing, run, IsAscending, filter-append, run-passing}

-- The instant is in the window that begins at another.
abbrev pub is_inside : ℕ → ℕ → ℕ → Bool
is_inside window begin t = leb begin t && leb t (begin + window)

length-filter_le :
    (p q : ℕ → Bool) (xs : List ℕ)
    → ((x : ℕ) → p x ≡ true → q x ≡ true)
    → length (filter p xs) ≤ length (filter q xs)
length-filter_le p q [] h = omega arith
length-filter_le p q (x ∷ xs) h = elim (Bool-cases (p x)) [
  | inl e ↦ rw (e, h x e) (omega (arith, length-filter_le p q xs h))
  | inr e ↦ elim (Bool-cases (q x)) [
    | inl k ↦ rw (e, k) (omega (arith, length-filter_le p q xs h))
    | inr k ↦ rw (e, k) (length-filter_le p q xs h)
  ]
]

length-snoc : (xs : List ℕ) (x : ℕ) → length (xs ++ x ∷ []) ≡ length xs + 1
length-snoc [] x = refl
length-snoc (y ∷ xs) x = omega (arith, length-snoc xs x)

passes_inside :
    (max_requests window begin now : ℕ) (passed : List ℕ)
    → length (filter (is_inside window begin) passed) ≤ max_requests
    → ltb (length (filter (is_recent window now) passed)) max_requests ≡ true
    → length (filter (is_inside window begin) (passed ++ now ∷ [])) ≤ max_requests
passes_inside max_requests window begin now passed h free =
    rw (filter-append (is_inside window begin) passed (now ∷ []))
      (elim (Bool-cases (is_inside window begin now)) [
        | inl inside ↦
            let fewer =
              length-filter_le (is_inside window begin) (is_recent window now) passed
                (λ t k. ground arith) in
            rw (inside, length-snoc (filter (is_inside window begin) passed) now)
              (ground (arith, fewer))
        | inr outside ↦ rw (outside, append-nil (filter (is_inside window begin) passed)) h
      ])

passing_bound :
    (max_requests window begin : ℕ) (times passed : List ℕ)
    → length (filter (is_inside window begin) passed) ≤ max_requests
    → length (filter (is_inside window begin) (passing max_requests window times passed))
      ≤ max_requests
passing_bound max_requests window begin [] passed h = h
passing_bound max_requests window begin (now ∷ times) passed h =
    elim (Bool-cases (ltb (length (filter (is_recent window now) passed)) max_requests)) [
      | inr full ↦ rw full (passing_bound max_requests window begin times passed h)
      | inl free ↦ rw free (
          passing_bound max_requests window begin times (passed ++ now ∷ [])
            (passes_inside max_requests window begin now passed h free))
    ]

-- From an empty bucket, on a clock that does not go back, no window of the rule's length, wherever it
-- begins, has more requests that pass than the maximum.
pub run_bound :
    (max_requests window first begin : ℕ) (times : List ℕ)
    → IsAscending first times
    → length (filter (is_inside window begin) (run max_requests window times [] [])) ≤ max_requests
run_bound max_requests window first begin times up =
    rw (run-passing max_requests window first times up)
      (passing_bound max_requests window begin times [] (omega arith))
