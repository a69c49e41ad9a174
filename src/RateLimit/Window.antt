-- ===== src/RateLimit/Window.antt =====
-- The limiter does what a sliding window promises: it lets a request pass if and only if fewer than
-- the maximum passed in the window before it.
use burnlens.Prelude.{
  ℕ, ◌+◌, ◌≤◌, ◌≡◌, refl, sym, ap, ◌∙◌, Bool, true, false, List, [], ◌∷◌, ◌++◌, ltb, leb,
  if◌then◌else◌, Bool-cases, inl, inr, arith,
}
use burnlens.Prelude.Lists.{length, filter}
use burnlens.RateLimit.{drop_old, check_bucket}

-- The instant is in the window that ends now.
abbrev pub is_recent : ℕ → ℕ → ℕ → Bool
is_recent window now t = leb now (t + window)

-- The promise: the instants that pass, by all that passed before.
abbrev pub passing : ℕ → ℕ → List ℕ → List ℕ → List ℕ
passing max_requests window [] passed = passed
passing max_requests window (now ∷ times) passed = passing max_requests window times (
    if ltb (length (filter (is_recent window now) passed)) max_requests
    then passed ++ now ∷ []
    else passed)

-- The instants that pass the limiter, from a bucket and what passed before.
abbrev pub run : ℕ → ℕ → List ℕ → List ℕ → List ℕ → List ℕ
run max_requests window [] bucket passed = passed
run max_requests window (now ∷ times) bucket passed =
    let (allowed, bucket') = check_bucket max_requests window now bucket in
    run max_requests window times bucket' (if allowed then passed ++ now ∷ [] else passed)

-- The instants do not go back, from one on.
abbrev pub IsAscending : ℕ → List ℕ → Type 0
IsAscending last [] = Unit
IsAscending last (now ∷ times) = (last ≤ now) × IsAscending now times

-- The instants stand in order between the two.
abbrev Spans : ℕ → List ℕ → ℕ → Type 0
Spans first [] last = first ≤ last
Spans first (t ∷ times) last = (first ≤ t) × Spans t times last

Spans-left : (a b : ℕ) (xs : List ℕ) (last : ℕ) → a ≤ b → Spans b xs last → Spans a xs last
Spans-left a b [] last h s = omega arith
Spans-left a b (x ∷ xs) last h s = (omega arith, s.1)

Spans-snoc :
    (a : ℕ) (xs : List ℕ) (last now : ℕ)
    → last ≤ now
    → Spans a xs last
    → Spans a xs now × Spans a (xs ++ now ∷ []) now
Spans-snoc a [] last now h s = (omega arith, (omega arith, omega arith))
Spans-snoc a (x ∷ xs) last now h s =
    let (same, more) = Spans-snoc x xs last now h s.1 in ((s.0, same), (s.0, more))

filter-Spans :
    (p : ℕ → Bool) (a : ℕ) (xs : List ℕ) (last : ℕ) → Spans a xs last → Spans a (filter p xs) last
filter-Spans p a [] last s = s
filter-Spans p a (x ∷ xs) last s = elim (Bool-cases (p x)) [
  | inl e ↦ rw e (s.0, filter-Spans p x xs last s.1)
  | inr e ↦ rw e (Spans-left a x (filter p xs) last s.0 (filter-Spans p x xs last s.1))
]

pub filter-append :
    (p : ℕ → Bool) (xs ys : List ℕ) → filter p (xs ++ ys) ≡ filter p xs ++ filter p ys
filter-append p [] ys = refl
filter-append p (x ∷ xs) ys = elim (Bool-cases (p x)) [
  | inl e ↦ rw e (ap (λ rest. x ∷ rest) (filter-append p xs ys))
  | inr e ↦ rw e (filter-append p xs ys)
]

filter-snoc :
    (p : ℕ → Bool) (xs ys : List ℕ) (x : ℕ)
    → filter p xs ≡ filter p ys
    → filter p (xs ++ x ∷ []) ≡ filter p (ys ++ x ∷ [])
filter-snoc p xs ys x h =
    filter-append p xs (x ∷ [])
    ∙ ap (λ l. l ++ filter p (x ∷ [])) h
    ∙ sym (filter-append p ys (x ∷ []))

module _ (window : ℕ) where
  all_recent :
      (now first : ℕ) (bucket : List ℕ) (last : ℕ)
      → now ≤ first + window
      → Spans first bucket last
      → filter (is_recent window now) bucket ≡ bucket
  all_recent now first [] last h s = refl
  all_recent now first (t ∷ bucket) last h s =
      let recent : is_recent window now t ≡ true = ground arith in
      rw recent (ap (λ rest. t ∷ rest) (all_recent now t bucket last (omega arith) s.1))

  drop_old-filter :
      (now first : ℕ) (bucket : List ℕ) (last : ℕ)
      → Spans first bucket last
      → drop_old window now bucket ≡ filter (is_recent window now) bucket
  unfolding drop_old
  drop_old-filter now first [] last s = refl
  drop_old-filter now first (t ∷ bucket) last s = elim (Bool-cases (ltb (t + window) now)) [
    | inl old ↦
        let gone : is_recent window now t ≡ false = ground arith in
        rw (old, gone) (drop_old-filter now t bucket last s.1)
    | inr kept ↦
        let recent : is_recent window now t ≡ true = ground arith in
        rw (kept, recent)
          (ap (λ rest. t ∷ rest) (sym (all_recent now t bucket last (ground arith) s.1)))
  ]

  filter_later :
      (now later : ℕ) (xs : List ℕ)
      → now ≤ later
      → filter (is_recent window later) (filter (is_recent window now) xs)
        ≡ filter (is_recent window later) xs
  filter_later now later [] h = refl
  filter_later now later (x ∷ xs) h = elim (Bool-cases (is_recent window now x)) [
    | inl e ↦ elim (Bool-cases (is_recent window later x)) [
      | inl k ↦ rw (e, k) (ap (λ rest. x ∷ rest) (filter_later now later xs h))
      | inr k ↦ rw (e, k) (filter_later now later xs h)
    ]
    | inr e ↦
        let gone : is_recent window later x ≡ false = ground arith in
        rw (e, gone) (filter_later now later xs h)
  ]

  -- The bucket is in order, and later windows see in it what they see in all that passed.
  abbrev Tracks : ℕ → List ℕ → List ℕ → Type 0
  Tracks last bucket passed =
      Spans 0 bucket last
      × ((now : ℕ)
          → last ≤ now
          → filter (is_recent window now) bucket ≡ filter (is_recent window now) passed)

  check_bucket-full :
      (max_requests now last : ℕ) (bucket : List ℕ)
      → Spans 0 bucket last
      → leb max_requests (length (filter (is_recent window now) bucket)) ≡ true
      → check_bucket max_requests window now bucket ≡ (false, filter (is_recent window now) bucket)
  unfolding check_bucket
  check_bucket-full max_requests now last bucket order full =
      rw (drop_old-filter now 0 bucket last order, full) refl

  check_bucket-free :
      (max_requests now last : ℕ) (bucket : List ℕ)
      → Spans 0 bucket last
      → leb max_requests (length (filter (is_recent window now) bucket)) ≡ false
      → check_bucket max_requests window now bucket
        ≡ (true, filter (is_recent window now) bucket ++ now ∷ [])
  unfolding check_bucket
  check_bucket-free max_requests now last bucket order free =
      rw (drop_old-filter now 0 bucket last order, free) refl

  -- what the next window sees after the old instants have been dropped
  Tracks-dropped :
      (last now : ℕ) (bucket passed : List ℕ)
      → Tracks last bucket passed
      → last ≤ now
      → Tracks now (filter (is_recent window now) bucket) passed
  Tracks-dropped last now bucket passed (order, same) ahead = (
    (Spans-snoc 0 (filter (is_recent window now) bucket) last now ahead
        (filter-Spans (is_recent window now) 0 bucket last order)).0,
    λ later h. filter_later now later bucket h ∙ same later (omega arith),
  )

  Tracks-snoc :
      (now : ℕ) (bucket passed : List ℕ)
      → Tracks now bucket passed
      → Tracks now (bucket ++ now ∷ []) (passed ++ now ∷ [])
  Tracks-snoc now bucket passed (order, same) = (
    (Spans-snoc 0 bucket now now (omega arith) order).1,
    λ later h. filter-snoc (is_recent window later) bucket passed now (same later h),
  )

  run-passing_from :
      (max_requests last : ℕ) (times bucket passed : List ℕ)
      → Tracks last bucket passed
      → IsAscending last times
      → run max_requests window times bucket passed ≡ passing max_requests window times passed
  run-passing_from max_requests last [] bucket passed h up = refl
  run-passing_from max_requests last (now ∷ times) bucket passed h up =
      let seen = filter (is_recent window now) bucket in
      let kept = Tracks-dropped last now bucket passed h up.0 in
      elim (Bool-cases (leb max_requests (length seen))) [
        | inl full ↦
            let shut : ltb (length seen) max_requests ≡ false = ground arith in
            rw (check_bucket-full max_requests now last bucket h.0 full, ← h.1 now up.0, shut)
              (run-passing_from max_requests now times seen passed kept up.1)
        | inr free ↦
            let open_ : ltb (length seen) max_requests ≡ true = ground arith in
            rw (check_bucket-free max_requests now last bucket h.0 free, ← h.1 now up.0, open_)
              (run-passing_from max_requests now times (seen ++ now ∷ []) (passed ++ now ∷ [])
                (Tracks-snoc now seen passed kept) up.1)
      ]

-- From an empty bucket, on a clock that does not go back, the limiter lets exactly those requests
-- pass before which fewer than the maximum passed in the window that ends with them.
pub run-passing :
    (max_requests window first : ℕ) (times : List ℕ)
    → IsAscending first times
    → run max_requests window times [] [] ≡ passing max_requests window times []
run-passing max_requests window first times up =
    run-passing_from window max_requests first times [] [] (omega arith, λ now h. refl) up
