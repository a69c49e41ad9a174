-- ===== src/Savings/Tests.antt =====
-- The theorems on verified savings at work.
use burnlens.Prelude.{ℕ, ◌≤◌, ◌<◌, ◌≡◌, ◌↔◌, String, false, none, [], ◌∷◌, ◌++◌, leb, ltb, arith}
use burnlens.Float.{nought}
use burnlens.Float.Micro.{micro}
use burnlens.Savings.Engine.{
  pass, inconclusive, BaselineSnapshot, VerificationStorage, ok, Observation, snapshot_of,
  record_baseline, actual_saving, quality_change, record_of, verify_savings,
}
use burnlens.Savings.Engine.Verdicts.{verdict_iff, verify_savings-record_baseline}

abbrev fingerprint : BaselineSnapshot ℕ → String
fingerprint b = b.snapshot_id

abbrev before : BaselineSnapshot ℕ
before = record {
  snapshot_id = "snap-1";
  recommendation_id = "rec-1";
  workspace_id = "acme";
  baseline_cost_usd = 10000000;
  baseline_requests = 100;
  baseline_accepted_outcomes = 90;
  baseline_outcome_rate = 900000;
}

abbrev after : Observation ℕ
after = record {
  projected_saving_usd = 5000000;
  post_change_cost_usd = 4000000;
  post_change_requests = 100;
  post_change_accepted_outcomes = 90;
  min_sample_size = 50;
  max_tolerable_quality_drop = 30000;
}

abbrev storage : VerificationStorage ℕ
storage = record { baselines = λ w r. none; records = [] }

verdict_iff_example :
    let r = record_of "ver-1" "rec-1" "acme" before after in
    ((r.verdict ≡ inconclusive) ↔ (100 < 50))
    × ((r.verdict ≡ pass) ↔ (
        (50 ≤ 100)
        × (ltb (quality_change before after) 0 ≡ false)
        × (leb (actual_saving before after) nought ≡ false)))
verdict_iff_example = verdict_iff "ver-1" "rec-1" "acme" before after

verify_savings-record_baseline_example :
    let b = snapshot_of {W = ℕ} "snap-1" "rec-1" "acme" 10000000 100 90 in
    let (stored, s') =
      record_baseline fingerprint "snap-1" "rec-1" "acme" 10000000 100 90 storage in
    let (r, s'') = verify_savings fingerprint "ver-1" "rec-1" "acme" after s' in
    (stored ≡ ok b)
    × (r ≡ ok (record_of "ver-1" "rec-1" "acme" b after))
    × (s''.records ≡ [] ++ record_of "ver-1" "rec-1" "acme" b after ∷ [])
verify_savings-record_baseline_example =
    verify_savings-record_baseline fingerprint "snap-1" "ver-1" "rec-1" "acme" 10000000 100 90 after
      storage (omega arith) (omega arith)
