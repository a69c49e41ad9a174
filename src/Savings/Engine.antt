-- ===== src/Savings/Engine.antt =====
-- `SavingsVerificationEngine` of burnlens/verification/engine.py, over the tables of
-- burnlens/verification/storage.py: a baseline for each workspace and recommendation with its stored
-- fingerprint, and the verification records. The fingerprint function (SHA-256 of the formatted
-- fields) is a parameter, new ids are arguments, and instants and the evidence for display are left
-- out of the records.
pub mod Verdicts
use burnlens.Prelude.{
  ℕ, ◌-◌, String, Bool, true, false, not, ◌&&◌, Option, none, some, List, [], ◌∷◌, ◌++◌, ltb, ◌==◌,
  ◌==ℕ◌, if◌then◌else◌,
}
use burnlens.Float.{Float, nought, max, min}

pub data VerificationVerdict : Type 0 where
  pass fail inconclusive : VerificationVerdict

pub record BaselineSnapshot (W : Type 0) : Type 0 where
  pub snapshot_id : String
  pub recommendation_id : String
  pub workspace_id : String
  pub baseline_cost_usd : W
  pub baseline_requests : ℕ
  pub baseline_accepted_outcomes : ℕ
  pub baseline_outcome_rate : W

-- the messages of the verdicts
pub data VerdictReason (W : Type 0) : Type 0 where
  insufficient_sample : ℕ → ℕ → VerdictReason W
  quality_degraded : W → W → VerdictReason W
  no_saving : W → VerdictReason W
  verified : W → W → W → VerdictReason W

pub record SavingsVerificationRecord (W : Type 0) : Type 0 where
  pub verification_id : String
  pub recommendation_id : String
  pub workspace_id : String
  pub projected_saving_usd : W
  pub actual_saving_usd : W
  pub variance_usd : W
  pub variance_percentage : W
  pub baseline_outcome_rate : W
  pub post_change_outcome_rate : W
  pub quality_change : W
  pub confidence : W
  pub verdict : VerificationVerdict
  pub reason : VerdictReason W
  pub sample_count_baseline : ℕ
  pub sample_count_post_change : ℕ
  pub max_tolerable_quality_drop : W

pub record VerificationStorage (W : Type 0) : Type 0 where
  pub baselines : String → String → Option (BaselineSnapshot W × String)
  pub records : List (SavingsVerificationRecord W)

-- the exceptions: no requests in a baseline, no baseline, one whose fingerprint does not fit, and a
-- division by no requests after the change
pub data Error : Type 0 where
  no_baseline_requests no_baseline tampered zero_division : Error

pub data Result {ℓ} (A : Type ℓ) : Type ℓ where
  ok : A → Result A
  raise : Error → Result A

pub record Observation (W : Type 0) : Type 0 where
  pub projected_saving_usd : W
  pub post_change_cost_usd : W
  pub post_change_requests : ℕ
  pub post_change_accepted_outcomes : ℕ
  pub min_sample_size : ℕ
  pub max_tolerable_quality_drop : W

module _ {W : Type 0} ⦃f : Float W⦄ where
  -- the snapshot of `record_baseline`
  unfoldable pub snapshot_of : String → String → String → W → ℕ → ℕ → BaselineSnapshot W
  snapshot_of id recommendation workspace cost requests accepted = record {
    snapshot_id = id;
    recommendation_id = recommendation;
    workspace_id = workspace;
    baseline_cost_usd = f.round cost 4;
    baseline_requests = requests;
    baseline_accepted_outcomes = accepted;
    baseline_outcome_rate = f.round (f.div (f.of_nat accepted) (f.of_nat requests)) 4;
  }

module _ {W : Type 0} (fingerprint : BaselineSnapshot W → String) where
  -- `save_baseline_snapshot`: `INSERT OR REPLACE`, unique by workspace and recommendation
  unfoldable pub save_baseline : BaselineSnapshot W → VerificationStorage W → VerificationStorage W
  save_baseline b s = record s {
    baselines = λ workspace recommendation.
        if workspace == b.workspace_id && recommendation == b.recommendation_id
        then some (b, fingerprint b)
        else s.baselines workspace recommendation;
  }

  check_fingerprint : Option (BaselineSnapshot W × String) → Result (BaselineSnapshot W)
  check_fingerprint none = raise no_baseline
  check_fingerprint (some (b, stored)) = if fingerprint b == stored then ok b else raise tampered

  -- `get_baseline_snapshot`, and the `None` that `verify_savings` turns into an exception
  unfoldable pub get_baseline :
      String → String → VerificationStorage W → Result (BaselineSnapshot W)
  unfolding check_fingerprint
  get_baseline recommendation workspace s = check_fingerprint (s.baselines workspace recommendation)

  module _ ⦃f : Float W⦄ where
    -- `record_baseline`
    unfoldable pub record_baseline :
        String
        → String
        → String
        → W
        → ℕ
        → ℕ
        → VerificationStorage W
        → Result (BaselineSnapshot W) × VerificationStorage W
    record_baseline id recommendation workspace cost requests accepted s =
        if requests ==ℕ 0
        then (raise no_baseline_requests, s)
        else (let b = snapshot_of id recommendation workspace cost requests accepted in
            (ok b, save_baseline b s))

module _ {W : Type 0} where
  -- no requests after the change, and a minimum that lets them pass
  unfoldable pub divides_by_zero : Observation W → Bool
  divides_by_zero o =
      not (ltb o.post_change_requests o.min_sample_size) && (o.post_change_requests ==ℕ 0)

module _ {W : Type 0} ⦃f : Float W⦄ where
  -- the saving per request, over the requests after the change
  unfoldable pub actual_saving : BaselineSnapshot W → Observation W → W
  actual_saving b o =
      let base_unit_cost = f.div b.baseline_cost_usd (f.of_nat b.baseline_requests) in
      let post_unit_cost = f.div o.post_change_cost_usd (f.of_nat o.post_change_requests) in
      f.round (f.mul (f.sub base_unit_cost post_unit_cost) (f.of_nat o.post_change_requests)) 4

  unfoldable pub post_outcome_rate : Observation W → W
  post_outcome_rate o =
      f.round (f.div (f.of_nat o.post_change_accepted_outcomes) (f.of_nat o.post_change_requests)) 4

  unfoldable pub quality_change : BaselineSnapshot W → Observation W → W
  quality_change b o = f.round (f.sub (post_outcome_rate o) b.baseline_outcome_rate) 4

  -- the `if` ladder of the verdict
  unfoldable pub verdict_of : W → W → Observation W → VerificationVerdict × VerdictReason W
  verdict_of quality saving o =
      if f.lt quality (f.neg o.max_tolerable_quality_drop)
      then (fail, quality_degraded quality o.max_tolerable_quality_drop)
      else if f.le saving nought
      then (fail, no_saving saving)
      else (pass, verified saving o.projected_saving_usd quality)

  -- the record of a window that is too small
  unfoldable pub inconclusive_record :
      String → String → String → BaselineSnapshot W → Observation W → SavingsVerificationRecord W
  inconclusive_record id recommendation workspace b o = record {
    verification_id = id;
    recommendation_id = recommendation;
    workspace_id = workspace;
    projected_saving_usd = o.projected_saving_usd;
    actual_saving_usd = nought;
    variance_usd = f.neg o.projected_saving_usd;
    variance_percentage = f.neg (f.lit 1000 1);
    baseline_outcome_rate = b.baseline_outcome_rate;
    post_change_outcome_rate = nought;
    quality_change = nought;
    confidence = f.round (f.div (f.of_nat o.post_change_requests) (f.of_nat o.min_sample_size)) 2;
    verdict = inconclusive;
    reason = insufficient_sample o.post_change_requests o.min_sample_size;
    sample_count_baseline = b.baseline_requests;
    sample_count_post_change = o.post_change_requests;
    max_tolerable_quality_drop = o.max_tolerable_quality_drop;
  }

  -- the record of a window that is large enough
  unfoldable pub verdict_record :
      String → String → String → BaselineSnapshot W → Observation W → SavingsVerificationRecord W
  verdict_record id recommendation workspace b o =
      let saving = actual_saving b o in
      let quality = quality_change b o in
      let (verdict, reason) = verdict_of quality saving o in
      let variance = f.round (f.sub saving o.projected_saving_usd) 4 in
      record {
        verification_id = id;
        recommendation_id = recommendation;
        workspace_id = workspace;
        projected_saving_usd = o.projected_saving_usd;
        actual_saving_usd = saving;
        variance_usd = variance;
        variance_percentage =
            f.round (f.mul (f.div variance (max (f.lit 1 3) o.projected_saving_usd)) (f.lit 1000 1))
              2;
        baseline_outcome_rate = b.baseline_outcome_rate;
        post_change_outcome_rate = post_outcome_rate o;
        quality_change = quality;
        confidence =
            f.round (min (f.lit 10 1) (f.div (f.of_nat o.post_change_requests) (f.lit 500 1))) 2;
        verdict = verdict;
        reason = reason;
        sample_count_baseline = b.baseline_requests;
        sample_count_post_change = o.post_change_requests;
        max_tolerable_quality_drop = o.max_tolerable_quality_drop;
      }

  unfoldable pub record_of :
      String → String → String → BaselineSnapshot W → Observation W → SavingsVerificationRecord W
  record_of id recommendation workspace b o =
      if ltb o.post_change_requests o.min_sample_size
      then inconclusive_record id recommendation workspace b o
      else verdict_record id recommendation workspace b o

  module _ (fingerprint : BaselineSnapshot W → String) where
    store_record :
        VerificationStorage W
        → SavingsVerificationRecord W
        → Result (SavingsVerificationRecord W) × VerificationStorage W
    store_record s r = (ok r, record s { records = s.records ++ r ∷ [] })

    -- `verify_savings`
    unfoldable pub verify_savings :
        String
        → String
        → String
        → Observation W
        → VerificationStorage W
        → Result (SavingsVerificationRecord W) × VerificationStorage W
    unfolding store_record
    verify_savings id recommendation workspace o s =
        elim (get_baseline fingerprint recommendation workspace s) [
          | raise e ↦ (raise e, s)
          | ok b ↦
              if divides_by_zero o
              then (raise zero_division, s)
              else store_record s (record_of id recommendation workspace b o)
        ]
