-- ===== src/Savings/Engine/Verdicts.antt =====
-- When savings are verified, and against which baseline.
use burnlens.Prelude.{
  ℕ, ◌≤◌, ◌<◌, ◌≡◌, ◌≢◌, refl, ◌↔◌, String, false, [], ◌∷◌, ◌++◌, ltb, arith, eq_refl, ap,
  Bool-cases, inl, inr, ◌==ℕ◌, not_true,
}
use burnlens.Float.{Float, nought}
use burnlens.Savings.Engine.{
  pass, inconclusive, BaselineSnapshot, VerificationStorage, ok, Observation, divides_by_zero,
  snapshot_of, save_baseline, get_baseline, record_baseline, actual_saving, quality_change,
  verdict_of, record_of, inconclusive_record, verdict_record, verify_savings,
}

module _ {W : Type 0} ⦃f : Float W⦄ where
  verdict_pass :
      (quality saving : W) (o : Observation W)
      → ((verdict_of quality saving o).0 ≡ pass) ↔ (
          (f.lt quality (f.neg o.max_tolerable_quality_drop) ≡ false)
          × (f.le saving nought ≡ false))
  unfolding verdict_of
  verdict_pass quality saving o = (λ h. ground arith, λ h. ground arith)

  verdict_conclusive :
      (quality saving : W) (o : Observation W) → (verdict_of quality saving o).0 ≢ inconclusive
  unfolding verdict_of
  verdict_conclusive quality saving o = ground arith

  -- The verdict is inconclusive exactly for fewer requests than the minimum; it is a pass exactly
  -- for at least that many, with the quality not lower by more than the tolerance and a saving
  -- above zero.
  pub verdict_iff :
      (id recommendation workspace : String) (b : BaselineSnapshot W) (o : Observation W)
      → let r = record_of id recommendation workspace b o in
        ((r.verdict ≡ inconclusive) ↔ (o.post_change_requests < o.min_sample_size))
        × ((r.verdict ≡ pass) ↔ (
            (o.min_sample_size ≤ o.post_change_requests)
            × (f.lt (quality_change b o) (f.neg o.max_tolerable_quality_drop) ≡ false)
            × (f.le (actual_saving b o) nought ≡ false)))
  unfolding record_of inconclusive_record verdict_record
  verdict_iff id recommendation workspace b o =
      elim (Bool-cases (ltb o.post_change_requests o.min_sample_size)) [
        | inl small ↦
            rw small ((λ _. ground arith, λ _. refl), (λ h. cc, λ h. absurd (ground arith)))
        | inr large ↦ rw large (
          (λ h. absurd (verdict_conclusive _ _ o h), λ h. absurd (ground arith)),
          (
            λ h. let (q, s) = (verdict_pass _ _ o).0 h in (ground arith, q, s),
            λ h. (verdict_pass _ _ o).1 (h.1, h.2),
          ),
        )
      ]

not_zero_division :
    {W : Type 0} (o : Observation W) → 0 < o.min_sample_size → divides_by_zero o ≡ false
unfolding divides_by_zero
not_zero_division o n = ground arith

module _ {W : Type 0} ⦃f : Float W⦄ (fingerprint : BaselineSnapshot W → String) where
  get_baseline-save_baseline :
      (b : BaselineSnapshot W) (s : VerificationStorage W)
      → get_baseline fingerprint b.recommendation_id b.workspace_id (save_baseline fingerprint b s)
        ≡ ok b
  unfolding get_baseline save_baseline
  get_baseline-save_baseline b s =
      rw (eq_refl b.workspace_id, eq_refl b.recommendation_id, eq_refl (fingerprint b)) refl

  pub record_baseline_ok :
      (snapshot recommendation workspace : String) (cost : W) (requests accepted : ℕ)
      (s : VerificationStorage W)
      → 0 < requests
      → let b = snapshot_of snapshot recommendation workspace cost requests accepted in
        record_baseline fingerprint snapshot recommendation workspace cost requests accepted s
        ≡ (ok b, save_baseline fingerprint b s)
  unfolding record_baseline
  record_baseline_ok snapshot recommendation workspace cost requests accepted s h =
      rw (not_true (requests ==ℕ 0) λ z. ground arith) refl

  pub verify_savings_ok :
      (id recommendation workspace : String) (o : Observation W) (s : VerificationStorage W)
      (b : BaselineSnapshot W)
      → get_baseline fingerprint recommendation workspace s ≡ ok b
      → 0 < o.min_sample_size
      → verify_savings fingerprint id recommendation workspace o s ≡ (
        ok (record_of id recommendation workspace b o),
        record s { records = s.records ++ record_of id recommendation workspace b o ∷ [] },
      )
  unfolding verify_savings
  verify_savings_ok id recommendation workspace o s b h n =
      rw (h, verify_savings) (rw (not_zero_division o n) refl)

  -- A baseline stored for a workspace and recommendation is the one that is read there.
  pub get_baseline-snapshot :
      (snapshot recommendation workspace : String) (cost : W) (requests accepted : ℕ)
      (s : VerificationStorage W)
      → let b = snapshot_of snapshot recommendation workspace cost requests accepted in
        get_baseline fingerprint recommendation workspace (save_baseline fingerprint b s) ≡ ok b
  unfolding snapshot_of
  get_baseline-snapshot snapshot recommendation workspace cost requests accepted s =
      get_baseline-save_baseline _ s

  -- A baseline of at least one request is recorded, and a verification that follows, with a minimum
  -- of at least one request, is made against it and stored, whatever baseline stood there before.
  pub verify_savings-record_baseline :
      (snapshot id recommendation workspace : String) (cost : W) (requests accepted : ℕ)
      (o : Observation W) (s : VerificationStorage W)
      → 0 < requests
      → 0 < o.min_sample_size
      → let b = snapshot_of snapshot recommendation workspace cost requests accepted in
        let (stored, s') =
          record_baseline fingerprint snapshot recommendation workspace cost requests accepted s in
        let (r, s'') = verify_savings fingerprint id recommendation workspace o s' in
        (stored ≡ ok b)
        × (r ≡ ok (record_of id recommendation workspace b o))
        × (s''.records ≡ s.records ++ record_of id recommendation workspace b o ∷ [])
  unfolding save_baseline
  verify_savings-record_baseline snapshot id recommendation workspace cost requests accepted o s h
        n =
      rw (record_baseline_ok snapshot recommendation workspace cost requests accepted s h) (
        let b = snapshot_of snapshot recommendation workspace cost requests accepted in
        let v =
          verify_savings_ok id recommendation workspace o (save_baseline fingerprint b s) b
            (get_baseline-snapshot snapshot recommendation workspace cost requests accepted s) n in
        (refl, ap (λ p. p.0) v, ap (λ p. p.1.records) v))
