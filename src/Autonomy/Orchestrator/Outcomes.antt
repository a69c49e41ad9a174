-- ===== src/Autonomy/Orchestrator/Outcomes.antt =====
-- How a cycle ends, and what it leaves in the tables.
use burnlens.Prelude.{
  ◌<◌, ◌≡◌, ◌≢◌, refl, ◌⊎◌, inl, inr, String, Bool, true, false, some, List, [], ◌∷◌, ◌++◌, arith,
  eq_refl, Bool-cases, false≢true, sym, ◌∙◌, if◌then◌else◌,
}
use burnlens.Float.{Float}
use burnlens.Trust.Calculator.{AutonomyLevel, calculate_score}
use burnlens.Trust.Engine.{
  too_costly, reason_for, check_autonomy_eligibility, evaluate_agent_trust, save_profile,
}
use burnlens.Savings.Engine.{
  BaselineSnapshot, SavingsVerificationRecord, Result, ok, raise, no_baseline_requests, snapshot_of,
  record_of, record_baseline, save_baseline,
}
use burnlens.Savings.Engine.Verdicts.{record_baseline_ok, verify_savings_ok, get_baseline-snapshot}
use burnlens.Autonomy.Models.{
  canary_act, observe, canary_deployed, observation_collected, canary_active, verified_expanded,
  rolled_back, aborted, ControlPlane, AutonomousLoopResult, is_workspace_kill_switched, save_plan,
  update_plan_status, record_audit_event,
}
use burnlens.Autonomy.Orchestrator.{
  CycleRequest, Cycle, is_pass, log_stage, log_detection, abort, eligibility_request, canary_plan,
  observation, trust_evidence, update_trust, log_verdict, move_canary, settle, run_canary,
  after_policy_check, execute_optimization_cycle,
}

not_eligible : {k e : Bool} → (k ≡ true) ⊎ (e ≡ false) → k ≡ false → e ≡ false
not_eligible (inl k) h = absurd (false≢true (sym h ∙ k))
not_eligible (inr e) h = e

module _ {W : Type 0} ⦃f : Float W⦄ (clean : String → String)
    (fingerprint : BaselineSnapshot W → String) (r : CycleRequest W) where
  -- Whether the agent of a cycle is found eligible in its policy check.
  abbrev pub is_eligible : ControlPlane W → Bool
  is_eligible s =
      let (check, _) =
        check_autonomy_eligibility clean r.agent_id r.workspace_id (eligibility_request r)
          s.trust in
      check.is_autonomous_eligible

  -- A cycle in a workspace whose kill switch is set, or by an agent that the policy check does not
  -- find eligible, ends as aborted, and leaves every plan, baseline and verification record as it
  -- was; with the kill switch set it leaves the trust profiles and audits too.
  pub execute_optimization_cycle_aborts :
      (s : ControlPlane W)
      → (is_workspace_kill_switched r.workspace_id s ≡ true) ⊎ (is_eligible s ≡ false)
      → let (result, s') = execute_optimization_cycle clean fingerprint r s in
        ((x : AutonomousLoopResult W) × (result ≡ ok x) × (x.final_status ≡ aborted))
        × (s'.plans ≡ s.plans)
        × (s'.verification ≡ s.verification)
        × (is_workspace_kill_switched r.workspace_id s ≡ true → s'.trust ≡ s.trust)
  unfolding execute_optimization_cycle after_policy_check abort log_stage log_detection
      record_audit_event
  execute_optimization_cycle_aborts s h =
      elim (Bool-cases (is_workspace_kill_switched r.workspace_id s)) [
        | inl killed ↦ rw killed ((_, refl, refl), refl, refl, λ _. refl)
        | inr free ↦
            rw (free, not_eligible h free) ((_, refl, refl), refl, refl, λ k. absurd (false≢true k))
      ]

  -- the snapshot and the verification record of the cycle
  abbrev pub baseline : BaselineSnapshot W
  baseline =
      snapshot_of r.snapshot_id r.recommendation_id r.workspace_id r.baseline_cost_usd
        r.baseline_requests r.baseline_accepted_outcomes

  abbrev pub verification_of : SavingsVerificationRecord W
  verification_of =
      record_of r.verification_id r.recommendation_id r.workspace_id baseline (observation r)

  -- the tables when the verification record has been stored
  abbrev verified_cycle : Cycle W → Cycle W
  verified_cycle c =
      let p = canary_plan r in
      let c₁ =
        log_stage r canary_act (canary_deployed p.canary_percentage p.max_canary_spend_usd)
          (record c { tables = save_plan p c.tables }) in
      let stored = save_baseline fingerprint baseline c₁.tables.verification in
      let c₂ =
        log_stage r observe (observation_collected r.post_change_requests r.post_change_cost_usd)
          (record c₁ { tables = record c₁.tables { verification = stored } }) in
      record c₂ {
        tables = record c₂.tables {
          verification = record stored { records = stored.records ++ verification_of ∷ [] };
        };
      }

  run_canary_lem :
      (c : Cycle W)
      → 0 < r.baseline_requests
      → let c' = verified_cycle c in
        (run_canary clean fingerprint r c ≡ settle r verification_of c')
        × (c'.tables.plans r.plan_id ≡ some (canary_plan r))
        × (c'.tables.verification.records ≡ c.tables.verification.records ++ verification_of ∷ [])
  unfolding run_canary log_stage record_audit_event save_plan canary_plan save_baseline
  run_canary_lem c h =
      let e =
        record_baseline_ok fingerprint r.snapshot_id r.recommendation_id r.workspace_id
          r.baseline_cost_usd r.baseline_requests r.baseline_accepted_outcomes c.tables.verification
          h in
      let v =
        verify_savings_ok fingerprint r.verification_id r.recommendation_id r.workspace_id
          (observation r) (save_baseline fingerprint baseline c.tables.verification) baseline
          (get_baseline-snapshot fingerprint r.snapshot_id r.recommendation_id r.workspace_id
            r.baseline_cost_usd r.baseline_requests r.baseline_accepted_outcomes
            c.tables.verification)
          (omega arith) in
      (rw (e, run_canary) (rw (v, run_canary) refl), rw (eq_refl r.plan_id) refl, refl)

  -- How a cycle with the verification record `v` ends.
  pub IsSettled :
      SavingsVerificationRecord W
      → List (SavingsVerificationRecord W)
      → Result (AutonomousLoopResult W) × ControlPlane W
      → Type 0
  IsSettled v records (result, s) =
      let status = if is_pass v.verdict then verified_expanded else rolled_back in
      let profile =
        calculate_score {W = W} r.agent_id r.workspace_id (trust_evidence (is_pass v.verdict)) in
      ((x : AutonomousLoopResult W) × (result ≡ ok x)
        × (x.final_status ≡ status)
        × (x.verified_savings_realized ≡ v.actual_saving_usd)
        × (x.updated_trust_score ≡ profile.trust_score))
      × (s.plans r.plan_id ≡ some (record (canary_plan r) { canary_status = status }))
      × (s.verification.records ≡ records)
      × (s.trust.profiles r.agent_id r.workspace_id ≡ some profile)

  settle_lem :
      (v : SavingsVerificationRecord W) (c : Cycle W)
      → c.tables.plans r.plan_id ≡ some (canary_plan r)
      → IsSettled v c.tables.verification.records (settle r v c)
  unfolding IsSettled settle update_trust move_canary log_verdict log_stage record_audit_event
      update_plan_status evaluate_agent_trust save_profile canary_plan calculate_score
  settle_lem v c h = elim (Bool-cases (is_pass v.verdict)) [
    | inl passed ↦ rw passed (
        rw (eq_refl r.plan_id, h, eq_refl r.agent_id, eq_refl r.workspace_id)
          ((_, refl, refl, refl, refl), refl, refl, refl))
    | inr failed ↦ rw failed (
        rw (eq_refl r.plan_id, h, eq_refl r.agent_id, eq_refl r.workspace_id)
          ((_, refl, refl, refl, refl), refl, refl, refl))
  ]

  run_canary_settles :
      (c : Cycle W)
      → 0 < r.baseline_requests
      → IsSettled verification_of
          (c.tables.verification.records ++ verification_of ∷ [])
          (run_canary clean fingerprint r c)
  run_canary_settles c h =
      let (e, plan, records) = run_canary_lem c h in
      rw (e, sym records) (settle_lem verification_of (verified_cycle c) plan)

  -- A cycle that the kill switch and the policy check let through, with at least one request in its
  -- baseline, ends as expanded exactly when the verification of the savings against that baseline
  -- passes and as rolled back otherwise, with the saving that was verified. The canary plan stays
  -- stored with that status, one verification record is added, and the trust profile is the score
  -- of fixed evidence for that outcome, whatever profile stood there before.
  pub execute_optimization_cycle_settles :
      (s : ControlPlane W)
      → is_workspace_kill_switched r.workspace_id s ≡ false
      → is_eligible s ≡ true
      → 0 < r.baseline_requests
      → IsSettled verification_of
          (s.verification.records ++ verification_of ∷ [])
          (execute_optimization_cycle clean fingerprint r s)
  unfolding execute_optimization_cycle after_policy_check log_stage log_detection record_audit_event
  execute_optimization_cycle_settles s live eligible h =
      rw (live, eligible) (run_canary_settles _ h)

  -- A cycle that the kill switch and the policy check let through, but without a request in its
  -- baseline, ends in an exception after the canary has been deployed: the plan stays active and
  -- no verification record is added.
  pub execute_optimization_cycle_strands :
      (s : ControlPlane W)
      → is_workspace_kill_switched r.workspace_id s ≡ false
      → is_eligible s ≡ true
      → r.baseline_requests ≡ 0
      → let (result, s') = execute_optimization_cycle clean fingerprint r s in
        (result ≡ raise no_baseline_requests)
        × (s'.plans r.plan_id ≡ some (canary_plan r))
        × ((canary_plan r).canary_status ≡ canary_active)
        × (s'.verification.records ≡ s.verification.records)
  unfolding execute_optimization_cycle after_policy_check run_canary log_stage log_detection
      record_audit_event save_plan record_baseline canary_plan
  execute_optimization_cycle_strands s live eligible h =
      rw (live, eligible)
        (rw (h, record_baseline) (rw (eq_refl r.plan_id) (refl, refl, refl, refl)))

-- The policy check of a cycle never refuses for its cost, where no float is below itself: it
-- compares the canary's spend limit with itself.
pub reason_for-eligibility_request :
    {W : Type 0} ⦃f : Float W⦄ (clean : String → String) (r : CycleRequest W)
    (level : AutonomyLevel)
    → ((x : W) → f.lt x x ≡ false)
    → reason_for clean (eligibility_request r) level ≢ too_costly
unfolding reason_for
reason_for-eligibility_request clean r level h = rw (h r.max_canary_spend_usd) ground arith
