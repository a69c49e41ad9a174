-- ===== src/Trust/Tests.antt =====
-- The theorem on trust at work: an action of an agent that has no profile.
use burnlens.Prelude.{ℕ, ◌≡◌, ◌↔◌, String, true, not, none, [], ◌∷◌, ◌++◌}
use burnlens.Float.Micro.{micro}
use burnlens.Trust.Engine.{ActionRequest, TrustStorage, load_profile, check_autonomy_eligibility}
use burnlens.Trust.Engine.Eligibility.{MayRun, check_autonomy_eligibility_iff}

abbrev storage : TrustStorage ℕ
storage = record { profiles = λ a w. none; audits = [] }

abbrev action : ActionRequest ℕ
action = record {
  action_type = "reduce_context";
  estimated_cost_usd = 2000000;
  is_reversible = true;
  max_autonomous_spend = 5000000;
}

abbrev clean : String → String
clean s = s

check_autonomy_eligibility_iff_example :
    let (c, s') = check_autonomy_eligibility clean "coder" "acme" action storage in
    let p = (load_profile "coder" "acme" storage).0 in
    ((c.is_autonomous_eligible ≡ true) ↔ MayRun clean action p.autonomy_level)
    × (c.requires_human_approval ≡ not c.is_autonomous_eligible)
    × (s'.audits ≡ (load_profile "coder" "acme" storage).1.audits ++ c ∷ [])
check_autonomy_eligibility_iff_example =
    check_autonomy_eligibility_iff clean "coder" "acme" action storage
