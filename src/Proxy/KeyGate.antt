-- ===== src/Proxy/KeyGate.antt =====
-- The virtual key gateway of `handle_request` in burnlens/proxy/interceptor.py.
pub mod Passes
use burnlens.Prelude.{
  String, Bool, true, false, Option, none, some, List, [], ◌∷◌, ◌==◌, or_else, if◌then◌else◌,
}
use burnlens.Prelude.Lists.{contains}
use burnlens.Prelude.Dict.{Dict, lookup}
use burnlens.Float.{Float, nought}
use burnlens.Proxy.Keys.{VirtualKey, KeyRow, looks_like_virtual_key, resolve}
use burnlens.Proxy.Headers.{TextFunctions, extract_auth_token}
use burnlens.Proxy.Models.{
  virtual_key_monthly, Rejection, gateway_error, invalid_virtual_key, provider_mismatch,
  model_not_allowed, unpriced_model_blocked, team_budget_exceeded, gateway_misconfigured, Gated,
  refuse, pass, Request, World,
}

-- an empty list of models allows all
unfoldable pub allows : Option (List String) → String → Bool
allows none model = true
allows (some []) model = true
allows (some (m ∷ ms)) model = contains (m ∷ ms) model

module _ {W : Type 0} ⦃f : Float W⦄ where
  spend_in : Option (Dict W) → String → W
  spend_in none name = nought
  spend_in (some spends) name = or_else (lookup name spends) nought

  -- the team's spend; a lookup that raises counts as nothing
  unfoldable pub team_spent : World W → String → W
  unfolding spend_in
  team_spent w team = spend_in w.team_spend team

  -- the real key, from the environment
  real_key : Option String → Gated W String
  real_key none = refuse gateway_misconfigured
  real_key (some key) = if key == "" then refuse gateway_misconfigured else pass key

  -- the unpriced model and the team's budget
  budgeted : Option W → Request → World W → VirtualKey W → Gated W String
  unfolding real_key
  budgeted none r w k = real_key (lookup k.upstream_key_env w.environ)
  budgeted (some limit) r w k =
      let spent = team_spent w k.team in
      if r.unpriced
      then refuse (unpriced_model_blocked r.provider r.model virtual_key_monthly)
      else if f.le limit spent
      then refuse (team_budget_exceeded k.team spent limit)
      else real_key (lookup k.upstream_key_env w.environ)

  -- the checks of a resolved virtual key, and the provider's key
  unfoldable pub key_gate : Request → World W → VirtualKey W → Gated W String
  unfolding budgeted
  key_gate r w k =
      if k.provider == r.provider
      then if allows k.allowed_models r.model
        then budgeted k.monthly_budget_usd r w k
        else refuse (model_not_allowed r.model (or_else k.allowed_models []))
      else refuse (provider_mismatch k.provider)

  swapped :
      String → VirtualKey W → Gated W String → Gated W (Option (String × String × VirtualKey W))
  swapped name k (refuse x) = refuse x
  swapped name k (pass key) = pass (some (name, key, k))

  resolved :
      String
      → Request
      → World W
      → Option (VirtualKey W)
      → Gated W (Option (String × String × VirtualKey W))
  unfolding swapped
  resolved name r w none = refuse invalid_virtual_key
  resolved name r w (some k) = swapped name k (key_gate r w k)

  looked_up :
      String
      → String
      → Request
      → World W
      → Option (List (KeyRow W))
      → Gated W (Option (String × String × VirtualKey W))
  unfolding resolved
  looked_up token_hash name r w none = refuse gateway_error
  looked_up token_hash name r w (some rows) = resolved name r w (resolve token_hash rows)

  by_token :
      TextFunctions
      → Option (String × String)
      → Request
      → World W
      → Gated W (Option (String × String × VirtualKey W))
  unfolding looked_up
  by_token t none r w = pass none
  by_token t (some (token, name)) r w =
      if looks_like_virtual_key token then looked_up (t.sha256 token) name r w w.keys else pass none

  -- the virtual key gateway: a token of another kind passes unchanged
  unfoldable pub virtual_gate :
      TextFunctions → Request → World W → Gated W (Option (String × String × VirtualKey W))
  unfolding by_token
  virtual_gate t r w = by_token t (extract_auth_token t r.headers) r w
