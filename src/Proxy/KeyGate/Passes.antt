-- ===== src/Proxy/KeyGate/Passes.antt =====
-- When a virtual key passes.
use burnlens.Prelude.{
  ◌≡◌, ◌↔◌, refl, sym, ◌∙◌, String, true, false, Option, none, some, List, ◌==◌, Bool-cases, inl,
  inr, arith, false≢true,
}
use burnlens.Prelude.Dict.{lookup}
use burnlens.Float.{Float}
use burnlens.Proxy.Keys.{VirtualKey, KeyRow, looks_like_virtual_key, resolve}
use burnlens.Proxy.Headers.{TextFunctions, extract_auth_token}
use burnlens.Proxy.Models.{Gated, refuse, pass, pass_injective, Request, World}
use burnlens.Proxy.KeyGate.{
  allows, team_spent, real_key, budgeted, key_gate, swapped, resolved, looked_up, by_token,
  virtual_gate,
}

module _ {W : Type 0} ⦃f : Float W⦄ where
  -- The key has no budget, or its model is priced and its team's spend is below the budget.
  abbrev pub WithinBudget : Option W → Request → World W → VirtualKey W → Type 0
  WithinBudget none r w k = Unit
  WithinBudget (some limit) r w k =
      (r.unpriced ≡ false) × (f.le limit (team_spent w k.team) ≡ false)

  -- The key is for the provider and the model, is within its budget, and names an environment
  -- variable that holds the provider's key.
  pub record MayPass (r : Request) (w : World W) (k : VirtualKey W) (key : String) : Type 0 where
    pub provider : (k.provider == r.provider) ≡ true
    pub model : allows k.allowed_models r.model ≡ true
    pub budget : WithinBudget k.monthly_budget_usd r w k
    pub found : lookup k.upstream_key_env w.environ ≡ some key
    pub nonempty : (key == "") ≡ false

  real_key_iff :
      (o : Option String) (key : String)
      → (real_key {W = W} o ≡ pass key) ↔ ((o ≡ some key) × ((key == "") ≡ false))
  unfolding real_key
  real_key_iff none key = ground arith
  real_key_iff (some k) key = ground arith

  budgeted_iff :
      (limit : Option W) (r : Request) (w : World W) (k : VirtualKey W) (key : String)
      → (budgeted limit r w k ≡ pass key) ↔ (
          WithinBudget limit r w k
          × ((lookup k.upstream_key_env w.environ ≡ some key) × ((key == "") ≡ false)))
  unfolding budgeted
  budgeted_iff none r w k key =
      let (to, from) = real_key_iff (lookup k.upstream_key_env w.environ) key in
      (λ h. (tt, to h), λ h. from h.1)
  budgeted_iff (some limit) r w k key =
      let (to, from) = real_key_iff (lookup k.upstream_key_env w.environ) key in
      elim (Bool-cases r.unpriced) [
        | inl no_price ↦ rw no_price (λ h. cc, λ h. absurd (false≢true (sym h.0.0)))
        | inr priced ↦ rw priced (elim (Bool-cases (f.le limit (team_spent w k.team))) [
          | inl over ↦ rw over (λ h. cc, λ h. absurd (false≢true (sym h.0.1)))
          | inr below ↦ rw below (λ h. ((refl, refl), to h), λ h. from h.1)
        ])
      ]

  key_gate_iff :
      (r : Request) (w : World W) (k : VirtualKey W) (key : String)
      → (key_gate r w k ≡ pass key) ↔ MayPass r w k key
  unfolding key_gate
  key_gate_iff r w k key =
      let (to, from) = budgeted_iff k.monthly_budget_usd r w k key in
      elim (Bool-cases (k.provider == r.provider)) [
        | inr other ↦ (λ h. cc (rw other at h), λ m. absurd (false≢true (sym other ∙ m.provider)))
        | inl own ↦ elim (Bool-cases (allows k.allowed_models r.model)) [
          | inr barred ↦
              (λ h. cc (rw (own, barred) at h), λ m. absurd (false≢true (sym barred ∙ m.model)))
          | inl allowed ↦ (
            λ h.
                let (within, there) = to (rw (own, allowed) at h) in
                record {
                  provider = own;
                  model = allowed;
                  budget = within;
                  found = there.0;
                  nonempty = there.1;
                },
            λ m. rw (own, allowed) (from (m.budget, (m.found, m.nonempty))),
          )
        ]
      ]

  -- The token belongs to a live key that may pass, and is swapped for the provider's key.
  pub record IsSwapped (r : Request) (w : World W) (token_hash name : String)
      (swap : Option (String × String × VirtualKey W)) : Type 0 where
    pub rows : List (KeyRow W)
    pub k : VirtualKey W
    pub key : String
    pub read : w.keys ≡ some rows
    pub live : resolve token_hash rows ≡ some k
    pub may : MayPass r w k key
    pub same : swap ≡ some (name, key, k)

  swapped-pass :
      (name : String) (k : VirtualKey W) (g : Gated W String)
      (swap : Option (String × String × VirtualKey W))
      → swapped name k g ≡ pass swap
      → (key : String) × (g ≡ pass key) × (swap ≡ some (name, key, k))
  unfolding swapped
  swapped-pass name k (refuse x) swap h = cc
  swapped-pass name k (pass key) swap h = (key, refl, sym (pass_injective _ refl h))

  resolved-pass :
      (name : String) (r : Request) (w : World W) (o : Option (VirtualKey W))
      (swap : Option (String × String × VirtualKey W))
      → resolved name r w o ≡ pass swap
      → (k : VirtualKey W) × (key : String) × (o ≡ some k)
        × (key_gate r w k ≡ pass key)
        × (swap ≡ some (name, key, k))
  unfolding resolved
  resolved-pass name r w none swap h = cc
  resolved-pass name r w (some k) swap h =
      let (key, passed, same) = swapped-pass name k (key_gate r w k) swap h in
      (k, key, refl, passed, same)

  looked_up-pass :
      (token_hash name : String) (r : Request) (w : World W) (o : Option (List (KeyRow W)))
      (swap : Option (String × String × VirtualKey W))
      → w.keys ≡ o
      → looked_up token_hash name r w o ≡ pass swap
      → IsSwapped r w token_hash name swap
  unfolding looked_up
  looked_up-pass token_hash name r w none swap read h = cc
  looked_up-pass token_hash name r w (some rows) swap read h =
      let (k, key, live, passed, same) = resolved-pass name r w (resolve token_hash rows) swap h in
      record {
        rows = rows;
        k = k;
        key = key;
        read = read;
        live = live;
        may = (key_gate_iff r w k key).0 passed;
        same = same;
      }

  pub virtual_gate-IsSwapped :
      (t : TextFunctions) (r : Request) (w : World W) (token name : String)
      (swap : Option (String × String × VirtualKey W))
      → extract_auth_token t r.headers ≡ some (token, name)
      → looks_like_virtual_key token ≡ true
      → virtual_gate t r w ≡ pass swap
      → IsSwapped r w (t.sha256 token) name swap
  unfolding virtual_gate by_token
  virtual_gate-IsSwapped t r w token name swap sent virtual h =
      looked_up-pass (t.sha256 token) name r w w.keys swap refl (rw (sent, virtual) at h)
