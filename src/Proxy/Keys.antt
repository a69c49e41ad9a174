-- ===== src/Proxy/Keys.antt =====
-- The table of burnlens/virtual_keys.py. The random token and its hash are parameters. An empty list
-- of models is stored as NULL, and read back as no list.
pub mod Laws
use burnlens.Prelude.{
  ℕ, String, Bool, true, false, not, ◌&&◌, ◌||◌, Option, none, some, List, [], ◌∷◌, ◌++◌, ◌==◌, map,
  is_some, starts_with, if◌then◌else◌,
}
use burnlens.Prelude.Lists.{any, find_first}
use mathlib.Core.Option

-- `looks_like_virtual_key`
unfoldable pub looks_like_virtual_key : String → Bool
looks_like_virtual_key token = starts_with token "bl-sk-"

pub record VirtualKey (W : Type 0) : Type 0 where
  pub label : String
  pub team : String
  pub provider : String
  pub upstream_key_env : String
  pub allowed_models : Option (List String)
  pub monthly_budget_usd : Option W
  pub token_prefix : String

-- a row of `virtual_keys`
pub record KeyRow (W : Type 0) : Type 0 where
  pub key : VirtualKey W
  pub token_hash : String
  pub revoked_at : Option ℕ

pub data IssueResult : Type 0 where
  issued : String → String → IssueResult
  bad_input : IssueResult
  label_taken : IssueResult

-- `json.dumps(allowed_models) if allowed_models else None`
unfoldable pub stored_models : Option (List String) → Option (List String)
stored_models none = none
stored_models (some []) = none
stored_models (some (m ∷ ms)) = some (m ∷ ms)

module _ {W : Type 0} where
  unfoldable pub is_incomplete : VirtualKey W → Bool
  is_incomplete k =
      k.label == "" || (k.team == "" || (k.provider == "" || k.upstream_key_env == ""))

  -- `issue_key` with its fresh token, the token's hash and its prefix
  unfoldable pub issue_key :
      VirtualKey W → String → String → List (KeyRow W) → IssueResult × List (KeyRow W)
  issue_key k token token_hash rows =
      if is_incomplete k
      then (bad_input, rows)
      else if any (λ r. r.key.label == k.label) rows
      then (label_taken, rows)
      else (
        issued token k.token_prefix,
        rows
            ++ record {
              key = record k { allowed_models = stored_models k.allowed_models };
              token_hash = token_hash;
              revoked_at = none;
            }
              ∷ [],
      )

  unfoldable pub is_live : String → KeyRow W → Bool
  is_live token_hash r = r.token_hash == token_hash && not (is_some r.revoked_at)

  -- `resolve`
  unfoldable pub resolve : String → List (KeyRow W) → Option (VirtualKey W)
  resolve token_hash rows = Option.map (λ r. r.key) (find_first (is_live token_hash) rows)

  unfoldable pub is_revocable : String → KeyRow W → Bool
  is_revocable label r = r.key.label == label && not (is_some r.revoked_at)

  -- `revoke_key`: the `UPDATE`, and whether it changed a row
  unfoldable pub revoke_key : String → ℕ → List (KeyRow W) → Bool × List (KeyRow W)
  revoke_key label now rows = (
    any (is_revocable label) rows,
    map (λ r. if is_revocable label r then record r { revoked_at = some now } else r) rows,
  )
