-- ===== src/Cost/Calculator/Geo.antt =====
-- The geo prefix of a Bedrock model does not change its price.
use Prim.Native.Char.{code}
use Prim.Native.String.{◌++◌}
use Prim.Native.String.append
use burnlens.Prelude.{ℕ, ◌≡◌, String, true, some, starts_with}
use burnlens.Cost.Pricing.{PricingFiles, Registry, get_model_pricing}
use burnlens.Cost.Calculator.{is_geo_char, after_dot, strip_geo, resolve_pricing, resolve_vendor}

-- lower-case letters, digits and dashes
abbrev pub IsGeo : String → Type 0
IsGeo String.[] = Unit
IsGeo (String.◌∷◌ c s) = (is_geo_char (code c) ≡ true) × IsGeo s

after_dot_geo :
    (geo rest : String) → IsGeo geo → after_dot true (geo ++ String.◌∷◌ "." rest) ≡ some rest
after_dot_geo String.[] rest h = rw append.nil
after_dot_geo (String.◌∷◌ c s) rest h = rw append.cons (rw h.0 (after_dot_geo s rest h.1))

-- The prefix has a first character.
abbrev pub IsNonempty : String → Type 0
IsNonempty String.[] = ⊥
IsNonempty (String.◌∷◌ c s) = Unit

strip_geo_prefix :
    (geo vendor : String)
    → IsGeo geo
    → IsNonempty geo
    → starts_with vendor "anthropic." ≡ true
    → strip_geo (geo ++ String.◌∷◌ "." vendor) ≡ vendor
unfolding strip_geo
strip_geo_prefix String.[] vendor g n h = absurd n
strip_geo_prefix (String.◌∷◌ c s) vendor g n h =
    rw append.cons (rw g.0 (rw (after_dot_geo s vendor g.1) (rw h)))

module _ {W : Type 0} (registry : Registry) (files : PricingFiles W) (today : ℕ) where
  -- A Bedrock model under `anthropic.` that is written behind a prefix of lower-case letters,
  -- digits and dashes and a dot is priced as the model without it is looked up, whatever the prefix.
  pub resolve_pricing_geo :
      (geo vendor : String)
      → IsGeo geo
      → IsNonempty geo
      → starts_with vendor "anthropic." ≡ true
      → resolve_pricing registry files today "bedrock" (geo ++ String.◌∷◌ "." vendor)
        ≡ get_model_pricing registry files "bedrock" vendor today
  unfolding resolve_pricing resolve_vendor
  resolve_pricing_geo geo vendor g n h = rw (strip_geo_prefix geo vendor g n h)
