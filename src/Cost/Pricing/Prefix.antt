-- ===== src/Cost/Pricing/Prefix.antt =====
-- The lookup of a model: an exact entry first, and then the longest entry name that begins it.
use Prim.Native.String.{count}
use mathlib.Core.Option
use burnlens.Prelude.{
  ℕ, ◌≡◌, refl, String, Bool, ◌&&◌, Option, none, some, [], ◌∷◌, ltb, ◌==◌, starts_with, eq_iff,
  ◌∙◌, Bool-cases, inl, inr,
}
use burnlens.Prelude.Dict.{Dict, lookup}
use burnlens.Prelude.Best.{IsBest, best, best-IsBest, ltb_up, ltb_down}
use burnlens.Cost.Pricing.{
  Pricing, PricingFiles, Registry, resolve_pricing_key, longer_than, best_prefix, by_prefix,
  base_entry, apply_scheduled, get_model_pricing,
}

module _ {W : Type 0} where
  abbrev name : Option (String × Pricing W) → Option String
  name none = none
  name (some e) = some e.0

  -- the entry's name begins the model's
  abbrev pub begins : String → String × Pricing W → Bool
  begins model e = starts_with model e.0

  abbrev pub name_length : String × Pricing W → ℕ
  name_length e = count e.0

  best_prefix-best :
      (model : String) (models : Dict (Pricing W)) (held : Option (String × Pricing W))
      → best_prefix model models (name held)
        ≡ name (best (begins model) name_length ltb models held)
  unfolding best_prefix best longer_than
  best_prefix-best model [] held = refl
  best_prefix-best model (e ∷ models) none = elim (Bool-cases (starts_with model e.0)) [
    | inl h ↦ rw h (best_prefix-best model models (some e))
    | inr h ↦ rw h (best_prefix-best model models none)
  ]
  best_prefix-best model (e ∷ models) (some a) =
      elim (Bool-cases (starts_with model e.0 && ltb (count a.0) (count e.0))) [
        | inl h ↦ rw h (best_prefix-best model models (some e))
        | inr h ↦ rw h (best_prefix-best model models (some a))
      ]

  -- the entry that a name stands for, as it is on a day
  abbrev pub entry_on : Dict (Pricing W) → ℕ → Option (String × Pricing W) → Option (Pricing W)
  entry_on models today none = none
  entry_on models today (some e) = Option.map (λ p. apply_scheduled p today) (lookup e.0 models)

  by_prefix-entry_on :
      (models : Dict (Pricing W)) (today : ℕ) (r : Option (String × Pricing W))
      → lookup "" models ≡ none
      → Option.map (λ p. apply_scheduled p today) (by_prefix models (name r))
        ≡ entry_on models today r
  unfolding by_prefix
  by_prefix-entry_on models today none h = refl
  by_prefix-entry_on models today (some e) h = elim (Bool-cases (e.0 == "")) [
    | inl empty ↦ rw (empty, (eq_iff e.0 "").0 empty, h)
    | inr named ↦ rw named
  ]

  get_model_pricing_lem :
      (registry : Registry) (files : PricingFiles W) (provider model : String) (today : ℕ)
      (models : Dict (Pricing W))
      → lookup (resolve_pricing_key registry provider) files ≡ some models
      → lookup model models ≡ none
      → get_model_pricing registry files provider model today
        ≡ Option.map
            (λ p. apply_scheduled p today)
            (by_prefix models (best_prefix model models none))
  unfolding get_model_pricing base_entry
  get_model_pricing_lem registry files provider model today models hf hm =
      rw (get_model_pricing, hf) (rw (hm, base_entry))

  -- For a file with no empty model name and no entry of exactly this name, the price is that of an
  -- entry whose name begins the model's and is the longest such, and there is none if no entry's
  -- name begins the model's.
  pub model_pricing_longest_prefix :
      (registry : Registry) (files : PricingFiles W) (provider model : String) (today : ℕ)
      (models : Dict (Pricing W))
      → lookup (resolve_pricing_key registry provider) files ≡ some models
      → lookup model models ≡ none
      → lookup "" models ≡ none
      → (r : Option (String × Pricing W)) × IsBest (begins model) name_length models r
        × (get_model_pricing registry files provider model today ≡ entry_on models today r)
  model_pricing_longest_prefix registry files provider model today models hf hm he =
      let r = best (begins model) name_length ltb models none in
      (
        r,
        best-IsBest (begins model) name_length ltb ltb_up ltb_down models,
        get_model_pricing_lem registry files provider model today models hf hm
            ∙ (rw (best_prefix-best model models none) (by_prefix-entry_on models today r he)),
      )
