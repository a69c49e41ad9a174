-- ===== src/Prelude/Best.antt =====
-- The loop `for x in xs: if applies(x) and (best is None or beats(key(best), key(x))): best = x`,
-- which the program writes several times, and what it finds.
use Prim.Native.Nat.{ℕ, ◌≤◌}
use mathlib.Core.Path.{◌≡◌, refl}
use mathlib.Core.Logic.{◌⊎◌, inl, inr}
use mathlib.Core.Bool.{Bool, true, false, ◌&&◌}
use mathlib.Core.Option.{Option, none, some}
use mathlib.Core.List.{List, [], ◌∷◌, Memᴰ}
use mathlib.Core.List.Memᴰ.{head, tail}
use native.Mathlib.Omega.{arith}
use burnlens.Prelude.Tests.{ltb, leb, if◌then◌else◌, Bool-cases}
use burnlens.Prelude.Lists.{All}

-- the tests that the loops use
pub ltb_up : (a b : ℕ) → ltb a b ≡ true → a ≤ b
ltb_up a b h = ground arith

pub ltb_down : (a b : ℕ) → ltb a b ≡ false → b ≤ a
ltb_down a b h = ground arith

pub leb_up : (a b : ℕ) → leb a b ≡ true → a ≤ b
leb_up a b h = ground arith

pub leb_down : (a b : ℕ) → leb a b ≡ false → b ≤ a
leb_down a b h = ground arith

module _ {A : Type 0} (applies : A → Bool) (key : A → ℕ) where
  -- The element found applies, and no element that applies has a larger key; without one, none
  -- applies.
  abbrev pub IsBest : List A → Option A → Type 0
  IsBest xs none = All (λ u. applies u ≡ false) xs
  IsBest xs (some t) =
      Memᴰ t xs × (applies t ≡ true) × All (λ u. applies u ≡ true → key u ≤ key t) xs

  module _ (beats : ℕ → ℕ → Bool) where
    abbrev pub beats_held : A → Option A → Bool
    beats_held t none = true
    beats_held t (some a) = beats (key a) (key t)

    unfoldable pub best : List A → Option A → Option A
    best [] held = held
    best (x ∷ xs) held = best xs (if applies x && beats_held x held then some x else held)

    module _ (up : (a b : ℕ) → beats a b ≡ true → a ≤ b)
        (down : (a b : ℕ) → beats a b ≡ false → b ≤ a) where
      abbrev Applies : Option A → Type 0
      Applies none = Unit
      Applies (some a) = applies a ≡ true

      abbrev AtMost : A → Option A → Type 0
      AtMost t none = Unit
      AtMost t (some a) = key a ≤ key t

      -- What the loop returns when it holds `held`.
      abbrev Outcome : Option A → List A → Option A → Type 0
      Outcome held xs none = (held ≡ none) × All (λ u. applies u ≡ false) xs
      Outcome held xs (some t) =
          ((held ≡ some t) ⊎ Memᴰ t xs)
          × (applies t ≡ true)
          × AtMost t held
          × All (λ u. applies u ≡ true → key u ≤ key t) xs

      taken :
          (t : A) (held : Option A) (xs : List A) (r : Option A)
          → (applies t && beats_held t held) ≡ true
          → Outcome (some t) xs r
          → Outcome held (t ∷ xs) r
      taken t held xs none h (e, rest) = absurd (cc)
      taken t none xs (some u) h (inl e, good, most, rest) =
          (inr (head (cc)), good, tt, ((λ _. most), rest))
      taken t none xs (some u) h (inr m, good, most, rest) =
          (inr (tail m), good, tt, ((λ _. most), rest))
      taken t (some a) xs (some u) h (inl e, good, most, rest) =
          (inr (head (cc)), good, ground (arith, up (key a) (key t)), ((λ _. most), rest))
      taken t (some a) xs (some u) h (inr m, good, most, rest) =
          (inr (tail m), good, ground (arith, up (key a) (key t)), ((λ _. most), rest))

      left :
          (t : A) (held : Option A) (xs : List A) (r : Option A)
          → (applies t && beats_held t held) ≡ false
          → Outcome held xs r
          → Outcome held (t ∷ xs) r
      left t none xs none h (e, rest) = (e, (ground arith, rest))
      left t (some a) xs none h (e, rest) = absurd (cc)
      left t none xs (some u) h (inl e, good, most, rest) = absurd (cc)
      left t none xs (some u) h (inr m, good, most, rest) =
          (inr (tail m), good, most, (ground arith, rest))
      left t (some a) xs (some u) h (inl e, good, most, rest) =
          (inl e, good, most, (ground (arith, down (key a) (key t)), rest))
      left t (some a) xs (some u) h (inr m, good, most, rest) =
          (inr (tail m), good, most, (ground (arith, down (key a) (key t)), rest))

      best-Outcome : (xs : List A) (held : Option A) → Applies held → Outcome held xs (best xs held)
      unfolding best
      best-Outcome [] none h = (refl, tt)
      best-Outcome [] (some a) h = (inl refl, h, omega arith, tt)
      best-Outcome (t ∷ xs) held h = elim (Bool-cases (applies t && beats_held t held)) [
        | inl e ↦
            rw e (taken t held xs (best xs (some t)) e (best-Outcome xs (some t) (ground arith)))
        | inr e ↦ rw e (left t held xs (best xs held) e (best-Outcome xs held h))
      ]

      found : (xs : List A) (r : Option A) → Outcome none xs r → IsBest xs r
      found xs none (e, rest) = rest
      found xs (some t) (inl e, good, most, rest) = absurd (cc)
      found xs (some t) (inr m, good, most, rest) = (m, good, rest)

      pub best-IsBest : (xs : List A) → IsBest xs (best xs none)
      best-IsBest xs = found xs (best xs none) (best-Outcome xs none tt)
