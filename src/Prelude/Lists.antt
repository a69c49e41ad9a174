-- ===== src/Prelude/Lists.antt =====
-- Lists as the program uses them: `All` and `Memᴰ` as predicates, Python's `in` and `any`.
use Prim.Native.Nat.{ℕ, suc}
use Prim.Native.String.{String}
use mathlib.Core.Path.{◌≡◌, refl, sym, ap, ◌∙◌, subst}
use mathlib.Core.Bool.{Bool, true, false, ◌||◌, false≢true}
use mathlib.Core.Option.{Option, none, some}
use mathlib.Core.List.{List, [], ◌∷◌, ◌++◌, Memᴰ}
use mathlib.Core.List.Memᴰ.{head, tail}
use mathlib.Core.Logic.{◌⊎◌, inl, inr}
use text.Mathlib.Text.{◌==◌}
use text.Mathlib.TextEquality.{eq_iff}
use burnlens.Prelude.Tests.{if◌then◌else◌, Bool-cases}

module _ {ℓ} {A : Type ℓ} where
  abbrev pub length : List A → ℕ
  length [] = 0
  length (x ∷ xs) = suc (length xs)

  abbrev pub All {κ} : (A → Type κ) → List A → Type κ
  All P [] = Unit
  All P (x ∷ xs) = P x × All P xs

  -- `any(p(x) for x in xs)`
  abbrev pub any : (A → Bool) → List A → Bool
  any p [] = false
  any p (x ∷ xs) = p x || any p xs

  -- `[x for x in xs if p(x)]`
  abbrev pub filter : (A → Bool) → List A → List A
  filter p [] = []
  filter p (x ∷ xs) = let rest = filter p xs in if p x then x ∷ rest else rest

  -- the first row that a query returns
  abbrev pub find_first : (A → Bool) → List A → Option A
  find_first p [] = none
  find_first p (x ∷ xs) = let rest = find_first p xs in if p x then some x else rest

module _ {ℓ κ} {A : Type ℓ} (P : A → Type κ) where
  pub All-mem : {a : A} (xs : List A) → All P xs → Memᴰ a xs → P a
  All-mem [] h m = elim m [ ]
  All-mem (x ∷ xs) h (head e) = subst P (sym e) h.0
  All-mem (x ∷ xs) h (tail m) = All-mem xs h.1 m

  pub All-filter : (p : A → Bool) (xs : List A) → All P xs → All P (filter p xs)
  All-filter p [] h = tt
  All-filter p (x ∷ xs) h = elim (Bool-cases (p x)) [
    | inl e ↦ rw e (h.0, All-filter p xs h.1)
    | inr e ↦ rw e (All-filter p xs h.1)
  ]

module _ {ℓ} {A : Type ℓ} where
  mem-choice :
      {a : A} (b : Bool) (x : A) (xs ys : List A)
      → (Memᴰ a ys → Memᴰ a xs)
      → Memᴰ a (if b then x ∷ ys else ys)
      → Memᴰ a (x ∷ xs)
  mem-choice true x xs ys up (head e) = head e
  mem-choice true x xs ys up (tail m) = tail (up m)
  mem-choice false x xs ys up m = tail (up m)

  pub mem-of-filter : {a : A} (p : A → Bool) (xs : List A) → Memᴰ a (filter p xs) → Memᴰ a xs
  mem-of-filter p [] m = elim m [ ]
  mem-of-filter p (x ∷ xs) m = mem-choice (p x) x xs (filter p xs) (mem-of-filter p xs) m

  pub mem-snoc : {a : A} (xs : List A) (y : A) → Memᴰ a (xs ++ y ∷ []) → Memᴰ a xs ⊎ (a ≡ y)
  mem-snoc [] y (head e) = inr e
  mem-snoc [] y (tail m) = elim m [ ]
  mem-snoc (x ∷ xs) y (head e) = inl (head e)
  mem-snoc (x ∷ xs) y (tail m) = elim (mem-snoc xs y m) [ inl k ↦ inl (tail k) | inr e ↦ inr e ]

  pub mem-append_left : {a : A} (xs ys : List A) → Memᴰ a xs → Memᴰ a (xs ++ ys)
  mem-append_left [] ys m = elim m [ ]
  mem-append_left (x ∷ xs) ys (head e) = head e
  mem-append_left (x ∷ xs) ys (tail m) = tail (mem-append_left xs ys m)

  pub mem-append_last : (xs : List A) (y : A) → Memᴰ y (xs ++ y ∷ [])
  mem-append_last [] y = head refl
  mem-append_last (x ∷ xs) y = tail (mem-append_last xs y)

  pub mem-middle :
      {a : A} (xs : List A) (y : A) (zs : List A)
      → Memᴰ a (xs ++ y ∷ zs)
      → (a ≡ y) ⊎ Memᴰ a (xs ++ zs)
  mem-middle [] y zs (head e) = inl e
  mem-middle [] y zs (tail m) = inr m
  mem-middle (x ∷ xs) y zs (head e) = inr (head e)
  mem-middle (x ∷ xs) y zs (tail m) = elim (mem-middle xs y zs m) [
    | inl e ↦ inl e
    | inr k ↦ inr (tail k)
  ]

  -- No two elements have one key.
  abbrev pub HasDistinct : (A → String) → List A → Type ℓ
  HasDistinct key [] = Unit
  HasDistinct key (x ∷ xs) = All (λ y. (key x == key y) ≡ false) xs × HasDistinct key xs

  pub HasDistinct-filter :
      (key : A → String) (p : A → Bool) (xs : List A)
      → HasDistinct key xs
      → HasDistinct key (filter p xs)
  HasDistinct-filter key p [] h = tt
  HasDistinct-filter key p (x ∷ xs) h = elim (Bool-cases (p x)) [
    | inl e ↦
        rw e (All-filter (λ y. (key x == key y) ≡ false) p xs h.0, HasDistinct-filter key p xs h.1)
    | inr e ↦ rw e (HasDistinct-filter key p xs h.1)
  ]

  -- Of distinct keys, an element is determined by its own.
  pub HasDistinct-unique :
      (key : A → String) {a b : A} (xs : List A)
      → HasDistinct key xs
      → Memᴰ a xs
      → Memᴰ b xs
      → key a ≡ key b
      → a ≡ b
  HasDistinct-unique key [] h m k e = elim m [ ]
  HasDistinct-unique key (x ∷ xs) h (head p) (head q) e = p ∙ sym q
  HasDistinct-unique key {a} {b} (x ∷ xs) h (head p) (tail k) e = absurd (
      false≢true (
        sym (All-mem (λ y. (key x == key y) ≡ false) xs h.0 k)
        ∙ (eq_iff (key x) (key b)).1 (ap key (sym p) ∙ e)))
  HasDistinct-unique key {a} {b} (x ∷ xs) h (tail m) (head q) e = absurd (
      false≢true (
        sym (All-mem (λ y. (key x == key y) ≡ false) xs h.0 m)
        ∙ (eq_iff (key x) (key a)).1 (ap key (sym q) ∙ sym e)))
  HasDistinct-unique key (x ∷ xs) h (tail m) (tail k) e = HasDistinct-unique key xs h.1 m k e

pub mem-nil {ℓ} : {A : Type ℓ} {a : A} (xs : List A) → xs ≡ [] → Memᴰ a xs → ⊥
mem-nil {a} xs e m = elim (subst (λ l. Memᴰ a l) e m) [ ]

-- `s in xs`
abbrev pub contains : List String → String → Bool
contains xs s = any (λ x. x == s) xs
