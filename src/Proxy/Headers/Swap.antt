-- ===== src/Proxy/Headers/Swap.antt =====
-- The provider's key takes the place of the virtual one.
use mathlib.Core.List.{Memᴰ}
use mathlib.Core.List.Memᴰ.{head, tail}
use burnlens.Prelude.{
  ◌≡◌, ◌⊎◌, ap, String, Bool, true, not, List, [], ◌∷◌, ◌==◌, Bool-cases, inl, inr, false≢true,
}
use burnlens.Prelude.Lists.{filter, All, All-mem}
use burnlens.Prelude.Dict.{Dict, insert}
use burnlens.Proxy.Headers.{TextFunctions, auth_value, swap_key}

mem-cons : {h x : String × String} {d : Dict String} → Memᴰ h (x ∷ d) → (h ≡ x) ⊎ Memᴰ h d
mem-cons (head e) = inl e
mem-cons (tail m) = inr m

mem-insert :
    {h : String × String} (k v : String) (d : Dict String)
    → Memᴰ h (insert k v d)
    → (h ≡ (k, v)) ⊎ Memᴰ h d
mem-insert k v [] (head e) = inl e
mem-insert k v [] (tail m) = elim m [ ]
mem-insert k v ((j, w) ∷ d) m = elim (Bool-cases (j == k)) [
  | inl same ↦ elim (mem-cons (rw same at m)) [ inl e ↦ inl e | inr old ↦ inr (tail old) ]
  | inr other ↦ elim (mem-cons (rw other at m)) [
    | inl e ↦ inr (head e)
    | inr rest ↦ elim (mem-insert k v d rest) [ inl e ↦ inl e | inr old ↦ inr (tail old) ]
  ]
]

filtered : {A : Type 0} (p : A → Bool) (xs : List A) → All (λ x. p x ≡ true) (filter p xs)
filtered p [] = tt
filtered p (x ∷ xs) = elim (Bool-cases (p x)) [
  | inl e ↦ rw e (e, filtered p xs)
  | inr e ↦ rw e (filtered p xs)
]

-- After the swap every header of the auth header's name, in whatever case, carries the provider's key.
pub swap_key-only :
    (t : TextFunctions) (name key : String) (headers : Dict String) (header : String × String)
    → Memᴰ header (swap_key t name key headers)
    → (t.lower header.0 == name) ≡ true
    → header.1 ≡ auth_value name key
unfolding swap_key
swap_key-only t name key headers header m same =
    let kept = filter (λ h. not (t.lower h.0 == name)) headers in
    elim (mem-insert name (auth_value name key) kept m) [
      | inl e ↦ ap (λ h. h.1) e
      | inr old ↦
          let other : not (t.lower header.0 == name) ≡ true =
            All-mem (λ h. not (t.lower h.0 == name) ≡ true) kept (filtered _ headers) old in
          absurd (false≢true (rw same at other))
    ]
