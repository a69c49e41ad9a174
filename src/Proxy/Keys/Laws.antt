-- ===== src/Proxy/Keys/Laws.antt =====
-- A key resolves from its issue to its revocation.
use mathlib.Core.Option
use burnlens.Prelude.{
  ℕ, ◌≡◌, refl, ap, String, Bool, true, false, Option, none, some, List, [], ◌∷◌, ◌++◌, ◌==◌,
  eq_refl, Bool-cases, inl, inr, arith, some_injective,
}
use burnlens.Prelude.Lists.{any, find_first}
use burnlens.Proxy.Keys.{
  VirtualKey, KeyRow, issued, stored_models, is_incomplete, issue_key, is_live, resolve,
  is_revocable, revoke_key,
}

none_of_map : {A B : Type 0} (f : A → B) (o : Option A) → Option.map f o ≡ none → o ≡ none
none_of_map f none h = refl
none_of_map f (some a) h = cc

some_of_map :
    {A B : Type 0} (f : A → B) (o : Option A) {b : B}
    → Option.map f o ≡ some b
    → (a : A) × (o ≡ some a) × (f a ≡ b)
some_of_map f none h = cc
some_of_map f (some a) h = (a, refl, some_injective h)

module _ {W : Type 0} where
  find_first-last :
      (p : KeyRow W → Bool) (rows : List (KeyRow W)) (r : KeyRow W)
      → find_first p rows ≡ none
      → p r ≡ true
      → find_first p (rows ++ r ∷ []) ≡ some r
  find_first-last p [] r h e = rw e refl
  find_first-last p (x ∷ rows) r h e = elim (Bool-cases (p x)) [
    | inl found ↦ cc (rw found at h)
    | inr other ↦ rw other (find_first-last p rows r (rw other at h) e)
  ]

  -- A complete key with a new label is issued; where no live row has its token's hash, the hash then
  -- resolves to the key as it was given, but that an empty list of models is none.
  pub issue_key-resolve :
      (k : VirtualKey W) (token token_hash : String) (rows : List (KeyRow W))
      → is_incomplete k ≡ false
      → any (λ r. r.key.label == k.label) rows ≡ false
      → resolve token_hash rows ≡ none
      → let (result, rows') = issue_key k token token_hash rows in
        (result ≡ issued token k.token_prefix)
        × (resolve token_hash rows'
            ≡ some (record k { allowed_models = stored_models k.allowed_models }))
  unfolding issue_key resolve is_live
  issue_key-resolve k token token_hash rows complete fresh unknown =
      rw (complete, fresh)
        (
          refl,
          ap (Option.map (λ r. r.key)) (
              find_first-last (is_live token_hash) rows _ (none_of_map (λ r. r.key) _ unknown)
                (rw (eq_refl token_hash) refl)),
        )

  live_unrevocable :
      (label token_hash : String) (x : KeyRow W)
      → is_revocable label x ≡ false
      → is_live token_hash x ≡ true
      → (x.key.label == label) ≡ false
  unfolding is_revocable is_live
  live_unrevocable label token_hash x h live = ground arith

  revoked_not_live :
      (label token_hash : String) (now : ℕ) (x : KeyRow W)
      → is_live token_hash (record x { revoked_at = some now }) ≡ false
  unfolding is_live
  revoked_not_live label token_hash now x = ground arith

  revoked_labels :
      (label token_hash : String) (now : ℕ) (rows : List (KeyRow W)) (r : KeyRow W)
      → find_first (is_live token_hash) (revoke_key label now rows).1 ≡ some r
      → (r.key.label == label) ≡ false
  unfolding revoke_key
  revoked_labels label token_hash now [] r h = cc
  revoked_labels label token_hash now (x ∷ rows) r h = elim (Bool-cases (is_revocable label x)) [
    | inl gone ↦
        revoked_labels label token_hash now rows r
          (rw (gone, revoked_not_live label token_hash now x) at h)
    | inr kept ↦ elim (Bool-cases (is_live token_hash x)) [
      | inl live ↦
          rw (← some_injective (rw (kept, live) at h))
            (live_unrevocable label token_hash x kept live)
      | inr dead ↦ revoked_labels label token_hash now rows r (rw (kept, dead) at h)
    ]
  ]

  -- After a label has been revoked, no hash resolves to a key with that label.
  pub revoke_key-resolve :
      (label token_hash : String) (now : ℕ) (rows : List (KeyRow W)) (k : VirtualKey W)
      → resolve token_hash (revoke_key label now rows).1 ≡ some k
      → (k.label == label) ≡ false
  unfolding resolve
  revoke_key-resolve label token_hash now rows k h =
      let (r, found, same) = some_of_map (λ r. r.key) _ h in
      rw (← same) (revoked_labels label token_hash now rows r found)
