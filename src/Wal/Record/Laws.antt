-- ===== src/Wal/Record/Laws.antt =====
-- A request is read back from the dictionary that it is written to.
use burnlens.Prelude.{
  ◌≡◌, refl, sym, ap, ◌∙◌, ◌⊎◌, inl, inr, ◌==◌, String, Bool, true, false, Option, some, List, [],
  ◌∷◌, map, arith, not, ◌&&◌, eq_iff, eq_refl,
}
use burnlens.Prelude.Dict.{Dict, lookup, insert}
use burnlens.Prelude.Lists.{filter, contains, All}
use burnlens.Wal.Record.{
  Value, text, datetime, FieldList, request_fields, assigned, post_init, to_value, record_to_dict,
  without_z, with_timestamp, dict_to_record,
}

abbrev pub names {ℓ} : {V : Type ℓ} → Dict V → List String
names d = map (λ e. e.0) d

-- whether the keys are pairwise distinct
distinct_keys : List String → Bool
distinct_keys [] = true
distinct_keys (k ∷ ks) = not (contains ks k) && distinct_keys ks

module _ {ℓ} {V : Type ℓ} where
  lookup-names :
      (d : Dict V) (k : String) (v : V) → lookup k d ≡ some v → contains (names d) k ≡ true
  lookup-names [] k v e = ground arith
  lookup-names ((j, w) ∷ d) k v e = ground (arith, lookup-names d k v)

  -- Each entry of the second dictionary is the one that the first has at its key.
  abbrev Found : Dict V → Dict V → Type ℓ
  Found d entries = All (λ e. lookup e.0 d ≡ some e.1) entries

  Found-skip :
      (j : String) (w : V) (d entries : Dict V)
      → contains (names entries) j ≡ false
      → Found d entries
      → Found ((j, w) ∷ d) entries
  Found-skip j w d [] fresh h = tt
  Found-skip j w d ((k, v) ∷ entries) fresh h =
      let e : (j == k) ≡ false = ground (arith, eq_iff j k, eq_iff k j) in
      let rest : contains (names entries) j ≡ false = ground (arith, eq_iff j k, eq_iff k j) in
      (rw e h.0, Found-skip j w d entries rest h.1)

  names-Found : (d : Dict V) → distinct_keys (names d) ≡ true → Found d d
  unfolding distinct_keys
  names-Found [] h = tt
  names-Found ((k, v) ∷ d) h =
      let fresh : contains (names d) k ≡ false = ground arith in
      let rest : distinct_keys (names d) ≡ true = ground arith in
      (rw (eq_refl k) refl, Found-skip k v d d fresh (names-Found d rest))

  filter-Found :
      (ks : List String) (d entries : Dict V)
      → names d ≡ ks
      → Found d entries
      → filter (λ e. contains ks e.0) entries ≡ entries
  filter-Found ks d [] e h = refl
  filter-Found ks d ((k, v) ∷ entries) e h =
      rw (sym e, lookup-names d k v h.0)
        (ap (λ rest. (k, v) ∷ rest) (filter-Found ks d entries e h.1))

request_fields-distinct_keys : distinct_keys (names request_fields) ≡ true
unfolding request_fields distinct_keys
request_fields-distinct_keys = refl

module _ {F T : Type 0} where
  -- `__init__` with an argument for each field
  assigned-Found :
      (zero_usd : F) (now : T) (fs : FieldList) (d r : Dict (Value F T))
      → names r ≡ names fs
      → Found d r
      → assigned zero_usd now fs d ≡ some r
  unfolding assigned
  assigned-Found zero_usd now [] d [] e h = refl
  assigned-Found zero_usd now [] d (x ∷ r) e h = cc
  assigned-Found zero_usd now (f ∷ fs) d [] e h = cc
  assigned-Found zero_usd now ((k, def) ∷ fs) d ((j, v) ∷ r) e h =
      let same_name : j ≡ k = cc in
      let same_names : names r ≡ names fs = cc in
      let found : lookup k d ≡ some v = ap (λ i. lookup i d) (sym same_name) ∙ h.0 in
      rw (found, assigned-Found zero_usd now fs d r same_names h.1, same_name) refl

module _ {F T : Type 0} (isoformat : T → String) (t : T) where
  -- The record's "timestamp" is the instant `t`, and no other field has an instant.
  abbrev pub IsStamped : Dict (Value F T) → Type 0
  IsStamped [] = ⊥
  IsStamped ((k, v) ∷ r) =
      ((k ≡ "timestamp") × (v ≡ datetime t) × (record_to_dict isoformat r ≡ r))
      ⊎ (((k == "timestamp") ≡ false) × (to_value isoformat v ≡ v) × IsStamped r)

  names-record_to_dict : (r : Dict (Value F T)) → names (record_to_dict isoformat r) ≡ names r
  unfolding record_to_dict
  names-record_to_dict [] = refl
  names-record_to_dict ((k, v) ∷ r) = ap (λ ks. k ∷ ks) (names-record_to_dict r)

  lookup-record_to_dict :
      (r : Dict (Value F T))
      → IsStamped r
      → lookup "timestamp" (record_to_dict isoformat r) ≡ some (text (isoformat t))
  unfolding record_to_dict
  lookup-record_to_dict [] h = absurd h
  lookup-record_to_dict ((k, v) ∷ r) (inl (e, u, same)) = rw (e, u) refl
  lookup-record_to_dict ((k, v) ∷ r) (inr (e, u, h)) = rw e (lookup-record_to_dict r h)

  insert-record_to_dict :
      (r : Dict (Value F T))
      → IsStamped r
      → insert "timestamp" (datetime t) (record_to_dict isoformat r) ≡ r
  unfolding record_to_dict
  insert-record_to_dict [] h = absurd h
  insert-record_to_dict ((k, v) ∷ r) (inl (e, u, same)) = rw (e, u, same) refl
  insert-record_to_dict ((k, v) ∷ r) (inr (e, u, h)) =
      rw (e, u) (ap (λ rest. (k, v) ∷ rest) (insert-record_to_dict r h))

module _ {F T : Type 0} (is_zero : F → Bool) (zero_usd : F) (fromisoformat : String → Option T)
    (isoformat : T → String) (now : T) where
  read_back :
      (fs : FieldList) (t : T) (r : Dict (Value F T))
      → distinct_keys (names fs) ≡ true
      → names r ≡ names fs
      → IsStamped isoformat t r
      → fromisoformat (without_z (isoformat t)) ≡ some t
      → dict_to_record is_zero zero_usd fromisoformat now fs (record_to_dict isoformat r)
        ≡ post_init is_zero r
  unfolding dict_to_record with_timestamp
  read_back fs t r distinct named stamped read =
      let d = record_to_dict isoformat r in
      let d_named : names d ≡ names fs = names-record_to_dict isoformat t r ∙ named in
      let d_found : Found d d = names-Found d (rw d_named distinct) in
      let found : Found r r = names-Found r (rw named distinct) in
      rw
        (
          filter-Found (names fs) d d d_named d_found,
          lookup-record_to_dict isoformat t r stamped,
          read,
          insert-record_to_dict isoformat t r stamped,
          assigned-Found zero_usd now fs r r named found,
        )
        refl

  -- The record that is read from the dictionary of a record is the record after `__post_init__`: for
  -- a record whose fields are the class's, in its order, of which the timestamp alone is an instant,
  -- if `fromisoformat` reads the text of that instant.
  pub record_to_dict-dict_to_record :
      (t : T) (r : Dict (Value F T))
      → names r ≡ names request_fields
      → IsStamped isoformat t r
      → fromisoformat (without_z (isoformat t)) ≡ some t
      → dict_to_record is_zero zero_usd fromisoformat now request_fields
          (record_to_dict isoformat r)
        ≡ post_init is_zero r
  record_to_dict-dict_to_record t r = read_back request_fields t r request_fields-distinct_keys
