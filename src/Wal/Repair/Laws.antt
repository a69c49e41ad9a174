-- ===== src/Wal/Repair/Laws.antt =====
-- A repair of the log loses no event, and repairs what there is to repair.
use burnlens.Prelude.{
  ◌≡◌, refl, ap, String, Bool, false, Option, none, some, List, [], ◌∷◌, ◌++◌, Bool-cases, inl, inr,
  arith,
}
use burnlens.Prelude.Lists.{filter}
use burnlens.Wal.File.{
  LogFile, Piece, text_of, empty_file, read_lines, write_all, parsed, entry_of, entries_of,
  read_events,
}
use burnlens.Wal.File.Lines.{filter-IsLines, read_lines-IsLines, read_lines-write_all}
use burnlens.Wal.Repair.{append_corrupt, is_valid, is_corrupt, repair_wal}

filter_twice : {A : Type 0} (p : A → Bool) (xs : List A) → filter p (filter p xs) ≡ filter p xs
filter_twice p [] = refl
filter_twice p (x ∷ xs) = elim (Bool-cases (p x)) [
  | inl e ↦ rw (e, e) (ap (λ rest. x ∷ rest) (filter_twice p xs))
  | inr e ↦ rw e (filter_twice p xs)
]

module _ {R J : Type 0} (is_blank : String → Bool) (loads : String → Option J)
    (to_record : J → Option R) where
  invalid-entry :
      (p : Piece)
      → is_valid is_blank loads p ≡ false
      → entry_of is_blank loads to_record (text_of p) ≡ []
  unfolding entry_of is_valid parsed
  invalid-entry p h = ground arith

  entries-valid :
      (ps : List Piece)
      → entries_of is_blank loads to_record (filter (is_valid is_blank loads) ps)
        ≡ entries_of is_blank loads to_record ps
  unfolding entries_of
  entries-valid [] = refl
  entries-valid (p ∷ ps) = elim (Bool-cases (is_valid is_blank loads p)) [
    | inl e ↦
        rw e (ap (λ rest. entry_of is_blank loads to_record (text_of p) ++ rest) (entries-valid ps))
    | inr e ↦ rw e (rw (invalid-entry p e) (entries-valid ps))
  ]

  valid-corrupt :
      (ps : List Piece)
      → filter (is_corrupt is_blank loads) (filter (is_valid is_blank loads) ps) ≡ []
  unfolding is_corrupt is_valid
  valid-corrupt [] = refl
  valid-corrupt (p ∷ ps) = ground (arith, valid-corrupt ps)

  rewritten :
      (wal : LogFile)
      → read_lines (write_all (filter (is_valid is_blank loads) (read_lines wal)) empty_file)
        ≡ filter (is_valid is_blank loads) (read_lines wal)
  rewritten wal =
      read_lines-write_all (filter (is_valid is_blank loads) (read_lines wal))
        (filter-IsLines (is_valid is_blank loads) (read_lines wal) (read_lines-IsLines wal))

  -- A repair leaves what is read from the log as it was, and a second repair finds as many valid
  -- lines, no corrupt one, and leaves the dead letters as they are.
  pub repair_wal-read_events :
      (wal dlq : Option LogFile)
      → let (valid, corrupt, wal', dlq') = repair_wal is_blank loads wal dlq in
        (read_events is_blank loads to_record wal' ≡ read_events is_blank loads to_record wal)
        × (repair_wal is_blank loads wal' dlq' ≡ (valid, 0, wal', dlq'))
  unfolding repair_wal read_events append_corrupt
  repair_wal-read_events none dlq = (refl, refl)
  repair_wal-read_events (some wal) dlq =
      let ps = read_lines wal in
      rw (rewritten wal) (
        entries-valid ps,
        rw (filter_twice (is_valid is_blank loads) ps) (rw (valid-corrupt ps) refl),
      )
