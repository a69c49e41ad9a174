-- ===== src/Wal/File/Append.antt =====
-- An event that is appended to the log is read back last.
use mathlib.Core.List.{append_assoc, append-nil}
use burnlens.Prelude.{
  ◌≡◌, refl, sym, ap, ◌∙◌, String, Bool, Option, none, some, List, [], ◌∷◌, ◌++◌,
}
use burnlens.Wal.File.{
  LogFile, Piece, whole, text_of, opened, last_piece, pieces_of, read_lines, joined, write,
  append_event, entry_of, entries_of, read_events,
}

-- The file ends with a newline, or is empty or missing.
abbrev pub IsWhole : Option LogFile → Type 0
IsWhole path = (opened path).tail ≡ none

pub pieces-append :
    (lines : List String) (s : String)
    → pieces_of (lines ++ s ∷ []) none ≡ pieces_of lines none ++ whole s ∷ []
unfolding pieces_of last_piece
pieces-append [] s = refl
pieces-append (line ∷ lines) s = ap (λ rest. whole line ∷ rest) (pieces-append lines s)

module _ {R J : Type 0} (is_blank : String → Bool) (loads : String → Option J)
    (to_record : J → Option R) where
  pub entries-append :
      (pieces more : List Piece)
      → entries_of is_blank loads to_record (pieces ++ more)
        ≡ entries_of is_blank loads to_record pieces ++ entries_of is_blank loads to_record more
  unfolding entries_of
  entries-append [] more = refl
  entries-append (p ∷ pieces) more =
      ap (λ rest. entry_of is_blank loads to_record (text_of p) ++ rest)
        (entries-append pieces more)
      ∙ sym (append_assoc (entry_of is_blank loads to_record (text_of p)) _ _)

  pub opened_lem :
      (path : Option LogFile)
      → read_events is_blank loads to_record path
        ≡ entries_of is_blank loads to_record (read_lines (opened path))
  unfolding read_events read_lines pieces_of last_piece entries_of
  opened_lem none = refl
  opened_lem (some file) = refl

  entries-one :
      (s : String)
      → entries_of is_blank loads to_record (whole s ∷ []) ≡ entry_of is_blank loads to_record s
  unfolding entries_of
  entries-one s = append-nil (entry_of is_blank loads to_record s)

  entries-lines :
      (lines : List String) (tail : Option String) (s : String)
      → tail ≡ none
      → entries_of is_blank loads to_record (pieces_of (lines ++ joined tail s ∷ []) none)
        ≡ entries_of is_blank loads to_record (pieces_of lines tail)
          ++ entry_of is_blank loads to_record s
  unfolding joined
  entries-lines lines tail s h = rw h (
      rw (pieces-append lines s) (
        entries-append (pieces_of lines none) (whole s ∷ [])
        ∙ ap (λ rest. entries_of is_blank loads to_record (pieces_of lines none) ++ rest)
            (entries-one s)))

  -- Where a record is read back from its own line, it is read back after what was in the log, if the
  -- log ends with a newline; and then the log does so again.
  pub append_event-read_events :
      (dumps : R → String) (r : R) (path : Option LogFile)
      → IsWhole path
      → entry_of is_blank loads to_record (dumps r) ≡ some r ∷ []
      → (read_events is_blank loads to_record (some (append_event dumps r path))
          ≡ read_events is_blank loads to_record path ++ some r ∷ [])
        × IsWhole (some (append_event dumps r path))
  unfolding append_event write read_lines
  append_event-read_events dumps r path h own =
      let file = opened path in
      (
        opened_lem (some (append_event dumps r path))
            ∙ entries-lines file.lines file.tail (dumps r) h
            ∙ ap (λ entry. entries_of is_blank loads to_record (read_lines file) ++ entry) own
            ∙ ap (λ entries. entries ++ some r ∷ []) (sym (opened_lem path)),
        refl,
      )
