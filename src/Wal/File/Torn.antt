-- ===== src/Wal/File/Torn.antt =====
-- A line that a crash cuts short is read after what was in the log.
use mathlib.Core.List.{append-nil}
use burnlens.Prelude.{◌≡◌, sym, ap, ◌∙◌, String, Bool, Option, none, some, List, [], ◌∷◌, ◌++◌}
use burnlens.Wal.File.{
  LogFile, torn, opened, pieces_of, read_lines, joined, write, entry_of, entries_of, read_events,
}
use burnlens.Wal.File.Append.{IsWhole, entries-append, opened_lem}
use burnlens.Wal.File.Lines.{pieces-torn}

module _ {R J : Type 0} (is_blank : String → Bool) (loads : String → Option J)
    (to_record : J → Option R) where
  entries-torn :
      (lines : List String) (tail : Option String) (s : String)
      → tail ≡ none
      → entries_of is_blank loads to_record (pieces_of lines (some (joined tail s)))
        ≡ entries_of is_blank loads to_record (pieces_of lines tail)
          ++ entry_of is_blank loads to_record s
  unfolding joined entries_of
  entries-torn lines tail s h = rw h (
      rw (pieces-torn lines s) (
        entries-append is_blank loads to_record (pieces_of lines none) (torn s ∷ [])
        ∙ ap (λ rest. entries_of is_blank loads to_record (pieces_of lines none) ++ rest)
            (append-nil (entry_of is_blank loads to_record s))))

  pub write-read_events :
      (s : String) (path : Option LogFile)
      → IsWhole path
      → read_events is_blank loads to_record (some (write (torn s) (opened path)))
        ≡ read_events is_blank loads to_record path ++ entry_of is_blank loads to_record s
  unfolding write read_lines
  write-read_events s path h =
      let file = opened path in
      opened_lem is_blank loads to_record (some (write (torn s) file))
      ∙ entries-torn file.lines file.tail s h
      ∙ ap (λ entries. entries ++ entry_of is_blank loads to_record s)
          (sym (opened_lem is_blank loads to_record path))
