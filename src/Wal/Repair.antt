-- ===== src/Wal/Repair.antt =====
-- `repair_wal` and `replay_dlq` of burnlens/storage/wal.py.
pub mod Laws
use burnlens.Prelude.{
  ℕ, String, Bool, true, false, not, ◌&&◌, Option, none, some, List, [], ◌∷◌, is_some,
  if◌then◌else◌, ◌+◌, ◌++◌,
}
use burnlens.Prelude.Lists.{filter, length}
use burnlens.Wal.File.{LogFile, Piece, text_of, empty_file, opened, read_lines, write_all}
use burnlens.Wal.Recovery.{insert_request}

unfoldable pub append_corrupt : List Piece → Option LogFile → Option LogFile
append_corrupt [] path = path
append_corrupt (p ∷ pieces) path = some (write_all (p ∷ pieces) (opened path))

module _ {J : Type 0} (is_blank : String → Bool) (loads : String → Option J) where
  unfoldable pub is_valid : Piece → Bool
  is_valid p = not (is_blank (text_of p)) && is_some (loads (text_of p))

  unfoldable pub is_corrupt : Piece → Bool
  is_corrupt p = not (is_blank (text_of p)) && not (is_some (loads (text_of p)))

  -- `repair_wal`: the two counts, the log and the dead letters
  unfoldable pub repair_wal :
      Option LogFile → Option LogFile → ℕ × ℕ × Option LogFile × Option LogFile
  repair_wal none dlq = (0, 0, none, dlq)
  repair_wal (some wal) dlq =
      let valid = filter is_valid (read_lines wal) in
      let corrupt = filter is_corrupt (read_lines wal) in
      (length valid, length corrupt, some (write_all valid empty_file), append_corrupt corrupt dlq)

  module _ {R : Type 0} (id_of : R → String) (fails : R → List String → Bool)
      (to_record : J → Option R) where
    converted : Option J → Option R
    converted none = none
    converted (some j) = to_record j

    inserted : Option R → List String → Option (List String)
    inserted none ids = none
    inserted (some r) ids = insert_request id_of fails r ids

    remain : List Piece → Option LogFile
    remain [] = none
    remain (p ∷ pieces) = some (write_all (p ∷ pieces) empty_file)

    counted : Piece → Option (List String) → List String → ℕ × List Piece × List String
    counted p none ids = (0, p ∷ [], ids)
    counted p (some ids') ids = (1, [], ids')

    -- the loop of `replay_dlq`: the count, the lines that remain and the table
    unfoldable pub replay_lines : List Piece → List String → ℕ × List Piece × List String
    unfolding converted inserted counted
    replay_lines [] ids = (0, [], ids)
    replay_lines (p ∷ pieces) ids =
        if is_blank (text_of p)
        then replay_lines pieces ids
        else let (n, kept, ids') = counted p (inserted (converted (loads (text_of p))) ids) ids in
          let (m, rest, ids'') = replay_lines pieces ids' in (n + m, kept ++ rest, ids'')

    -- `replay_dlq`: the two counts, the dead letters and the table
    unfoldable pub replay_dlq : Option LogFile → List String → ℕ × ℕ × Option LogFile × List String
    unfolding remain
    replay_dlq none ids = (0, 0, none, ids)
    replay_dlq (some dlq) ids =
        let (n, rest, ids') = replay_lines (read_lines dlq) ids in
        (n, length rest, remain rest, ids')
