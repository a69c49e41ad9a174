-- ===== src/Wal/File.antt =====
-- The file of `WriteAheadLog` in burnlens/storage/wal.py. A file is its lines and the text after the
-- last newline, which a crash in the middle of a write leaves. JSON and the conversion of one record
-- are parameters: `loads` is `none` where it raises `JSONDecodeError`, and `to_record` is `none` where
-- `_dict_to_record` raises another exception.
pub mod Append
pub mod Lines
pub mod Torn
use Prim.Native.String.{◌++◌ as ◌⧺◌}
use burnlens.Prelude.{String, Bool, Option, none, some, List, [], ◌∷◌, ◌++◌, if◌then◌else◌}

pub record LogFile : Type 0 where
  pub lines : List String
  pub tail : Option String

-- a line as `readlines` returns it: with or without its newline
pub data Piece : Type 0 where
  whole : String → Piece
  torn : String → Piece

abbrev pub text_of : Piece → String
text_of (whole s) = s
text_of (torn s) = s

abbrev pub empty_file : LogFile
empty_file = record { lines = []; tail = none }

last_piece : Option String → List Piece
last_piece none = []
last_piece (some s) = torn s ∷ []

unfoldable pub pieces_of : List String → Option String → List Piece
unfolding last_piece
pieces_of [] t = last_piece t
pieces_of (s ∷ lines) t = whole s ∷ pieces_of lines t

-- `_read_lines`
unfoldable pub read_lines : LogFile → List Piece
unfolding pieces_of
read_lines file = pieces_of file.lines file.tail

-- the text at the end of the file and a text written after it
joined : Option String → String → String
joined none s = s
joined (some t) s = t ⧺ s

-- `f.write(line)` at the end of a file
unfoldable pub write : Piece → LogFile → LogFile
unfolding joined
write (whole s) file = record { lines = file.lines ++ (joined file.tail s ∷ []); tail = none }
write (torn s) file = record file { tail = some (joined file.tail s) }

-- `for line in lines: f.write(line)`
unfoldable pub write_all : List Piece → LogFile → LogFile
write_all [] file = file
write_all (p ∷ pieces) file = write_all pieces (write p file)

-- the file of a path, which may not exist
abbrev pub opened : Option LogFile → LogFile
opened none = empty_file
opened (some file) = file

-- `append_event` of a record that has its event id
unfoldable pub append_event {ℓ} : {R : Type ℓ} → (R → String) → R → Option LogFile → LogFile
append_event dumps r path = write (whole (dumps r)) (opened path)

-- `truncate`
unfoldable pub truncate : Option LogFile → Option LogFile
truncate none = none
truncate (some file) = some empty_file

module _ {R J : Type 0} (is_blank : String → Bool) (loads : String → Option J)
    (to_record : J → Option R) where
  unfoldable pub parsed : Option J → List (Option R)
  parsed none = []
  parsed (some j) = to_record j ∷ []

  -- a line's contribution to `read_events`: nothing, a record, or an exception
  unfoldable pub entry_of : String → List (Option R)
  unfolding parsed
  entry_of line = if is_blank line then [] else parsed (loads line)

  -- What `read_events` meets, line by line; it ends at the first exception, `none`.
  unfoldable pub entries_of : List Piece → List (Option R)
  entries_of [] = []
  entries_of (p ∷ pieces) = entry_of (text_of p) ++ entries_of pieces

  unfoldable pub read_events : Option LogFile → List (Option R)
  read_events none = []
  read_events (some file) = entries_of (read_lines file)
