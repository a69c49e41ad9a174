-- ===== src/Wal/File/Lines.antt =====
-- Lines that are written to a file are read back.
use mathlib.Core.List.{append_assoc, append-nil}
use burnlens.Prelude.{
  ◌≡◌, refl, sym, ap, ◌∙◌, String, Bool, Option, none, some, List, [], ◌∷◌, ◌++◌, Bool-cases, inl,
  inr,
}
use burnlens.Prelude.Lists.{filter}
use burnlens.Wal.File.{
  LogFile, Piece, whole, torn, last_piece, pieces_of, read_lines, joined, write, write_all,
}
use burnlens.Wal.File.Append.{pieces-append}

-- Only the last line lacks its newline.
abbrev pub IsLines : List Piece → Type 0
IsLines [] = Unit
IsLines (whole s ∷ rest) = IsLines rest
IsLines (torn s ∷ rest) = rest ≡ []

pieces_of-IsLines : (lines : List String) (tail : Option String) → IsLines (pieces_of lines tail)
unfolding pieces_of last_piece
pieces_of-IsLines [] none = tt
pieces_of-IsLines [] (some s) = refl
pieces_of-IsLines (line ∷ lines) tail = pieces_of-IsLines lines tail

pub filter-IsLines : (p : Piece → Bool) (ps : List Piece) → IsLines ps → IsLines (filter p ps)
filter-IsLines p [] h = tt
filter-IsLines p (whole s ∷ ps) h = elim (Bool-cases (p (whole s))) [
  | inl e ↦ rw e (filter-IsLines p ps h)
  | inr e ↦ rw e (filter-IsLines p ps h)
]
filter-IsLines p (torn s ∷ ps) h = elim (Bool-cases (p (torn s))) [
  | inl e ↦ rw (e, h) refl
  | inr e ↦ rw (e, h) tt
]

pub pieces-torn :
    (lines : List String) (s : String)
    → pieces_of lines (some s) ≡ pieces_of lines none ++ torn s ∷ []
unfolding pieces_of last_piece
pieces-torn [] s = refl
pieces-torn (line ∷ lines) s = ap (λ rest. whole line ∷ rest) (pieces-torn lines s)

-- Lines that are written into a file that ends with a newline are read back after it.
write_all-lines :
    (ps : List Piece) (lines : List String)
    → IsLines ps
    → read_lines (write_all ps (record { lines = lines; tail = none })) ≡ pieces_of lines none ++ ps
unfolding read_lines write_all write joined
write_all-lines [] lines h = sym (append-nil (pieces_of lines none))
write_all-lines (whole s ∷ ps) lines h =
    write_all-lines ps (lines ++ s ∷ []) h
    ∙ ap (λ before. before ++ ps) (pieces-append lines s)
    ∙ append_assoc (pieces_of lines none) (whole s ∷ []) ps
write_all-lines (torn s ∷ ps) lines h = rw h (pieces-torn lines s)

pub read_lines-IsLines : (file : LogFile) → IsLines (read_lines file)
unfolding read_lines
read_lines-IsLines file = pieces_of-IsLines file.lines file.tail

pub read_lines-write_all :
    (ps : List Piece)
    → IsLines ps
    → read_lines (write_all ps (record { lines = []; tail = none })) ≡ ps
unfolding pieces_of last_piece
read_lines-write_all ps h = write_all-lines ps [] h
