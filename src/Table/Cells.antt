-- ===== src/Table/Cells.antt =====
-- What a table looks like as text, told without apps/next/src/features/canvas/lib/fileParsing.ts: the
-- cells of RFC 4180, quoted or plain.
use modular_agentic_system.Base.{
  ℕ, not, List, [], ◌∷◌, ◌++◌, ◌≢◌, Text, map, filter, nat_eq, if◌then◌else◌,
}
use modular_agentic_system.Table.{quote, line_feed, carriage_return, is_blank}

pub data Cell : Type 0 where
  plain quoted : Text → Cell

pub data Ending : Type 0 where
  lf crlf : Ending

pub record Line : Type 0 where
  pub first : Cell
  pub others : List Cell
  pub ends : Ending

unfoldable pub escape : Text → Text
escape [] = []
escape (c ∷ t) = if nat_eq c quote then quote ∷ quote ∷ escape t else c ∷ escape t

abbrev pub print_cell : Cell → Text → Text
print_cell (plain t) rest = t ++ rest
print_cell (quoted t) rest = quote ∷ (escape t ++ (quote ∷ rest))

abbrev pub print_ending : Ending → Text → Text
print_ending lf rest = line_feed ∷ rest
print_ending crlf rest = carriage_return ∷ line_feed ∷ rest

-- The cells, with the delimiter between them, the line's end, and what follows.
unfoldable pub print_cells : ℕ → Cell → List Cell → Ending → Text → Text
print_cells d c [] e rest = print_cell c (print_ending e rest)
print_cells d c (c' ∷ cs) e rest = print_cell c (d ∷ print_cells d c' cs e rest)

unfoldable pub print_lines : ℕ → List Line → Text
unfolding print_cells
print_lines d [] = []
print_lines d (l ∷ ls) = print_cells d l.first l.others l.ends (print_lines d ls)

abbrev pub text_of : Cell → Text
text_of (plain t) = t
text_of (quoted t) = t

abbrev pub texts : Line → List Text
texts l = text_of l.first ∷ map text_of l.others

-- The lines that hold more than one empty cell.
abbrev pub contents : List Line → List (List Text)
contents ls = filter (λ row. not (is_blank row)) (map texts ls)

abbrev pub IsPlain : ℕ → Text → Type 0
IsPlain d [] = Unit
IsPlain d (c ∷ t) = (c ≢ quote) × (c ≢ d) × (c ≢ line_feed) × (c ≢ carriage_return) × IsPlain d t

abbrev pub IsCell : ℕ → Cell → Type 0
IsCell d (plain t) = IsPlain d t
IsCell d (quoted t) = Unit

abbrev pub AreCells : ℕ → List Cell → Type 0
AreCells d [] = Unit
AreCells d (c ∷ cs) = IsCell d c × AreCells d cs

abbrev pub AreLines : ℕ → List Line → Type 0
AreLines d [] = Unit
AreLines d (l ∷ ls) = IsCell d l.first × AreCells d l.others × AreLines d ls
