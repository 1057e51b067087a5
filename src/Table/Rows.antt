-- ===== src/Table/Rows.antt =====
-- How many rows `parseDelimited` and `parseTable` of
-- apps/next/src/features/canvas/lib/fileParsing.ts give, and by which delimiter.
use modular_agentic_system.Base.{
  ℕ, suc, ◌≡◌, ◌≢◌, ◌⊎◌, List, [], ◌∷◌, ◌++◌, Option, none, some, Text, take, min, length,
  length-append, ltb, arith, if_elim,
}
use modular_agentic_system.Table.{
  Scanner, quote, line_feed, carriage_return, tab, push_row, step, scan, finish, strip_bom, fresh,
  detect_delimiter, parse_delimited, parse_table, max_table_rows,
}
use modular_agentic_system.Table.Cells.{Line, print_lines, contents, AreLines}
use modular_agentic_system.Table.RoundTrip.{parse_delimited-print_lines}

-- Rows are dropped only when the table is full.
abbrev IsCapped : ℕ → Scanner → Type 0
IsCapped m s = length s.rows ≡ min s.total_rows (suc m)

push_row-IsCapped : (m : ℕ) (s : Scanner) → IsCapped m s → IsCapped m (push_row m s)
unfolding push_row
push_row-IsCapped m s h = ground (arith, length-append s.rows ((s.row ++ s.field ∷ []) ∷ []))

step-IsCapped :
    (d m : ℕ) (s : Scanner) (c : ℕ) (after : Option ℕ)
    → IsCapped m s
    → IsCapped m (step d m s c after).0
unfolding step
step-IsCapped d m s c after h = ground (arith, push_row-IsCapped m s)

scan-IsCapped : (d m : ℕ) (text : Text) (s : Scanner) → IsCapped m s → IsCapped m (scan d m s text)
unfolding scan
scan-IsCapped d m [] s h = h
scan-IsCapped d m (c ∷ []) s h = step-IsCapped d m s c none h
scan-IsCapped d m (c ∷ after ∷ text) s h =
    let (s', skips) = step d m s c (some after) in
    let h' = step-IsCapped d m s c (some after) h in
    let past = scan-IsCapped d m text s' h' in
    let next = scan-IsCapped d m (after ∷ text) s' h' in
    if_elim (IsCapped m) skips _ _ (λ _. past) (λ _. next)

-- Of any text and for any delimiter: as many rows are kept as were counted, up to a header and
-- `max_rows` rows more, and the flag says exactly that more were counted than these.
pub parse_delimited_count :
    (text : Text) (delimiter max_rows : ℕ)
    → let p = parse_delimited text delimiter max_rows in
      (length p.rows ≡ min p.total_rows (suc max_rows))
      × (p.truncated ≡ ltb (suc max_rows) p.total_rows)
unfolding parse_delimited finish
parse_delimited_count text d m =
    let s = scan d m fresh (strip_bom text) in
    let h : IsCapped m s = scan-IsCapped d m (strip_bom text) fresh (omega arith) in
    ground (arith, push_row-IsCapped m s h)

abbrev IsDelimiter : ℕ → Type 0
IsDelimiter d = (d ≡ b',') ⊎ (d ≡ b';') ⊎ (d ≡ tab)

detect_delimiter-IsDelimiter : (text path : Text) → IsDelimiter (detect_delimiter text path)
unfolding detect_delimiter
detect_delimiter-IsDelimiter text path = ground arith

detect_delimiter-ne :
    (c : ℕ) → c ≢ b',' → c ≢ b';' → c ≢ tab → (text path : Text) → detect_delimiter text path ≢ c
detect_delimiter-ne c n o p text path = ground (arith, detect_delimiter-IsDelimiter text path)

-- A file that, less its byte order mark, is a table printed with the delimiter that the code itself
-- finds in it is read back: its lines, but for those of one empty cell, the first 501 of them, and the
-- number of them all.
pub parse_table-print_lines :
    (content path : Text) (ls : List Line)
    → AreLines (detect_delimiter content path) ls
    → strip_bom content ≡ print_lines (detect_delimiter content path) ls
    → (parse_table content path).table ≡ record {
      rows = take 501 (contents ls);
      truncated = ltb (length (take 501 (contents ls))) (length (contents ls));
      total_rows = length (contents ls);
    }
unfolding parse_table
parse_table-print_lines content path ls h e =
    parse_delimited-print_lines content ls (detect_delimiter content path) max_table_rows
      (detect_delimiter-ne quote (omega arith) (omega arith) (omega arith) content path)
      (detect_delimiter-ne line_feed (omega arith) (omega arith) (omega arith) content path)
      (detect_delimiter-ne carriage_return (omega arith) (omega arith) (omega arith) content path) h
      e
