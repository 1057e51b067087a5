-- ===== src/Table.antt =====
-- apps/next/src/features/canvas/lib/fileParsing.ts: tables of comma-separated values. A delimiter is
-- one code unit.
pub mod Cells
pub mod RoundTrip
pub mod Rows
pub mod Language
use modular_agentic_system.Base.{
  ℕ, suc, ◌+◌, Bool, true, false, not, ◌&&◌, ◌||◌, List, [], ◌∷◌, ◌++◌, Option, none, some, map,
  Text, codes, ltb, leb, nat_eq, length, take, if◌then◌else◌, ends_with, lower_unit, ◌==◌,
}

abbrev pub max_table_rows : ℕ
max_table_rows = 500

abbrev pub quote : ℕ
quote = b'"'

abbrev pub line_feed : ℕ
line_feed = 10

abbrev pub carriage_return : ℕ
carriage_return = 13

abbrev pub tab : ℕ
tab = 9

unfoldable pub is_tabular_path : Text → Bool
unfolding ends_with ◌==◌
is_tabular_path path =
    ends_with (codes ".csv") (map lower_unit path) || ends_with (codes ".tsv") (map lower_unit path)

unfoldable pub strip_bom : Text → Text
strip_bom [] = []
strip_bom (c ∷ text) = if nat_eq c 0xFEFF then text else c ∷ text

abbrev pub is_unit : ℕ → Option ℕ → Bool
is_unit c none = false
is_unit c (some n) = nat_eq n c

-- How often each delimiter stands on the first line, outside quotes.
pub record Counts : Type 0 where
  pub commas : ℕ
  pub semicolons : ℕ
  pub tabs : ℕ

abbrev pub count_unit : ℕ → Counts → Counts
count_unit ch n =
    if nat_eq ch b','
    then record n { commas = n.commas + 1 }
    else if nat_eq ch b';'
    then record n { semicolons = n.semicolons + 1 }
    else if nat_eq ch tab
    then record n { tabs = n.tabs + 1 }
    else n

-- The loop of `detectDelimiter`.
unfoldable pub sniff : Bool → Counts → Text → Counts
sniff in_quotes n [] = n
sniff in_quotes n (ch ∷ []) =
    if nat_eq ch quote || in_quotes || nat_eq ch line_feed then n else count_unit ch n
sniff in_quotes n (ch ∷ after ∷ text) =
    let past = sniff in_quotes n text in
    let flipped = sniff (not in_quotes) n (after ∷ text) in
    let quoted = sniff in_quotes n (after ∷ text) in
    let counted = sniff in_quotes (count_unit ch n) (after ∷ text) in
    if nat_eq ch quote
    then (if in_quotes && nat_eq after quote then past else flipped)
    else if in_quotes
    then quoted
    else if nat_eq ch line_feed
    then n
    else counted

-- The first of the delimiters with the largest count: the sort is stable.
abbrev pub ranked : Counts → ℕ
ranked n =
    if ltb n.commas n.semicolons
    then (if ltb n.semicolons n.tabs then tab else b';')
    else if ltb n.commas n.tabs
    then tab
    else b','

unfoldable pub detect_delimiter : Text → Text → ℕ
unfolding sniff strip_bom ends_with ◌==◌
detect_delimiter text path =
    if ends_with (codes ".tsv") (map lower_unit path)
    then tab
    else ranked
        (sniff false (record { commas = 0; semicolons = 0; tabs = 0 }) (take 4000 (strip_bom text)))

-- The variables of `parseDelimited`.
pub record Scanner : Type 0 where
  pub rows : List (List Text)
  pub row : List Text
  pub field : Text
  pub in_quotes : Bool
  pub total_rows : ℕ

abbrev pub is_blank : List Text → Bool
is_blank ([] ∷ []) = true
is_blank _ = false

unfoldable pub push_row : ℕ → Scanner → Scanner
push_row max_rows s =
    let row = s.row ++ s.field ∷ [] in
    if is_blank row then record s { row = []; field = [] } else record s {
      row = [];
      field = [];
      total_rows = s.total_rows + 1;
      rows = if leb (length s.rows) max_rows then s.rows ++ row ∷ [] else s.rows;
    }

-- One round of the loop at the unit `ch`, with the unit after it. The flag says that the unit after
-- is read too (`i++`).
unfoldable pub step : ℕ → ℕ → Scanner → ℕ → Option ℕ → Scanner × Bool
unfolding push_row
step delimiter max_rows s ch after =
    if s.in_quotes
    then (if nat_eq ch quote
        then (if is_unit quote after
            then (record s { field = s.field ++ quote ∷ [] }, true)
            else (record s { in_quotes = false }, false))
        else (record s { field = s.field ++ ch ∷ [] }, false))
    else if nat_eq ch quote
    then (record s { in_quotes = true }, false)
    else if nat_eq ch delimiter
    then (record s { row = s.row ++ s.field ∷ []; field = [] }, false)
    else if nat_eq ch line_feed || nat_eq ch carriage_return
    then (push_row max_rows s, nat_eq ch carriage_return && is_unit line_feed after)
    else (record s { field = s.field ++ ch ∷ [] }, false)

unfoldable pub scan : ℕ → ℕ → Scanner → Text → Scanner
unfolding step
scan delimiter max_rows s [] = s
scan delimiter max_rows s (ch ∷ []) = (step delimiter max_rows s ch none).0
scan delimiter max_rows s (ch ∷ after ∷ text) =
    let (s', skips) = step delimiter max_rows s ch (some after) in
    let past = scan delimiter max_rows s' text in
    let next = scan delimiter max_rows s' (after ∷ text) in if skips then past else next

abbrev pub is_pending : Scanner → Bool
is_pending s = ltb 0 (length s.field) || ltb 0 (length s.row)

pub record Parsed : Type 0 where
  pub rows : List (List Text)
  pub truncated : Bool
  pub total_rows : ℕ

abbrev pub fresh : Scanner
fresh = record { rows = []; row = []; field = []; in_quotes = false; total_rows = 0 }

abbrev pub parsed : Scanner → Parsed
parsed s = record {
  rows = s.rows;
  truncated = ltb (length s.rows) s.total_rows;
  total_rows = s.total_rows;
}

-- After the loop.
unfoldable pub finish : ℕ → Scanner → Parsed
unfolding push_row
finish max_rows s = if is_pending s then parsed (push_row max_rows s) else parsed s

unfoldable pub parse_delimited : Text → ℕ → ℕ → Parsed
unfolding scan finish strip_bom
parse_delimited text delimiter max_rows =
    finish max_rows (scan delimiter max_rows fresh (strip_bom text))

pub record ParsedTable : Type 0 where
  pub delimiter : ℕ
  pub table : Parsed

unfoldable pub parse_table : Text → Text → ParsedTable
unfolding detect_delimiter parse_delimited
parse_table content path =
    let delimiter = detect_delimiter content path in
    record { delimiter = delimiter; table = parse_delimited content delimiter max_table_rows }
