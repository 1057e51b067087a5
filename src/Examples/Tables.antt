-- ===== src/Examples/Tables.antt =====
-- Runs of the theorems on apps/next/src/features/canvas/lib/fileParsing.ts.
use modular_agentic_system.Base.{
  contains, ◌≡◌, refl, List, [], ◌∷◌, Text, codes, min, length, ltb, arith, ends_with, ◌==◌, false,
}
use modular_agentic_system.Table.{
  parse_delimited, scan, step, push_row, finish, strip_bom, detect_delimiter, sniff,
}
use modular_agentic_system.Table.Cells.{
  plain, quoted, lf, crlf, Line, escape, print_cells, print_lines, AreLines,
}
use modular_agentic_system.Table.RoundTrip.{parse_delimited-print_lines}
use modular_agentic_system.Table.Rows.{parse_delimited_count}
use modular_agentic_system.Base.Map
use modular_agentic_system.Table.Language.{
  language, inherited, lang_by_ext, after_last, last_dot, language_of, language_for_path,
}

-- name,note / (an empty line) / "a,""b""",
abbrev sheet : List Line
sheet =
    record { first = plain (codes "name"); others = plain (codes "note") ∷ []; ends = crlf }
    ∷ record { first = plain []; others = []; ends = lf }
    ∷ record { first = quoted (codes "a,\"b\""); others = plain [] ∷ []; ends = lf }
    ∷ []

abbrev sheet_text : Text
sheet_text = 0xFEFF ∷ codes "name,note\r\n\n\"a,\"\"b\"\"\",\n"

sheet_cells : AreLines b',' sheet
sheet_cells = omega arith

sheet_printed : strip_bom sheet_text ≡ print_lines b',' sheet
unfolding strip_bom print_lines print_cells escape
sheet_printed = refl

parse_delimited-print_lines_example : parse_delimited sheet_text b',' 1 ≡ record {
  rows = (codes "name" ∷ codes "note" ∷ []) ∷ (codes "a,\"b\"" ∷ [] ∷ []) ∷ [];
  truncated = false;
  total_rows = 2;
}
parse_delimited-print_lines_example =
    parse_delimited-print_lines sheet_text sheet b',' 1 (omega arith) (omega arith) (omega arith)
      sheet_cells sheet_printed

parse_delimited_count_example :
    let p = parse_delimited (codes "a\nb\nc") b',' 1 in
    (length p.rows ≡ min p.total_rows 2) × (p.truncated ≡ ltb 2 p.total_rows)
parse_delimited_count_example = parse_delimited_count (codes "a\nb\nc") b',' 1

three_lines_two_rows : (parse_delimited (codes "a\nb\nc") b',' 1).total_rows ≡ 3
unfolding parse_delimited scan step push_row finish strip_bom
three_lines_two_rows = refl

sheet_delimiter : detect_delimiter sheet_text (codes "a.CSV") ≡ b','
unfolding detect_delimiter sniff strip_bom ends_with ◌==◌
sheet_delimiter = refl

-- Names of files, and their languages.
typed_file : language_for_path (codes "src/a.TS") ≡ language (codes "typescript")
unfolding language_for_path after_last last_dot language_of lang_by_ext Map.get contains ◌==◌
typed_file = refl

hidden_file : language_for_path (codes "x/.env") ≡ language (codes "text")
unfolding language_for_path after_last last_dot ◌==◌
hidden_file = refl

inherited_name : language_for_path (codes "a.constructor") ≡ inherited (codes "constructor")
unfolding language_for_path after_last last_dot language_of contains ◌==◌
inherited_name = refl
