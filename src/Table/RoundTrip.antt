-- ===== src/Table/RoundTrip.antt =====
-- `parseDelimited` of apps/next/src/features/canvas/lib/fileParsing.ts on a printed table.
use modular_agentic_system.Base.{
  ℕ, suc, zero, ◌+◌, ◌-◌, ◌≡◌, ◌≢◌, refl, ap, ◌∙◌, Bool, true, false, List, [], ◌∷◌, ◌++◌,
  append_assoc, append-nil, Option, none, some, Text, map, take, length, length-append, ltb, leb,
  nat_eq, if◌then◌else◌, arith, Bool-cases, inl, inr,
}
use modular_agentic_system.Table.{
  Scanner, quote, line_feed, carriage_return, is_unit, is_blank, push_row, step, scan, finish,
  strip_bom, parse_delimited,
}
use modular_agentic_system.Table.Cells.{
  Cell, plain, quoted, Ending, lf, crlf, Line, escape, print_cell, print_ending, print_cells,
  print_lines, text_of, texts, contents, IsPlain, IsCell, AreCells, AreLines,
}

abbrev head : Text → Option ℕ
head [] = none
head (c ∷ _) = some c

abbrev at : List (List Text) → List Text → Text → Bool → ℕ → Scanner
at rows row field in_quotes total = record {
  rows = rows;
  row = row;
  field = field;
  in_quotes = in_quotes;
  total_rows = total;
}

-- A whole row is kept, or counted, or is blank.
abbrev pushed : ℕ → List (List Text) → ℕ → List Text → Scanner
pushed m rows total row =
    if is_blank row
    then at rows [] [] false total
    else at (if leb (length rows) m then rows ++ row ∷ [] else rows) [] [] false (total + 1)

unit_eq : (c : ℕ) → nat_eq c quote ≡ true → quote ≡ c
unit_eq c h = ground arith

ending_no_quote : (e : Ending) (rest : Text) → is_unit quote (head (print_ending e rest)) ≡ false
ending_no_quote lf rest = refl
ending_no_quote crlf rest = refl

module _ (d m : ℕ) where
  scan_next :
      (s s' : Scanner) (c : ℕ) (rest : Text)
      → step d m s c (head rest) ≡ (s', false)
      → scan d m s (c ∷ rest) ≡ scan d m s' rest
  unfolding scan
  scan_next s s' c [] h = ap (λ r. r.0) h
  scan_next s s' c (a ∷ rest) h = rw h refl

  scan_skip :
      (s s' : Scanner) (c a : ℕ) (rest : Text)
      → step d m s c (some a) ≡ (s', true)
      → scan d m s (c ∷ a ∷ rest) ≡ scan d m s' rest
  unfolding scan
  scan_skip s s' c a rest h = rw h refl

  module _ (rows : List (List Text)) (total : ℕ) where
    scan-escape :
        (row : List Text) (f t rest : Text)
        → scan d m (at rows row f true total) (escape t ++ rest)
          ≡ scan d m (at rows row (f ++ t) true total) rest
    unfolding escape
    scan-escape row f [] rest = rw append-nil
    scan-escape row f (c ∷ t) rest = elim (Bool-cases (nat_eq c quote)) [
      | inl q ↦ rw q (
          scan_skip (at rows row f true total) (at rows row (f ++ quote ∷ []) true total) quote
            quote (escape t ++ rest) (unfold step in refl)
          ∙ scan-escape row (f ++ quote ∷ []) t rest
          ∙ ap (λ g. scan d m (at rows row g true total) rest)
              (append_assoc f (quote ∷ []) t ∙ ap (λ u. f ++ u ∷ t) (unit_eq c q)))
      | inr q ↦ rw q (
          scan_next (at rows row f true total) (at rows row (f ++ c ∷ []) true total) c
            (escape t ++ rest) (unfold step in rw q refl)
          ∙ scan-escape row (f ++ c ∷ []) t rest
          ∙ ap (λ g. scan d m (at rows row g true total) rest) (append_assoc f (c ∷ []) t))
    ]

    scan-quoted :
        (row : List Text) (t rest : Text)
        → is_unit quote (head rest) ≡ false
        → scan d m (at rows row [] false total) (quote ∷ (escape t ++ (quote ∷ rest)))
          ≡ scan d m (at rows row t false total) rest
    scan-quoted row t rest h =
        scan_next (at rows row [] false total) (at rows row [] true total) quote
          (escape t ++ (quote ∷ rest)) (unfold step in refl)
        ∙ scan-escape row [] t (quote ∷ rest)
        ∙ scan_next (at rows row t true total) (at rows row t false total) quote rest
            (unfold step in rw h refl)

    scan-plain :
        (row : List Text) (f t rest : Text)
        → IsPlain d t
        → scan d m (at rows row f false total) (t ++ rest)
          ≡ scan d m (at rows row (f ++ t) false total) rest
    scan-plain row f [] rest h = rw append-nil
    scan-plain row f (c ∷ t) rest (q, v, l, r, h) =
        scan_next (at rows row f false total) (at rows row (f ++ c ∷ []) false total) c (t ++ rest)
          (unfold step in ground arith)
        ∙ scan-plain row (f ++ c ∷ []) t rest h
        ∙ ap (λ g. scan d m (at rows row g false total) rest) (append_assoc f (c ∷ []) t)

    scan-cell :
        (row : List Text) (c : Cell) (rest : Text)
        → IsCell d c
        → is_unit quote (head rest) ≡ false
        → scan d m (at rows row [] false total) (print_cell c rest)
          ≡ scan d m (at rows row (text_of c) false total) rest
    scan-cell row (plain t) rest h _ = scan-plain row [] t rest h
    scan-cell row (quoted t) rest _ h = scan-quoted row t rest h

    module _ (dq : d ≢ quote) (dl : d ≢ line_feed) (dr : d ≢ carriage_return) where
      scan-ending :
          (row : List Text) (f : Text) (e : Ending) (rest : Text)
          → scan d m (at rows row f false total) (print_ending e rest)
            ≡ scan d m (pushed m rows total (row ++ f ∷ [])) rest
      scan-ending row f lf rest =
          scan_next (at rows row f false total) (pushed m rows total (row ++ f ∷ [])) line_feed rest
            (unfold step push_row in ground arith)
      scan-ending row f crlf rest =
          scan_skip (at rows row f false total) (pushed m rows total (row ++ f ∷ []))
            carriage_return line_feed rest (unfold step push_row in ground arith)

      scan-cells :
          (row : List Text) (c : Cell) (cs : List Cell) (e : Ending) (rest : Text)
          → IsCell d c
          → AreCells d cs
          → scan d m (at rows row [] false total) (print_cells d c cs e rest)
            ≡ scan d m (pushed m rows total (row ++ text_of c ∷ map text_of cs)) rest
      unfolding print_cells
      scan-cells row c [] e rest h _ =
          scan-cell row c (print_ending e rest) h (ending_no_quote e rest)
          ∙ scan-ending row (text_of c) e rest
      scan-cells row c (c' ∷ cs) e rest h (h', hs) =
          scan-cell row c (d ∷ print_cells d c' cs e rest) h (ground arith)
          ∙ scan_next (at rows row (text_of c) false total)
              (at rows (row ++ text_of c ∷ []) [] false total) d (print_cells d c' cs e rest)
              (unfold step in ground arith)
          ∙ scan-cells (row ++ text_of c ∷ []) c' cs e rest h' hs
          ∙ ap (λ r. scan d m (pushed m rows total r) rest)
              (append_assoc row (text_of c ∷ []) (text_of c' ∷ map text_of cs))

-- The rows that a table with `rows` rows takes in.
abbrev room : ℕ → List (List Text) → List (List Text) → List (List Text)
room m rows more = rows ++ take (suc m - length rows) more

room_left :
    (m : ℕ) (rows : List (List Text)) (row : List Text) (more : List (List Text))
    → leb (length rows) m ≡ true
    → room m (rows ++ row ∷ []) more ≡ room m rows (row ∷ more)
room_left m rows row more h =
    let k = suc m - length (rows ++ row ∷ []) in
    let e : suc m - length rows ≡ suc k = ground (arith, length-append rows (row ∷ [])) in
    rw e (append_assoc rows (row ∷ []) (take k more))

room_full :
    (m : ℕ) (rows : List (List Text)) (row : List Text) (more : List (List Text))
    → leb (length rows) m ≡ false
    → room m rows more ≡ room m rows (row ∷ more)
room_full m rows row more h = let e : suc m - length rows ≡ 0 = ground arith in rw e refl

take-nil : (n : ℕ) → take {A = List Text} n [] ≡ []
take-nil zero = refl
take-nil (suc n) = refl

nothing_more : (m : ℕ) (rows : List (List Text)) → rows ≡ room m rows []
nothing_more m rows = rw (take-nil, append-nil) refl

at_eq :
    {rows rows' : List (List Text)} {total total' : ℕ}
    → rows ≡ rows'
    → total ≡ total'
    → at rows [] [] false total ≡ at rows' [] [] false total'
at_eq p q = rw (p, q) refl

module _ (d m : ℕ) (dq : d ≢ quote) (dl : d ≢ line_feed) (dr : d ≢ carriage_return) where
  scan-lines :
      (ls : List Line) (rows : List (List Text)) (total : ℕ)
      → AreLines d ls
      → scan d m (at rows [] [] false total) (print_lines d ls)
        ≡ at (room m rows (contents ls)) [] [] false (total + length (contents ls))
  unfolding print_lines
  scan-lines [] rows total _ = unfold scan in at_eq (nothing_more m rows) (omega arith)
  scan-lines (l ∷ ls) rows total (h, hs, hls) =
      scan-cells d m rows total dq dl dr [] l.first l.others l.ends (print_lines d ls) h hs
      ∙ elim (Bool-cases (is_blank (texts l))) [
        | inl b ↦ rw b (scan-lines ls rows total hls)
        | inr b ↦ elim (Bool-cases (leb (length rows) m)) [
          | inl r ↦
              rw (b, r)
                (scan-lines ls (rows ++ texts l ∷ []) (total + 1) hls
                  ∙ at_eq (room_left m rows (texts l) (contents ls) r) (omega arith))
          | inr r ↦
              rw (b, r)
                (scan-lines ls rows (total + 1) hls
                  ∙ at_eq (room_full m rows (texts l) (contents ls) r) (omega arith))
        ]
      ]

-- A text that, less its byte order mark, is a printed table is read back: the rows are those of the
-- table in order, but for lines that hold one empty cell, up to a header and `max_rows` rows more, and
-- all of them are counted. Cells may be quoted and hold anything, or be plain; lines end in LF or CRLF;
-- the delimiter is no quote and no line end.
pub parse_delimited-print_lines :
    (text : Text) (ls : List Line) (delimiter max_rows : ℕ)
    → delimiter ≢ quote
    → delimiter ≢ line_feed
    → delimiter ≢ carriage_return
    → AreLines delimiter ls
    → strip_bom text ≡ print_lines delimiter ls
    → parse_delimited text delimiter max_rows ≡ record {
      rows = take (suc max_rows) (contents ls);
      truncated = ltb (length (take (suc max_rows) (contents ls))) (length (contents ls));
      total_rows = length (contents ls);
    }
unfolding parse_delimited
parse_delimited-print_lines text ls d m dq dl dr h e =
    rw (e, scan-lines d m dq dl dr ls [] 0 h)
      (unfold finish in
        let a : suc m - 0 ≡ suc m = omega arith in
        let b : 0 + length (contents ls) ≡ length (contents ls) = omega arith in rw (a, b) refl)
