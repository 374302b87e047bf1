-- ===== src/Viewer/Tail/Scans.antt =====
-- The loop of `advanceTail` (tail.ts), turn by turn, against what the rows of a file hold.
use tribe.Base.{
  ◌≡◌, refl, sym, ap, ◌∙◌, ℕ, ◌+◌, true, false, List, [], ◌∷◌, ltb, length, if◌then◌else◌, arith,
  Bool-cases, inl, inr,
}
use mathlib.Core.List.{◌++◌, append-nil, append_assoc}
use tribe.Viewer.Tail.{
  Bytes, newline, row_cap, OversizedNode, oversized_node, trim_return, Scan, push_text, end_row,
  end_rows,
}
use tribe.Viewer.Tail.Rows.{written}

pub length-append : {A : Type 0} (xs ys : List A) → length (xs ++ ys) ≡ length xs + length ys
length-append [] ys = omega arith
length-append (x ∷ xs) ys = ground (arith, length-append xs ys)

pub length-written :
    (row : Bytes) (rows : List Bytes)
    → length (written (row ∷ rows)) ≡ length row + 1 + length (written rows)
length-written row rows = length-append row (newline ∷ written rows) ∙ omega arith

-- A loop at `at`, right behind a newline.
abbrev pub reading : ℕ → ℕ → ℕ → List Bytes → List OversizedNode → Scan
reading at start skipped lines nodes = record {
  at = at;
  skipping = false;
  row_start = start;
  skipped_bytes = skipped;
  ack_offset = at;
  lines = lines;
  oversized = nodes;
}

pub reading_eq :
    {at at' start skipped : ℕ} {lines lines' : List Bytes} {nodes nodes' : List OversizedNode}
    → at ≡ at'
    → lines ≡ lines'
    → nodes ≡ nodes'
    → reading at start skipped lines nodes ≡ reading at' start skipped lines' nodes'
reading_eq p q r = cc (p, q, r)

-- The node of a row that is too long.
unfoldable pub nodes_at : ℕ → List Bytes → List OversizedNode
nodes_at at [] = []
nodes_at at (row ∷ rows) =
    let rest = nodes_at (at + length row + 1) rows in
    if ltb row_cap (length row) then oversized_node at (length row + 1) ∷ rest else rest

pub length-written_append :
    (rows more : List Bytes)
    → length (written (rows ++ more)) ≡ length (written rows) + length (written more)
length-written_append [] more = omega arith
length-written_append (row ∷ rows) more = ground (
  arith,
  length-written row rows,
  length-written row (rows ++ more),
  length-written_append rows more,
)

pub nodes_at-append :
    (at : ℕ) (rows more : List Bytes)
    → nodes_at at (rows ++ more) ≡ nodes_at at rows ++ nodes_at (at + length (written rows)) more
unfolding nodes_at
nodes_at-append at [] more = ap (λ n. nodes_at n more) (omega arith)
nodes_at-append at (row ∷ rows) more =
    let later =
      nodes_at-append (at + length row + 1) rows more
      ∙ ap (λ n. nodes_at (at + length row + 1) rows ++ nodes_at n more)
          (ground (arith, length-written row rows)) in
    elim (Bool-cases (ltb row_cap (length row))) [
      | inl e ↦ rw e (ap (λ ns. oversized_node at (length row + 1) ∷ ns) later)
      | inr e ↦ rw e later
    ]

pub nodes_at_long :
    (at : ℕ) (row : Bytes) (rows : List Bytes)
    → ltb row_cap (length row) ≡ true
    → nodes_at at (row ∷ rows)
      ≡ oversized_node at (length row + 1) ∷ nodes_at (at + length row + 1) rows
unfolding nodes_at
nodes_at_long at row rows e = rw e refl

push_text_lem : (lines : List Bytes) (t : Bytes) → push_text lines t ≡ lines ++ push_text [] t
unfolding push_text
push_text_lem lines [] = sym (append-nil lines)
push_text_lem lines (c ∷ cs) = refl

module _ (decode : Bytes → Bytes) where
  -- The texts of the rows that are not too long, less the empty ones.
  unfoldable pub lines_of : List Bytes → List Bytes
  lines_of [] = []
  lines_of (row ∷ rows) =
      let rest = lines_of rows in
      if ltb row_cap (length row) then rest else push_text [] (trim_return (decode row)) ++ rest

  pub lines_of-append :
      (rows more : List Bytes) → lines_of (rows ++ more) ≡ lines_of rows ++ lines_of more
  unfolding lines_of
  lines_of-append [] more = refl
  lines_of-append (row ∷ rows) more = elim (Bool-cases (ltb row_cap (length row))) [
    | inl e ↦ rw e (lines_of-append rows more)
    | inr e ↦
        rw e (rw (lines_of-append rows more) (sym (append_assoc _ (lines_of rows) (lines_of more))))
  ]

  pub lines_of_long :
      (row : Bytes) (rows : List Bytes)
      → ltb row_cap (length row) ≡ true
      → lines_of (row ∷ rows) ≡ lines_of rows
  unfolding lines_of
  lines_of_long row rows e = rw e refl

  pub end_rows-reading :
      (rows : List Bytes) (at start skipped : ℕ) (lines : List Bytes) (nodes : List OversizedNode)
      → end_rows decode (reading at start skipped lines nodes) rows
        ≡ reading
            (at + length (written rows))
            start
            skipped
            (lines ++ lines_of rows)
            (nodes ++ nodes_at at rows)
  unfolding end_rows end_row lines_of nodes_at
  end_rows-reading [] at start skipped lines nodes =
      reading_eq (omega arith) (sym (append-nil lines)) (sym (append-nil nodes))
  end_rows-reading (row ∷ rows) at start skipped lines nodes =
      elim (Bool-cases (ltb row_cap (length row))) [
        | inl e ↦ rw e (
            end_rows-reading rows (at + length row + 1) start skipped lines
              (nodes ++ oversized_node at (length row + 1) ∷ [])
            ∙ reading_eq moved refl (append_assoc nodes _ _))
        | inr e ↦ rw e (
            end_rows-reading rows (at + length row + 1) start skipped
              (push_text lines (trim_return (decode row))) nodes
            ∙ reading_eq moved
                (rw (push_text_lem lines (trim_return (decode row))) (append_assoc lines _ _)) refl)
      ]
    where
      moved : at + length row + 1 + length (written rows) ≡ at + length (written (row ∷ rows))
      moved = ground (arith, length-written row rows)
