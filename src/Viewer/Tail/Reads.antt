-- ===== src/Viewer/Tail/Reads.antt =====
-- One read of `advanceTail` (tail.ts) against the file's bytes up to it: the state is a function of
-- them.
use tribe.Base.{
  ◌≡◌, refl, sym, ap, ◌∙◌, ℕ, ◌+◌, true, false, List, [], ◌∷◌, ltb, length, if◌then◌else◌, arith,
  Bool-cases, inl, inr,
}
use mathlib.Core.Bool.{false≢true}
use Prim.Native.Nat.{◌-◌}
use mathlib.Core.List.{◌++◌, append-nil}
use tribe.Viewer.Tail.{
  Bytes, row_cap, oversized_node, TailState, initial_tail_state, Scan, before, split_rows, end_row,
  end_rows, end_scan, past, begin_scan, scan_bytes,
}
use tribe.Viewer.Tail.Rows.{
  written, followed_by, split_rows-append, split_rows-append_row, split_rows-rest_IsRow,
  written-split_rows,
}
use tribe.Viewer.Tail.Scans.{
  length-append, length-written, reading, nodes_at, lines_of, lines_of-append, lines_of_long,
  nodes_at_long, reading_eq, nodes_at-append, length-written_append, end_rows-reading,
}

-- The state after `n` bytes with these rows and this rest.
pub record Holds (n : ℕ) (p : List Bytes × Bytes) (s : TailState) : Type 0 where
  pub all_read : s.offset ≡ n
  pub acked : s.ack_offset ≡ length (written p.0)
  pub capped : s.skipping ≡ ltb row_cap (length p.1)
  pub carried : s.carry ≡ (if s.skipping then [] else p.1)
  pub skipped : s.skipping ≡ true → (s.row_start ≡ s.ack_offset) × (s.skipped_bytes ≡ length p.1)

-- The state after the bytes `file`, whatever the reads were that they came in.
pub Follows : Bytes → TailState → Type 0
Follows file s = Holds (length file) (split_rows file) s

pub Holds-Follows :
    (file : Bytes) (s : TailState) → Holds (length file) (split_rows file) s → Follows file s
unfolding Follows
Holds-Follows file s h = h

pub Follows-Holds :
    (file : Bytes) (s : TailState) → Follows file s → Holds (length file) (split_rows file) s
unfolding Follows
Follows-Holds file s h = h

pub initial_tail_state-Follows : Follows [] initial_tail_state
unfolding Follows split_rows row_cap
initial_tail_state-Follows = record {
  all_read = refl;
  acked = refl;
  capped = refl;
  carried = refl;
  skipped = λ e. absurd (false≢true e);
}

-- The state that a read of `n` bytes leaves.
abbrev pub next_state : TailState → ℕ → Scan × Bytes → ℕ → TailState
next_state base n (scan, remaining) inode = record {
  offset = base.offset + n;
  carry = if scan.skipping then [] else remaining;
  ack_offset = scan.ack_offset;
  inode = inode;
  skipping = scan.skipping;
  row_start = scan.row_start;
  skipped_bytes = scan.skipped_bytes;
}

pub length-rest :
    (file : Bytes) → length file ≡ length (written (split_rows file).0) + length (split_rows file).1
length-rest file =
    ap length (sym (written-split_rows file))
    ∙ length-append (written (split_rows file).0) (split_rows file).1

module _ (decode : Bytes → Bytes) where
  -- A read of `m` bytes behind the rows `rows`: what it hands on is what the longer file holds more.
  pub record Grows (rows : List Bytes) (n : ℕ) (p : List Bytes × Bytes) (m : ℕ) (base : TailState)
      (out : Scan × Bytes) : Type 0 where
    pub holds : (inode : ℕ) → Holds n p (next_state base m out inode)
    pub lines_read : lines_of decode p.0 ≡ lines_of decode rows ++ out.0.lines
    pub nodes_read : nodes_at 0 p.0 ≡ nodes_at 0 rows ++ out.0.oversized

  -- A loop that begins behind a newline, on rows `more` and what they leave.
  reading-Grows :
      (rows more : List Bytes) (remaining : Bytes) (n m start skipped : ℕ) (base : TailState)
      → base.offset + m ≡ n
      → Grows rows n
          (rows ++ more, remaining)
          m
          base
          (
            end_scan
                (reading
                  (length (written (rows ++ more)))
                  start
                  skipped
                  (lines_of decode more)
                  (nodes_at (length (written rows)) more))
                remaining,
            remaining,
          )
  unfolding end_scan
  reading-Grows rows more remaining n m start skipped base o =
      elim (Bool-cases (ltb row_cap (length remaining))) [
        | inl long ↦ rw long record {
          holds = λ inode. record {
            all_read = o;
            acked = refl;
            capped = sym long;
            carried = refl;
            skipped = λ e. (refl, refl);
          };
          lines_read = lines_of-append decode rows more;
          nodes_read = nodes;
        }
        | inr short ↦ rw short record {
          holds = λ inode. record {
            all_read = o;
            acked = refl;
            capped = sym short;
            carried = refl;
            skipped = λ e. absurd (false≢true e);
          };
          lines_read = lines_of-append decode rows more;
          nodes_read = nodes;
        }
      ]
    where
      nodes : nodes_at 0 (rows ++ more) ≡ nodes_at 0 rows ++ nodes_at (length (written rows)) more
      nodes =
          nodes_at-append 0 rows more ∙ ap (λ k. nodes_at 0 rows ++ nodes_at k more) (omega arith)

  abbrev looped : TailState → List Bytes × Bytes → Scan × Bytes
  looped base (more, remaining) =
      (end_scan (end_rows decode (begin_scan base) more) remaining, remaining)

  -- The rest of the file is the carry.
  carried-Grows :
      (rows : List Bytes) (rest : Bytes) (n m : ℕ) (base : TailState) (q : List Bytes × Bytes)
      → Holds n (rows, rest) base
      → base.skipping ≡ false
      → n ≡ length (written rows) + length rest
      → Grows rows (n + m) (followed_by rows q) m base (looped base q)
  carried-Grows rows rest n m base (more, remaining) h e l =
      let carry_length : length base.carry ≡ length rest = ap length h.carried ∙ rw e refl in
      let at_newline : base.offset - length base.carry ≡ length (written rows) =
        rw (carry_length, h.all_read, l) (omega arith) in
      let begun : begin_scan base
          ≡ reading (length (written rows)) base.row_start base.skipped_bytes [] [] =
        cc (at_newline, e, h.acked) in
      rw begun (
        rw
          (end_rows-reading decode more (length (written rows)) base.row_start base.skipped_bytes []
            [])
          (rw (← length-written_append rows more) (
            reading-Grows rows more remaining (n + m) m base.row_start base.skipped_bytes base
              (ap (λ k. k + m) h.all_read))))

  dropped_row :
      (base : TailState) (row : Bytes)
      → base.skipping ≡ true
      → end_row decode (begin_scan base) row
        ≡ reading
            (past (begin_scan base) row)
            base.row_start
            0
            []
            (oversized_node base.row_start (base.skipped_bytes + (length row + 1)) ∷ [])
  unfolding end_row
  dropped_row base row e = rw e refl

  end_rows_cons :
      (s : Scan) (row : Bytes) (rows : List Bytes)
      → end_rows decode s (row ∷ rows) ≡ end_rows decode (end_row decode s row) rows
  unfolding end_rows
  end_rows_cons s row rows = refl

  still_dropped :
      (base : TailState) (remaining : Bytes)
      → base.skipping ≡ true
      → end_scan (end_rows decode (begin_scan base) []) remaining
        ≡ record (begin_scan base) { skipped_bytes = base.skipped_bytes + length remaining }
  unfolding end_rows end_scan
  still_dropped base remaining e = rw e refl

  -- The rest of the file is a row that is being dropped.
  dropped-Grows :
      (rows : List Bytes) (rest : Bytes) (n m : ℕ) (base : TailState) (q : List Bytes × Bytes)
      → Holds n (rows, rest) base
      → base.skipping ≡ true
      → n ≡ length (written rows) + length rest
      → Grows rows (n + m) (followed_by rows (before rest q)) m base (looped base q)
  dropped-Grows rows rest n m base ([], remaining) h e l =
      let long : ltb row_cap (length (rest ++ remaining)) ≡ true =
        ground (arith, h.capped, e, length-append rest remaining) in
      let (started, counted) = h.skipped e in
      rw (still_dropped base remaining e, append-nil rows)
        record {
          holds = λ inode. record {
            all_read = ap (λ k. k + m) h.all_read;
            acked = h.acked;
            capped = e ∙ sym long;
            carried = rw e refl;
            skipped = λ d. (started, rw (counted, length-append rest remaining) refl);
          };
          lines_read = sym (append-nil (lines_of decode rows));
          nodes_read = sym (append-nil (nodes_at 0 rows));
        }
  dropped-Grows rows rest n m base (row ∷ more, remaining) h e l =
      let long : ltb row_cap (length (rest ++ row)) ≡ true =
        ground (arith, h.capped, e, length-append rest row) in
      let no_carry : length base.carry ≡ 0 = ap length h.carried ∙ rw e refl in
      let (started, counted) = h.skipped e in
      let passed : past (begin_scan base) row ≡ length (written rows) + length (rest ++ row) + 1 =
        rw (no_carry, h.all_read, l, length-append rest row) (omega arith) in
      let node : oversized_node base.row_start (base.skipped_bytes + (length row + 1))
          ≡ oversized_node (length (written rows)) (length (rest ++ row) + 1) =
        let start_eq : base.row_start ≡ length (written rows) = started ∙ h.acked in
        let count_eq : base.skipped_bytes + (length row + 1) ≡ length (rest ++ row) + 1 =
          rw (counted, length-append rest row) (omega arith) in
        cc (start_eq, count_eq) in
      let out : end_rows decode (begin_scan base) (row ∷ more)
          ≡ reading (length (written (rows ++ (rest ++ row) ∷ more))) base.row_start 0
              (lines_of decode ((rest ++ row) ∷ more))
              (nodes_at (length (written rows)) ((rest ++ row) ∷ more)) =
        end_rows_cons (begin_scan base) row more
        ∙ rw (dropped_row base row e) (
            end_rows-reading decode more _ _ _ _ _
            ∙ reading_eq
                (ap (λ k. k + length (written more)) passed
                  ∙ ground (
                    arith,
                    length-written_append rows ((rest ++ row) ∷ more),
                    length-written (rest ++ row) more,
                  ))
                (sym (lines_of_long decode (rest ++ row) more long))
                (cc (node, passed)
                  ∙ sym (nodes_at_long (length (written rows)) (rest ++ row) more long))) in
      rw out (
        reading-Grows rows ((rest ++ row) ∷ more) remaining (n + m) m base.row_start 0 base
          (ap (λ k. k + m) h.all_read))

  scan_bytes_lem :
      (base : TailState) (chunk combined : Bytes)
      → base.carry ++ chunk ≡ combined
      → scan_bytes decode base chunk ≡ looped base (split_rows combined)
  unfolding scan_bytes
  scan_bytes_lem base chunk combined e = ap (λ bs. looped base (split_rows bs)) e

  pub scan_bytes-Grows :
      (file chunk : Bytes) (base : TailState)
      → Follows file base
      → Grows
          (split_rows file).0
          (length (file ++ chunk))
          (split_rows (file ++ chunk))
          (length chunk)
          base
          (scan_bytes decode base chunk)
  unfolding Follows
  scan_bytes-Grows file chunk base h =
      rw (length-append file chunk, split_rows-append file chunk)
        (elim (Bool-cases base.skipping) [
          | inl e ↦
              let no_carry : base.carry ≡ [] = h.carried ∙ rw e refl in
              rw
                (
                  scan_bytes_lem base chunk chunk (ap (λ c. c ++ chunk) no_carry),
                  split_rows-append_row (split_rows file).1 chunk (split_rows-rest_IsRow file),
                )
                (dropped-Grows (split_rows file).0 (split_rows file).1 (length file) (length chunk)
                  base (split_rows chunk) h e (length-rest file))
          | inr e ↦
              let carry : base.carry ≡ (split_rows file).1 = h.carried ∙ rw e refl in
              rw (scan_bytes_lem base chunk _ (ap (λ c. c ++ chunk) carry)) (
                carried-Grows (split_rows file).0 (split_rows file).1 (length file) (length chunk)
                  base (split_rows ((split_rows file).1 ++ chunk)) h e (length-rest file))
        ])
