-- ===== src/Viewer/Tail.antt =====
-- plugins/tribe/scripts/viewer/core/tail.ts: `advanceTail`, which follows a growing file over its raw
-- bytes. `TextDecoder.decode`, which the host supplies, is the parameter `decode`; a text is the list
-- of its code points.

pub mod Rows
pub mod Scans
pub mod Reads
pub mod Run
pub mod Boundary
use tribe.Base.{
  ◌≡◌, ℕ, ◌+◌, Bool, true, false, ◌&&◌, ◌||◌, Option, none, some, List, [], ◌∷◌, ltb, ◌==◌, length,
  if◌then◌else◌,
}
use Prim.Native.Nat.{◌-◌}
use mathlib.Core.Bool.{not}
use mathlib.Core.List.{◌++◌}

abbrev pub Bytes : Type 0
Bytes = List ℕ

-- `ROW_CAP`.
unfoldable pub row_cap : ℕ
row_cap = 8388608

-- `NEWLINE`.
abbrev pub newline : ℕ
newline = 10

abbrev pub carriage_return : ℕ
carriage_return = 13

pub record TailState : Type 0 where
  pub offset : ℕ
  pub carry : Bytes
  pub ack_offset : ℕ
  pub inode : ℕ
  pub skipping : Bool
  pub row_start : ℕ
  pub skipped_bytes : ℕ

abbrev pub initial_tail_state : TailState
initial_tail_state = record {
  offset = 0;
  carry = [];
  ack_offset = 0;
  inode = 0;
  skipping = false;
  row_start = 0;
  skipped_bytes = 0;
}

pub record FileObservation : Type 0 where
  pub size_bytes : ℕ
  pub inode : ℕ

-- `oversizedNode`: the two numbers that its fields are made of.
pub record OversizedNode : Type 0 where
  pub row_start : ℕ
  pub bytes : ℕ

abbrev pub oversized_node : ℕ → ℕ → OversizedNode
oversized_node start n = record { row_start = start; bytes = n }

pub data ResetReason : Type 0 where
  truncated rotated : ResetReason

pub record TailTick : Type 0 where
  pub state : TailState
  pub lines : List Bytes
  pub oversized : List OversizedNode
  pub reset : Bool
  pub reset_reason : Option ResetReason

-- The bytes in front of the first row, or of what no newline ends.
abbrev pub before : Bytes → List Bytes × Bytes → List Bytes × Bytes
before bs ([], rest) = ([], bs ++ rest)
before bs (row ∷ rows, rest) = ((bs ++ row) ∷ rows, rest)

-- The rows that a newline ends, and the bytes behind the last newline.
unfoldable pub split_rows : Bytes → List Bytes × Bytes
split_rows [] = ([], [])
split_rows (b ∷ bs) =
    let (rows, rest) = split_rows bs in
    if b == newline then ([] ∷ rows, rest) else before (b ∷ []) (rows, rest)

-- `.replace(/\r$/, '')`.
unfoldable pub trim_return : Bytes → Bytes
trim_return [] = []
trim_return (c ∷ []) = if c == carriage_return then [] else c ∷ []
trim_return (c ∷ d ∷ cs) = c ∷ trim_return (d ∷ cs)

-- The variables of the loop; `at` is `absBase + idx`.
pub record Scan : Type 0 where
  pub at : ℕ
  pub skipping : Bool
  pub row_start : ℕ
  pub skipped_bytes : ℕ
  pub ack_offset : ℕ
  pub lines : List Bytes
  pub oversized : List OversizedNode

-- `if (text.length > 0) lines.push(text)`.
unfoldable pub push_text : List Bytes → Bytes → List Bytes
push_text lines [] = lines
push_text lines (c ∷ cs) = lines ++ (c ∷ cs) ∷ []

abbrev pub past : Scan → Bytes → ℕ
past s row = s.at + length row + 1

module _ (decode : Bytes → Bytes) where
  -- One turn of the loop, at a row and the newline behind it.
  unfoldable pub end_row : Scan → Bytes → Scan
  end_row s row =
      if s.skipping
      then record s {
        at = past s row;
        skipping = false;
        skipped_bytes = 0;
        ack_offset = past s row;
        oversized =
            s.oversized ++ oversized_node s.row_start (s.skipped_bytes + (length row + 1)) ∷ [];
      }
      else if ltb row_cap (length row)
      then record s {
        at = past s row;
        ack_offset = past s row;
        oversized = s.oversized ++ oversized_node s.at (length row + 1) ∷ [];
      }
      else record s {
        at = past s row;
        ack_offset = past s row;
        lines = push_text s.lines (trim_return (decode row));
      }

  unfoldable pub end_rows : Scan → List Bytes → Scan
  end_rows s [] = s
  end_rows s (row ∷ rows) = end_rows (end_row s row) rows

-- The last turn of the loop, where no newline is left.
unfoldable pub end_scan : Scan → Bytes → Scan
end_scan s remaining =
    if s.skipping
    then record s { skipped_bytes = s.skipped_bytes + length remaining }
    else if ltb row_cap (length remaining)
    then record s { skipping = true; row_start = s.at; skipped_bytes = length remaining }
    else s

unfoldable pub is_truncated : TailState → FileObservation → Bool
is_truncated s obs = ltb obs.size_bytes s.offset

unfoldable pub is_rotated : TailState → FileObservation → Bool
is_rotated s obs = not (s.inode == 0) && not (obs.inode == s.inode)

unfoldable pub is_reset : TailState → FileObservation → Bool
is_reset s obs = is_truncated s obs || is_rotated s obs

-- `base`; a reset keeps no field of the state, and the inode is set from the observation.
unfoldable pub base_of : TailState → FileObservation → TailState
base_of s obs = if is_reset s obs then initial_tail_state else s

abbrev pub begin_scan : TailState → Scan
begin_scan base = record {
  at = base.offset - length base.carry;
  skipping = base.skipping;
  row_start = base.row_start;
  skipped_bytes = base.skipped_bytes;
  ack_offset = base.ack_offset;
  lines = [];
  oversized = [];
}

module _ (decode : Bytes → Bytes) where
  -- The loop over `combined`, and the bytes it leaves.
  unfoldable pub scan_bytes : TailState → Bytes → Scan × Bytes
  scan_bytes base chunk =
      let (rows, remaining) = split_rows (base.carry ++ chunk) in
      (end_scan (end_rows decode (begin_scan base) rows) remaining, remaining)

  unfoldable pub advance_tail : TailState → Bytes → FileObservation → TailTick
  advance_tail s chunk obs =
      let base = base_of s obs in
      let (scan, remaining) = scan_bytes base chunk in
      record {
        state = record {
          offset = base.offset + length chunk;
          carry = if scan.skipping then [] else remaining;
          ack_offset = scan.ack_offset;
          inode = obs.inode;
          skipping = scan.skipping;
          row_start = scan.row_start;
          skipped_bytes = scan.skipped_bytes;
        };
        lines = scan.lines;
        oversized = scan.oversized;
        reset = is_reset s obs;
        reset_reason =
            if is_truncated s obs
            then some truncated
            else if is_rotated s obs
            then some rotated
            else none;
      }
