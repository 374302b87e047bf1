-- ===== src/Viewer/Window.antt =====
-- `findWindow` of plugins/tribe/scripts/viewer/core/window.ts: the last rows of a transcript, read
-- backward.
pub mod Newlines
pub mod Tiled
pub mod Retained
use tribe.Base.{
  ℕ, zero, suc, min, ◌+◌, ◌-◌, Bool, true, false, ◌&&◌, Option, none, some, List, [], ◌∷◌, map, ltb,
  leb, ◌==◌, if◌then◌else◌, length, Text,
}
use tribe.Viewer.Tail.{row_cap, newline, OversizedNode}

abbrev pub index_from : Bool → Option ℕ → Option ℕ
index_from here (some i) = some (suc i)
index_from here none = if here then some 0 else none

-- `bytes.lastIndexOf(c)`, `none` for -1.
abbrev pub last_index_of : ℕ → Text → Option ℕ
last_index_of c [] = none
last_index_of c (x ∷ xs) = index_from (x == c) (last_index_of c xs)

-- `lo + idx`, and what the search further back finds for -1.
abbrev pub found_at : ℕ → Option ℕ → Option ℕ → Option ℕ
found_at lo (some i) further = some (lo + i)
found_at lo none further = further

abbrev pub scan_chunk : ℕ
scan_chunk = 262144

-- A retained row: its bytes, or, of a row past the cap, what its node is made of.
pub data Row : Type 0 where
  whole : Text → Row
  oversized : OversizedNode → Row

pub record Entry : Type 0 where
  pub at : ℕ
  pub row : Row
  pub count : ℕ

pub record FindWindowResult : Type 0 where
  pub rows : List Row
  pub from : ℕ
  pub to : ℕ
  pub truncated_before : Bool
  pub carry_seed : Text

-- One past the newline that was found, the start of the file without one.
abbrev pub past : Option ℕ → ℕ
past none = 0
past (some k) = suc k

-- Drops whole rows in front as long as `limit` candidates are left.
unfoldable pub trim : ℕ → ℕ → List Entry → List Entry
trim limit total [] = []
trim limit total (e ∷ entries) =
    let rest = trim limit (total - e.count) entries in
    if leb limit (total - e.count) then rest else e ∷ entries

-- The first entry's offset, `to` without one.
abbrev pub from_of : List Entry → ℕ → ℕ
from_of [] to = to
from_of (e ∷ entries) to = e.at

-- The sum of the counts and the entries, in the order of the file.
pub record Collected : Type 0 where
  pub candidates : ℕ
  pub entries : List Entry

-- `read_back end len` is the `len` bytes that end at `end`, and `count` is `countCandidatesForRowText`
-- of the decoded bytes of a row.
module _ (read_back : ℕ → ℕ → Text) (count : Text → ℕ) where
  -- The loop of `findNewlineBackward`, at `hi`.
  unfoldable pub scan_back : ℕ → ℕ → Option ℕ
  scan_back zero hi = none
  scan_back (suc fuel) hi =
      let lo = hi - scan_chunk in
      let further = scan_back fuel lo in
      if hi == 0 then none else found_at lo (last_index_of newline (read_back hi (hi - lo))) further

  -- Each step goes at least one byte back.
  unfoldable pub find_newline_backward : ℕ → Option ℕ
  find_newline_backward end = scan_back end end

  -- The row that ends at `end`, from its start.
  unfoldable pub entry_of : ℕ → ℕ → Entry
  entry_of start end =
      let row_length = end - start in
      let row_bytes = read_back end row_length in
      if ltb row_cap row_length
      then record {
        at = start;
        row = oversized (record { row_start = start; bytes = row_length + 1 });
        count = 1;
      }
      else record { at = start; row = whole row_bytes; count = count row_bytes }

  -- The loop of `findWindow`, at `anchor`; the entry found last stands in front.
  unfoldable pub collect : ℕ → ℕ → Collected → ℕ → Collected
  collect zero limit c anchor = c
  collect (suc fuel) limit c anchor =
      let end = anchor - 1 in
      let start = past (find_newline_backward end) in
      let e = entry_of start end in
      let all =
        collect fuel limit (record { candidates = c.candidates + e.count; entries = e ∷ c.entries })
          start in
      if ltb c.candidates limit && ltb 0 anchor then all else c

  unfoldable pub find_window : ℕ → ℕ → FindWindowResult
  find_window eof limit =
      let to = past (find_newline_backward eof) in
      let carry_len = eof - to in
      let c = collect to limit (record { candidates = 0; entries = [] }) to in
      let trimmed = trim limit c.candidates c.entries in
      let from = from_of trimmed to in
      record {
        rows = map (λ e. e.row) trimmed;
        from = from;
        to = to;
        truncated_before = ltb 0 from;
        carry_seed = if ltb 0 carry_len then read_back eof (min carry_len row_cap) else [];
      }
