-- ===== src/Viewer/Window/Retained.antt =====
-- What `findWindow` of viewer/core/window.ts answers, against the bytes of the file.
use tribe.Base.{
  ◌≡◌, refl, ℕ, min, ◌-◌, ◌≤◌, true, false, [], ltb, Bool-cases, inl, inr, arith, Text,
  if◌then◌else◌,
}
use tribe.Viewer.Tail.{row_cap}
use tribe.Viewer.Window.{FindWindowResult, past, find_window}
use tribe.Viewer.Window.Newlines.{
  slice, Reads, last_newline, StartsRow, find_newline_backward-last, last_newline-past,
}
use tribe.Viewer.Window.Tiled.{
  total, IsFree, IsTiled, end_read, read-IsTiled, read-from, IsLeast, trim-IsEnough,
  collect-IsEnough,
}

-- The window of a file of `eof` bytes.
pub record IsWindow (byte : ℕ → ℕ) (count : Text → ℕ) (eof limit : ℕ) (w : FindWindowResult)
    : Type 0 where
  pub tiled : IsTiled byte count w.from w.rows w.to
  pub starts : StartsRow byte w.from
  pub ends : StartsRow byte w.to
  pub within : w.to ≤ eof
  pub partial_free : IsFree byte count w.to eof
  pub carried :
      w.carry_seed ≡ slice byte (eof - min (eof - w.to) row_cap) (min (eof - w.to) row_cap)
  pub enough : w.truncated_before ≡ true → limit ≤ total byte count w.rows
  pub complete : w.truncated_before ≡ false → w.from ≡ 0
  pub least : IsLeast byte count limit w.rows

module _ (byte : ℕ → ℕ) (count : Text → ℕ) (read_back : ℕ → ℕ → Text)
    (reads : Reads byte read_back) where
  carried-slice :
      (eof to : ℕ)
      → to ≤ eof
      → (if ltb 0 (eof - to) then read_back eof (min (eof - to) row_cap) else [])
        ≡ slice byte (eof - min (eof - to) row_cap) (min (eof - to) row_cap)
  carried-slice eof to h = elim (Bool-cases (ltb 0 (eof - to))) [
    | inl e ↦ rw e (reads eof (min (eof - to) row_cap) (omega arith))
    | inr e ↦ let nothing : min (eof - to) row_cap ≡ 0 = ground (arith, e) in rw (e, nothing) refl
  ]

  -- The rows of the window are the file's, one after the other, from the start of a row up to one
  -- past the last newline, a row past the cap as its offset and size; the carry is the end of the partial row
  -- behind them, up to the cap. If rows stand before the window it has at least `limit` candidates,
  -- otherwise it begins the file, and without its first row it has fewer than `limit`. Bytes are
  -- read only as `read_back` gives them.
  pub find_window-IsWindow :
      (eof limit : ℕ) → IsWindow byte count eof limit (find_window read_back count eof limit)
  unfolding find_window
  find_window-IsWindow eof limit =
      let to = past (last_newline byte eof) in
      let (within, free, ends) = last_newline-past byte eof in
      let found = find_newline_backward-last byte read_back count reads eof in
      let (c, sum) =
        collect-IsEnough byte count read_back reads to limit to to
          (record { candidates = 0; entries = [] }) (omega arith) end_read refl ends in
      let (w, least) = trim-IsEnough byte count limit to _ c.at _ c.rows sum c.starts c.enough in
      let from = read-from byte count w.at _ to w.rows in
      rw (found, from)
        (record {
          tiled = read-IsTiled byte count w.at _ to w.rows;
          starts = w.starts;
          ends = ends;
          within = within;
          partial_free = free;
          carried = carried-slice eof to within;
          enough = λ h. elim w.enough [
            | inl many ↦ many
            | inr begins ↦ absurd (ground (arith, h, begins))
          ];
          complete = λ h. ground (arith, h);
          least = least;
        })
