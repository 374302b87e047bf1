-- ===== src/Viewer/Window/Tiled.antt =====
-- The rows that `findWindow` of viewer/core/window.ts retains, against the bytes of the file.
use tribe.Base.{
  ◌≡◌, refl, ap, ◌∙◌, subst, ℕ, zero, suc, ◌+◌, ◌-◌, ◌<◌, ◌≤◌, true, false, ◌&&◌, List, [], ◌∷◌,
  map, ltb, leb, ◌==◌, if◌then◌else◌, Bool-cases, inl, inr, arith, ◌⊎◌, Text,
}
use tribe.Viewer.Tail.{row_cap, newline}
use tribe.Viewer.Window.{
  Row, whole, oversized, Entry, Collected, past, trim, entry_of, collect, from_of,
}
use tribe.Viewer.Window.Newlines.{
  slice, Reads, last_newline, StartsRow, find_newline_backward-last, last_newline-past,
}

drop-sum : (n first rest : ℕ) → n ≡ first + rest → n - first ≡ rest
drop-sum n first rest h = omega arith

still-enough : (limit n rest : ℕ) → n ≡ rest → leb limit n ≡ true → limit ≤ rest
still-enough limit n rest h e = ground (arith, h, e)

too-few : (limit n rest : ℕ) → n ≡ rest → leb limit n ≡ false → rest < limit
too-few limit n rest h e = ground (arith, h, e)

add-sum : (n first rest : ℕ) → n ≡ rest → n + first ≡ first + rest
add-sum n first rest h = omega arith

stopped :
    (candidates all limit anchor : ℕ)
    → candidates ≡ all
    → (ltb candidates limit && ltb 0 anchor) ≡ false
    → (limit ≤ all) ⊎ (anchor ≡ 0)
stopped candidates all limit anchor h e = elim (Bool-cases (ltb candidates limit)) [
  | inl few ↦ inr (ground (arith, few, e))
  | inr many ↦ inl (ground (arith, many, h))
]

module _ (byte : ℕ → ℕ) (count : Text → ℕ) where
  -- The row of the bytes from `start` to `end`.
  abbrev pub row_at : ℕ → ℕ → Row
  row_at start end =
      if ltb row_cap (end - start)
      then oversized (record { row_start = start; bytes = end - start + 1 })
      else whole (slice byte start (end - start))

  -- The candidates of a row.
  abbrev pub count_of : Row → ℕ
  count_of (whole text) = count text
  count_of (oversized node) = 1

  abbrev pub total : List Row → ℕ
  total [] = 0
  total (r ∷ rows) = count_of r + total rows

  -- No byte from the one offset up to the other is a newline.
  abbrev pub IsFree : ℕ → ℕ → Type 0
  IsFree at end = (k : ℕ) → at ≤ k → k < end → (byte k == newline) ≡ false

  -- The rows are the file's, one after the other, from the one offset to the other.
  pub data IsTiled : ℕ → List Row → ℕ → Type 0 where
    at_end : {to : ℕ} → IsTiled to [] to
    next_row :
        {rows : List Row} {to : ℕ} (start end : ℕ)
        → start ≤ end
        → IsFree start end
        → (byte end == newline) ≡ true
        → IsTiled (suc end) rows to
        → IsTiled start (row_at start end ∷ rows) to

  abbrev pub entry_at : ℕ → ℕ → Entry
  entry_at start end = record {
    at = start;
    row = row_at start end;
    count = count_of (row_at start end);
  }

  pub data IsRead : ℕ → List Entry → ℕ → Type 0 where
    end_read : {to : ℕ} → IsRead to [] to
    row_read :
        {entries : List Entry} {to : ℕ} (start end : ℕ)
        → start ≤ end
        → IsFree start end
        → (byte end == newline) ≡ true
        → IsRead (suc end) entries to
        → IsRead start (entry_at start end ∷ entries) to

  abbrev pub rows_of : List Entry → List Row
  rows_of entries = map (λ e. e.row) entries

  pub read-IsTiled :
      (at : ℕ) (entries : List Entry) (to : ℕ)
      → IsRead at entries to
      → IsTiled at (rows_of entries) to
  read-IsTiled at [] to end_read = at_end
  read-IsTiled at (_ ∷ entries) to (row_read start end h free e more) =
      next_row start end h free e (read-IsTiled (suc end) entries to more)

  pub read-from :
      (at : ℕ) (entries : List Entry) (to : ℕ) → IsRead at entries to → from_of entries to ≡ at
  read-from at [] to end_read = refl
  read-from at (_ ∷ entries) to (row_read start end h free e more) = refl

  -- Either `limit` candidates are in the rows from `at` on or they begin the file.
  pub record IsEnough (limit to : ℕ) (entries : List Entry) : Type 0 where
    pub at : ℕ
    pub rows : IsRead at entries to
    pub starts : StartsRow byte at
    pub enough : (limit ≤ total (rows_of entries)) ⊎ (at ≡ 0)

  -- Without the first row there would be too few.
  abbrev pub IsLeast : ℕ → List Row → Type 0
  IsLeast limit [] = Unit
  IsLeast limit (r ∷ rows) = total rows < limit

  pub trim-IsEnough :
      (limit to candidates at : ℕ) (entries : List Entry)
      → IsRead at entries to
      → candidates ≡ total (rows_of entries)
      → StartsRow byte at
      → ((limit ≤ total (rows_of entries)) ⊎ (at ≡ 0))
      → IsEnough limit to (trim limit candidates entries)
        × IsLeast limit (rows_of (trim limit candidates entries))
  unfolding trim
  trim-IsEnough limit to candidates at [] rows sum starts enough =
      (record { at = at; rows = rows; starts = starts; enough = enough }, tt)
  trim-IsEnough limit to candidates at (_ ∷ entries) (row_read start end h free e more) sum starts
        enough =
      let first = count_of (row_at start end) in
      let left : candidates - first ≡ total (rows_of entries) = drop-sum candidates first _ sum in
      elim (Bool-cases (leb limit (candidates - first))) [
        | inl many ↦ rw many (
            trim-IsEnough limit to (candidates - first) (suc end) entries more left
              (inr (end, refl, e)) (inl (still-enough limit _ _ left many)))
        | inr few ↦ rw few (
          record {
            at = start;
            rows = row_read start end h free e more;
            starts = starts;
            enough = enough;
          },
          too-few limit _ _ left few,
        )
      ]

  module _ (read_back : ℕ → ℕ → Text) (reads : Reads byte read_back) where
    entry_of-at :
        (start end : ℕ) → start ≤ end → entry_of read_back count start end ≡ entry_at start end
    unfolding entry_of
    entry_of-at start end h =
        let back : end - (end - start) ≡ start = omega arith in
        let bytes =
          reads end (end - start) (omega arith) ∙ ap (λ at. slice byte at (end - start)) back in
        elim (Bool-cases (ltb row_cap (end - start))) [
          | inl e ↦ rw e refl
          | inr e ↦ rw (e, bytes) refl
        ]

    pub collect-IsEnough :
        (fuel limit to anchor : ℕ) (c : Collected)
        → anchor ≤ fuel
        → IsRead anchor c.entries to
        → c.candidates ≡ total (rows_of c.entries)
        → StartsRow byte anchor
        → IsEnough limit to (collect read_back count fuel limit c anchor).entries
          × ((collect read_back count fuel limit c anchor).candidates
              ≡ total (rows_of (collect read_back count fuel limit c anchor).entries))
    unfolding collect
    collect-IsEnough zero limit to anchor c h rows sum starts =
        (record { at = anchor; rows = rows; starts = starts; enough = inr (omega arith) }, sum)
    collect-IsEnough (suc fuel) limit to anchor c h rows sum starts =
        elim (Bool-cases (ltb c.candidates limit && ltb 0 anchor)) [
          | inr stop ↦ rw stop (
            record {
              at = anchor;
              rows = rows;
              starts = starts;
              enough = stopped c.candidates _ limit anchor sum stop;
            },
            sum,
          )
          | inl more ↦ elim starts [
            | inl begins ↦ absurd (ground (arith, begins, more))
            | inr (end, past_end, e) ↦
                let back : anchor - 1 ≡ end = omega arith in
                let (below, free, first) = last_newline-past byte end in
                let start = past (last_newline byte end) in
                let found = find_newline_backward-last byte read_back count reads end in
                let entry = entry_of-at start end below in
                rw (more, back, found, entry)
                  (collect-IsEnough fuel limit to start
                    (record {
                      candidates = c.candidates + count_of (row_at start end);
                      entries = entry_at start end ∷ c.entries;
                    })
                    (ground (arith, below, past_end, h))
                    (row_read start end below free e
                      (subst (λ at. IsRead at c.entries to) past_end rows))
                    (add-sum c.candidates (count_of (row_at start end)) _ sum) first)
          ]
        ]
