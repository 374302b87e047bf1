-- ===== src/Viewer/Window/Newlines.antt =====
-- The backward search for a newline (`findNewlineBackward` of viewer/core/window.ts).
use tribe.Base.{
  ◌≡◌, refl, sym, ap, ◌∙◌, ℕ, zero, suc, ◌+◌, ◌-◌, ◌<◌, ◌≤◌, true, false, Option, none, some, [],
  ◌∷◌, ltb, ◌==◌, if◌then◌else◌, Bool-cases, inl, inr, arith, ◌⊎◌, Text,
}
use tribe.Viewer.Tail.{newline}
use tribe.Viewer.Window.{
  index_from, found_at, last_index_of, scan_chunk, past, scan_back, find_newline_backward,
}

-- The bytes of a file, at and after the offset.
abbrev pub slice : (ℕ → ℕ) → ℕ → ℕ → Text
slice byte at zero = []
slice byte at (suc n) = byte at ∷ slice byte (suc at) n

-- `read_back` gives the bytes of the file that stand before `end`.
abbrev pub Reads : (ℕ → ℕ) → (ℕ → ℕ → Text) → Type 0
Reads byte read_back = (end len : ℕ) → len ≤ end → read_back end len ≡ slice byte (end - len) len

-- The last newline before `end`, one byte at a time.
abbrev pub last_newline : (ℕ → ℕ) → ℕ → Option ℕ
last_newline byte zero = none
last_newline byte (suc n) = if byte n == newline then some n else last_newline byte n

-- The start of the file, or just past a newline.
abbrev pub StartsRow : (ℕ → ℕ) → ℕ → Type 0
StartsRow byte at = (at ≡ 0) ⊎ ((n : ℕ) × (at ≡ suc n) × ((byte n == newline) ≡ true))

module _ (byte : ℕ → ℕ) where
  -- One more byte in front of a chunk.
  found_at-front :
      (at : ℕ) (o : Option ℕ)
      → found_at (suc at) o (last_newline byte (suc at))
        ≡ found_at at (index_from (byte at == newline) o) (last_newline byte at)
  found_at-front at (some i) = ap some (omega arith)
  found_at-front at none = elim (Bool-cases (byte at == newline)) [
    | inl e ↦ rw e (ap some (omega arith))
    | inr e ↦ rw e refl
  ]

  -- The last newline before the end of a chunk is the chunk's last, if it has one.
  chunk-last :
      (len at : ℕ)
      → last_newline byte (at + len)
        ≡ found_at at (last_index_of newline (slice byte at len)) (last_newline byte at)
  chunk-last zero at = ap (last_newline byte) (omega arith)
  chunk-last (suc len) at =
      let shifted : at + suc len ≡ suc at + len = omega arith in
      ap (last_newline byte) shifted
      ∙ chunk-last len (suc at)
      ∙ found_at-front at (last_index_of newline (slice byte (suc at) len))

  -- Between the last newline and `end` there is none, and before the start of a row stands one.
  pub last_newline-past :
      (end : ℕ)
      → (past (last_newline byte end) ≤ end)
        × ((k : ℕ) → past (last_newline byte end) ≤ k → k < end → (byte k == newline) ≡ false)
        × StartsRow byte (past (last_newline byte end))
  last_newline-past zero = (omega arith, λ k _ h. absurd (ground (arith, h)), inl refl)
  last_newline-past (suc n) = elim (Bool-cases (byte n == newline)) [
    | inl e ↦ rw e (omega arith, λ k l h. absurd (ground (arith, l, h)), inr (n, refl, e))
    | inr e ↦
        let (below, free, starts) = last_newline-past n in
        rw e (
          ground (arith, below),
          λ k l h. elim (Bool-cases (ltb k n)) [
            | inl lower ↦ free k l (ground (arith, lower))
            | inr higher ↦
                let last : k ≡ n = ground (arith, higher, h) in ap (λ i. byte i == newline) last ∙ e
          ],
          starts,
        )
  ]

  module _ (read_back : ℕ → ℕ → Text) (count : Text → ℕ) (reads : Reads byte read_back) where
    scan_back-last :
        (fuel hi : ℕ) → hi ≤ fuel → scan_back read_back count fuel hi ≡ last_newline byte hi
    unfolding scan_back
    scan_back-last zero hi h = let none_before : hi ≡ 0 = omega arith in rw none_before refl
    scan_back-last (suc fuel) hi h = elim (Bool-cases (hi == 0)) [
      | inl e ↦ let none_before : hi ≡ 0 = ground (arith, e) in rw none_before refl
      | inr e ↦
          let lo = hi - scan_chunk in
          let back : hi - (hi - lo) ≡ lo = omega arith in
          let whole : lo + (hi - lo) ≡ hi = omega arith in
          let chunk = reads hi (hi - lo) (omega arith) ∙ ap (λ at. slice byte at (hi - lo)) back in
          let further = scan_back-last fuel lo (ground (arith, e, h)) in
          rw (e, chunk, further) (sym (chunk-last (hi - lo) lo) ∙ ap (last_newline byte) whole)
    ]

    pub find_newline_backward-last :
        (end : ℕ) → find_newline_backward read_back count end ≡ last_newline byte end
    unfolding find_newline_backward
    find_newline_backward-last end = scan_back-last end end (omega arith)
