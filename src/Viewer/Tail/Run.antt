-- ===== src/Viewer/Tail/Run.antt =====
-- The ticks of a stream (tail.ts): what `advanceTail` has handed on since its last reset is what the
-- bytes hold that it has read since then, however they were cut into reads.
use tribe.Base.{
  ◌≡◌, refl, sym, ap, ◌∙◌, ℕ, ◌+◌, Bool, true, false, List, [], ◌∷◌, length, All, ltb,
  if◌then◌else◌, Bool-cases, inl, inr,
}
use mathlib.Core.List.{◌++◌, map, append-nil}
use tribe.Viewer.Tail.{
  Bytes, row_cap, OversizedNode, TailState, initial_tail_state, FileObservation, TailTick,
  split_rows, trim_return, push_text, is_reset, base_of, advance_tail, scan_bytes, Scan,
}
use tribe.Viewer.Tail.Rows.{IsRow, written, split_rows-written, split_rows_nil}
use tribe.Viewer.Tail.Scans.{nodes_at, lines_of}
use tribe.Viewer.Tail.Reads.{
  Follows, initial_tail_state-Follows, Grows, scan_bytes-Grows, Holds-Follows, Follows-Holds,
  next_state,
}

if_nil : {A : Type 0} (b : Bool) → ◌≡◌ {A = List A} (if b then [] else []) []
if_nil true = refl
if_nil false = refl

-- A read: its bytes, and what `stat` answered.
pub record TailRead : Type 0 where
  pub chunk : Bytes
  pub seen : FileObservation

-- What was read and handed on since the last reset.
pub record Handed : Type 0 where
  pub bytes : Bytes
  pub lines : List Bytes
  pub oversized : List OversizedNode

abbrev pub nothing_handed : Handed
nothing_handed = record { bytes = []; lines = []; oversized = [] }

abbrev pub hand_on : Handed → Bytes → TailTick → Handed
hand_on h chunk tick =
    let kept = if tick.reset then nothing_handed else h in
    record {
      bytes = kept.bytes ++ chunk;
      lines = kept.lines ++ tick.lines;
      oversized = kept.oversized ++ tick.oversized;
    }

-- The long rows of a file, as the nodes that stand for them.
abbrev pub nodes_in : Bytes → List OversizedNode
nodes_in file = nodes_at 0 (split_rows file).0

module _ (decode : Bytes → Bytes) where
  -- The texts of the rows of a file that are not too long and not empty.
  abbrev pub lines_in : Bytes → List Bytes
  lines_in file = lines_of decode (split_rows file).0

  unfoldable pub run_tail : List TailRead → TailState × Handed → TailState × Handed
  run_tail [] s = s
  run_tail (r ∷ rs) (s, h) =
      let tick = advance_tail decode s r.chunk r.seen in
      run_tail rs (tick.state, hand_on h r.chunk tick)

  pub record IsFaithful (s : TailState) (h : Handed) : Type 0 where
    pub follows : Follows h.bytes s
    pub lines_handed : h.lines ≡ lines_in h.bytes
    pub nodes_handed : h.oversized ≡ nodes_in h.bytes

  pub nothing_handed-IsFaithful : IsFaithful initial_tail_state nothing_handed
  unfolding lines_of nodes_at
  nothing_handed-IsFaithful = record {
    follows = initial_tail_state-Follows;
    lines_handed = rw (split_rows_nil) refl;
    nodes_handed = rw (split_rows_nil) refl;
  }

  -- A reset tick starts over, on both sides.
  base_of-IsFaithful :
      (s : TailState) (h : Handed) (obs : FileObservation)
      → IsFaithful s h
      → IsFaithful (base_of s obs) (if is_reset s obs then nothing_handed else h)
  unfolding base_of
  base_of-IsFaithful s h obs f = elim (Bool-cases (is_reset s obs)) [
    | inl e ↦ rw e nothing_handed-IsFaithful
    | inr e ↦ rw e f
  ]

  Grows-IsFaithful :
      (base : TailState) (kept : Handed) (chunk : Bytes) (out : Scan × Bytes) (inode : ℕ)
      → IsFaithful base kept
      → Grows decode
          (split_rows kept.bytes).0
          (length (kept.bytes ++ chunk))
          (split_rows (kept.bytes ++ chunk))
          (length chunk)
          base
          out
      → IsFaithful (next_state base (length chunk) out inode) (record {
        bytes = kept.bytes ++ chunk;
        lines = kept.lines ++ out.0.lines;
        oversized = kept.oversized ++ out.0.oversized;
      })
  Grows-IsFaithful base kept chunk out inode f g = record {
    follows = Holds-Follows (kept.bytes ++ chunk) _ (g.holds inode);
    lines_handed = ap (λ ls. ls ++ out.0.lines) f.lines_handed ∙ sym g.lines_read;
    nodes_handed = ap (λ ns. ns ++ out.0.oversized) f.nodes_handed ∙ sym g.nodes_read;
  }

  advance_tail-IsFaithful :
      (s : TailState) (h : Handed) (r : TailRead)
      → IsFaithful s h
      → let tick = advance_tail decode s r.chunk r.seen in
        IsFaithful tick.state (hand_on h r.chunk tick)
  unfolding advance_tail
  advance_tail-IsFaithful s h r f =
      let b = base_of-IsFaithful s h r.seen f in
      Grows-IsFaithful (base_of s r.seen) (if is_reset s r.seen then nothing_handed else h) r.chunk
        (scan_bytes decode (base_of s r.seen) r.chunk) r.seen.inode b
        (scan_bytes-Grows decode _ r.chunk (base_of s r.seen) b.follows)

  pub run_tail-IsFaithful :
      (reads : List TailRead) (s : TailState) (h : Handed)
      → IsFaithful s h
      → let (t, k) = run_tail reads (s, h) in IsFaithful t k
  unfolding run_tail
  run_tail-IsFaithful [] s h f = f
  run_tail-IsFaithful (r ∷ rs) s h f = run_tail-IsFaithful rs _ _ (advance_tail-IsFaithful s h r f)

  -- A stream from its beginning.
  abbrev pub stream : List TailRead → TailState × Handed
  stream reads = run_tail reads (initial_tail_state, nothing_handed)

  -- After any ticks, with whatever reads, truncations and rotations: the state of the tail is the one
  -- that the bytes read since the last reset determine, and the lines and the nodes of oversized rows
  -- handed on since then are, in order, the ones of these bytes' rows, each once, so nothing depends
  -- on how the bytes were cut into reads.
  pub stream-IsFaithful : (reads : List TailRead) → IsFaithful (stream reads).0 (stream reads).1
  stream-IsFaithful reads =
      run_tail-IsFaithful reads initial_tail_state nothing_handed nothing_handed-IsFaithful

  -- A row that is a line of its own: no newline in it, not too long, and a text that is not empty.
  pub record IsPlain (row : Bytes) : Type 0 where
    pub is_row : IsRow row
    pub fits : ltb row_cap (length row) ≡ false
    pub has_text : push_text [] (trim_return (decode row)) ≡ trim_return (decode row) ∷ []

  abbrev pub texts : List Bytes → List Bytes
  texts rows = map (λ row. trim_return (decode row)) rows

  lines_of-plain : (rows : List Bytes) → All IsPlain rows → lines_of decode rows ≡ texts rows
  unfolding lines_of
  lines_of-plain [] h = refl
  lines_of-plain (row ∷ rows) (h, t) =
      rw (h.fits, h.has_text) (ap (λ ts. trim_return (decode row) ∷ ts) (lines_of-plain rows t))

  nodes_at-plain : (at : ℕ) (rows : List Bytes) → All IsPlain rows → nodes_at at rows ≡ []
  unfolding nodes_at
  nodes_at-plain at [] h = refl
  nodes_at-plain at (row ∷ rows) (h, t) = rw h.fits (nodes_at-plain (at + length row + 1) rows t)

  plain-IsRow : (rows : List Bytes) → All IsPlain rows → All IsRow rows
  plain-IsRow [] h = tt
  plain-IsRow (row ∷ rows) (h, t) = (h.is_row, plain-IsRow rows t)

  -- Rows without a newline, each of at most `ROW_CAP` bytes and with a text that is not empty once it
  -- is decoded and a carriage return at its end is gone, come back as their lines, in order, however
  -- they are cut into reads: when the bytes read since the last reset are those rows, each with its
  -- newline, the lines handed on are the rows' texts without that carriage return, nothing is reported
  -- as oversized, and the carry is empty.
  pub stream-written :
      (reads : List TailRead) (rows : List Bytes)
      → All IsPlain rows
      → (stream reads).1.bytes ≡ written rows
      → ((stream reads).1.lines ≡ texts rows)
        × ((stream reads).1.oversized ≡ [])
        × ((stream reads).0.carry ≡ [])
  stream-written reads rows plain e =
      let f = stream-IsFaithful reads in
      let split : split_rows (stream reads).1.bytes ≡ (rows, []) =
        ap split_rows (e ∙ sym (append-nil (written rows)))
        ∙ split_rows-written rows [] (plain-IsRow rows plain)
        ∙ rw (split_rows_nil, append-nil rows) refl in
      (
        f.lines_handed ∙ rw split (lines_of-plain rows plain),
        f.nodes_handed ∙ rw split (nodes_at-plain 0 rows plain),
        (Follows-Holds _ _ f.follows).carried ∙ rw split (if_nil (stream reads).0.skipping),
      )
