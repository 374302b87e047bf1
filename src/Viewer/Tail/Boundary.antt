-- ===== src/Viewer/Tail/Boundary.antt =====
-- Where a tail stands in its file (tail.ts): its acknowledged offset, its carry and its count of the
-- bytes it drops.
use tribe.Base.{
  ◌≡◌, refl, sym, ap, ◌∙◌, ℕ, ◌+◌, ◌≤◌, ◌<◌, Bool, true, false, some, List, [], ◌∷◌, length,
  get_elem?, if◌then◌else◌, arith, Bool-cases, inl, inr,
}
use Prim.Native.Nat.{suc}
use mathlib.Core.List.{◌++◌, append_assoc}
use tribe.Viewer.Tail.{Bytes, newline, row_cap, TailState, split_rows}
use tribe.Viewer.Tail.Rows.{IsRow, written, written-split_rows, split_rows-rest_IsRow}
use tribe.Viewer.Tail.Scans.{length-written}
use tribe.Viewer.Tail.Reads.{Follows, Follows-Holds, length-rest}
use tribe.Viewer.Tail.Run.{TailRead, stream, stream-IsFaithful}

pub record IsAcked (file : Bytes) (s : TailState) : Type 0 where
  pub on_newline : (k : ℕ) → s.ack_offset ≡ k + 1 → get_elem? file k ≡ some newline
  pub carry_next : s.skipping ≡ false → s.offset ≡ s.ack_offset + length s.carry
  pub carry_open : IsRow s.carry
  pub carry_bounded : length s.carry ≤ row_cap
  pub dropping :
      s.skipping ≡ true
      → (s.row_start ≡ s.ack_offset)
        × (s.offset ≡ s.row_start + s.skipped_bytes)
        × (row_cap < s.skipped_bytes)

get_elem?-append : (xs ys : Bytes) (k : ℕ) → get_elem? (xs ++ ys) (length xs + k) ≡ get_elem? ys k
get_elem?-append [] ys k = ap (get_elem? ys) (omega arith)
get_elem?-append (x ∷ xs) ys k =
    ap (get_elem? (x ∷ (xs ++ ys))) {x = suc (length xs) + k} {y = suc (length xs + k)}
      (omega arith)
    ∙ get_elem?-append xs ys k

last_newline :
    (rows : List Bytes) (rest : Bytes) (k : ℕ)
    → length (written rows) ≡ k + 1
    → get_elem? (written rows ++ rest) k ≡ some newline
last_newline [] rest k e = ground (arith, e)
last_newline (row ∷ []) rest k e =
    let at_end : k ≡ length row + 0 = ground (arith, length-written row [], e) in
    ap (λ bs. get_elem? bs k) (append_assoc row (newline ∷ []) rest)
    ∙ ap (get_elem? (row ++ newline ∷ rest)) at_end
    ∙ get_elem?-append row (newline ∷ rest) 0
last_newline (row ∷ next ∷ rows) rest k e =
    let j = length next + length (written rows) in
    let behind : k ≡ length row + suc j =
      ground (arith, length-written row (next ∷ rows), length-written next rows, e) in
    ap (λ bs. get_elem? bs k) (append_assoc row (newline ∷ written (next ∷ rows)) rest)
    ∙ ap (get_elem? (row ++ newline ∷ (written (next ∷ rows) ++ rest))) behind
    ∙ get_elem?-append row (newline ∷ (written (next ∷ rows) ++ rest)) (suc j)
    ∙ last_newline (next ∷ rows) rest j (length-written next rows ∙ omega arith)

if_IsRow : (b : Bool) (row : Bytes) → IsRow row → IsRow (if b then [] else row)
if_IsRow true row h = tt
if_IsRow false row h = h

Follows-IsAcked : (file : Bytes) (s : TailState) → Follows file s → IsAcked file s
Follows-IsAcked file s f =
    let h = Follows-Holds file s f in
    let kept : s.skipping ≡ false → length s.carry ≡ length (split_rows file).1 =
      λ e. ap length h.carried ∙ rw e refl in
    let carry_fits : length s.carry ≤ row_cap = elim (Bool-cases s.skipping) [
      | inl e ↦
          let none_kept : length s.carry ≡ 0 = ap length h.carried ∙ rw e refl in
          ground (arith, none_kept)
      | inr e ↦ ground (arith, h.capped, e, kept e)
    ] in
    record {
      on_newline = λ k e.
          ap (λ bs. get_elem? bs k) (sym (written-split_rows file))
          ∙ last_newline (split_rows file).0 (split_rows file).1 k (sym h.acked ∙ e);
      carry_next = λ e. h.all_read ∙ length-rest file ∙ ground (arith, h.acked, kept e);
      carry_open =
          rw h.carried (if_IsRow s.skipping (split_rows file).1 (split_rows-rest_IsRow file));
      carry_bounded = carry_fits;
      dropping = λ e.
          let (started, counted) = h.skipped e in
          (
            started,
            h.all_read ∙ length-rest file ∙ ground (arith, h.acked, started, counted),
            ground (arith, h.capped, e, counted),
          );
    }

-- After any ticks: the acknowledged offset is 0 or stands right behind a newline of the bytes read
-- since the last reset, the carry is what was read behind it, has no newline in it and is never
-- longer than `ROW_CAP`, and while a row is being dropped its start is the acknowledged offset and
-- every byte read behind that is counted.
pub stream-IsAcked :
    (decode : Bytes → Bytes) (reads : List TailRead)
    → IsAcked (stream decode reads).1.bytes (stream decode reads).0
stream-IsAcked decode reads = Follows-IsAcked _ _ (stream-IsFaithful decode reads).follows
