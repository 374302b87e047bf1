-- ===== src/Viewer/Tail/Rows.antt =====
-- `split_rows`, which the newlines of a file decide (tail.ts), on a file that grows.
use tribe.Base.{
  ◌≡◌, refl, sym, ap, ◌∙◌, ℕ, false, List, [], ◌∷◌, ◌==◌, All, arith, Bool-cases, inl, inr,
}
use mathlib.Core.List.{◌++◌, append-nil, append_assoc}
use tribe.Viewer.Tail.{Bytes, newline, before, split_rows}

-- No newline among the bytes.
abbrev pub IsRow : Bytes → Type 0
IsRow = All (λ b. (b == newline) ≡ false)

-- The text of some rows, each ended by its newline.
abbrev pub written : List Bytes → Bytes
written [] = []
written (row ∷ rows) = row ++ newline ∷ written rows

abbrev pub followed_by : List Bytes → List Bytes × Bytes → List Bytes × Bytes
followed_by rows (more, rest) = (rows ++ more, rest)

pub split_rows_nil : split_rows [] ≡ ([], [])
unfolding split_rows
split_rows_nil = refl

before_nil : (p : List Bytes × Bytes) → before [] p ≡ p
before_nil ([], rest) = refl
before_nil (row ∷ rows, rest) = refl

before-append :
    (b : ℕ) (bs : Bytes) (p : List Bytes × Bytes)
    → before (b ∷ bs) p ≡ before (b ∷ []) (before bs p)
before-append b bs ([], rest) = refl
before-append b bs (row ∷ rows, rest) = refl

pub split_rows-append_row :
    (bs cs : Bytes) → IsRow bs → split_rows (bs ++ cs) ≡ before bs (split_rows cs)
unfolding split_rows
split_rows-append_row [] cs h = sym (before_nil (split_rows cs))
split_rows-append_row (b ∷ bs) cs h =
    rw (h.0, split_rows-append_row bs cs h.1) (sym (before-append b bs (split_rows cs)))

pub split_rows-rest_IsRow : (bs : Bytes) → IsRow (split_rows bs).1
unfolding split_rows
split_rows-rest_IsRow [] = tt
split_rows-rest_IsRow (b ∷ bs) = elim (Bool-cases (b == newline)) [
  | inl e ↦ rw e (split_rows-rest_IsRow bs)
  | inr e ↦ rw e (before-IsRow (split_rows bs) e (split_rows-rest_IsRow bs))
]
  where
    before-IsRow :
        (p : List Bytes × Bytes) → (b == newline) ≡ false → IsRow p.1 → IsRow (before (b ∷ []) p).1
    before-IsRow ([], rest) e h = (e, h)
    before-IsRow (row ∷ rows, rest) e h = h

split_rows_other :
    (b : ℕ) (bs : Bytes)
    → (b == newline) ≡ false
    → split_rows (b ∷ bs) ≡ before (b ∷ []) (split_rows bs)
unfolding split_rows
split_rows_other b bs e = rw e refl

-- A file that grows keeps its rows; only what no newline ended is read on.
pub split_rows-append :
    (bs cs : Bytes)
    → split_rows (bs ++ cs) ≡ followed_by (split_rows bs).0 (split_rows ((split_rows bs).1 ++ cs))
unfolding split_rows
split_rows-append [] cs = refl
split_rows-append (b ∷ bs) cs = elim (Bool-cases (b == newline)) [
  | inl e ↦ rw e (rw (split_rows-append bs cs) refl)
  | inr e ↦ rw e (rw (split_rows-append bs cs) (before_lem (split_rows bs) e))
]
  where
    before_lem :
        (p : List Bytes × Bytes)
        → (b == newline) ≡ false
        → before (b ∷ []) (followed_by p.0 (split_rows (p.1 ++ cs)))
          ≡ followed_by (before (b ∷ []) p).0 (split_rows ((before (b ∷ []) p).1 ++ cs))
    before_lem ([], rest) e = sym (split_rows_other b (rest ++ cs) e)
    before_lem (row ∷ rows, rest) e = refl

pub split_rows-written :
    (rows : List Bytes) (rest : Bytes)
    → All IsRow rows
    → split_rows (written rows ++ rest) ≡ followed_by rows (split_rows rest)
unfolding split_rows
split_rows-written [] rest h = refl
split_rows-written (row ∷ rows) rest h = rw (append_assoc row (newline ∷ written rows) rest) (
    split_rows-append_row row (newline ∷ (written rows ++ rest)) h.0
    ∙ rw (split_rows-written rows rest h.1, append-nil row) refl)

pub written-split_rows : (bs : Bytes) → written (split_rows bs).0 ++ (split_rows bs).1 ≡ bs
unfolding split_rows
written-split_rows [] = refl
written-split_rows (b ∷ bs) = elim (Bool-cases (b == newline)) [
  | inl e ↦
      let is_newline : newline ≡ b = ground (arith, e) in cc (is_newline, written-split_rows bs)
  | inr e ↦ rw e (before_lem (split_rows bs) ∙ ap (λ cs. b ∷ cs) (written-split_rows bs))
]
  where
    before_lem :
        (p : List Bytes × Bytes)
        → written (before (b ∷ []) p).0 ++ (before (b ∷ []) p).1 ≡ b ∷ (written p.0 ++ p.1)
    before_lem ([], rest) = refl
    before_lem (row ∷ rows, rest) = refl

pub split_rows-All : (bs : Bytes) → All IsRow (split_rows bs).0
unfolding split_rows
split_rows-All [] = tt
split_rows-All (b ∷ bs) = elim (Bool-cases (b == newline)) [
  | inl e ↦ rw e (tt, split_rows-All bs)
  | inr e ↦ rw e (before_lem (split_rows bs) e (split_rows-All bs))
]
  where
    before_lem :
        (p : List Bytes × Bytes)
        → (b == newline) ≡ false
        → All IsRow p.0
        → All IsRow (before (b ∷ []) p).0
    before_lem ([], rest) e h = tt
    before_lem (row ∷ rows, rest) e h = ((e, h.0), h.1)
