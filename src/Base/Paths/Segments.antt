-- ===== src/Base/Paths/Segments.antt =====
-- The segments of a path, before and after `normalize`.
use Prim.Native.Nat.{ℕ}
use mathlib.Core.Path.{◌≡◌, refl, sym, ap, ◌∙◌}
use mathlib.Core.Logic.{inl, inr}
use mathlib.Core.Bool.{Bool, true, false}
use mathlib.Core.List.{List, [], ◌∷◌, ◌++◌, reverse, reverse-cons, append_assoc}
use tribe.Base.Tests.{◌==◌, Bool-cases}
use tribe.Base.Lists.{All, keep}
use tribe.Base.Texts.{Text, codes, text_eq}
use tribe.Base.Paths.{
  slash, cons_head, split, is_some_text, segments, join, is_absolute, ends_with_slash, climb_up,
  push_segment, without_dots, normal, normalize,
}

-- No separator in the text.
abbrev pub IsUnsplit : Text → Type 0
IsUnsplit s = All (λ c. (c == slash) ≡ false) s

-- A segment has a character and no separator.
abbrev pub IsSegment : Text → Type 0
IsSegment s = (is_some_text s ≡ true) × IsUnsplit s

split_row : (s rest : Text) → IsUnsplit s → split (s ++ slash ∷ rest) ≡ s ∷ split rest
unfolding split
split_row [] rest h = refl
split_row (c ∷ s) rest (e, h) = rw (e, split_row s rest h) refl

split_last : (s : Text) → IsUnsplit s → split s ≡ s ∷ []
unfolding split
split_last [] h = refl
split_last (c ∷ s) (e, h) = rw (e, split_last s h) refl

segments_row : (s rest : Text) → IsSegment s → segments (s ++ slash ∷ rest) ≡ s ∷ segments rest
unfolding segments
segments_row s rest h = rw (split_row s rest h.1, h.0) refl

pub segments-join : (ss : List Text) → All IsSegment ss → segments (join ss) ≡ ss
unfolding segments join split
segments-join [] h = refl
segments-join (s ∷ []) (h, t) = rw (split_last s h.1, h.0) refl
segments-join (s ∷ t ∷ ss) (h, hs) =
    segments_row s (join (t ∷ ss)) h ∙ ap (λ ts. s ∷ ts) (segments-join (t ∷ ss) hs)

-- A separator at the end adds no segment.
segments-join-slash : (ss : List Text) → All IsSegment ss → segments (join ss ++ slash ∷ []) ≡ ss
unfolding segments join split
segments-join-slash [] h = refl
segments-join-slash (s ∷ []) (h, t) = rw (split_row s [] h.1, h.0) refl
segments-join-slash (s ∷ t ∷ ss) (h, hs) =
    ap segments (append_assoc s (slash ∷ join (t ∷ ss)) (slash ∷ []))
    ∙ segments_row s (join (t ∷ ss) ++ slash ∷ []) h
    ∙ ap (λ ts. s ∷ ts) (segments-join-slash (t ∷ ss) hs)

pub segments-slash : (path : Text) → segments (slash ∷ path) ≡ segments path
unfolding segments split
segments-slash path = refl

cons_head-All :
    (c : ℕ) (ss : List Text)
    → (c == slash) ≡ false
    → All IsUnsplit ss
    → All IsUnsplit (cons_head c ss)
cons_head-All c [] e h = ((e, tt), tt)
cons_head-All c (s ∷ ss) e h = ((e, h.0), h.1)

split-All : (path : Text) → All IsUnsplit (split path)
unfolding split
split-All [] = (tt, tt)
split-All (c ∷ path) = elim (Bool-cases (c == slash)) [
  | inl e ↦ rw e (tt, split-All path)
  | inr e ↦ rw e (cons_head-All c (split path) e (split-All path))
]

keep-All : (ss : List Text) → All IsUnsplit ss → All IsSegment (keep is_some_text ss)
keep-All [] h = tt
keep-All (s ∷ ss) (h, hs) = elim (Bool-cases (is_some_text s)) [
  | inl e ↦ rw e ((e, h), keep-All ss hs)
  | inr e ↦ rw e (keep-All ss hs)
]

pub segments-All : (path : Text) → All IsSegment (segments path)
unfolding segments
segments-All path = keep-All (split path) (split-All path)

All-append : (P : Text → Type 0) (ss ts : List Text) → All P ss → All P ts → All P (ss ++ ts)
All-append P [] ts h k = k
All-append P (s ∷ ss) ts (h, hs) k = (h, All-append P ss ts hs k)

All-reverse : (P : Text → Type 0) (ss : List Text) → All P ss → All P (reverse ss)
All-reverse P [] h = tt
All-reverse P (s ∷ ss) (h, hs) =
    rw (reverse-cons s ss) (All-append P (reverse ss) (s ∷ []) (All-reverse P ss hs) (h, tt))

climb_up-All : (kept : List Text) → All IsSegment kept → All IsSegment (climb_up false kept)
climb_up-All [] h = tt
climb_up-All (s ∷ ss) h = elim (Bool-cases (text_eq s (codes ".."))) [
  | inl e ↦ rw e h
  | inr e ↦ rw e h.1
]

push_segment-All :
    (kept : List Text) (s : Text)
    → IsSegment s
    → All IsSegment kept
    → All IsSegment (push_segment false kept s)
push_segment-All kept s h hs = elim (Bool-cases (text_eq s (codes "."))) [
  | inl e ↦ rw e hs
  | inr e ↦ elim (Bool-cases (text_eq s (codes ".."))) [
    | inl f ↦ rw (e, f) (climb_up-All kept hs)
    | inr f ↦ rw (e, f) (h, hs)
  ]
]

pub without_dots-All :
    (kept ss : List Text)
    → All IsSegment kept
    → All IsSegment ss
    → All IsSegment (without_dots false kept ss)
unfolding without_dots
without_dots-All kept [] k h = All-reverse IsSegment kept k
without_dots-All kept (s ∷ ss) k (h, hs) =
    without_dots-All (push_segment false kept s) ss (push_segment-All kept s h k) hs

normal-join :
    (ss : List Text) (trailing : Bool) (body : Text)
    → All IsSegment ss
    → join ss ≡ body
    → segments (normal true trailing body) ≡ ss
unfolding segments split
normal-join ss trailing [] h e = sym (sym (segments-join ss h) ∙ ap segments e)
normal-join ss true (c ∷ s) h e =
    segments-slash ((c ∷ s) ++ slash ∷ [])
    ∙ ap (λ b. segments (b ++ slash ∷ [])) (sym e)
    ∙ segments-join-slash ss h
normal-join ss false (c ∷ s) h e = segments-slash (c ∷ s) ∙ ap segments (sym e) ∙ segments-join ss h

-- `normalize` takes the dots out of an absolute path, and nothing else, and leaves it absolute.
pub segments-normalize :
    (path : Text)
    → is_absolute path ≡ true
    → segments (normalize path) ≡ without_dots false [] (segments path)
unfolding normalize
segments-normalize path e =
    let dotless = without_dots false [] (segments path) in
    rw e (
      normal-join dotless (ends_with_slash path) (join dotless)
        (without_dots-All [] (segments path) tt (segments-All path)) refl)
