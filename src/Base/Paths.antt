-- ===== src/Base/Paths.antt =====
-- POSIX paths, as `node:path` reads them.
pub mod Segments
use Prim.Native.Nat.{ℕ}
use mathlib.Core.Path.{◌≡◌, refl, sym, ap, ◌∙◌}
use mathlib.Core.Logic.{inl, inr}
use mathlib.Core.Bool.{Bool, true, false, not, ◌&&◌, false≢true}
use mathlib.Core.List.{List, [], ◌∷◌, ◌++◌, reverse, reverse-cons, append_assoc}
use native.Mathlib.Omega.{arith}
use tribe.Base.Tests.{◌==◌, Bool-cases, if◌then◌else◌}
use tribe.Base.Lists.{All, keep}
use tribe.Base.Texts.{Text, codes, text_eq}

-- `sep`.
abbrev pub slash : ℕ
slash = b'/'

abbrev pub cons_head : ℕ → List Text → List Text
cons_head c [] = (c ∷ []) ∷ []
cons_head c (s ∷ ss) = (c ∷ s) ∷ ss

-- `path.split(sep)`.
unfoldable pub split : Text → List Text
split [] = [] ∷ []
split (c ∷ cs) = let rest = split cs in if c == slash then [] ∷ rest else cons_head c rest

abbrev pub is_some_text : Text → Bool
is_some_text [] = false
is_some_text (c ∷ s) = true

-- `path.split(sep).filter(Boolean)`.
unfoldable pub segments : Text → List Text
segments path = keep is_some_text (split path)

-- `segments.join(sep)`.
unfoldable pub join : List Text → Text
join [] = []
join (s ∷ []) = s
join (s ∷ t ∷ ss) = s ++ slash ∷ join (t ∷ ss)

-- `isAbsolute(path)`.
unfoldable pub is_absolute : Text → Bool
is_absolute [] = false
is_absolute (c ∷ s) = c == slash

unfoldable pub ends_with_slash : Text → Bool
ends_with_slash [] = false
ends_with_slash (c ∷ []) = c == slash
ends_with_slash (c ∷ d ∷ s) = ends_with_slash (d ∷ s)

-- What `..` does to the segments before it, the last in front.
abbrev pub climb_up : Bool → List Text → List Text
climb_up above [] = if above then codes ".." ∷ [] else []
climb_up above (s ∷ ss) =
    if text_eq s (codes "..") then (if above then codes ".." ∷ s ∷ ss else s ∷ ss) else ss

abbrev pub push_segment : Bool → List Text → Text → List Text
push_segment above kept s =
    if text_eq s (codes ".")
    then kept
    else if text_eq s (codes "..")
    then climb_up above kept
    else s ∷ kept

unfoldable pub without_dots : Bool → List Text → List Text → List Text
without_dots above kept [] = reverse kept
without_dots above kept (s ∷ ss) = without_dots above (push_segment above kept s) ss

-- `normalize(path)`, of the path that is left when the dots are gone.
abbrev pub normal : Bool → Bool → Text → Text
normal absolute trailing [] =
    if absolute then slash ∷ [] else if trailing then b'.' ∷ slash ∷ [] else b'.' ∷ []
normal absolute trailing (c ∷ s) =
    let ended = if trailing then (c ∷ s) ++ slash ∷ [] else c ∷ s in
    if absolute then slash ∷ ended else ended

unfoldable pub normalize : Text → Text
normalize path =
    normal (is_absolute path) (ends_with_slash path)
      (join (without_dots (not (is_absolute path)) [] (segments path)))
