-- ===== src/Base/Texts.antt =====
-- Texts as the list of their characters, where the code walks them.
use Prim.Native.Nat.{ℕ}
use Prim.Native.Char.{code}
use Prim.Native.String.{String}
use mathlib.Core.Path.{◌≡◌, refl, sym, ap, ◌∙◌}
use mathlib.Core.Logic.{◌↔◌}
use mathlib.Core.Bool.{Bool, true, false, ◌&&◌, ◌||◌, false≢true}
use mathlib.Core.List.{List, [], ◌∷◌}
use native.Mathlib.Omega.{arith}
use tribe.Base.Tests.{◌==◌, leb, if◌then◌else◌}

abbrev pub Text : Type 0
Text = List ℕ

-- The code points of a text; JavaScript orders two texts by them within the basic plane.
abbrev pub codes : String → Text
codes String.[] = []
codes (String.◌∷◌ c s) = code c ∷ codes s

-- `===` on texts.
abbrev pub text_eq : Text → Text → Bool
text_eq [] [] = true
text_eq [] (d ∷ t) = false
text_eq (c ∷ s) [] = false
text_eq (c ∷ s) (d ∷ t) = c == d && text_eq s t

-- `s.startsWith(p)`.
abbrev pub starts_with : Text → Text → Bool
starts_with s [] = true
starts_with [] (d ∷ p) = false
starts_with (c ∷ s) (d ∷ p) = c == d && starts_with s p

pub text_eq_self : (s : Text) → text_eq s s ≡ true
text_eq_self [] = refl
text_eq_self (c ∷ s) = ground (arith, text_eq_self s)

pub text_eq_sound : (s t : Text) → text_eq s t ≡ true → s ≡ t
text_eq_sound [] [] e = refl
text_eq_sound [] (d ∷ t) e = absurd (false≢true e)
text_eq_sound (c ∷ s) [] e = absurd (false≢true e)
text_eq_sound (c ∷ s) (d ∷ t) e =
    let same : c ≡ d = ground (arith, e) in cc (same, text_eq_sound s t (ground (arith, e)))

pub text_eq_iff : (s t : Text) → (text_eq s t ≡ true) ↔ (s ≡ t)
text_eq_iff s t = (text_eq_sound s t, λ e. ap (text_eq s) (sym e) ∙ text_eq_self s)

-- `/\s/.test(c)`; `trim` takes the same characters away.
unfoldable pub is_space : ℕ → Bool
is_space c =
    (leb 9 c && leb c 13)
    || c == 32
    || c == 160
    || c == 5760
    || (leb 8192 c && leb c 8202)
    || c == 8232
    || c == 8233
    || c == 8239
    || c == 8287
    || c == 12288
    || c == 65279

-- `s.split(c)`.
pub split_on : ℕ → Text → List Text
split_on d [] = [] ∷ []
split_on d (c ∷ cs) = let rest = split_on d cs in if c == d then [] ∷ rest else with_first c rest
  where
    with_first : ℕ → List Text → List Text
    with_first c [] = (c ∷ []) ∷ []
    with_first c (s ∷ ss) = (c ∷ s) ∷ ss

-- The longest beginning whose characters pass the test, and the rest.
unfoldable pub span : (ℕ → Bool) → Text → Text × Text
span p [] = ([], [])
span p (c ∷ cs) = let (run, rest) = span p cs in if p c then (c ∷ run, rest) else ([], c ∷ cs)

-- `s.trimEnd()`.
unfoldable pub trim_end : Text → Text
trim_end [] = []
trim_end (c ∷ cs) = trimmed c (trim_end cs)
  where
    trimmed : ℕ → Text → Text
    trimmed c [] = if is_space c then [] else c ∷ []
    trimmed c (d ∷ ds) = c ∷ d ∷ ds

-- `s.trim()`.
unfoldable pub trim : Text → Text
trim s = trim_end (span is_space s).1
