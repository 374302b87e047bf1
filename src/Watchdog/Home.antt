-- ===== src/Watchdog/Home.antt =====
-- `resolveHomeArg` and `containHome` of plugins/tribe/scripts/runner/core/watchdog/args.ts: whether the
-- home of a campaign lies beneath the tribe root.
pub mod Beneath
use tribe.Base.{
  ℕ, Bool, true, false, not, ◌&&◌, ◌||◌, List, [], ◌∷◌, ◌++◌, ltb, ◌==◌, length, if◌then◌else◌,
  Text, text_eq,
}
use tribe.Base.Paths.{slash, segments, is_absolute, ends_with_slash, normalize}

-- `t.slice(0, -1)`.
unfoldable pub drop_last : Text → Text
drop_last [] = []
drop_last (c ∷ []) = []
drop_last (c ∷ d ∷ t) = c ∷ drop_last (d ∷ t)

unfoldable pub resolve_home_arg : Text → Text → Text
resolve_home_arg raw_home cwd =
    let joined = if is_absolute raw_home then raw_home else normalize (cwd ++ slash ∷ raw_home) in
    let normalized = normalize joined in
    if ltb 1 (length normalized) && ends_with_slash normalized
    then drop_last normalized
    else normalized

pub data ContainHomeResult : Type 0 where
  contained is_root is_outside : ContainHomeResult

-- `shorter.every((s, i) => longer[i] === s)`.
unfoldable pub every_at : List Text → List Text → Bool
every_at [] longer = true
every_at (s ∷ ss) [] = false
every_at (s ∷ ss) (t ∷ ts) = text_eq t s && every_at ss ts

unfoldable pub contain_home : Text → Text → ContainHomeResult
contain_home abs_home abs_tribe_root =
    let home = segments abs_home in
    let root = segments abs_tribe_root in
    if length home == length root && every_at home root
    then is_root
    else if ltb (length root) (length home) && every_at root home
    then contained
    else is_outside
