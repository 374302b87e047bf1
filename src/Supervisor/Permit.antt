-- ===== src/Supervisor/Permit.antt =====
-- plugins/tribe/scripts/runner/core/supervisor/permit.ts: which tools a ruling session may use, and
-- where it may write. `realpath` is the host's; it answers `none` where it throws.
pub mod Ancestors
pub mod Resolved
pub mod Inside
pub mod Contained
mod Examples
use tribe.Base.{
  ℕ, zero, suc, String, Bool, true, false, not, ◌&&◌, ◌||◌, Option, none, some, List, [], ◌∷◌, ◌++◌,
  take, drop, length, str_eq, includes, if◌then◌else◌, Text, text_eq,
}
use tribe.Base.Paths.{slash, segments, join, is_absolute, normalize}
use tribe.Watchdog.Home.{ContainHomeResult, contained, is_root, is_outside, contain_home}

abbrev pub is_ok : ContainHomeResult → Bool
is_ok contained = true
is_ok _ = false

unfoldable pub contain_path : Text → Text → Bool
contain_path target home_dir =
    if not (is_absolute target) || not (is_absolute home_dir)
    then false
    else is_ok (contain_home (normalize target) home_dir)

-- The tool's name and `tool_input.file_path`, empty texts for what is missing.
pub record HookEvent : Type 0 where
  pub tool_name : String
  pub file_path : Text

pub data DeniedReason : Type 0 where
  containment_denied not_granted : DeniedReason
  closing_not_granted : List String → DeniedReason

-- `{}`, no opinion, or `deny(reason)`.
pub data HookDecision : Type 0 where
  no_opinion : HookDecision
  deny : DeniedReason → HookDecision

abbrev pub is_read : String → Bool
is_read tool = str_eq tool "Read" || str_eq tool "Grep" || str_eq tool "Glob"

abbrev pub is_write : String → Bool
is_write tool = str_eq tool "Write" || str_eq tool "Edit"

abbrev pub is_empty_text : Text → Bool
is_empty_text [] = true
is_empty_text (c ∷ t) = false

unfoldable pub decide_containment_hook : Text → HookEvent → HookDecision
decide_containment_hook home_dir event =
    if is_read event.tool_name
    then no_opinion
    else if str_eq event.tool_name "Skill"
    then no_opinion
    else if is_write event.tool_name
    then (if not (is_empty_text event.file_path) && contain_path event.file_path home_dir
        then no_opinion
        else deny containment_denied)
    else deny not_granted

-- `suffix ? `${resolved}${sep}${suffix}` : resolved`.
abbrev pub with_suffix : Text → Text → Text
with_suffix resolved [] = resolved
with_suffix resolved (c ∷ suffix) = resolved ++ slash ∷ c ∷ suffix

module _ (realpath : Text → Option Text) where
  -- The loop of `resolveExistingAncestor`, at `cut`.
  unfoldable pub climb : List Text → Text → ℕ → Text → Option Text
  climb segs target zero candidate = elim (realpath candidate) [
    | none ↦ none
    | some resolved ↦
        if text_eq resolved candidate then some target else some (with_suffix resolved (join segs))
  ]
  climb segs target (suc cut) candidate =
      let parent = slash ∷ join (take cut segs) in
      let higher = climb segs target cut parent in
      elim (realpath candidate) [
        | none ↦ none
        | some resolved ↦
            if not (text_eq resolved candidate)
            then some (with_suffix resolved (join (drop (suc cut) segs)))
            else if text_eq parent candidate
            then some target
            else higher
      ]

  unfoldable pub resolve_existing_ancestor : Text → Option Text
  resolve_existing_ancestor target =
      climb (segments target) target (length (segments target)) target

  abbrev pub decide_resolved : Text → HookEvent → Option Text → HookDecision
  decide_resolved home_dir event none = deny containment_denied
  decide_resolved home_dir event (some path) =
      decide_containment_hook home_dir (record event { file_path = path })

  unfoldable pub build_containment_hook : Text → HookEvent → HookDecision
  build_containment_hook home_dir event =
      if not (is_write event.tool_name)
      then decide_containment_hook home_dir event
      else if is_empty_text event.file_path || not (is_absolute event.file_path)
      then deny containment_denied
      else decide_resolved home_dir event (resolve_existing_ancestor event.file_path)

unfoldable pub decide_closing_grant_hook : List String → String → HookDecision
decide_closing_grant_hook granted_tools tool_name =
    if not (str_eq tool_name "") && includes granted_tools tool_name
    then no_opinion
    else deny (closing_not_granted granted_tools)
