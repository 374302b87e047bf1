-- ===== src/Runner/PlanIndex.antt =====
-- `scan`, `resolveOne` and `resolveTaskIndex` of plugins/tribe/scripts/runner/core/plan-index.ts: the
-- tasks of a card with the Done commands that its plan gives them. The three regular expressions are
-- written out as functions on the characters of a line.
pub mod Fenced
pub mod Accounted
pub mod Commands
mod Examples
use tribe.Base.{
  ℕ, zero, suc, ◌+◌, ◌-◌, String, Bool, true, false, not, ◌&&◌, ◌||◌, Option, none, some, List, [],
  ◌∷◌, ◌++◌, map, ltb, leb, ◌==◌, length, take, drop, keep, find, if◌then◌else◌, Text, codes,
  text_eq, starts_with, is_space, split_on, span, trim_end, trim,
}

pub record Heading : Type 0 where
  pub level : ℕ
  pub text : Text
  pub line : ℕ

-- A fence that is open: its character, how long its marker is and where it stands.
pub record Fence : Type 0 where
  pub char : ℕ
  pub marker : ℕ
  pub line : ℕ

pub record Scan : Type 0 where
  pub lines : List Text
  pub headings : List Heading
  pub fence_opens : List ℕ
  pub fence_closes : List (ℕ × ℕ)

-- `.` matches none of these characters.
abbrev pub is_terminator : ℕ → Bool
is_terminator c = c == 10 || c == 13 || c == 8232 || c == 8233

abbrev pub no_terminator : Text → Bool
no_terminator [] = true
no_terminator (c ∷ s) = not (is_terminator c) && no_terminator s

abbrev pub is_nil : Text → Bool
is_nil [] = true
is_nil (c ∷ s) = false

-- The text in front of the `#`s that may end a heading, if white space divides them from it.
unfoldable pub before_closing : Text → Option Text
before_closing [] = none
before_closing (c ∷ s) =
    let later = before_closing s in
    if is_space c && is_closing (span is_space s).1 then some [] else longer c later
  where
    is_closing : Text → Bool
    is_closing [] = false
    is_closing (d ∷ t) = is_nil (span (λ e. e == b'#') (d ∷ t)).1

    longer : ℕ → Option Text → Option Text
    longer c none = none
    longer c (some t) = some (c ∷ t)

-- `(.*?)(?:\s+#+)?\s*$`, on what stands behind the white space of a heading.
unfoldable pub heading_text : Text → Option Text
heading_text rest =
    checked (elim (before_closing (trim_end rest)) [ none ↦ trim_end rest | some text ↦ text ])
  where
    checked : Text → Option Text
    checked text = if no_terminator text then some text else none

abbrev pub with_level : ℕ → ℕ → Option Text → Option Heading
with_level i level none = none
with_level i level (some text) = some (record { level = level; text = trim text; line = i })

-- `HEADING_RE.exec(line)`.
unfoldable pub heading_at : ℕ → Text → Option Heading
heading_at i line =
    let (marks, rest) = span (λ c. c == b'#') line in
    let (spaces, text) = span is_space rest in
    if ltb 0 (length marks) && leb (length marks) 6 && ltb 0 (length spaces)
    then with_level i (length marks) (heading_text text)
    else none

-- `FENCE_OPEN_RE.exec(line)`.
unfoldable pub fence_at : ℕ → Text → Option Fence
fence_at i line =
    let (spaces, rest) = span (λ c. c == b' ') line in
    let ticks = length (span (λ c. c == b'`') rest).0 in
    let tildes = length (span (λ c. c == b'~') rest).0 in
    if ltb 3 (length spaces)
    then none
    else if leb 3 ticks
    then some (record { char = b'`'; marker = ticks; line = i })
    else if leb 3 tildes
    then some (record { char = b'~'; marker = tildes; line = i })
    else none

-- `close.test(line)`.
unfoldable pub closes : Fence → Text → Bool
closes fence line =
    let (spaces, rest) = span (λ c. c == b' ') line in
    let (marks, behind) = span (λ c. c == fence.char) rest in
    leb (length spaces) 3 && leb fence.marker (length marks) && is_nil (span is_space behind).1

-- The variables of the loop over the lines.
pub record Reading : Type 0 where
  pub headings : List Heading
  pub fence_opens : List ℕ
  pub fence_closes : List (ℕ × ℕ)
  pub current : Option Fence

abbrev pub start : Reading
start = record { headings = []; fence_opens = []; fence_closes = []; current = none }

abbrev pub close_at : Reading → Fence → ℕ → Reading
close_at r fence i = record r {
  fence_closes = r.fence_closes ++ (fence.line, i) ∷ [];
  current = none;
}

abbrev pub add_heading : Reading → Option Heading → Reading
add_heading r none = r
add_heading r (some h) = record r { headings = r.headings ++ h ∷ [] }

-- A line outside of every fence.
abbrev pub read_outside : Reading → ℕ → Text → Option Fence → Reading
read_outside r i line (some fence) = record r {
  fence_opens = r.fence_opens ++ i ∷ [];
  current = some fence;
}
read_outside r i line none = add_heading r (heading_at i line)

abbrev pub read_in : Option Fence → Reading → ℕ → Text → Reading
read_in (some fence) r i line = if closes fence line then close_at r fence i else r
read_in none r i line = read_outside r i line (fence_at i line)

unfoldable pub read_lines : Reading → ℕ → List Text → Reading
read_lines r i [] = r
read_lines r i (line ∷ lines) = read_lines (read_in r.current r i line) (suc i) lines

unfoldable pub scan : Text → Scan
scan markdown =
    let lines = split_on 10 markdown in
    let r = read_lines start 0 lines in
    record {
      lines = lines;
      headings = r.headings;
      fence_opens = r.fence_opens;
      fence_closes = r.fence_closes;
    }

pub data TaskIndexProblem : Type 0 where
  dangling_heading duplicate_heading missing_done ambiguous_done missing_done_block :
      TaskIndexProblem
  unclosed_done_block empty_done continuation_not_supported : TaskIndexProblem

pub record TaskRef : Type 0 where
  pub id : String
  pub heading : Text

-- `ResolvedTask`, its texts as characters.
pub record PlannedTask : Type 0 where
  pub id : String
  pub heading : Text
  pub done_commands : List Text

pub data TaskResolution : Type 0 where
  resolved : PlannedTask → TaskResolution
  refused : TaskIndexProblem → TaskResolution

-- `text.toLowerCase() === 'done'`; no character but `D`, `O`, `N` and `E` becomes one of `done`.
abbrev pub lower : ℕ → ℕ
lower c = if leb b'A' c && leb c b'Z' then c + 32 else c

abbrev pub is_done_text : Text → Bool
is_done_text text = text_eq (map lower text) (codes "done")

-- `headings.find(…)?.line ?? otherwise`.
abbrev pub line_or : Option Heading → ℕ → ℕ
line_or none otherwise = otherwise
line_or (some h) otherwise = h.line

unfoldable pub section_end : Scan → Heading → ℕ
section_end s task =
    line_or (find (λ h. ltb task.line h.line && leb h.level task.level) s.headings) (length s.lines)

unfoldable pub in_section : Scan → Heading → List Heading
in_section s task = keep (λ h. ltb task.line h.line && ltb h.line (section_end s task)) s.headings

unfoldable pub block_limit : Scan → Heading → Heading → ℕ
block_limit s task done =
    line_or (find (λ h. ltb done.line h.line) (in_section s task)) (section_end s task)

abbrev pub has_line : List ℕ → ℕ → Bool
has_line [] i = false
has_line (j ∷ js) i = j == i || has_line js i

-- The loop from line `i` over the next `count` lines.
unfoldable pub first_open : List ℕ → ℕ → ℕ → Option ℕ
first_open opens i zero = none
first_open opens i (suc count) =
    let later = first_open opens (suc i) count in if has_line opens i then some i else later

-- `s.fenceCloses.get(openLine)`; every fence is closed once.
unfoldable pub close_of : List (ℕ × ℕ) → ℕ → Option ℕ
close_of [] i = none
close_of ((o, c) ∷ more) i = if o == i then some c else close_of more i

abbrev pub is_comment : Text → Bool
is_comment line = is_nil line || starts_with line (codes "#")

unfoldable pub ends_with_backslash : Text → Bool
ends_with_backslash [] = false
ends_with_backslash (c ∷ []) = c == b'\\'
ends_with_backslash (c ∷ d ∷ s) = ends_with_backslash (d ∷ s)

abbrev pub prepend : Text → Option (List Text) → Option (List Text)
prepend line none = none
prepend line (some commands) = some (line ∷ commands)

-- The commands of the lines of a Done block; `none` at a continuation.
unfoldable pub read_commands : List Text → Option (List Text)
read_commands [] = some []
read_commands (raw ∷ body) =
    let rest = read_commands body in
    if is_comment (trim raw)
    then rest
    else if ends_with_backslash (trim raw)
    then none
    else prepend (trim raw) rest

abbrev pub resolve_commands : TaskRef → Option (List Text) → TaskResolution
resolve_commands ref none = refused continuation_not_supported
resolve_commands ref (some []) = refused empty_done
resolve_commands ref (some (c ∷ cs)) =
    resolved (record { id = ref.id; heading = ref.heading; done_commands = c ∷ cs })

-- `s.lines.slice(openLine + 1, closeLine)`.
abbrev pub block_body : Scan → ℕ → ℕ → List Text
block_body s opened closed = take (closed - suc opened) (drop (suc opened) s.lines)

abbrev pub resolve_block : Scan → TaskRef → Option ℕ → TaskResolution
resolve_block s ref none = refused missing_done_block
resolve_block s ref (some opened) = elim (close_of s.fence_closes opened) [
  | none ↦ refused unclosed_done_block
  | some closed ↦ resolve_commands ref (read_commands (block_body s opened closed))
]

abbrev pub resolve_done : Scan → TaskRef → Heading → List Heading → TaskResolution
resolve_done s ref task [] = refused missing_done
resolve_done s ref task (done ∷ []) =
    let first = suc done.line in
    resolve_block s ref (first_open s.fence_opens first (block_limit s task done - first))
resolve_done s ref task (done ∷ other ∷ more) = refused ambiguous_done

unfoldable pub done_headings : Scan → Heading → List Heading
done_headings s task = keep (λ h. ltb task.level h.level && is_done_text h.text) (in_section s task)

abbrev pub resolve_heading : Scan → TaskRef → List Heading → TaskResolution
resolve_heading s ref [] = refused dangling_heading
resolve_heading s ref (task ∷ []) = resolve_done s ref task (done_headings s task)
resolve_heading s ref (task ∷ other ∷ more) = refused duplicate_heading

unfoldable pub matches : Scan → TaskRef → List Heading
matches s ref = keep (λ h. text_eq h.text ref.heading) s.headings

unfoldable pub resolve_one : Scan → TaskRef → TaskResolution
resolve_one s ref = resolve_heading s ref (matches s ref)

pub record TaskIndexIssue : Type 0 where
  pub card_id : String
  pub task_id : String
  pub heading : Text
  pub problem : TaskIndexProblem

abbrev pub Resolved : Type 0
Resolved = List PlannedTask × List TaskIndexIssue

abbrev pub collect : String → TaskRef → TaskResolution → Resolved → Resolved
collect card_id ref (resolved task) (tasks, issues) = (task ∷ tasks, issues)
collect card_id ref (refused problem) (tasks, issues) = (
  tasks,
  record { card_id = card_id; task_id = ref.id; heading = ref.heading; problem = problem } ∷ issues,
)

-- The loop over the task references.
unfoldable pub resolve_refs : Scan → String → List TaskRef → Resolved
resolve_refs s card_id [] = ([], [])
resolve_refs s card_id (ref ∷ refs) =
    collect card_id ref (resolve_one s ref) (resolve_refs s card_id refs)

unfoldable pub resolve_task_index : String → List TaskRef → Text → Resolved
resolve_task_index card_id refs plan_markdown = resolve_refs (scan plan_markdown) card_id refs
