-- ===== src/Runner/PlanIndex/Commands.antt =====
-- What a task that `resolveOne` of plan-index.ts resolves is made of.
use tribe.Base.{
  ◌≡◌, ◌≢◌, ◌<◌, ◌+◌, refl, sym, ap, ◌∙◌, subst, ℕ, zero, suc, ◌-◌, Bool, true, false, not, Option,
  none, some, List, [], ◌∷◌, map, keep, ◌==◌, All, Text, trim, Bool-cases, Option-cases, inl, inr,
  arith,
}
use mathlib.Core.Bool.{false≢true}
use mathlib.Core.Option.{none-ne-some, some-injective}
use mathlib.Core.List.{cons≢nil}
use tribe.Runner.PlanIndex.{
  continuation_not_supported, empty_done, missing_done_block, unclosed_done_block, missing_done,
  ambiguous_done, dangling_heading, duplicate_heading, Heading, Scan, TaskRef, PlannedTask,
  TaskResolution, resolved, refused, is_comment, has_line, first_open, close_of,
  ends_with_backslash, read_commands, resolve_commands, block_body, block_limit, resolve_block,
  resolve_done, done_headings, resolve_heading, matches, resolve_one,
}

-- A command is not empty, no comment, and does not continue on the next line.
pub record IsCommand (line : Text) : Type 0 where
  pub no_comment : is_comment line ≡ false
  pub ends : ends_with_backslash line ≡ false

-- The trimmed lines of a block that are no comments.
abbrev pub commands_in : List Text → List Text
commands_in body = keep (λ line. not (is_comment line)) (map trim body)

-- Where the commands of a task stand, and that they are all of them.
pub record Commands (s : Scan) (ref : TaskRef) (task : PlannedTask) : Type 0 where
  pub heading : Heading
  pub done : Heading
  pub opened : ℕ
  pub closed : ℕ
  pub same_id : task.id ≡ ref.id
  pub same_heading : task.heading ≡ ref.heading
  pub only_heading : matches s ref ≡ heading ∷ []
  pub only_done : done_headings s heading ≡ done ∷ []
  pub opens : has_line s.fence_opens opened ≡ true
  pub behind_done : done.line < opened
  pub first_opened :
      (line : ℕ) → done.line < line → line < opened → has_line s.fence_opens line ≡ false
  pub before_limit : opened < block_limit s heading done
  pub closes_there : close_of s.fence_closes opened ≡ some closed
  pub every_command : task.done_commands ≡ commands_in (block_body s opened closed)
  pub some_command : task.done_commands ≢ []
  pub are_commands : All IsCommand task.done_commands

abbrev is_resolved : TaskResolution → Bool
is_resolved (resolved task) = true
is_resolved (refused problem) = false

not_refused :
    {A : Type 0} {task : PlannedTask} (r : TaskResolution)
    → is_resolved r ≡ false
    → r ≡ resolved task
    → A
not_refused r e q = absurd (false≢true (sym e ∙ ap is_resolved q))

read_commands_lem :
    (body commands : List Text)
    → read_commands body ≡ some commands
    → (commands ≡ commands_in body) × All IsCommand commands
unfolding read_commands
read_commands_lem [] commands e =
    (sym (some-injective [] commands e), subst (All IsCommand) (some-injective [] commands e) tt)
read_commands_lem (raw ∷ body) commands e = elim (Bool-cases (is_comment (trim raw))) [
  | inl c ↦ rw c (read_commands_lem body commands (rw c at e))
  | inr c ↦ rw c (elim (Bool-cases (ends_with_backslash (trim raw))) [
    | inl b ↦ absurd (none-ne-some commands (rw (c, b) at e))
    | inr b ↦ elim (Option-cases (read_commands body)) [
      | inl n ↦ absurd (none-ne-some commands (rw (c, b, n) at e))
      | inr (rest, r) ↦
          let all : trim raw ∷ rest ≡ commands =
            some-injective (trim raw ∷ rest) commands (rw (c, b, r) at e) in
          let (same, good) = read_commands_lem body rest r in
          (
            sym all ∙ ap (λ cs. trim raw ∷ cs) same,
            subst (All IsCommand) all (record { no_comment = c; ends = b }, good),
          )
    ]
  ])
]

nothing_between : (i j found : ℕ) → i ≡ found → i < suc j → j < found → ⊥
nothing_between i j found e low high = omega arith

first_open_lem :
    (opens : List ℕ) (i count found : ℕ)
    → first_open opens i count ≡ some found
    → (has_line opens found ≡ true)
      × (i < suc found)
      × (found < i + count)
      × ((j : ℕ) → i < suc j → j < found → has_line opens j ≡ false)
unfolding first_open
first_open_lem opens i zero found e = absurd (none-ne-some found e)
first_open_lem opens i (suc count) found e = elim (Bool-cases (has_line opens i)) [
  | inl h ↦
      let here : i ≡ found = some-injective i found (rw h at e) in
      (
        ap (has_line opens) (sym here) ∙ h,
        ground (arith, here),
        ground (arith, here),
        λ j low high. absurd (nothing_between i j found here low high),
      )
  | inr h ↦
      let (has, low, high, earlier) = first_open_lem opens (suc i) count found (rw h at e) in
      (
        has,
        omega arith,
        omega arith,
        λ j from to. elim (Bool-cases (i == j)) [
          | inl q ↦ subst (λ k. has_line opens k ≡ false) (ground (arith, q)) h
          | inr q ↦ earlier j (ground (arith, q, from)) to
        ],
      )
]

abbrev task_of : PlannedTask → TaskResolution → PlannedTask
task_of otherwise (resolved task) = task
task_of otherwise (refused problem) = otherwise

resolve_commands_lem :
    (ref : TaskRef) (task : PlannedTask) (o : Option (List Text))
    → resolve_commands ref o ≡ resolved task
    → (o ≡ some task.done_commands)
      × (task.done_commands ≢ [])
      × (task.id ≡ ref.id)
      × (task.heading ≡ ref.heading)
resolve_commands_lem ref task none e = not_refused (refused continuation_not_supported) refl e
resolve_commands_lem ref task (some []) e = not_refused (refused empty_done) refl e
resolve_commands_lem ref task (some (c ∷ cs)) e =
    let same : record { id = ref.id; heading = ref.heading; done_commands = c ∷ cs } ≡ task =
      ap (task_of task) e in
    (
      ap (λ t. some t.done_commands) same,
      λ q. cons≢nil (ap (λ t. t.done_commands) same ∙ q),
      sym (ap (λ t. t.id) same),
      sym (ap (λ t. t.heading) same),
    )

resolve_block_lem :
    (s : Scan) (ref : TaskRef) (task : PlannedTask) (o : Option ℕ)
    → resolve_block s ref o ≡ resolved task
    → (opened : ℕ) × (closed : ℕ) × (o ≡ some opened)
      × (close_of s.fence_closes opened ≡ some closed)
      × (resolve_commands ref (read_commands (block_body s opened closed)) ≡ resolved task)
resolve_block_lem s ref task none e = not_refused (refused missing_done_block) refl e
resolve_block_lem s ref task (some opened) e =
    elim (Option-cases (close_of s.fence_closes opened)) [
      | inl n ↦ not_refused (refused unclosed_done_block) refl (rw (n, resolve_block) at e)
      | inr (closed, c) ↦ (opened, closed, refl, c, rw (c, resolve_block) at e)
    ]

resolve_done_lem :
    (s : Scan) (ref : TaskRef) (task : PlannedTask) (heading : Heading) (ds : List Heading)
    → resolve_done s ref heading ds ≡ resolved task
    → (done : Heading) × (ds ≡ done ∷ [])
      × (resolve_block s ref
            (first_open s.fence_opens (suc done.line) (block_limit s heading done - suc done.line))
          ≡ resolved task)
resolve_done_lem s ref task heading [] e = not_refused (refused missing_done) refl e
resolve_done_lem s ref task heading (done ∷ []) e = (done, refl, e)
resolve_done_lem s ref task heading (done ∷ other ∷ more) e =
    not_refused (refused ambiguous_done) refl e

resolve_heading_lem :
    (s : Scan) (ref : TaskRef) (task : PlannedTask) (hs : List Heading)
    → resolve_heading s ref hs ≡ resolved task
    → (heading : Heading) × (hs ≡ heading ∷ [])
      × (resolve_done s ref heading (done_headings s heading) ≡ resolved task)
resolve_heading_lem s ref task [] e = not_refused (refused dangling_heading) refl e
resolve_heading_lem s ref task (h ∷ []) e = (h, refl, e)
resolve_heading_lem s ref task (h ∷ other ∷ more) e = not_refused (refused duplicate_heading) refl e

-- A task that `resolveOne` resolves is the one asked for: exactly one heading of the plan has its
-- text, exactly one Done heading stands in its section, and its commands are, in order, all the
-- trimmed lines that are neither empty nor comments of the first fenced block between that heading
-- and the next one, which is closed. There is at least one, and none continues on the next line.
pub resolve_one-Commands :
    (s : Scan) (ref : TaskRef) (task : PlannedTask)
    → resolve_one s ref ≡ resolved task
    → Commands s ref task
unfolding resolve_one
resolve_one-Commands s ref task e =
    let (heading, only_heading, e1) = resolve_heading_lem s ref task (matches s ref) e in
    let (done, only_done, e2) = resolve_done_lem s ref task heading (done_headings s heading) e1 in
    let first = suc done.line in
    let limit = block_limit s heading done in
    let (opened, closed, found, closes_there, e3) =
      resolve_block_lem s ref task (first_open s.fence_opens first (limit - first)) e2 in
    let (opens, low, high, earlier) =
      first_open_lem s.fence_opens first (limit - first) opened found in
    let (read, some_command, same_id, same_heading) =
      resolve_commands_lem ref task (read_commands (block_body s opened closed)) e3 in
    let (every_command, are_commands) =
      read_commands_lem (block_body s opened closed) task.done_commands read in
    record {
      heading = heading;
      done = done;
      opened = opened;
      closed = closed;
      same_id = same_id;
      same_heading = same_heading;
      only_heading = only_heading;
      only_done = only_done;
      opens = opens;
      behind_done = omega arith;
      first_opened = λ line from to. earlier line (omega arith) to;
      before_limit = omega arith;
      closes_there = closes_there;
      every_command = every_command;
      some_command = some_command;
      are_commands = are_commands;
    }
