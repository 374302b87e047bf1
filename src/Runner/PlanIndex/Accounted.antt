-- ===== src/Runner/PlanIndex/Accounted.antt =====
-- What becomes of every task reference in `resolveTaskIndex` of plan-index.ts.
use tribe.Base.{◌≡◌, refl, String, List, [], ◌∷◌, map, Text}
use mathlib.Core.List.{cons≢nil}
use tribe.Runner.PlanIndex.{
  Scan, TaskRef, PlannedTask, TaskResolution, resolved, refused, resolve_one, TaskIndexIssue,
  Resolved, collect, resolve_refs, resolve_task_index, scan,
}
use tribe.Runner.PlanIndex.Commands.{Commands, resolve_one-Commands}

-- Every reference, in order, is either a task with its commands or an issue that names it.
pub data Accounts (s : Scan) (card_id : String)
    : List TaskRef → List PlannedTask → List TaskIndexIssue → Type 0 where
  nothing_left : Accounts s card_id [] [] []
  as_task :
      {refs : List TaskRef} {tasks : List PlannedTask} {issues : List TaskIndexIssue}
      (ref : TaskRef) (task : PlannedTask)
      → Commands s ref task
      → Accounts s card_id refs tasks issues
      → Accounts s card_id (ref ∷ refs) (task ∷ tasks) issues
  as_issue :
      {refs : List TaskRef} {tasks : List PlannedTask} {issues : List TaskIndexIssue}
      (ref : TaskRef) (issue : TaskIndexIssue)
      → issue.card_id ≡ card_id
      → issue.task_id ≡ ref.id
      → issue.heading ≡ ref.heading
      → resolve_one s ref ≡ refused issue.problem
      → Accounts s card_id refs tasks issues
      → Accounts s card_id (ref ∷ refs) tasks (issue ∷ issues)

collect-Accounts :
    (s : Scan) (card_id : String) (ref : TaskRef) (refs : List TaskRef) (o : TaskResolution)
    (found : Resolved)
    → resolve_one s ref ≡ o
    → Accounts s card_id refs found.0 found.1
    → let (tasks, issues) = collect card_id ref o found in
      Accounts s card_id (ref ∷ refs) tasks issues
collect-Accounts s card_id ref refs (resolved task) found e a =
    as_task ref task (resolve_one-Commands s ref task e) a
collect-Accounts s card_id ref refs (refused problem) found e a = as_issue ref _ refl refl refl e a

resolve_refs-Accounts :
    (s : Scan) (card_id : String) (refs : List TaskRef)
    → let (tasks, issues) = resolve_refs s card_id refs in Accounts s card_id refs tasks issues
unfolding resolve_refs
resolve_refs-Accounts s card_id [] = nothing_left
resolve_refs-Accounts s card_id (ref ∷ refs) =
    collect-Accounts s card_id ref refs (resolve_one s ref) (resolve_refs s card_id refs) refl
      (resolve_refs-Accounts s card_id refs)

no_issues_ids :
    {s : Scan} {card_id : String} {refs : List TaskRef} {tasks : List PlannedTask}
    {issues : List TaskIndexIssue}
    → Accounts s card_id refs tasks issues
    → issues ≡ []
    → map (λ t. t.id) tasks ≡ map (λ r. r.id) refs
no_issues_ids nothing_left e = refl
no_issues_ids (as_task ref task c a) e = cc (c.same_id, no_issues_ids a e)
no_issues_ids (as_issue ref issue c t h p a) e = absurd (cons≢nil e)

-- `resolveTaskIndex` accounts for every task of a card, in order: it is resolved, with all the
-- commands of its Done block, or an issue with the card's and the task's names says why not; and
-- when there is no issue, the resolved tasks are the card's tasks, one for one.
pub resolve_task_index-Accounts :
    (card_id : String) (refs : List TaskRef) (markdown : Text)
    → let (tasks, issues) = resolve_task_index card_id refs markdown in
      Accounts (scan markdown) card_id refs tasks issues
      × (issues ≡ [] → map (λ t. t.id) tasks ≡ map (λ r. r.id) refs)
unfolding resolve_task_index
resolve_task_index-Accounts card_id refs markdown =
    let accounts = resolve_refs-Accounts (scan markdown) card_id refs in
    (accounts, no_issues_ids accounts)
