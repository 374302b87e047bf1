-- ===== src/Runner/PlanIndex/Examples.antt =====
-- The theorems on the task index (plugins/tribe/scripts/runner/core/plan-index.ts) at a plan of two
-- tasks, one of them without a Done section.
use tribe.Base.{◌≡◌, ◌<◌, some, List, [], ◌∷◌, map, length, All, Text, codes}
use tribe.Runner.PlanIndex.{TaskRef, Fence, start, read_lines, scan, resolve_task_index}
use tribe.Runner.PlanIndex.Accounted.{Accounts, resolve_task_index-Accounts}
use tribe.Runner.PlanIndex.Fenced.{Outside, scan-Fenced}

abbrev plan : Text
plan =
    codes
      "# Plan\n## Build ##\n### Done\n```sh\n# comment\n  go build \n\ngo vet\n```\n## Test\n~~~\n### Done\n~~~\n"

abbrev refs : List TaskRef
refs =
    record { id = "T1"; heading = codes "Build" }
    ∷ record { id = "T2"; heading = codes "Test" }
    ∷ []

resolve_task_index-Accounts_example :
    let (tasks, issues) = resolve_task_index "C1" refs plan in
    Accounts (scan plan) "C1" refs tasks issues
    × (issues ≡ [] → map (λ t. t.id) tasks ≡ map (λ r. r.id) refs)
resolve_task_index-Accounts_example = resolve_task_index-Accounts "C1" refs plan

scan-Fenced_example :
    let s = scan plan in
    All (λ h. h.line < length s.lines) s.headings
    × All (λ f. (f.0 < f.1) × (f.1 < length s.lines)) s.fence_closes
    × All (λ h. All (Outside h.line) s.fence_closes) s.headings
    × ((f : Fence)
        → (read_lines start 0 s.lines).current ≡ some f
        → All (λ h. h.line < f.line) s.headings)
scan-Fenced_example = scan-Fenced plan
