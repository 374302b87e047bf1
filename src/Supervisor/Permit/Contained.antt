-- ===== src/Supervisor/Permit/Contained.antt =====
-- What the containment hook of supervisor/permit.ts lets through.
use tribe.Base.{◌≡◌, ◌⊎◌, String, Bool, true, false, Option}
use tribe.Supervisor.Permit.{HookDecision, no_opinion, deny}

abbrev pub IsReader : String → Type 0
IsReader tool = (tool ≡ "Read") ⊎ (tool ≡ "Grep") ⊎ (tool ≡ "Glob") ⊎ (tool ≡ "Skill")

abbrev pub IsWriter : String → Type 0
IsWriter tool = (tool ≡ "Write") ⊎ (tool ≡ "Edit")

abbrev is_denied : HookDecision → Bool
is_denied no_opinion = false
is_denied (deny reason) = true
