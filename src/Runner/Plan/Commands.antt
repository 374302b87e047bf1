-- ===== src/Runner/Plan/Commands.antt =====
-- A Done run plans the commands that its tasks ask for, each once (plan-index.ts).
use tribe.Base.{
  ℕ, suc, ◌≡◌, refl, String, Bool, false, ◌||◌, List, [], ◌∷◌, take, includes, str_eq, str_eq_iff,
  str_eq_comm, arith, Bool-cases, inl, inr,
}
use tribe.Runner.Model.{ResolvedTask, PlannedCommand}
use tribe.Runner.Plan.{add_command, add_commands, add_tasks, done_commands_through}

-- The command is among the planned ones.
abbrev pub plans : List PlannedCommand → String → Bool
plans [] c = false
plans (p ∷ ps) c = str_eq p.command c || plans ps c

-- A task of the list asks for the command.
abbrev pub asks : List ResolvedTask → String → Bool
asks [] c = false
asks (t ∷ ts) c = includes t.done_commands c || asks ts c

-- No command is planned twice.
abbrev pub Distinct : List PlannedCommand → Type 0
Distinct [] = Unit
Distinct (p ∷ ps) = (plans ps p.command ≡ false) × Distinct ps

plans-add_command :
    (id d c : String) (ps : List PlannedCommand)
    → plans (add_command id d ps) c ≡ (str_eq d c || plans ps c)
unfolding add_command
plans-add_command id d c [] = refl
plans-add_command id d c (p ∷ ps) =
    ground (arith, plans-add_command id d c ps, str_eq_iff p.command d)

plans-add_commands :
    (id c : String) (cs : List String) (ps : List PlannedCommand)
    → plans (add_commands id cs ps) c ≡ (includes cs c || plans ps c)
unfolding add_commands
plans-add_commands id c [] ps = refl
plans-add_commands id c (d ∷ cs) ps =
    ground (arith, plans-add_commands id c cs (add_command id d ps), plans-add_command id d c ps)

plans-add_tasks :
    (c : String) (ts : List ResolvedTask) (ps : List PlannedCommand)
    → plans (add_tasks ts ps) c ≡ (asks ts c || plans ps c)
unfolding add_tasks
plans-add_tasks c [] ps = refl
plans-add_tasks c (t ∷ ts) ps = ground (
  arith,
  plans-add_tasks c ts (add_commands t.id t.done_commands ps),
  plans-add_commands t.id c t.done_commands ps,
)

add_command-Distinct :
    (id d : String) (ps : List PlannedCommand) → Distinct ps → Distinct (add_command id d ps)
unfolding add_command
add_command-Distinct id d [] h = (refl, tt)
add_command-Distinct id d (p ∷ ps) h = elim (Bool-cases (str_eq p.command d)) [
  | inl e ↦ ground (arith, e, h)
  | inr e ↦ rw e (
    ground (arith, plans-add_command id d p.command ps, str_eq_comm d p.command, e, h.0),
    add_command-Distinct id d ps h.1,
  )
]

add_commands-Distinct :
    (id : String) (cs : List String) (ps : List PlannedCommand)
    → Distinct ps
    → Distinct (add_commands id cs ps)
unfolding add_commands
add_commands-Distinct id [] ps h = h
add_commands-Distinct id (c ∷ cs) ps h =
    add_commands-Distinct id cs (add_command id c ps) (add_command-Distinct id c ps h)

add_tasks-Distinct :
    (ts : List ResolvedTask) (ps : List PlannedCommand) → Distinct ps → Distinct (add_tasks ts ps)
unfolding add_tasks
add_tasks-Distinct [] ps h = h
add_tasks-Distinct (t ∷ ts) ps h =
    add_tasks-Distinct ts _ (add_commands-Distinct t.id t.done_commands ps h)

-- The commands of a Done run through a task are those that this task and the ones before it ask
-- for, and no command is planned twice.
pub done_commands_through_lem :
    (tasks : List ResolvedTask) (n : ℕ)
    → ((c : String) → plans (done_commands_through tasks n) c ≡ asks (take (suc n) tasks) c)
      × Distinct (done_commands_through tasks n)
unfolding done_commands_through
done_commands_through_lem tasks n = (
  λ c. ground (arith, plans-add_tasks c (take (suc n) tasks) []),
  add_tasks-Distinct (take (suc n) tasks) [] tt,
)
