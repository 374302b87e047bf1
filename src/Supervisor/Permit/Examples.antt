-- ===== src/Supervisor/Permit/Examples.antt =====
-- The theorems on a ruling session's permits (plugins/tribe/scripts/runner/core/supervisor/permit.ts)
-- and on the campaign home (core/watchdog/args.ts) at concrete paths.
use tribe.Base.{◌≡◌, ◌↔◌, Option, some, Text, codes, text_eq, if◌then◌else◌}
use tribe.Base.Paths.{segments}
use tribe.Watchdog.Home.{contained, contain_home}
use tribe.Watchdog.Home.Beneath.{IsBeneath, contain_home-IsBeneath}
use tribe.Supervisor.Permit.{HookEvent}

abbrev home : Text
home = codes "/h/c"

-- `/h/c/out` is a symbolic link to `/tmp`.
abbrev realpath : Text → Option Text
realpath path = some (if text_eq path (codes "/h/c/out") then codes "/tmp" else path)

abbrev write_out : HookEvent
write_out = record { tool_name = "Write"; file_path = codes "/h/c/out/x" }

contain_home-IsBeneath_example :
    (contain_home (codes "/h/c-old") home ≡ contained)
    ↔ IsBeneath (segments home) (segments (codes "/h/c-old"))
contain_home-IsBeneath_example = contain_home-IsBeneath (codes "/h/c-old") home
