-- ===== src/Examples/History.antt =====
-- One running shell and one that exited.
use ferrous_framework.Base.{◌≡◌, List, [], ◌∷◌, min}
use ferrous_framework.Shell.Record.{exited, ShellRecord}
use ferrous_framework.History.Defs.{max_exited_shells, is_exited, limit_exited_shell_history}
use ferrous_framework.History.Kept.{count, limit_exited_shell_history-exited}
use ferrous_framework.Examples.Shell.{worker}

abbrev shells : List ShellRecord
shells = record worker { id = "w-2"; status = exited } ∷ worker ∷ []

limit_exited_shell_history-exited_example :
    count is_exited (limit_exited_shell_history shells)
    ≡ min max_exited_shells (count is_exited shells)
limit_exited_shell_history-exited_example = limit_exited_shell_history-exited shells
