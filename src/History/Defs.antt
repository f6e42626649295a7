-- ===== src/History/Defs.antt =====
-- `limit_exited_shell_history` of src/native_runtime.rs.
use ferrous_framework.Base.{
  ℕ, Bool, true, false, ◌&&◌, ◌||◌, not, List, [], ◌∷◌, ◌++◌, ltb, ◌==◌, if◌then◌else◌, take, keep,
}
use ferrous_framework.LogProjection.Pointer.{str_lt}
use ferrous_framework.Shell.Record.{running, exited, ShellRecord}

abbrev pub max_exited_shells : ℕ
max_exited_shells = 50

abbrev pub is_exited : ShellRecord → Bool
is_exited r = elim r.status [ exited ↦ true | running ↦ false ]

-- does `a` stand strictly before `b` in the order of the exited records
unfoldable pub more_recent : ShellRecord → ShellRecord → Bool
more_recent a b =
    ltb b.updated_at_ms a.updated_at_ms
    || a.updated_at_ms == b.updated_at_ms
      && (ltb b.created_at_ms a.created_at_ms
          || a.created_at_ms == b.created_at_ms && str_lt a.id b.id)

unfoldable pub id_first : ShellRecord → ShellRecord → Bool
id_first a b = str_lt a.id b.id

-- `sort_by`, which is stable: `r` stands before the records that do not stand before it
unfoldable pub insert_by :
    (ShellRecord → ShellRecord → Bool) → ShellRecord → List ShellRecord → List ShellRecord
insert_by before r [] = r ∷ []
insert_by before r (x ∷ xs) =
    let later = insert_by before r xs in if before x r then x ∷ later else r ∷ x ∷ xs

unfoldable pub sort_by : (ShellRecord → ShellRecord → Bool) → List ShellRecord → List ShellRecord
sort_by before [] = []
sort_by before (r ∷ rs) = insert_by before r (sort_by before rs)

unfoldable pub limit_exited_shell_history : List ShellRecord → List ShellRecord
limit_exited_shell_history records =
    let active = keep (λ r. not (is_exited r)) records in
    let gone = keep is_exited records in
    sort_by id_first (active ++ take max_exited_shells (sort_by more_recent gone))
