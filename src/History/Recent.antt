-- ===== src/History/Recent.antt =====
-- The exited records that `limit_exited_shell_history` (src/native_runtime.rs) keeps are the most
-- recent ones.
use ferrous_framework.Base.{◌+◌, ◌≡◌, Bool, false, not, List, [], ◌∷◌, keep, All}
use ferrous_framework.Shell.Record.{ShellRecord}
use ferrous_framework.History.Defs.{is_exited, more_recent}
use ferrous_framework.History.Kept.{count}

-- nothing in `xs` is more recent than `r`
abbrev pub Older : ShellRecord → List ShellRecord → Type 0
Older r xs = All (λ x. more_recent x r ≡ false) xs

abbrev Sorted : List ShellRecord → Type 0
Sorted [] = Unit
Sorted (x ∷ xs) = Older x xs × Sorted xs

-- The records of `listed` are the active ones of `records` and the `kept` ones; `kept` and `dropped` are
-- the exited ones of `records`, and nothing dropped is more recent than anything kept.
pub record IsRecent (records listed : List ShellRecord) : Type 0 where
  pub kept : List ShellRecord
  pub dropped : List ShellRecord
  pub listed_are :
      (f : ShellRecord → Bool)
      → count f listed ≡ count f (keep (λ r. not (is_exited r)) records) + count f kept
  pub exited_are :
      (f : ShellRecord → Bool) → count f kept + count f dropped ≡ count f (keep is_exited records)
  pub older : All (λ k. Older k dropped) kept
