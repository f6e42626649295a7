-- ===== src/Manager/Reactor.antt =====
-- `check_reactor_children` of src/native_runtime.rs, and `Vec::swap_remove`.
use ferrous_framework.Base.{ℕ, zero, suc, String, Option, none, some, List, [], ◌∷◌, reverse}
use ferrous_framework.Base.Action.{state_of}
use ferrous_framework.Base.Assoc.{lookup}
use ferrous_framework.Shell.Persist.{Host}
use ferrous_framework.Manager.Defs.{
  gone, Manager, Io, persist_record, publish_lifecycle, exited_record, with_shell,
}

-- `ReactorChild`
pub record ReactorChild : Type 0 where
  pub shell_id : String
  pub child : ℕ

-- `try_wait` behind the lock of the child: a lock that is poisoned and a failure are both -1, and so is an
-- exit without a code
pub data Polled : Type 0 where
  alive poisoned failed : Polled
  ended : Option ℕ → Polled

-- -1 as the bit pattern of an i32
abbrev pub unknown_code : ℕ
unknown_code = 4294967295

abbrev pub code_of : Polled → Option ℕ
code_of alive = none
code_of poisoned = some unknown_code
code_of failed = some unknown_code
code_of (ended none) = some unknown_code
code_of (ended (some code)) = some code

-- the first loop: the places of the children that ended, from `index` on, with their codes
unfoldable pub exited_from : (ℕ → Polled) → ℕ → List ReactorChild → List (ℕ × ℕ)
exited_from poll index [] = []
exited_from poll index (c ∷ cs) =
    let later = exited_from poll (suc index) cs in
    elim (code_of (poll c.child)) [ none ↦ later | some code ↦ (index, code) ∷ later ]

-- the last element of `x ∷ xs`, and what stands before it
unfoldable pub split_last {ℓ} : {A : Type ℓ} → A → List A → List A × A
split_last x [] = ([], x)
split_last x (y ∷ ys) = let (before, last) = split_last y ys in (x ∷ before, last)

-- what takes the place of an element that is removed: the last one moves into its place
unfoldable pub close_gap {ℓ} : {A : Type ℓ} → List A → List A
unfolding split_last
close_gap [] = []
close_gap (x ∷ xs) = let (before, last) = split_last x xs in last ∷ before

-- `swap_remove(index)`: `none` is a panic
unfoldable pub swap_remove {ℓ} : {A : Type ℓ} → ℕ → List A → Option (A × List A)
unfolding close_gap
swap_remove index [] = none
swap_remove zero (x ∷ xs) = some (x, close_gap xs)
swap_remove (suc index) (x ∷ xs) = elim (swap_remove index xs) [
  | none ↦ none
  | some (y, rest) ↦ some (y, x ∷ rest)
]

-- What is done to the state for one child: a failure of `persist_record` is ignored.
unfoldable pub note_exit : Host → Io → ReactorChild → ℕ → Manager → Manager
unfolding lookup persist_record publish_lifecycle
note_exit host io c code m = elim (lookup c.shell_id m.entries) [
  | none ↦ m
  | some e ↦
      let shell = exited_record io (some code) e.shell in
      publish_lifecycle gone shell
        (state_of (persist_record host io shell e.record_path (with_shell c.shell_id e shell m)))
]

module _ (host : Host) (poll : ℕ → Polled) (io : ℕ → Io) where
  -- the second loop, over the places from the last to the first; `io` is for one place
  unfoldable pub reap :
      List (ℕ × ℕ) → List ReactorChild → Manager → Option (List ReactorChild × Manager)
  reap [] children m = some (children, m)
  reap ((index, code) ∷ exited) children m = elim (swap_remove index children) [
    | none ↦ none
    | some (c, rest) ↦ reap exited rest (note_exit host (io index) c code m)
  ]

  unfoldable pub check_reactor_children :
      List ReactorChild → Manager → Option (List ReactorChild × Manager)
  unfolding reap exited_from
  check_reactor_children children m = reap (reverse (exited_from poll 0 children)) children m
