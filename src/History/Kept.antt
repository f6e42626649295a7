-- ===== src/History/Kept.antt =====
-- `limit_exited_shell_history` (src/native_runtime.rs) keeps every active record and the most recent of
-- the exited ones.
use ferrous_framework.Base.{
  ℕ, zero, suc, ◌+◌, ◌≤◌, ◌≡◌, refl, sym, ap, ◌∙◌, Bool, false, ◌&&◌, not, List, [], ◌∷◌, ◌++◌,
  if◌then◌else◌, take, keep, length, min, arith, Bool-cases, inl, inr,
}
use ferrous_framework.Shell.Record.{ShellRecord}
use ferrous_framework.History.Defs.{
  max_exited_shells, is_exited, more_recent, id_first, insert_by, sort_by,
  limit_exited_shell_history,
}

-- how many records pass a test
unfoldable pub count : (ShellRecord → Bool) → List ShellRecord → ℕ
count f [] = 0
count f (r ∷ rs) = (if f r then 1 else 0) + count f rs

pub count-append :
    (f : ShellRecord → Bool) (xs ys : List ShellRecord)
    → count f (xs ++ ys) ≡ count f xs + count f ys
unfolding count
count-append f [] ys = omega arith
count-append f (x ∷ xs) ys = omega (arith, count-append f xs ys)

count-insert_by :
    (f : ShellRecord → Bool) (before : ShellRecord → ShellRecord → Bool) (r : ShellRecord)
    (xs : List ShellRecord)
    → count f (insert_by before r xs) ≡ (if f r then 1 else 0) + count f xs
unfolding count insert_by
count-insert_by f before r [] = refl
count-insert_by f before r (x ∷ xs) = ground (arith, count-insert_by f before r xs)

pub count-sort_by :
    (f : ShellRecord → Bool) (before : ShellRecord → ShellRecord → Bool) (xs : List ShellRecord)
    → count f (sort_by before xs) ≡ count f xs
unfolding count sort_by
count-sort_by f before [] = refl
count-sort_by f before (x ∷ xs) =
    omega (arith, count-insert_by f before x (sort_by before xs), count-sort_by f before xs)

count-keep :
    (f g : ShellRecord → Bool) (xs : List ShellRecord)
    → count f (keep g xs) ≡ count (λ r. g r && f r) xs
unfolding count
count-keep f g [] = refl
count-keep f g (x ∷ xs) = ground (arith, count-keep f g xs)

count_cong :
    (f g : ShellRecord → Bool) (xs : List ShellRecord)
    → ((r : ShellRecord) → f r ≡ g r)
    → count f xs ≡ count g xs
unfolding count
count_cong f g [] h = refl
count_cong f g (x ∷ xs) h = let same = h x in ground (arith, count_cong f g xs h)

count-none :
    (f : ShellRecord → Bool) (xs : List ShellRecord)
    → ((r : ShellRecord) → f r ≡ false)
    → count f xs ≡ 0
unfolding count
count-none f [] h = refl
count-none f (x ∷ xs) h = let none_here = h x in ground (arith, count-none f xs h)

count-le :
    (f : ShellRecord → Bool) (n : ℕ) (xs : List ShellRecord) → count f (take n xs) ≤ count f xs
unfolding count
count-le f zero xs = omega arith
count-le f (suc n) [] = omega arith
count-le f (suc n) (x ∷ xs) = omega (arith, count-le f n xs)

count-length : (f : ShellRecord → Bool) (xs : List ShellRecord) → count f xs ≤ length xs
unfolding count
count-length f [] = omega arith
count-length f (x ∷ xs) = ground (arith, count-length f xs)

-- where every record passes
count-every :
    (f : ShellRecord → Bool) (n : ℕ) (xs : List ShellRecord)
    → count f xs ≡ length xs
    → count f (take n xs) ≡ min n (length xs)
unfolding count
count-every f zero xs h = omega arith
count-every f (suc n) [] h = omega arith
count-every f (suc n) (x ∷ xs) h =
    let below = count-length f xs in
    elim (Bool-cases (f x)) [
      | inl b ↦
          let every : count f xs ≡ length xs = ground arith in
          let later = count-every f n xs every in rw b (omega arith)
      | inr b ↦ absurd (ground arith)
    ]

length-insert_by :
    (before : ShellRecord → ShellRecord → Bool) (r : ShellRecord) (xs : List ShellRecord)
    → length (insert_by before r xs) ≡ suc (length xs)
unfolding insert_by
length-insert_by before r [] = refl
length-insert_by before r (x ∷ xs) = ground (arith, length-insert_by before r xs)

length-sort_by :
    (before : ShellRecord → ShellRecord → Bool) (xs : List ShellRecord)
    → length (sort_by before xs) ≡ length xs
unfolding sort_by
length-sort_by before [] = refl
length-sort_by before (x ∷ xs) =
    omega (arith, length-insert_by before x (sort_by before xs), length-sort_by before xs)

length-keep-count :
    (f : ShellRecord → Bool) (xs : List ShellRecord) → length (keep f xs) ≡ count f xs
unfolding count
length-keep-count f [] = refl
length-keep-count f (x ∷ xs) = ground (arith, length-keep-count f xs)

-- the counts of the result
limit-count :
    (f : ShellRecord → Bool) (records : List ShellRecord)
    → count f (limit_exited_shell_history records)
      ≡ count (λ r. not (is_exited r) && f r) records
        + count f (take max_exited_shells (sort_by more_recent (keep is_exited records)))
unfolding limit_exited_shell_history
limit-count f records =
    count-sort_by f id_first _
    ∙ count-append f (keep (λ r. not (is_exited r)) records) _
    ∙ ap (λ n. n + count f (take max_exited_shells (sort_by more_recent (keep is_exited records))))
        (count-keep f (λ r. not (is_exited r)) records)

-- the exited records, the most recent first
abbrev sorted_exited : List ShellRecord → List ShellRecord
sorted_exited records = sort_by more_recent (keep is_exited records)

count-sorted :
    (f : ShellRecord → Bool) (records : List ShellRecord)
    → count f (sorted_exited records) ≡ count (λ r. is_exited r && f r) records
count-sorted f records =
    count-sort_by f more_recent (keep is_exited records) ∙ count-keep f is_exited records

exited-all :
    (records : List ShellRecord)
    → count is_exited (sorted_exited records) ≡ length (sorted_exited records)
exited-all records =
    count-sorted is_exited records
    ∙ count_cong _ is_exited records (λ r. ground arith)
    ∙ sym (length-keep-count is_exited records)
    ∙ sym (length-sort_by more_recent (keep is_exited records))

-- `limit_exited_shell_history` keeps every record that is not exited as often as it was given: by
-- any test, as many of those records pass it afterwards as before.
pub limit_exited_shell_history-active :
    (f : ShellRecord → Bool) (records : List ShellRecord)
    → count (λ r. not (is_exited r) && f r) (limit_exited_shell_history records)
      ≡ count (λ r. not (is_exited r) && f r) records
limit_exited_shell_history-active f records =
    let active : ShellRecord → Bool = λ r. not (is_exited r) && f r in
    let first : count (λ r. not (is_exited r) && active r) records ≡ count active records =
      count_cong _ active records (λ r. ground arith) in
    let second : count active (sorted_exited records) ≡ 0 =
      count-sorted active records ∙ count-none _ records (λ r. ground arith) in
    omega (
      arith,
      limit-count active records,
      first,
      second,
      count-le active max_exited_shells (sorted_exited records),
    )

-- `limit_exited_shell_history` leaves exactly as many exited records as it was given, but no more
-- than `MAX_EXITED_SHELLS`.
pub limit_exited_shell_history-exited :
    (records : List ShellRecord)
    → count is_exited (limit_exited_shell_history records)
      ≡ min max_exited_shells (count is_exited records)
limit_exited_shell_history-exited records =
    let first : count (λ r. not (is_exited r) && is_exited r) records ≡ 0 =
      count-none _ records (λ r. ground arith) in
    let second =
      count-every is_exited max_exited_shells (sorted_exited records) (exited-all records) in
    let size : length (sorted_exited records) ≡ count is_exited records =
      length-sort_by more_recent (keep is_exited records) ∙ length-keep-count is_exited records in
    omega (arith, limit-count is_exited records, first, second, size)
