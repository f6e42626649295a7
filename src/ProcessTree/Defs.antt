-- ===== src/ProcessTree/Defs.antt =====
-- `normalize_pids`, `protected_process_pids`, `shutdown_plan_pids` and `process_depth` of
-- src/native_runtime.rs. A pid is a natural number: the code treats every i64 that is not positive as
-- it treats 0. A `HashSet` is a list without an order that matters; a snapshot is its values.
use ferrous_framework.Base.{
  ℕ, zero, suc, Bool, false, ◌&&◌, ◌||◌, not, Option, none, some, List, [], ◌∷◌, ltb, leb, ◌==◌,
  if◌then◌else◌, length, keep,
}

pub record ProcfsEntry : Type 0 where
  pub pid : ℕ
  pub ppid : ℕ
  pub state : ℕ

-- `set.contains(&p)`
unfoldable pub mem : ℕ → List ℕ → Bool
mem p [] = false
mem p (x ∷ xs) = x == p || mem p xs

-- `snapshot.get(&p)`
unfoldable pub entry_of : ℕ → List ProcfsEntry → Option ProcfsEntry
entry_of p [] = none
entry_of p (e ∷ es) = let later = entry_of p es in if e.pid == p then some e else later

-- `collect::<HashSet<_>>()`
unfoldable pub to_set : List ℕ → List ℕ
to_set [] = []
to_set (p ∷ ps) = let rest = to_set ps in if mem p rest then rest else p ∷ rest

-- `sort_unstable`
unfoldable pub insert_pid : ℕ → List ℕ → List ℕ
insert_pid p [] = p ∷ []
insert_pid p (q ∷ qs) = let later = insert_pid p qs in if leb p q then p ∷ q ∷ qs else q ∷ later

unfoldable pub sort_pids : List ℕ → List ℕ
sort_pids [] = []
sort_pids (p ∷ ps) = insert_pid p (sort_pids ps)

-- `dedup`: a pid that equals the one before it goes
unfoldable pub dedup : List ℕ → List ℕ
dedup [] = []
dedup (p ∷ []) = p ∷ []
dedup (p ∷ q ∷ qs) = let rest = dedup (q ∷ qs) in if p == q then rest else p ∷ rest

unfoldable pub normalize_pids : List ℕ → List ℕ
normalize_pids pids = dedup (sort_pids (keep (ltb 0) pids))

abbrev pub up : Option ProcfsEntry → (ℕ → List ℕ) → List ℕ → List ℕ
up none go set = set
up (some e) go set = go e.ppid

-- The `while` loop of `protected_process_pids`. Every round but the last takes another process of the
-- snapshot, so one round more than the snapshot has processes is enough.
unfoldable pub protect : ℕ → List ProcfsEntry → ℕ → List ℕ → List ℕ
protect zero snapshot current set = set
protect (suc rounds) snapshot current set =
    if ltb 0 current && not (mem current set)
    then up (entry_of current snapshot) (λ p. protect rounds snapshot p (current ∷ set))
        (current ∷ set)
    else set

unfoldable pub protected_process_pids : ℕ → List ProcfsEntry → List ℕ
protected_process_pids own snapshot = protect (suc (length snapshot)) snapshot own []

-- the `for` loop of `shutdown_plan_pids`: the set, and `changed`
unfoldable pub sweep : List ProcfsEntry → List ℕ → List ℕ × Bool
sweep [] selected = (selected, false)
sweep (e ∷ es) selected =
    let adds = mem e.ppid selected && not (mem e.pid selected) in
    let later = sweep es (if adds then e.pid ∷ selected else selected) in (later.0, adds || later.1)

-- The `loop` around it. Every round that changes the set adds a process of the snapshot.
unfoldable pub grow : ℕ → List ProcfsEntry → List ℕ → List ℕ
grow zero snapshot selected = selected
grow (suc rounds) snapshot selected =
    let round = sweep snapshot selected in
    let later = grow rounds snapshot round.0 in if round.1 then later else round.0

abbrev climb : Option ProcfsEntry → (ℕ → ℕ) → ℕ
climb none go = 0
climb (some e) go = suc (go e.ppid)

unfoldable pub depth_from : ℕ → List ProcfsEntry → List ℕ → ℕ → List ℕ → ℕ
depth_from zero snapshot roots current seen = 0
depth_from (suc rounds) snapshot roots current seen =
    if not (mem current roots) && not (mem current seen)
    then climb (entry_of current snapshot)
        (λ p. depth_from rounds snapshot roots p (current ∷ seen))
    else 0

unfoldable pub process_depth : ℕ → List ProcfsEntry → List ℕ → ℕ
process_depth pid snapshot roots = depth_from (suc (length snapshot)) snapshot roots pid []

-- does `p` stand before `q`: the deeper one, and of two as deep the greater one
unfoldable pub goes_first : List ProcfsEntry → List ℕ → ℕ → ℕ → Bool
goes_first snapshot roots p q =
    let dp = process_depth p snapshot roots in
    let dq = process_depth q snapshot roots in ltb dq dp || dq == dp && leb q p

module _ (snapshot : List ProcfsEntry) (roots : List ℕ) where
  -- `plan.sort_by`
  unfoldable pub insert_deep : ℕ → List ℕ → List ℕ
  insert_deep p [] = p ∷ []
  insert_deep p (q ∷ qs) =
      let later = insert_deep p qs in
      if goes_first snapshot roots p q then p ∷ q ∷ qs else q ∷ later

  unfoldable pub sort_deep : List ℕ → List ℕ
  sort_deep [] = []
  sort_deep (p ∷ ps) = insert_deep p (sort_deep ps)

unfoldable pub shutdown_plan_pids : List ℕ → List ProcfsEntry → List ℕ
shutdown_plan_pids root_pids snapshot =
    let roots = to_set root_pids in sort_deep snapshot roots (grow (length snapshot) snapshot roots)

-- `kill_plan`: the plan of the normalized roots without the protected pids
unfoldable pub kill_plan : ℕ → List ℕ → List ProcfsEntry → List ℕ
kill_plan own root_pids snapshot =
    let protected = protected_process_pids own snapshot in
    keep (λ p. not (mem p protected)) (shutdown_plan_pids (normalize_pids root_pids) snapshot)
