-- ===== src/ProcessTree/Plan.antt =====
-- The plan of `shutdown_plan_pids` (src/native_runtime.rs) has the roots and all their descendants, and
-- no other process.
use mathlib.Core.Path.{subst}
use ferrous_framework.Base.{
  ℕ, zero, suc, ◌≤◌, ◌≡◌, refl, sym, ap, ◌∙◌, ◌↔◌, true, false, ◌&&◌, ◌||◌, not, List, [], ◌∷◌,
  ◌==◌, length, arith, All, Bool-cases, inl, inr, ◌⊎◌,
}
use ferrous_framework.ProcessTree.Defs.{
  ProcfsEntry, mem, to_set, sweep, grow, insert_deep, sort_deep, shutdown_plan_pids,
}
use ferrous_framework.ProcessTree.Fresh.{fresh, fresh-length, sweep-fresh, sweep-Within, Within}

abbrev pub Has : ProcfsEntry → List ProcfsEntry → Type 0
Has e [] = ⊥
Has e (x ∷ xs) = (x ≡ e) ⊎ Has e xs

-- the roots and their descendants
pub data InTree (roots : List ℕ) (snapshot : List ProcfsEntry) : ℕ → Type 0 where
  root : (p : ℕ) → mem p roots ≡ true → InTree roots snapshot p
  child :
      (e : ProcfsEntry)
      → Has e snapshot
      → InTree roots snapshot e.ppid
      → InTree roots snapshot e.pid

-- every child of the set is in it
abbrev Closed : List ProcfsEntry → List ℕ → Type 0
Closed es set = All (λ (e : ProcfsEntry). mem e.ppid set ≡ true → mem e.pid set ≡ true) es

Closed-Has :
    (es : List ProcfsEntry) (set : List ℕ) (e : ProcfsEntry)
    → Closed es set
    → Has e es
    → mem e.ppid set ≡ true
    → mem e.pid set ≡ true
Closed-Has [] set e c none_there h = elim none_there [ ]
Closed-Has (x ∷ es) set e c (inl q) h =
    ap (λ (y : ProcfsEntry). mem y.pid set) (sym q)
    ∙ c.0 (ap (λ (y : ProcfsEntry). mem y.ppid set) q ∙ h)
Closed-Has (x ∷ es) set e c (inr later) h = Closed-Has es set e c.1 later h

-- a sweep that changes nothing
sweep-Closed :
    (es : List ProcfsEntry) (set : List ℕ)
    → (sweep es set).1 ≡ false
    → Closed es set × ((sweep es set).0 ≡ set)
unfolding sweep
sweep-Closed [] set h = (tt, refl)
sweep-Closed (e ∷ es) set h = elim (Bool-cases (mem e.ppid set && not (mem e.pid set))) [
  | inl b ↦ absurd (ground arith)
  | inr b ↦
      let (later, same) = sweep-Closed es set (rw b at h) in rw b ((λ q. ground arith, later), same)
]

fresh-zero : (es : List ProcfsEntry) (set : List ℕ) → fresh es set ≡ 0 → Closed es set
unfolding fresh
fresh-zero [] set h = tt
fresh-zero (e ∷ es) set h = (λ q. ground arith, fresh-zero es set (omega arith))

-- enough rounds close the set
grow-Closed :
    (n : ℕ) (snapshot : List ProcfsEntry) (set : List ℕ)
    → fresh snapshot set ≤ n
    → Closed snapshot (grow n snapshot set)
unfolding grow
grow-Closed zero snapshot set h = fresh-zero snapshot set (omega arith)
grow-Closed (suc n) snapshot set h = elim (Bool-cases (sweep snapshot set).1) [
  | inl b ↦
      rw b
        (grow-Closed n snapshot (sweep snapshot set).0 (omega (arith, sweep-fresh snapshot set b)))
  | inr b ↦
      let (closed, same) = sweep-Closed snapshot set b in
      rw b (subst (Closed snapshot) (sym same) closed)
]

grow-Within :
    (n : ℕ) (snapshot : List ProcfsEntry) (set : List ℕ) → Within set (grow n snapshot set)
unfolding grow
grow-Within zero snapshot set p h = h
grow-Within (suc n) snapshot set p h = elim (Bool-cases (sweep snapshot set).1) [
  | inl b ↦ rw b (grow-Within n snapshot (sweep snapshot set).0 p (sweep-Within snapshot set p h))
  | inr b ↦ rw b (sweep-Within snapshot set p h)
]

module _ (roots : List ℕ) (snapshot : List ProcfsEntry) where
  abbrev Sound : List ℕ → Type 0
  Sound set = (p : ℕ) → mem p set ≡ true → InTree roots snapshot p

  Sound-cons : (q : ℕ) (set : List ℕ) → InTree roots snapshot q → Sound set → Sound (q ∷ set)
  unfolding mem
  Sound-cons q set t s p h = elim (Bool-cases (q == p)) [
    | inl b ↦ let same : q ≡ p = ground arith in subst (InTree roots snapshot) same t
    | inr b ↦ s p (ground arith)
  ]

  sweep-Sound :
      (es : List ProcfsEntry) (set : List ℕ)
      → ((e : ProcfsEntry) → Has e es → Has e snapshot)
      → Sound set
      → Sound (sweep es set).0
  unfolding sweep
  sweep-Sound [] set sub s = s
  sweep-Sound (e ∷ es) set sub s = elim (Bool-cases (mem e.ppid set && not (mem e.pid set))) [
    | inl b ↦ rw b (
        sweep-Sound es (e.pid ∷ set) (λ x h. sub x (inr h))
          (Sound-cons e.pid set (child e (sub e (inl refl)) (s e.ppid (ground arith))) s))
    | inr b ↦ rw b (sweep-Sound es set (λ x h. sub x (inr h)) s)
  ]

  grow-Sound : (n : ℕ) (set : List ℕ) → Sound set → Sound (grow n snapshot set)
  unfolding grow
  grow-Sound zero set s = s
  grow-Sound (suc n) set s = elim (Bool-cases (sweep snapshot set).1) [
    | inl b ↦ rw b (grow-Sound n (sweep snapshot set).0 (sweep-Sound snapshot set (λ x h. h) s))
    | inr b ↦ rw b (sweep-Sound snapshot set (λ x h. h) s)
  ]

mem-to_set : (p : ℕ) (ps : List ℕ) → mem p (to_set ps) ≡ mem p ps
unfolding mem to_set
mem-to_set p [] = refl
mem-to_set p (q ∷ ps) = ground (arith, mem-to_set p ps, mem-to_set q ps)

mem-insert_deep :
    (snapshot : List ProcfsEntry) (roots : List ℕ) (p q : ℕ) (qs : List ℕ)
    → mem p (insert_deep snapshot roots q qs) ≡ (q == p || mem p qs)
unfolding mem insert_deep
mem-insert_deep snapshot roots p q [] = refl
mem-insert_deep snapshot roots p q (r ∷ qs) = ground (arith, mem-insert_deep snapshot roots p q qs)

mem-sort_deep :
    (snapshot : List ProcfsEntry) (roots : List ℕ) (p : ℕ) (qs : List ℕ)
    → mem p (sort_deep snapshot roots qs) ≡ mem p qs
unfolding mem sort_deep
mem-sort_deep snapshot roots p [] = refl
mem-sort_deep snapshot roots p (q ∷ qs) =
    mem-insert_deep snapshot roots p q (sort_deep snapshot roots qs)
    ∙ ap (λ b. q == p || b) (mem-sort_deep snapshot roots p qs)

mem-plan :
    (roots : List ℕ) (snapshot : List ProcfsEntry) (p : ℕ)
    → mem p (shutdown_plan_pids roots snapshot)
      ≡ mem p (grow (length snapshot) snapshot (to_set roots))
unfolding shutdown_plan_pids
mem-plan roots snapshot p = mem-sort_deep snapshot (to_set roots) p _

planned :
    (roots : List ℕ) (snapshot : List ProcfsEntry) (p : ℕ)
    → InTree roots snapshot p
    → mem p (grow (length snapshot) snapshot (to_set roots)) ≡ true
planned roots snapshot _ (root q h) =
    grow-Within (length snapshot) snapshot (to_set roots) q (mem-to_set q roots ∙ h)
planned roots snapshot _ (child e h t) =
    Closed-Has snapshot _ e
      (grow-Closed (length snapshot) snapshot (to_set roots) (fresh-length snapshot (to_set roots)))
      h (planned roots snapshot e.ppid t)

-- The plan of `shutdown_plan_pids` has a pid exactly if it is a root or, in the snapshot, a
-- descendant of one: the loop runs until every descendant is there, whatever the order of the
-- snapshot, and takes no other process.
pub shutdown_plan_pids-InTree :
    (roots : List ℕ) (snapshot : List ProcfsEntry) (p : ℕ)
    → (mem p (shutdown_plan_pids roots snapshot) ≡ true) ↔ InTree roots snapshot p
shutdown_plan_pids-InTree roots snapshot p = (
  λ h.
      grow-Sound roots snapshot (length snapshot) (to_set roots)
        (λ q k. root q (sym (mem-to_set q roots) ∙ k)) p (sym (mem-plan roots snapshot p) ∙ h),
  λ t. mem-plan roots snapshot p ∙ planned roots snapshot p t,
)
