-- ===== src/ProcessTree/Protected.antt =====
-- What a shutdown of src/native_runtime.rs never signals: its own process and the ancestors of it.
use ferrous_framework.Base.{
  ℕ, zero, suc, ◌<◌, ◌≡◌, sym, ap, ◌∙◌, Bool, true, false, ◌&&◌, not, none, some, List, [], ◌∷◌,
  ltb, ◌==◌, length, keep, arith, Bool-cases, Option-cases, inl, inr, ◌⊎◌,
}
use ferrous_framework.ProcessTree.Defs.{
  ProcfsEntry, mem, entry_of, protect, protected_process_pids, kill_plan, shutdown_plan_pids,
  normalize_pids,
}
use ferrous_framework.ProcessTree.Fresh.{
  fresh, fresh-length, fresh_antitone, Within, Within-cons, mem_head,
}

-- a process and its ancestors, as far as the snapshot has them
pub data Ancestor (own : ℕ) (snapshot : List ProcfsEntry) : ℕ → Type 0 where
  self : 0 < own → Ancestor own snapshot own
  parent :
      (p : ℕ) (e : ProcfsEntry)
      → Ancestor own snapshot p
      → entry_of p snapshot ≡ some e
      → 0 < e.ppid
      → Ancestor own snapshot e.ppid

-- every process of the set has its parent in it
abbrev Upward : List ProcfsEntry → List ℕ → Type 0
Upward snapshot set =
    (p : ℕ) (e : ProcfsEntry)
    → mem p set ≡ true
    → entry_of p snapshot ≡ some e
    → 0 < e.ppid
    → mem e.ppid set ≡ true

-- the same, but for the last one, whose parent is `current`
abbrev Pending : List ProcfsEntry → List ℕ → ℕ → Type 0
Pending snapshot set current =
    (p : ℕ) (e : ProcfsEntry)
    → mem p set ≡ true
    → entry_of p snapshot ≡ some e
    → 0 < e.ppid
    → (mem e.ppid set ≡ true) ⊎ (e.ppid ≡ current)

-- a process of the snapshot that joins the set
fresh-entry :
    (es : List ProcfsEntry) (p : ℕ) (e : ProcfsEntry) (set : List ℕ)
    → entry_of p es ≡ some e
    → mem p set ≡ false
    → fresh es (p ∷ set) < fresh es set
unfolding entry_of fresh
fresh-entry [] p e set h out = absurd (ground arith)
fresh-entry (x ∷ es) p e set h out = elim (Bool-cases (x.pid == p)) [
  | inl b ↦
      let same : x.pid ≡ p = ground arith in
      let fewer = fresh_antitone es set (p ∷ set) (Within-cons p set) in
      let joined = mem_head p set in rw same (ground arith)
  | inr b ↦
      let fewer = fresh-entry es p e set (ground arith) out in
      let kept = Within-cons p set x.pid in ground arith
]

module _ (snapshot : List ProcfsEntry) (current : ℕ) (set : List ℕ)
    (pending : Pending snapshot set current) where
  -- the last process is in the set already, or there is none
  stays-Upward : (ltb 0 current && not (mem current set)) ≡ false → Upward snapshot set
  stays-Upward done p e h known above = elim (pending p e h known above) [
    | inl q ↦ q
    | inr q ↦ rw q (ground arith)
  ]

  -- The process `current` joins the set.
  joined :
      (p : ℕ) (e : ProcfsEntry)
      → mem p (current ∷ set) ≡ true
      → entry_of p snapshot ≡ some e
      → 0 < e.ppid
      → (p ≡ current) ⊎ (mem e.ppid (current ∷ set) ≡ true)
  unfolding mem
  joined p e h known above = elim (Bool-cases (current == p)) [
    | inl b ↦ inl (ground arith)
    | inr b ↦ inr (elim (pending p e (ground arith) known above) [
      | inl q ↦ ground arith
      | inr q ↦ ground arith
    ])
  ]

  top-Upward : entry_of current snapshot ≡ none → Upward snapshot (current ∷ set)
  top-Upward top p e h known above = elim (joined p e h known above) [
    | inl q ↦ let unknown : entry_of p snapshot ≡ none = rw q top in absurd (ground arith)
    | inr q ↦ q
  ]

  next-Pending :
      (x : ProcfsEntry)
      → entry_of current snapshot ≡ some x
      → Pending snapshot (current ∷ set) x.ppid
  next-Pending x found p e h known above = elim (joined p e h known above) [
    | inl q ↦ let same : entry_of p snapshot ≡ some x = rw q found in inr (ground arith)
    | inr q ↦ inl q
  ]

protect-Upward :
    (n : ℕ) (snapshot : List ProcfsEntry) (current : ℕ) (set : List ℕ)
    → fresh snapshot set < n
    → Pending snapshot set current
    → Upward snapshot (protect n snapshot current set)
unfolding protect
protect-Upward zero snapshot current set enough pending = absurd (omega arith)
protect-Upward (suc n) snapshot current set enough pending =
    elim (Bool-cases (ltb 0 current && not (mem current set))) [
      | inr b ↦ rw (b, protect) (stays-Upward snapshot current set pending b)
      | inl b ↦ elim (Option-cases (entry_of current snapshot)) [
        | inl q ↦ rw (b, q, protect) (top-Upward snapshot current set pending q)
        | inr (x, q) ↦
            let fewer = fresh-entry snapshot current x set q (ground arith) in
            rw (b, q, protect)
              (protect-Upward n snapshot x.ppid (current ∷ set) (omega arith)
                (next-Pending snapshot current set pending x q))
      ]
    ]

protect-Within :
    (n : ℕ) (snapshot : List ProcfsEntry) (current : ℕ) (set : List ℕ)
    → Within set (protect n snapshot current set)
unfolding protect
protect-Within zero snapshot current set p h = h
protect-Within (suc n) snapshot current set p h =
    let more = Within-cons current set p h in
    elim (Bool-cases (ltb 0 current && not (mem current set))) [
      | inr b ↦ rw (b, protect) h
      | inl b ↦ elim (Option-cases (entry_of current snapshot)) [
        | inl q ↦ rw (b, q, protect) more
        | inr (x, q) ↦ rw (b, q, protect) (protect-Within n snapshot x.ppid (current ∷ set) p more)
      ]
    ]

own-protected :
    (own : ℕ) (snapshot : List ProcfsEntry)
    → 0 < own
    → mem own (protected_process_pids own snapshot) ≡ true
unfolding protected_process_pids protect mem
own-protected own snapshot positive = elim (Bool-cases (ltb 0 own && not (mem own []))) [
  | inr b ↦ absurd (ground arith)
  | inl b ↦ elim (Option-cases (entry_of own snapshot)) [
    | inl q ↦ rw (b, q, protect, protected_process_pids) (mem_head own [])
    | inr (x, q) ↦
        rw (b, q, protect, protected_process_pids)
          (protect-Within (length snapshot) snapshot x.ppid (own ∷ []) own (mem_head own []))
  ]
]

protect-Ancestor :
    (own : ℕ) (snapshot : List ProcfsEntry) (p : ℕ)
    → Ancestor own snapshot p
    → mem p (protected_process_pids own snapshot) ≡ true
protect-Ancestor own snapshot _ (self positive) = own-protected own snapshot positive
protect-Ancestor own snapshot _ (parent p e below known above) =
    closed p e (protect-Ancestor own snapshot p below) known above
  where
    closed : Upward snapshot (protected_process_pids own snapshot)
    closed =
        unfold protected_process_pids in
        protect-Upward (suc (length snapshot)) snapshot own []
          (omega (arith, fresh-length snapshot [])) (λ q x h. absurd (unfold mem in ground arith))

mem-keep : (f : ℕ → Bool) (p : ℕ) (ps : List ℕ) → mem p (keep f ps) ≡ true → f p ≡ true
unfolding mem
mem-keep f p [] h = absurd (ground arith)
mem-keep f p (q ∷ ps) h = elim (Bool-cases (f q)) [
  | inr b ↦ mem-keep f p ps (rw b at h)
  | inl b ↦ elim (Bool-cases (q == p)) [
    | inl c ↦ let same : q ≡ p = ground arith in ap f (sym same) ∙ b
    | inr c ↦ mem-keep f p ps (rw (b, c) at h)
  ]
]

-- The pids that a shutdown signals have neither its own process nor an ancestor of it in the
-- snapshot: the loop that collects them reaches every one.
pub kill_plan-Ancestor :
    (own : ℕ) (roots : List ℕ) (snapshot : List ProcfsEntry) (p : ℕ)
    → Ancestor own snapshot p
    → mem p (kill_plan own roots snapshot) ≡ false
unfolding kill_plan
kill_plan-Ancestor own roots snapshot p a =
    elim (Bool-cases (mem p (kill_plan own roots snapshot))) [
      | inr b ↦ b
      | inl b ↦
          let spared =
            mem-keep (λ q. not (mem q (protected_process_pids own snapshot))) p
              (shutdown_plan_pids (normalize_pids roots) snapshot) b in
          let inside = protect-Ancestor own snapshot p a in absurd (ground arith)
    ]
