-- ===== src/ProcessTree/Fresh.antt =====
-- The measure of the loops of src/native_runtime.rs over a snapshot: how many of its processes are not
-- in a set yet.
use ferrous_framework.Base.{
  ℕ, ◌+◌, ◌≤◌, ◌<◌, ◌≡◌, true, ◌&&◌, not, List, [], ◌∷◌, if◌then◌else◌, length, arith, Bool-cases,
  inl, inr,
}
use ferrous_framework.ProcessTree.Defs.{ProcfsEntry, mem, sweep}

unfoldable pub fresh : List ProcfsEntry → List ℕ → ℕ
fresh [] set = 0
fresh (e ∷ es) set = (if mem e.pid set then 0 else 1) + fresh es set

abbrev pub Within : List ℕ → List ℕ → Type 0
Within s t = (p : ℕ) → mem p s ≡ true → mem p t ≡ true

pub fresh-length : (es : List ProcfsEntry) (set : List ℕ) → fresh es set ≤ length es
unfolding fresh
fresh-length [] set = omega arith
fresh-length (e ∷ es) set = ground (arith, fresh-length es set)

pub fresh_antitone : (es : List ProcfsEntry) (s t : List ℕ) → Within s t → fresh es t ≤ fresh es s
unfolding fresh
fresh_antitone [] s t h = omega arith
fresh_antitone (e ∷ es) s t h = ground (arith, fresh_antitone es s t h, h e.pid)

pub Within-cons : (p : ℕ) (s : List ℕ) → Within s (p ∷ s)
unfolding mem
Within-cons p s q h = ground arith

pub sweep-Within : (es : List ProcfsEntry) (s : List ℕ) → Within s (sweep es s).0
unfolding sweep
sweep-Within [] s p h = h
sweep-Within (e ∷ es) s p h = elim (Bool-cases (mem e.ppid s && not (mem e.pid s))) [
  | inl b ↦ rw b (sweep-Within es (e.pid ∷ s) p (Within-cons e.pid s p h))
  | inr b ↦ rw b (sweep-Within es s p h)
]

pub mem_head : (p : ℕ) (s : List ℕ) → mem p (p ∷ s) ≡ true
unfolding mem
mem_head p s = ground arith

-- A sweep that changes the set adds a process.
pub sweep-fresh :
    (es : List ProcfsEntry) (s : List ℕ)
    → (sweep es s).1 ≡ true
    → fresh es (sweep es s).0 < fresh es s
unfolding sweep fresh
sweep-fresh [] s h = absurd (ground arith)
sweep-fresh (e ∷ es) s h = elim (Bool-cases (mem e.ppid s && not (mem e.pid s))) [
  | inl b ↦
      let inside = sweep-Within es (e.pid ∷ s) e.pid (mem_head e.pid s) in
      let fewer =
        fresh_antitone es s (sweep es (e.pid ∷ s)).0
          (λ p q. sweep-Within es (e.pid ∷ s) p (Within-cons e.pid s p q)) in
      rw b (ground arith)
  | inr b ↦
      let fewer = sweep-fresh es s (rw b at h) in
      let one = sweep-Within es s e.pid in rw b (ground (arith, one))
]
