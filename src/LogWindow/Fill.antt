-- ===== src/LogWindow/Fill.antt =====
-- The loop of `window` (src/log_window.rs), forwards and backwards.
use mathlib.Core.Path.{subst}
use mathlib.Core.List.{reverse-append}
use ferrous_framework.Base.{
  ℕ, zero, suc, ◌+◌, ◌≤◌, ◌≡◌, refl, ap, sym, ◌∙◌, Bool, true, false, List, [], ◌∷◌, ◌++◌, reverse,
  arith, Result, ok, err, inl, inr, ◌⊎◌, Bool-cases, ltb, >>=_elim, if◌then◌else◌,
}
use ferrous_framework.LogIndex.Defs.{Codec, Error, budget_too_small, World, LineIndex}
use ferrous_framework.LogProjection.Defs.{RecordProjection}
use ferrous_framework.LogWindow.Defs.{LogWindow, Projector}
use ferrous_framework.LogWindow.Ops.{
  record_at, extend, undo, over_budget, fill, range_from, is_empty,
}
use ferrous_framework.LogWindow.Spanned.{
  IsAt, Spanned, record_at-IsAt, extend-forward, extend-backward, undo-extend,
}

range_from_snoc : (o n : ℕ) → range_from o (suc n) ≡ range_from o n ++ (o + n) ∷ []
unfolding range_from
range_from_snoc o zero = ap (λ k. k ∷ []) (omega arith)
range_from_snoc o (suc n) =
    ap (◌∷◌ o) (range_from_snoc (suc o) n ∙ ap (λ k. range_from (suc o) n ++ k ∷ []) (omega arith))

pub reverse_range : (o n : ℕ) → reverse (range_from o (suc n)) ≡ (o + n) ∷ reverse (range_from o n)
reverse_range o n =
    ap reverse (range_from_snoc o n) ∙ reverse-append (range_from o n) ((o + n) ∷ [])

over_budget-eq :
    (backward : Bool) (start stop o : ℕ) (r : RecordProjection) (win : LogWindow) {win' : LogWindow}
    → over_budget backward win (extend backward start stop o r win) ≡ ok win'
    → win' ≡ win
unfolding over_budget
over_budget-eq backward start stop o r win {win'} h =
    kept (undo backward win (extend backward start stop o r win))
      (undo-extend backward start stop o r win) h
  where
    kept :
        (u : LogWindow)
        → u ≡ win
        → (if is_empty u.records then err budget_too_small else ok u) ≡ ok win'
        → win' ≡ win
    kept u e q = ground arith

ok_injective : {a b : LogWindow} → ◌≡◌ {A = Result Error LogWindow} (ok a) (ok b) → a ≡ b
ok_injective h = ground arith

-- The window is empty, or its serialization is within the budget.
abbrev pub Fits : Projector → ℕ → LogWindow → Type 0
Fits p max_bytes win = (win.records ≡ []) ⊎ ((n : ℕ) × (p.serialized win ≡ ok n) × (n ≤ max_bytes))

module _ (p : Projector) (w : World) (codec : Codec) (s : LineIndex) (total : ℕ) where
  -- One round: the window is left as it was, or extended and within the budget.
  fill_round :
      (backward : Bool) (start stop max_bytes t o : ℕ) (os : List ℕ) (win : LogWindow)
      {win' : LogWindow} (P : Type 0)
      → fill p w codec s backward start stop max_bytes t (o ∷ os) win ≡ ok win'
      → (win' ≡ win → P)
      → ((r : RecordProjection)
          → IsAt p w codec s o r
          → Fits p max_bytes (extend backward start stop o r win)
          → fill p w codec s backward start stop max_bytes
              (t + 4)
              os
              (extend backward start stop o r win)
            ≡ ok win'
          → P)
      → P
  unfolding fill
  fill_round backward start stop max_bytes t o os win P h stays grows =
      >>=_elim P (record_at p w codec s t o) _ h λ r at h1.
        >>=_elim P (p.serialized (extend backward start stop o r win)) _ h1 λ n size h2.
          elim (Bool-cases (ltb max_bytes n)) [
            | inl over ↦ stays (over_budget-eq backward start stop o r win (rw over at h2))
            | inr under ↦
                grows r (record_at-IsAt p w codec s t o at) (inr (n, size, ground arith))
                  (rw under at h2)
          ]

  -- where the loop may end, forwards up to `limit` and backwards down to it
  abbrev Forward : ℕ → ℕ → ℕ → LogWindow → Type 0
  Forward start max_bytes limit win =
      Spanned p w codec s total win × Fits p max_bytes win × (win.start ≡ start) × (win.end ≤ limit)

  abbrev Backward : ℕ → ℕ → ℕ → LogWindow → Type 0
  Backward stop max_bytes limit win =
      Spanned p w codec s total win × Fits p max_bytes win × (win.end ≡ stop) × (limit ≤ win.start)

  pub fill-Forward :
      (n start stop max_bytes t o : ℕ) (win : LogWindow) {win' : LogWindow}
      → Spanned p w codec s total win
      → Fits p max_bytes win
      → win.start ≡ start
      → win.end ≡ o
      → o + n ≤ total
      → fill p w codec s false start stop max_bytes t (range_from o n) win ≡ ok win'
      → Forward start max_bytes (o + n) win'
  unfolding range_from extend
  fill-Forward zero start stop max_bytes t o win {win'} inv fits from to le h =
      unfold fill in
      subst (Forward start max_bytes (o + 0)) (ok_injective h) (inv, fits, from, omega arith)
  fill-Forward (suc n) start stop max_bytes t o win {win'} inv fits from to le h =
      fill_round false start stop max_bytes t o (range_from (suc o) n) win
        (Forward start max_bytes (o + suc n) win') h
        (λ e. subst (Forward start max_bytes (o + suc n)) (sym e) (inv, fits, from, omega arith))
        λ r at fits' rest.
          let inv' : Spanned p w codec s total (extend false start stop o r win) =
            subst (λ k. Spanned p w codec s total (extend false start stop k r win)) to
              (extend-forward p w codec s total start stop win inv r from (omega arith)
                (subst (λ k. IsAt p w codec s k r) (sym to) at)) in
          let later : Forward start max_bytes (suc o + n) win' =
            fill-Forward n start stop max_bytes (t + 4) (suc o) (extend false start stop o r win)
              inv' fits' refl (omega arith) (omega arith) rest in
          (later.0, later.1, later.2, omega (arith, later.3))

  pub fill-Backward :
      (n start stop max_bytes t o : ℕ) (win : LogWindow) {win' : LogWindow}
      → Spanned p w codec s total win
      → Fits p max_bytes win
      → win.start ≡ o + n
      → win.end ≡ stop
      → fill p w codec s true start stop max_bytes t (reverse (range_from o n)) win ≡ ok win'
      → Backward stop max_bytes o win'
  unfolding range_from extend
  fill-Backward zero start stop max_bytes t o win {win'} inv fits from to h =
      unfold fill in subst (Backward stop max_bytes o) (ok_injective h) (inv, fits, to, omega arith)
  fill-Backward (suc n) start stop max_bytes t o win {win'} inv fits from to h =
      fill_round true start stop max_bytes t (o + n) (reverse (range_from o n)) win
        (Backward stop max_bytes o win') (rw reverse_range at h)
        (λ e. subst (Backward stop max_bytes o) (sym e) (inv, fits, to, omega arith))
        λ r at fits' rest.
          fill-Backward n start stop max_bytes (t + 4) o (extend true start stop (o + n) r win)
            (extend-backward p w codec s total start stop win inv (o + n) r to (omega arith) at)
            fits' refl refl rest
