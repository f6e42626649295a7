-- ===== src/Manager/Reaped.antt =====
-- What one round of the reactor over its children does (`check_reactor_children` of src/native_runtime.rs).
use ferrous_framework.Base.{
  ℕ, suc, ◌≡◌, refl, ap, sym, none, some, List, [], ◌∷◌, ◌++◌, append_assoc, ◌∙◌, inl, inr,
  Option-cases, length, length-append, arith,
}
use mathlib.Core.List.{reverse_aux, Perm, perm_append_singleton}
use mathlib.Core.List.Perm
use ferrous_framework.Shell.Persist.{Host}
use ferrous_framework.Manager.Defs.{Manager, Io}
use ferrous_framework.Manager.Reactor.{
  ReactorChild, Polled, code_of, exited_from, split_last, close_gap, swap_remove, note_exit, reap,
  check_reactor_children,
}

module _ {ℓ} {A : Type ℓ} where
  swap_remove-append :
      (xs : List A) (y : A) (ys : List A)
      → swap_remove (length xs) (xs ++ y ∷ ys) ≡ some (y, xs ++ close_gap ys)
  unfolding swap_remove
  swap_remove-append [] y ys = refl
  swap_remove-append (x ∷ xs) y ys = rw (swap_remove-append xs y ys) refl

  split_last-append :
      (x : A) (xs : List A) → (split_last x xs).0 ++ (split_last x xs).1 ∷ [] ≡ x ∷ xs
  unfolding split_last
  split_last-append x [] = refl
  split_last-append x (y ∷ ys) = ap (◌∷◌ x) (split_last-append y ys)

  last_first :
      (before : List A) (last : A) {whole : List A}
      → before ++ last ∷ [] ≡ whole
      → Perm (last ∷ before) whole
  last_first before last e = rw (sym e) (Perm.symm (perm_append_singleton last before))

  close_gap-Perm : (xs : List A) → Perm (close_gap xs) xs
  unfolding close_gap
  close_gap-Perm [] = Perm.refl []
  close_gap-Perm (x ∷ xs) =
      last_first (split_last x xs).0 (split_last x xs).1 (split_last-append x xs)

module _ (poll : ℕ → Polled) where
  -- the children that did not end, in their order
  unfoldable pub survivors : List ReactorChild → List ReactorChild
  survivors [] = []
  survivors (c ∷ cs) =
      let later = survivors cs in
      elim (code_of (poll c.child)) [ none ↦ c ∷ later | some code ↦ later ]

  -- the list that the removals leave
  unfoldable pub left_over : List ReactorChild → List ReactorChild
  unfolding close_gap
  left_over [] = []
  left_over (c ∷ cs) =
      let later = left_over cs in
      elim (code_of (poll c.child)) [ none ↦ c ∷ later | some code ↦ close_gap later ]

  left_over-Perm : (cs : List ReactorChild) → Perm (left_over cs) (survivors cs)
  unfolding left_over survivors
  left_over-Perm [] = Perm.refl []
  left_over-Perm (c ∷ cs) = elim (Option-cases (code_of (poll c.child))) [
    | inl e ↦ rw (e, survivors, left_over) (Perm.cons c (left_over-Perm cs))
    | inr (code, e) ↦
        rw (e, survivors, left_over)
          (Perm.trans (close_gap-Perm (left_over cs)) (left_over-Perm cs))
  ]

module _ (host : Host) (poll : ℕ → Polled) (io : ℕ → Io) where
  -- the exits of the children from the place `index` on, the last of them first
  unfoldable pub note_exits : ℕ → List ReactorChild → Manager → Manager
  note_exits index [] m = m
  note_exits index (c ∷ cs) m =
      let later = note_exits (suc index) cs m in
      elim (code_of (poll c.child)) [
        | none ↦ later
        | some code ↦ note_exit host (io index) c code later
      ]

  reap-at :
      (before : List ReactorChild) (c : ReactorChild) (behind : List ReactorChild) (code : ℕ)
      (more : List (ℕ × ℕ)) (m : Manager)
      → reap host poll io ((length before, code) ∷ more) (before ++ c ∷ behind) m
        ≡ reap host poll io more
            (before ++ close_gap behind)
            (note_exit host (io (length before)) c code m)
  unfolding reap
  reap-at before c behind code more m = rw (reap, swap_remove-append before c behind) refl

  -- the round from the place `index` on, where `whole` is the list of the children so far
  reap-exited_from :
      (before cs : List ReactorChild) (index : ℕ) (whole : List ReactorChild) (more : List (ℕ × ℕ))
      (m : Manager)
      → index ≡ length before
      → whole ≡ before ++ cs
      → reap host poll io (reverse_aux (exited_from poll index cs) more) whole m
        ≡ reap host poll io more (before ++ left_over poll cs) (note_exits index cs m)
  unfolding reap exited_from left_over note_exits
  reap-exited_from before [] index whole more m at w = rw w refl
  reap-exited_from before (c ∷ cs) index whole more m at w =
      let len : suc index ≡ length (before ++ c ∷ []) =
        omega (arith, at, length-append before (c ∷ [])) in
      let list : whole ≡ (before ++ c ∷ []) ++ cs = w ∙ sym (append_assoc before (c ∷ []) cs) in
      let rest = reap-exited_from (before ++ c ∷ []) cs (suc index) whole in
      let joined = append_assoc before (c ∷ []) (left_over poll cs) in
      elim (Option-cases (code_of (poll c.child))) [
        | inl e ↦ rw (e, exited_from, left_over, note_exits) (rest more m len list ∙ rw joined refl)
        | inr (code, e) ↦
            rw (e, exited_from, left_over, note_exits)
              (rest ((index, code) ∷ more) m len list
                ∙ rw (joined, at)
                    (reap-at before c (left_over poll cs) code more
                      (note_exits (suc (length before)) cs m)))
      ]

  -- A round of `check_reactor_children` never removes outside its list, keeps exactly the children
  -- that did not end, in some order, and leaves the manager as if the exits of the others had been
  -- noted one by one, the last child first.
  pub check_reactor_children-survivors :
      (children : List ReactorChild) (m : Manager)
      → (rest : List ReactorChild) × (check_reactor_children host poll io children m
          ≡ some (rest, note_exits 0 children m))
        × Perm rest (survivors poll children)
  unfolding check_reactor_children
  check_reactor_children-survivors children m = (
    left_over poll children,
    reap-exited_from [] children 0 children [] m refl refl,
    left_over-Perm poll children,
  )
