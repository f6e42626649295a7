-- ===== src/Base/Action.antt =====
-- `&mut self` methods that return `anyhow::Result`: what was written before an error stays written,
-- so the state comes back beside the error too.
use mathlib.Core.Path.{◌≡◌, refl}
use ferrous_framework.Base.Results.{Result, ok, err}
use mathlib.Core.Logic.{◌⊎◌, inl, inr}
use native.Mathlib.Omega.{arith}

abbrev pub Action {ℓ} : Type ℓ → Type 0 → Type ℓ → Type ℓ
Action S E A = S → Result E A × S

module _ {ℓ} {S A : Type ℓ} {E : Type 0} where
  abbrev pub pure : A → Action S E A
  pure a s = (ok a, s)

  abbrev pub raise : E → Action S E A
  raise e s = (err e, s)

  abbrev pub lift : Result E A → Action S E A
  lift r s = (r, s)

  abbrev pub state_of : Result E A × S → S
  state_of (r, s) = s

  abbrev pub gets : (S → A) → Action S E A
  gets f s = (ok (f s), s)

module _ {S : Type 0} {E : Type 0} where
  abbrev pub modify : (S → S) → Action S E (Unit {0})
  modify f s = (ok tt, f s)

module _ {ℓ} {S A B : Type ℓ} {E : Type 0} where
  abbrev pub continue : Result E A × S → (A → Action S E B) → Result E B × S
  continue (ok a, s) f = f a s
  continue (err e, s) f = (err e, s)

  infixl 10 ◌>>=◌
  abbrev pub ◌>>=◌ : Action S E A → (A → Action S E B) → Action S E B
  ◌>>=◌ m f s = continue (m s) f

module _ {S B : Type 0} {E : Type 0} where
  infixl 10 ◌>>◌
  abbrev pub ◌>>◌ : Action S E (Unit {0}) → Action S E B → Action S E B
  m >> n = m >>= λ _. n

module _ {ℓ} {S A B : Type ℓ} {E : Type 0} where
  -- Inversion of a successful bind.
  pub continue-eq-ok :
      (o : Result E A × S) (f : A → Action S E B) {b : B} {s' : S}
      → continue o f ≡ (ok b, s')
      → (a : A) × (s : S) × (o ≡ (ok a, s)) × (f a s ≡ (ok b, s'))
  continue-eq-ok (ok a, s) f h = (a, s, refl, h)
  continue-eq-ok (err e, s) f h = absurd (ground arith)

  -- A bind fails in its first part or in its second.
  pub continue-eq-err :
      (o : Result E A × S) (f : A → Action S E B) {e : E} {s' : S}
      → continue o f ≡ (err e, s')
      → (o ≡ (err e, s')) ⊎ ((a : A) × (s : S) × (o ≡ (ok a, s)) × (f a s ≡ (err e, s')))
  continue-eq-err (ok a, s) f h = inr (a, s, refl, h)
  continue-eq-err (err e, s) f h = inl (ground arith)

  -- the same, for a proof that goes on with the parts as variables
  pub continue_elim {κ} :
      (P : Type κ) (o : Result E A × S) (f : A → Action S E B) {b : B} {s' : S}
      → continue o f ≡ (ok b, s')
      → ((a : A) (s : S) → o ≡ (ok a, s) → f a s ≡ (ok b, s') → P)
      → P
  continue_elim P (ok a, s) f h go = go a s refl h
  continue_elim P (err e, s) f h go = absurd (ground arith)
