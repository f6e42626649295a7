-- ===== src/ShellSpec/Total.antt =====
-- The rendering of a value of src/shellspec.rs ends, and keeps its form.
use ferrous_framework.Base.{
  ℕ, ◌≡◌, ◌⊎◌, refl, sym, ◌∙◌, String, str_eq, Option, none, some, List, [], ◌∷◌, Result, ok, err,
  inl, inr, Bool-cases,
}
use ferrous_framework.Base.Action.{Action, continue}
use ferrous_framework.Json.{
  Value, null, bool, number, string, array, object, Items, nil, cons, Fields, end, field,
}
use ferrous_framework.Shell.Names.{trim}
use ferrous_framework.ShellSpec.Template.{
  Error, no_free_port, RenderInput, Render, RenderState, port_of, take_port, resolve_template_key,
  render_string, render_value, render_items, render_fields,
}
use ferrous_framework.ShellSpec.Printed.{Tail, fill}
use ferrous_framework.ShellSpec.Split.{render_string-total}

-- the same value, apart from its texts
unfoldable mutual
  pub SameForm : Value → Value → Type 0
  SameForm (string s) (string t) = Unit
  SameForm (array xs) (array ys) = SameItems xs ys
  SameForm (object fs) (object gs) = SameFields fs gs
  SameForm v w = v ≡ w

  pub SameItems : Items → Items → Type 0
  SameItems nil nil = Unit
  SameItems (cons x xs) (cons y ys) = SameForm x y × SameItems xs ys
  SameItems xs ys = ⊥

  pub SameFields : Fields → Fields → Type 0
  SameFields end end = Unit
  SameFields (field k v fs) (field j w gs) = (k ≡ j) × SameForm v w × SameFields fs gs
  SameFields fs gs = ⊥

-- a port that was chosen is kept, and the only port that is chosen is the one that was found
abbrev pub Keeps : Render → RenderState → RenderState → Type 0
Keeps r before after = (after ≡ before) ⊎ ((before ≡ none) × (after ≡ r.free_port))

-- a rendering succeeds, with `P` of what it returns, or it fails because no port is free
abbrev pub Ends :
    {A : Type 0} → Render → (A → Type 0) → RenderState → Result Error A × RenderState → Type 0
Ends r P before (ok a, after) = P a × Keeps r before after
Ends r P before (err e, after) = (e ≡ no_free_port) × (r.free_port ≡ none)

Keeps-trans : (r : Render) (s t u : RenderState) → Keeps r s t → Keeps r t u → Keeps r s u
Keeps-trans r s t u (inl e) (inl f) = inl (f ∙ e)
Keeps-trans r s t u (inl e) (inr (f, g)) = inr (sym e ∙ f, g)
Keeps-trans r s t u (inr (e, f)) (inl g) = inr (e, g ∙ f)
Keeps-trans r s t u (inr (e, f)) (inr (g, h)) = inr (e, h)

Ends-later :
    {A : Type 0} (r : Render) (P : A → Type 0) (s t : RenderState)
    (o : Result Error A × RenderState)
    → Keeps r s t
    → Ends r P t o
    → Ends r P s o
Ends-later r P s t (ok a, u) k (p, l) = (p, Keeps-trans r s t u k l)
Ends-later r P s t (err e, u) k h = h

continue-Ends :
    {A B : Type 0} (r : Render) (P : A → Type 0) (Q : B → Type 0) (s : RenderState)
    (o : Result Error A × RenderState) (f : A → Action RenderState Error B)
    → Ends r P s o
    → ((a : A) (t : RenderState) → P a → Ends r Q t (f a t))
    → Ends r Q s (continue o f)
continue-Ends r P Q s (ok a, t) f (p, k) g = Ends-later r Q s t (f a t) k (g a t p)
continue-Ends r P Q s (err e, t) f h g = h

module _ (r : Render) (input : RenderInput) where
  port_of-Ends :
      (p : Option ℕ) → r.free_port ≡ p → Ends r (λ text. Unit {0}) none (port_of r input p none)
  port_of-Ends none h = (refl, h)
  port_of-Ends (some port) h = (tt, inr (refl, sym h))

  take_port-Ends : (s : RenderState) → Ends r (λ text. Unit {0}) s (take_port r input s)
  take_port-Ends none = port_of-Ends r.free_port refl
  take_port-Ends (some port) = (tt, inl refl)

  resolve-Ends :
      (key : String) (s : RenderState)
      → Ends r (λ text. Unit {0}) s (resolve_template_key r input key s)
  unfolding resolve_template_key
  resolve-Ends key s = elim (Bool-cases (str_eq key "")) [
    | inl e ↦ rw (e, resolve_template_key) (tt, inl refl)
    | inr e ↦ elim (Bool-cases (str_eq key "free_port")) [
      | inl f ↦ rw (e, f, resolve_template_key) (take_port-Ends s)
      | inr f ↦ rw (e, f, resolve_template_key) (tt, inl refl)
    ]
  ]

  fill-Ends :
      (holes : List (String × String)) (tail : Tail) (s : RenderState)
      → Ends r (λ text. Unit {0}) s (fill r input holes tail s)
  unfolding fill
  fill-Ends [] tail s = (tt, inl refl)
  fill-Ends ((text, key) ∷ holes) tail s =
      continue-Ends r (λ _. Unit {0}) (λ _. Unit {0}) s (resolve_template_key r input (trim key) s)
        _ (resolve-Ends (trim key) s)
        λ value t _.
          continue-Ends r (λ _. Unit {0}) (λ _. Unit {0}) t (fill r input holes tail t) _
            (fill-Ends holes tail t) λ rest u _. (tt, inl refl)

  render_string-Ends :
      (value : String) (s : RenderState)
      → Ends r (λ text. Unit {0}) s (render_string r input value s)
  render_string-Ends value s =
      let (holes, tail, same, good, eq) = render_string-total r input value s in
      rw eq (fill-Ends holes tail s)

  mutual
    unfolding render_value SameForm

    value_renders : (v : Value) (s : RenderState) → Ends r (SameForm v) s (render_value r input v s)
    value_renders (string text) s =
        continue-Ends r (λ _. Unit {0}) (SameForm (string text)) s (render_string r input text s) _
          (render_string-Ends text s) (λ t u _. (tt, inl refl))
    value_renders (array xs) s =
        continue-Ends r (SameItems xs) (SameForm (array xs)) s (render_items r input xs s) _
          (items_render xs s) (λ ys u same. (same, inl refl))
    value_renders (object fs) s =
        continue-Ends r (SameFields fs) (SameForm (object fs)) s (render_fields r input fs s) _
          (fields_render fs s) (λ gs u same. (same, inl refl))
    value_renders null s = (refl, inl refl)
    value_renders (bool b) s = (refl, inl refl)
    value_renders (number n) s = (refl, inl refl)

    items_render :
        (xs : Items) (s : RenderState) → Ends r (SameItems xs) s (render_items r input xs s)
    items_render nil s = (tt, inl refl)
    items_render (cons x xs) s =
        continue-Ends r (SameForm x) (SameItems (cons x xs)) s (render_value r input x s) _
          (value_renders x s)
          λ y t one.
            continue-Ends r (SameItems xs) (SameItems (cons x xs)) t (render_items r input xs t) _
              (items_render xs t) (λ ys u rest. ((one, rest), inl refl))

    fields_render :
        (fs : Fields) (s : RenderState) → Ends r (SameFields fs) s (render_fields r input fs s)
    fields_render end s = (tt, inl refl)
    fields_render (field k v fs) s =
        continue-Ends r (SameForm v) (SameFields (field k v fs)) s (render_value r input v s) _
          (value_renders v s)
          λ w t one.
            continue-Ends r (SameFields fs) (SameFields (field k v fs)) t
              (render_fields r input fs t) _ (fields_render fs t)
              (λ gs u rest. ((refl, one, rest), inl refl))

  -- `render_value` ends on every value: it returns a value of the same form, in which only texts
  -- may differ, and keeps a port that was chosen before or chooses the one that is found, or it
  -- fails because no port is free, which happens only when none is.
  pub render_value-Ends :
      (v : Value) (s : RenderState) → Ends r (SameForm v) s (render_value r input v s)
  render_value-Ends v s = value_renders v s
