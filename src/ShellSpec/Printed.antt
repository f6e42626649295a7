-- ===== src/ShellSpec/Printed.antt =====
-- What the templates of src/shellspec.rs are, and their rendering as one pass over them.
use ferrous_framework.Base.{
  ℕ, zero, suc, ◌+◌, ◌<◌, ◌≤◌, ◌≡◌, refl, ap, ◌∙◌, String, none, some, List, [], ◌∷◌, Result, ok,
  err, length, All, arith, inl, inr, Option-cases,
}
use ferrous_framework.Base.Action.{Action, continue, pure}
use ferrous_framework.LogProjection.Pointer.{concat}
use ferrous_framework.Shell.Names.{trim}
use ferrous_framework.ShellSpec.Template.{
  Error, RenderInput, Render, RenderState, find_open, find_close, char_count, resolve_template_key,
  render_loop, render_string,
}

-- the end of a text: without a hole, or with one that is not closed
pub data Tail : Type 0 where
  plain : String → Tail
  unclosed : String → String → Tail

unfoldable pub print_tail : Tail → String
unfolding concat
print_tail (plain text) = text
print_tail (unclosed text rest) = concat text (concat "${" rest)

-- a text and the key of a hole behind it, again and again
unfoldable pub print : List (String × String) → Tail → String
unfolding print_tail
print [] tail = print_tail tail
print ((text, key) ∷ holes) tail =
    concat text (concat "${" (concat key (concat "}" (print holes tail))))

abbrev pub IsTail : Tail → Type 0
IsTail (plain text) = find_open text ≡ none
IsTail (unclosed text rest) = (find_open text ≡ none) × (find_close rest ≡ none)

-- no text has the start of a hole in it, and no key the end of one
abbrev pub IsTemplate : List (String × String) → Tail → Type 0
IsTemplate holes tail =
    All (λ h. (find_open h.0 ≡ none) × (find_close h.1 ≡ none)) holes × IsTail tail

pub concat_assoc : (s t u : String) → concat (concat s t) u ≡ concat s (concat t u)
unfolding concat
concat_assoc String.[] t u = refl
concat_assoc (String.◌∷◌ c s) t u = ap (String.◌∷◌ c) (concat_assoc s t u)

pub char_count-concat : (s t : String) → char_count (concat s t) ≡ char_count s + char_count t
unfolding concat char_count
char_count-concat String.[] t = omega arith
char_count-concat (String.◌∷◌ c s) t = omega (arith, char_count-concat s t)

find_open-concat :
    (t s : String) → find_open t ≡ none → find_open (concat t (concat "${" s)) ≡ some (t, s)
unfolding find_open concat
find_open-concat String.[] s h = refl
find_open-concat (String.◌∷◌ c String.[]) s h = ground arith
find_open-concat (String.◌∷◌ c (String.◌∷◌ d t)) s h =
    elim (Option-cases (find_open (String.◌∷◌ d t))) [
      | inl e ↦ let later = find_open-concat (String.◌∷◌ d t) s e in ground arith
      | inr (x, e) ↦ absurd (ground arith)
    ]

find_close-concat :
    (k s : String) → find_close k ≡ none → find_close (concat k (concat "}" s)) ≡ some (k, s)
unfolding find_close concat
find_close-concat String.[] s h = refl
find_close-concat (String.◌∷◌ c k) s h = elim (Option-cases (find_close k)) [
  | inl e ↦ let later = find_close-concat k s e in ground arith
  | inr (x, e) ↦ absurd (ground arith)
]

module _ (r : Render) (input : RenderInput) where
  -- the keys resolved from the first to the last
  unfoldable pub fill : List (String × String) → Tail → Action RenderState Error String
  unfolding resolve_template_key trim
  fill [] tail state = (ok (print_tail tail), state)
  fill ((text, key) ∷ holes) tail state =
      continue (resolve_template_key r input (trim key) state) λ value state₁.
        continue (fill holes tail state₁) (λ rest. pure (concat text (concat value rest)))

  abbrev after_text : String → Result Error String × RenderState → Result Error String × RenderState
  after_text out o = continue o (λ t. pure (concat out t))

  after_text-after_text :
      (out text value : String) (o : Result Error String × RenderState)
      → after_text (concat (concat out text) value) o
        ≡ after_text out (continue o (λ t. pure (concat text (concat value t))))
  after_text-after_text out text value (ok t, s) =
      ap (λ x. (ok x, s))
        (concat_assoc (concat out text) value t ∙ concat_assoc out text (concat value t))
  after_text-after_text out text value (err e, s) = refl

  tail_loop :
      (n : ℕ) (out : String) (tail : Tail) (state : RenderState)
      → IsTail tail
      → render_loop r input (suc n) out (print_tail tail) state
        ≡ (ok (concat out (print_tail tail)), state)
  unfolding render_loop print_tail
  tail_loop n out (plain text) state h = rw (render_loop, h) refl
  tail_loop n out (unclosed text rest) state h =
      rw (render_loop, find_open-concat text rest h.0, h.1)
        (ap (λ x. (ok x, state)) (concat_assoc out text (concat "${" rest)))

  hole_loop :
      (n : ℕ) (out text key rest : String) (state : RenderState)
      → find_open text ≡ none
      → find_close key ≡ none
      → render_loop r input
          (suc n)
          out
          (concat text (concat "${" (concat key (concat "}" rest))))
          state
        ≡ continue
            (resolve_template_key r input (trim key) state)
            (λ value. render_loop r input n (concat (concat out text) value) rest)
  unfolding render_loop
  hole_loop n out text key rest state opens closes =
      rw
        (
          render_loop,
          find_open-concat text (concat key (concat "}" rest)) opens,
          find_close-concat key rest closes,
        )
        refl

  loop-fill :
      (n : ℕ) (out : String) (holes : List (String × String)) (tail : Tail) (state : RenderState)
      → length holes < n
      → IsTemplate holes tail
      → render_loop r input n out (print holes tail) state ≡ after_text out (fill holes tail state)
  unfolding print fill
  loop-fill zero out holes tail state lt h = absurd (omega (arith, lt))
  loop-fill (suc n) out [] tail state lt h = tail_loop n out tail state h.1
  loop-fill (suc n) out ((text, key) ∷ holes) tail state lt h =
      hole_loop n out text key (print holes tail) state h.0.0.0 h.0.0.1
      ∙ go (λ out' state₁. loop-fill n out' holes tail state₁ (omega (arith, lt)) (h.0.1, h.1))
          (resolve_template_key r input (trim key) state)
    where
      go :
          ((out' : String) (state₁ : RenderState)
            → render_loop r input n out' (print holes tail) state₁
              ≡ after_text out' (fill holes tail state₁))
          → (o : Result Error String × RenderState)
          → continue o
              (λ value. render_loop r input n (concat (concat out text) value) (print holes tail))
            ≡ after_text out (
                continue o λ value state₁.
                  continue
                    (fill holes tail state₁)
                    (λ rest. pure (concat text (concat value rest))))
      go rest (ok value, state₁) =
          rest (concat (concat out text) value) state₁
          ∙ after_text-after_text out text value (fill holes tail state₁)
      go rest (err e, state₁) = refl

  length-le_print :
      (holes : List (String × String)) (tail : Tail) → length holes ≤ char_count (print holes tail)
  unfolding print char_count concat
  length-le_print [] tail = omega arith
  length-le_print ((text, key) ∷ holes) tail = omega (
    arith,
    length-le_print holes tail,
    char_count-concat text (concat "${" (concat key (concat "}" (print holes tail)))),
    char_count-concat key (concat "}" (print holes tail)),
  )

  -- x
  pub render_string-fill :
      (holes : List (String × String)) (tail : Tail) (state : RenderState)
      → IsTemplate holes tail
      → render_string r input (print holes tail) state ≡ fill holes tail state
  unfolding render_string concat
  render_string-fill holes tail state h =
      loop-fill (suc (char_count (print holes tail))) "" holes tail state
        (omega (arith, length-le_print holes tail)) h
      ∙ same (fill holes tail state)
    where
      same : (o : Result Error String × RenderState) → after_text "" o ≡ o
      same (ok t, s) = refl
      same (err e, s) = refl
