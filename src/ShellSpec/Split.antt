-- ===== src/ShellSpec/Split.antt =====
-- Every text is a template of src/shellspec.rs, and its rendering ends.
use Prim.Native.Char.{Char, code}
use text.Mathlib.TextEquality.{Char-path}
use ferrous_framework.Base.{
  ℕ, zero, suc, ◌<◌, ◌≡◌, ◌⊎◌, refl, sym, ap, ◌∙◌, String, false, ◌&&◌, none, List, [], ◌∷◌, arith,
  inl, inr, Bool-cases, ◌==◌,
}
use ferrous_framework.LogProjection.Pointer.{concat}
use ferrous_framework.ShellSpec.Template.{
  RenderInput, Render, RenderState, find_open, find_close, char_count, render_string,
}
use ferrous_framework.ShellSpec.Printed.{
  Tail, plain, unclosed, print_tail, print, IsTemplate, fill, render_string-fill, char_count-concat,
}

-- a text before the start of a hole, and what follows it
abbrev Opened : String → Type 0
Opened s = (b : String) × (a : String) × (s ≡ concat b (concat "${" a)) × (find_open b ≡ none)

abbrev Closed : String → Type 0
Closed s = (k : String) × (a : String) × (s ≡ concat k (concat "}" a)) × (find_close k ≡ none)

close_view : (s : String) → (find_close s ≡ none) ⊎ Closed s
unfolding find_close concat
close_view String.[] = inl refl
close_view (String.◌∷◌ c s) = elim (Bool-cases (code c == 125)) [
  | inl e ↦
      let brace : c ≡ "}" = Char-path c "}" (ground arith) in
      inr ("", s, ap (λ x. String.◌∷◌ x s) brace, refl)
  | inr e ↦ elim (close_view s) [
    | inl f ↦ inl (rw (e, find_close, f) refl)
    | inr (k, a, eq, f) ↦ inr (String.◌∷◌ c k, a, ap (String.◌∷◌ c) eq, rw (e, find_close, f) refl)
  ]
]

abbrev head_code : String → ℕ
head_code String.[] = 0
head_code (String.◌∷◌ c s) = code c

-- one more character that does not begin a hole
longer :
    (c d : Char) (s b a : String)
    → (code c == 36 && code d == 123) ≡ false
    → String.◌∷◌ d s ≡ concat b (concat "${" a)
    → find_open b ≡ none
    → find_open (String.◌∷◌ c b) ≡ none
unfolding find_open concat
longer c d s String.[] a e eq f = refl
longer c d s (String.◌∷◌ x b) a e eq f =
    let same : code d ≡ code x = ap head_code eq in rw (sym same, e, find_open) (rw f refl)

open_view : (s : String) → (find_open s ≡ none) ⊎ Opened s
unfolding find_open concat
open_view String.[] = inl refl
open_view (String.◌∷◌ c String.[]) = inl refl
open_view (String.◌∷◌ c (String.◌∷◌ d s)) = elim (Bool-cases (code c == 36 && code d == 123)) [
  | inl e ↦
      let dollar : c ≡ "$" = Char-path c "$" (ground arith) in
      let brace : d ≡ "{" = Char-path d "{" (ground arith) in
      inr (
        "",
        s,
        ap (λ x. String.◌∷◌ x (String.◌∷◌ d s)) dollar
            ∙ ap (λ x. String.◌∷◌ "$" (String.◌∷◌ x s)) brace,
        refl,
      )
  | inr e ↦ elim (open_view (String.◌∷◌ d s)) [
    | inl f ↦ inl (rw (e, find_open) (rw f refl))
    | inr (b, a, eq, f) ↦ inr (String.◌∷◌ c b, a, ap (String.◌∷◌ c) eq, longer c d s b a e eq f)
  ]
]

behind_shorter :
    (s b k rest : String)
    → s ≡ concat b (concat "${" (concat k (concat "}" rest)))
    → char_count rest < char_count s
unfolding char_count concat
behind_shorter s b k rest eq = omega (
  arith,
  ap char_count eq,
  char_count-concat b (concat "${" (concat k (concat "}" rest))),
  char_count-concat k (concat "}" rest),
)

-- a text as a template
abbrev Split : String → Type 0
Split s =
    (holes : List (String × String)) × (tail : Tail) × (s ≡ print holes tail)
    × IsTemplate holes tail

as_template : (n : ℕ) (s : String) → char_count s < n → Split s
unfolding print print_tail
as_template zero s lt = absurd (omega (arith, lt))
as_template (suc n) s lt = elim (open_view s) [
  | inl f ↦ ([], plain s, refl, (tt, f))
  | inr (b, a, eq, f) ↦ elim (close_view a) [
    | inl g ↦ ([], unclosed b a, eq, (tt, (f, g)))
    | inr (k, rest, eq', g) ↦
        let whole = eq ∙ ap (λ x. concat b (concat "${" x)) eq' in
        let (holes, tail, same, good) =
          as_template n rest (omega (arith, lt, behind_shorter s b k rest whole)) in
        (
          (b, k) ∷ holes,
          tail,
          whole ∙ ap (λ x. concat b (concat "${" (concat k (concat "}" x)))) same,
          (((f, g), good.0), good.1),
        )
  ]
]

module _ (r : Render) (input : RenderInput) where
  -- Every text is a template: texts without the start of a hole alternating with keys without a
  -- closing brace, and at the end a text without a hole or with one that is not closed; and
  -- `render_string` on it, with as many rounds as it has characters and one more, is the one pass
  -- that puts what the trimmed keys resolve to in their places, from the first to the last, and
  -- leaves the end as it is.
  pub render_string-total :
      (value : String) (state : RenderState)
      → (holes : List (String × String)) × (tail : Tail) × (value ≡ print holes tail)
        × IsTemplate holes tail
        × (render_string r input value state ≡ fill r input holes tail state)
  render_string-total value state =
      let (holes, tail, same, good) = as_template (suc (char_count value)) value (omega arith) in
      (
        holes,
        tail,
        same,
        good,
        ap (λ x. render_string r input x state) same
            ∙ render_string-fill r input holes tail state good,
      )
