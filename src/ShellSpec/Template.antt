-- ===== src/ShellSpec/Template.antt =====
-- `render_string`, `resolve_template_key` and `render_value` of src/shellspec.rs. `Render` has the answer of
-- `find_free_port`, which is called once at most since a failure ends the rendering, and how a port prints.
use Prim.Native.Char.{code}
use ferrous_framework.Base.{
  ℕ, zero, suc, String, str_eq, ◌&&◌, Option, none, some, List, Result, ok, err, ◌==◌,
  if◌then◌else◌,
}
use ferrous_framework.Base.Action.{Action, continue, pure}
use ferrous_framework.Base.Assoc.{lookup}
use ferrous_framework.Json.{
  Value, null, bool, number, string, array, object, Items, nil, cons, Fields, end, field,
}
use ferrous_framework.LogProjection.Pointer.{concat}
use ferrous_framework.Shell.Names.{trim, strip_prefix, unwrap_or}

pub data Error : Type 0 where
  no_free_port out_of_rounds : Error
  no_shells not_found : Error
  no_command not_a_command bad_quoting empty_command not_strings : Error
  not_an_object no_type : Error
  bad_log_codecs : Error

-- `ShellspecRenderInput`
pub record RenderInput : Type 0 where
  pub ctx : List (String × String)
  pub env : List (String × String)

pub record Render : Type 0 where
  pub free_port : Option ℕ
  pub print_port : ℕ → String

-- `RenderState`, which has one field
abbrev pub RenderState : Type 0
RenderState = Option ℕ

-- `find("${")`: what stands before it, and what follows it
unfoldable pub find_open : String → Option (String × String)
find_open String.[] = none
find_open (String.◌∷◌ c String.[]) = none
find_open (String.◌∷◌ c (String.◌∷◌ d s)) =
    let later = find_open (String.◌∷◌ d s) in
    if code c == 36 && code d == 123
    then some ("", s)
    else elim later [ none ↦ none | some (before, after) ↦ some (String.◌∷◌ c before, after) ]

-- `find('}')`
unfoldable pub find_close : String → Option (String × String)
find_close String.[] = none
find_close (String.◌∷◌ c s) =
    let later = find_close s in
    if code c == 125
    then some ("", s)
    else elim later [ none ↦ none | some (before, after) ↦ some (String.◌∷◌ c before, after) ]

-- the number of characters: a round of the loop takes three of them at least
unfoldable pub char_count : String → ℕ
char_count String.[] = 0
char_count (String.◌∷◌ c s) = suc (char_count s)

module _ (r : Render) (input : RenderInput) where
  abbrev pub port_of : Option ℕ → RenderState → Result Error String × RenderState
  port_of none state = (err no_free_port, state)
  port_of (some port) state = (ok (r.print_port port), some port)

  abbrev pub take_port : Action RenderState Error String
  take_port none = port_of r.free_port none
  take_port (some port) = (ok (r.print_port port), some port)

  abbrev pub named : Option String → Option String → String → String
  named (some name) ctx key = unwrap_or (lookup name input.env) ""
  named none (some name) key = unwrap_or (lookup name input.ctx) ""
  named none none key = unwrap_or (lookup key input.ctx) (unwrap_or (lookup key input.env) "")

  unfoldable pub resolve_template_key : String → Action RenderState Error String
  unfolding lookup strip_prefix
  resolve_template_key key state =
      if str_eq key ""
      then (ok "", state)
      else if str_eq key "free_port"
      then take_port state
      else (ok (named (strip_prefix "env:" key) (strip_prefix "ctx:" key) key), state)

  -- a hole that is closed, and what `go` does behind it
  abbrev pub fill_hole :
      (String → String → Action RenderState Error String)
      → String
      → Option (String × String)
      → String
      → Action RenderState Error String
  fill_hole go out none after_start state = (ok (concat out (concat "${" after_start)), state)
  fill_hole go out (some (key, after)) after_start state =
      continue (resolve_template_key (trim key) state) (λ text. go (concat out text) after)

  abbrev pub fill_next :
      (String → String → Action RenderState Error String)
      → String
      → Option (String × String)
      → String
      → Action RenderState Error String
  fill_next go out none rest state = (ok (concat out rest), state)
  fill_next go out (some (before, after_start)) rest state =
      fill_hole go (concat out before) (find_close after_start) after_start state

  -- The loop: `out` is the text so far. Behind the last round it fails.
  unfoldable pub render_loop : ℕ → String → String → Action RenderState Error String
  unfolding find_open find_close resolve_template_key concat trim
  render_loop zero out rest state = (err out_of_rounds, state)
  render_loop (suc rounds) out rest state =
      fill_next (render_loop rounds) out (find_open rest) rest state

  unfoldable pub render_string : String → Action RenderState Error String
  unfolding render_loop char_count
  render_string value = render_loop (suc (char_count value)) "" value

  unfoldable mutual
    unfolding render_string

    pub render_value : Value → Action RenderState Error Value
    render_value (string s) state = continue (render_string s state) (λ t. pure (string t))
    render_value (array xs) state = continue (render_items xs state) (λ ys. pure (array ys))
    render_value (object fs) state = continue (render_fields fs state) (λ gs. pure (object gs))
    render_value null state = (ok null, state)
    render_value (bool b) state = (ok (bool b), state)
    render_value (number n) state = (ok (number n), state)

    pub render_items : Items → Action RenderState Error Items
    render_items nil state = (ok nil, state)
    render_items (cons x xs) state =
        continue (render_value x state)
          λ y state₁. continue (render_items xs state₁) (λ ys. pure (cons y ys))

    pub render_fields : Fields → Action RenderState Error Fields
    render_fields end state = (ok end, state)
    render_fields (field k v fs) state =
        continue (render_value v state)
          λ w state₁. continue (render_fields fs state₁) (λ gs. pure (field k w gs))
