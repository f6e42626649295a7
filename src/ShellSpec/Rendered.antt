-- ===== src/ShellSpec/Rendered.antt =====
-- The specifications that a document of src/shellspec.rs gives.
use mathlib.Core.Path.{subst}
use mathlib.Core.List.{Perm}
use mathlib.Core.List.Perm
use ferrous_framework.Base.{
  ℕ, ◌<◌, ◌≡◌, sym, String, none, some, List, [], ◌∷◌, Result, ok, err, arith, inl, inr, Bool-cases,
  >>=_elim,
}
use ferrous_framework.Json.{Value, object, Fields, end, field, get}
use ferrous_framework.LogProjection.Pointer.{str_lt}
use ferrous_framework.Manager.Spawn.{insert_key}
use ferrous_framework.ShellSpec.Template.{Error, RenderInput, Render, RenderState, render_value}
use ferrous_framework.ShellSpec.Total.{SameForm, Ends, render_value-Ends}
use ferrous_framework.ShellSpec.Entry.{
  Libraries, ShellSpec, shells_in, parse_shellspec_entry, sorted_keys, parse_entries,
  render_shellspec_value, render_shellspec_entries,
}
use ferrous_framework.ShellSpec.Sources.{IsSpecOf, parse_shellspec_entry-IsSpecOf}
use ferrous_framework.ShellSpec.Parsed.{IsSpec, parse_shellspec_entry-IsSpec}

abbrev pub keys : Fields → List String
keys end = []
keys (field k v fs) = k ∷ keys fs

insert_key-Perm : (k : String) (ks : List String) → Perm (insert_key k ks) (k ∷ ks)
unfolding insert_key
insert_key-Perm k [] = Perm.refl (k ∷ [])
insert_key-Perm k (j ∷ js) = elim (Bool-cases (str_lt j k)) [
  | inl e ↦ rw e (Perm.trans (Perm.cons j (insert_key-Perm k js)) (Perm.swap k j js))
  | inr e ↦ rw e (Perm.refl (k ∷ j ∷ js))
]

-- the specifications of the shells at `entries`, one for each in its order
pub data AreSpecs (lib : Libraries) (shells : Fields) : List String → List ShellSpec → Type 0 where
  no_specs : AreSpecs lib shells [] []
  a_spec :
      (entry : String) (shell : Fields) (spec : ShellSpec) {entries : List String}
      {specs : List ShellSpec}
      → get entry shells ≡ some (object shell)
      → IsSpecOf lib entry shell spec
      → IsSpec spec
      → AreSpecs lib shells entries specs
      → AreSpecs lib shells (entry ∷ entries) (spec ∷ specs)

-- What the specifications of `document` come from: a rendering of the whole of it with the same form, and, key by
-- key, its shells.
pub record IsFrom (r : Render) (input : RenderInput) (lib : Libraries) (document : Value)
    (specs : List ShellSpec) : Type 0 where
  pub rendered : Value
  pub shells : Fields
  pub entries : List String
  pub is_rendered : render_shellspec_value lib r input document ≡ ok rendered
  pub same_form : SameForm document rendered
  pub has_shells : shells_in lib rendered ≡ ok shells
  pub all_keys : Perm entries (keys shells)
  pub each : AreSpecs lib shells entries specs

module _ (lib : Libraries) where
  sorted_keys-Perm : (fs : Fields) → Perm (sorted_keys lib fs) (keys fs)
  unfolding sorted_keys
  sorted_keys-Perm end = Perm.refl []
  sorted_keys-Perm (field k v fs) =
      Perm.trans (insert_key-Perm k (sorted_keys lib fs)) (Perm.cons k (sorted_keys-Perm fs))

  module _ (bounded : (s : String) (n : ℕ) → lib.parse_u16 s ≡ some n → n < 65536) where
    parse_entries-AreSpecs :
        (document : Value) (shells : Fields) (entries : List String) (specs : List ShellSpec)
        → shells_in lib document ≡ ok shells
        → parse_entries lib document entries ≡ ok specs
        → AreSpecs lib shells entries specs
    unfolding parse_entries
    parse_entries-AreSpecs document shells [] specs has h =
        let none_left : [] ≡ specs = ground arith in
        subst (AreSpecs lib shells []) none_left no_specs
    parse_entries-AreSpecs document shells (entry ∷ entries) specs has h =
        let Goal = AreSpecs lib shells (entry ∷ entries) specs in
        >>=_elim Goal (parse_shellspec_entry lib document entry) _ h λ spec one h₁.
          >>=_elim Goal (parse_entries lib document entries) _ h₁ λ rest more h₂.
            let both : spec ∷ rest ≡ specs = ground arith in
            let (shell, there, is) =
              parse_shellspec_entry-IsSpecOf lib document entry shells spec has one in
            subst (AreSpecs lib shells (entry ∷ entries)) both (
              a_spec entry shell spec there is
                (parse_shellspec_entry-IsSpec lib bounded document entry spec one)
                (parse_entries-AreSpecs document shells entries rest has more))

    module _ (r : Render) (input : RenderInput) where
      rendered-SameForm :
          (document rendered : Value)
          → render_shellspec_value lib r input document ≡ ok rendered
          → SameForm document rendered
      unfolding render_shellspec_value
      rendered-SameForm document rendered h =
          go (render_value r input document none) (render_value-Ends r input document none) h
        where
          go :
              (o : Result Error Value × RenderState)
              → Ends r (SameForm document) none o
              → o.0 ≡ ok rendered
              → SameForm document rendered
          go (ok v, s) (same, kept) g = let eq : v ≡ rendered = ground arith in rw (sym eq) same
          go (err e, s) h g = absurd (ground arith)

      -- When `render_shellspec_entries` gives specifications, and the parsing of a u16 from a text
      -- gives numbers below 65536, then the document was rendered to one of the same form, the
      -- keys of its shells stand in some order, and for each of them in that order there is one
      -- specification: its id, backend, command, directory, variables, display and debug objects,
      -- mode and autostart are those of the shell at that key, with the key as the id and the
      -- default of each other field where the shell has none, it has a command, a codec for both
      -- streams, and a probe, if any, with a type and with ports and status codes below 65536.
      pub render_shellspec_entries-IsFrom :
          (document : Value) (specs : List ShellSpec)
          → render_shellspec_entries lib r input document ≡ ok specs
          → IsFrom r input lib document specs
      unfolding render_shellspec_entries
      render_shellspec_entries-IsFrom document specs h =
          let Goal = IsFrom r input lib document specs in
          >>=_elim Goal (render_shellspec_value lib r input document) _ h λ rendered is h₁.
            >>=_elim Goal (shells_in lib rendered) _ h₁ λ shells has h₂. record {
              rendered = rendered;
              shells = shells;
              entries = sorted_keys lib shells;
              is_rendered = is;
              same_form = rendered-SameForm document rendered is;
              has_shells = has;
              all_keys = sorted_keys-Perm shells;
              each = parse_entries-AreSpecs rendered shells (sorted_keys lib shells) specs has h₂;
            }
