-- ===== src/Shell/Names.antt =====
-- `derive_app_id`, `derive_is_app_worker`, `infer_backend_from_flags` of src/native_runtime.rs, and
-- the string operations that they use.
use Prim.Native.Char.{code}
use ferrous_framework.Base.{
  ℕ, String, str_eq, Bool, true, false, ◌&&◌, ◌||◌, Option, none, some, List, [], ◌∷◌, leb, ◌==◌,
  if◌then◌else◌,
}

-- `char::is_whitespace`
unfoldable pub is_whitespace : ℕ → Bool
is_whitespace c =
    leb 9 c && leb c 13
    || c == 32
    || c == 133
    || c == 160
    || c == 5760
    || leb 8192 c && leb c 8202
    || c == 8232
    || c == 8233
    || c == 8239
    || c == 8287
    || c == 12288

unfoldable pub trim_start : String → String
trim_start String.[] = ""
trim_start (String.◌∷◌ c s) =
    let rest = trim_start s in if is_whitespace (code c) then rest else String.◌∷◌ c s

unfoldable pub trim_end : String → String
trim_end String.[] = ""
trim_end (String.◌∷◌ c s) =
    let rest = trim_end s in
    if is_whitespace (code c) && str_eq rest "" then "" else String.◌∷◌ c rest

-- `str::trim`
unfoldable pub trim : String → String
unfolding trim_start trim_end is_whitespace
trim s = trim_end (trim_start s)

-- `strip_prefix`
unfoldable pub strip_prefix : String → String → Option String
strip_prefix String.[] s = some s
strip_prefix (String.◌∷◌ p ps) String.[] = none
strip_prefix (String.◌∷◌ p ps) (String.◌∷◌ c s) =
    let rest = strip_prefix ps s in if code p == code c then rest else none

-- `map(str::trim).filter(|value| !value.is_empty())`
abbrev pub trimmed : Option String → Option String
trimmed none = none
trimmed (some s) = if str_eq (trim s) "" then none else some (trim s)

abbrev pub or_else {ℓ} : {A : Type ℓ} → Option A → Option A → Option A
or_else none o = o
or_else (some a) o = some a

abbrev pub unwrap_or {ℓ} : {A : Type ℓ} → Option A → A → A
unwrap_or none d = d
unwrap_or (some a) d = a

abbrev pub is_some {ℓ} : {A : Type ℓ} → Option A → Bool
is_some none = false
is_some (some a) = true

abbrev pub first : List String → Option String
first [] = none
first (x ∷ xs) = some x

abbrev pub second_is_worker : List String → Bool
second_is_worker (x ∷ y ∷ xs) = str_eq (trim y) "app-worker"
second_is_worker _ = false

unfoldable pub derive_app_id : String → List String → Option String
unfolding trim strip_prefix
derive_app_id label subgroups =
    or_else (trimmed (strip_prefix "app-worker:" label)) (trimmed (first subgroups))

unfoldable pub derive_is_app_worker : String → List String → Bool
unfolding trim strip_prefix
derive_is_app_worker label subgroups =
    is_some (strip_prefix "app-worker:" label) || second_is_worker subgroups

unfoldable pub infer_backend_from_flags : Bool → Bool → String
infer_backend_from_flags uses_pty uses_pipes =
    if uses_pipes then "pipe" else if uses_pty then "pty" else "proc"
