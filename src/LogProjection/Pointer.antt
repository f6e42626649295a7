-- ===== src/LogProjection/Pointer.antt =====
-- The JSON pointers of `candidates` in src/log_projection.rs, and the string operations that
-- src/log_projection.rs uses on them. `utf8_len` is `String::len`.
use Prim.Native.Char.{Char, code}
use ferrous_framework.Base.{
  ℕ, ◌+◌, String, Bool, ◌&&◌, Option, none, some, ltb, ◌==◌, if◌then◌else◌,
}

abbrev char_len : ℕ → ℕ
char_len c = if ltb c 128 then 1 else if ltb c 2048 then 2 else if ltb c 65536 then 3 else 4

unfoldable pub utf8_len : String → ℕ
utf8_len String.[] = 0
utf8_len (String.◌∷◌ c s) = char_len (code c) + utf8_len s

unfoldable pub concat : String → String → String
concat String.[] t = t
concat (String.◌∷◌ c s) t = String.◌∷◌ c (concat s t)

-- `key.replace('~', "~0").replace('/', "~1")`
unfoldable pub escape : String → String
escape String.[] = ""
escape (String.◌∷◌ c s) =
    let rest = escape s in
    if code c == 126
    then String.◌∷◌ c (String.◌∷◌ "0" rest)
    else if code c == 47
    then String.◌∷◌ "~" (String.◌∷◌ "1" rest)
    else String.◌∷◌ c rest

-- `replace("~d", c)` for a digit `d`
unfoldable pub replace_tilde : ℕ → Char → String → String
replace_tilde d c String.[] = ""
replace_tilde d c (String.◌∷◌ x String.[]) = String.◌∷◌ x ""
replace_tilde d c (String.◌∷◌ x (String.◌∷◌ y s)) =
    let skip = replace_tilde d c s in
    let next = replace_tilde d c (String.◌∷◌ y s) in
    if code x == 126 && code y == d then String.◌∷◌ c skip else String.◌∷◌ x next

-- `escaped.replace("~1", "/").replace("~0", "~")`
unfoldable pub unescape : String → String
unfolding replace_tilde
unescape s = replace_tilde 48 "~" (replace_tilde 49 "/" s)

-- `rsplit_once('/')`
unfoldable pub rsplit_once : String → Option (String × String)
rsplit_once String.[] = none
rsplit_once (String.◌∷◌ c s) = elim (rsplit_once s) [
  | some (p, k) ↦ some (String.◌∷◌ c p, k)
  | none ↦ if code c == 47 then some ("", s) else none
]

-- `<` and `==` of two strings, by their code points
unfoldable pub str_lt : String → String → Bool
str_lt String.[] String.[] = Bool.false
str_lt String.[] (String.◌∷◌ d t) = Bool.true
str_lt (String.◌∷◌ c s) String.[] = Bool.false
str_lt (String.◌∷◌ c s) (String.◌∷◌ d t) =
    let later = str_lt s t in
    if ltb (code c) (code d) then Bool.true else if code c == code d then later else Bool.false
