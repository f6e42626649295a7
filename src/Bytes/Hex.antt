-- ===== src/Bytes/Hex.antt =====
-- The three hexadecimal printers: `hex_bytes` of src/native_runtime.rs, `hex_encode` of
-- src/native_host.rs and `hex` of src/msgpack_observation.rs print a byte as two lower-case digits.
use Prim.Native.Char.{Char}
use ferrous_framework.Base.{ℕ, ◌/◌, ◌%◌, ◌≡◌, String, List, [], ◌∷◌, ◌==◌, if◌then◌else◌}

-- the table `0123456789abcdef`
unfoldable pub hex_digit : ℕ → Char
hex_digit d =
    if d == 0
    then "0"
    else if d == 1
    then "1"
    else if d == 2
    then "2"
    else if d == 3
    then "3"
    else if d == 4
    then "4"
    else if d == 5
    then "5"
    else if d == 6
    then "6"
    else if d == 7
    then "7"
    else if d == 8
    then "8"
    else if d == 9
    then "9"
    else if d == 10
    then "a"
    else if d == 11
    then "b"
    else if d == 12
    then "c"
    else if d == 13
    then "d"
    else if d == 14
    then "e"
    else "f"

unfoldable pub hex_bytes : List ℕ → String
hex_bytes [] = ""
hex_bytes (b ∷ bs) =
    String.◌∷◌ (hex_digit (b / 16)) (String.◌∷◌ (hex_digit (b % 16)) (hex_bytes bs))

hex_bytes_run : hex_bytes (0 ∷ 171 ∷ 255 ∷ []) ≡ "00abff"
unfolding hex_bytes hex_digit
hex_bytes_run = λ i. "00abff"
