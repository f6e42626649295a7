-- ===== src/LogProjection/Defs.antt =====
-- The types of src/log_projection.rs, and `window_start`.
use ferrous_framework.Base.{
  ℕ, ◌+◌, ◌-◌, String, ◌&&◌, Option, List, Result, ok, err, ltb, leb, if◌then◌else◌, min,
}

abbrev pub record_bytes : ℕ
record_bytes = 8192

abbrev pub parse_bytes : ℕ
parse_bytes = 1048576

pub data WindowAction : Type 0 where
  tail older newer current : WindowAction

pub record RawReference : Type 0 where
  pub generation : String
  pub byte_start : ℕ
  pub byte_end : ℕ

pub record Omission : Type 0 where
  pub pointer : String
  pub original_type : String
  pub serialized_bytes : ℕ

pub record RecordProjection : Type 0 where
  pub text : List ℕ
  pub raw : RawReference
  pub omissions : List Omission
  pub diagnostic : Option String

pub data BoundsError : Type 0 where
  invalid_window_bounds : BoundsError

-- the largest `usize`, at which `saturating_add` stops
abbrev pub usize_max : ℕ
usize_max = 18446744073709551615

abbrev pub saturating_add : ℕ → ℕ → ℕ
saturating_add a b = min (a + b) usize_max

unfoldable pub window_start : ℕ → ℕ → ℕ → ℕ → WindowAction → Result BoundsError ℕ
window_start total cur count shift action =
    if ltb 0 count && ltb 0 shift && leb shift count
    then (let maximum = total - count in
        let start = min cur maximum in
        ok (elim action [
          | tail ↦ maximum
          | older ↦ start - shift
          | newer ↦ min (saturating_add start shift) maximum
          | current ↦ start
        ]))
    else err invalid_window_bounds
