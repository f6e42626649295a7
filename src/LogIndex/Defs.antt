-- ===== src/LogIndex/Defs.antt =====
-- `LineIndex`, `reset_token`, `refresh_inner` and `validate_snapshot` of src/log_window.rs.
use ferrous_framework.Base.{
  ℕ, ◌+◌, String, Bool, true, false, ◌&&◌, ◌||◌, not, Option, none, some, List, [], ◌∷◌, ◌++◌,
  Result, ok, err, ltb, ◌==◌, if◌then◌else◌, take, drop, min,
}
use ferrous_framework.Base.Action.{Action}
use ferrous_framework.Bytes.Compare.{bytes_eq}
use ferrous_framework.Bytes.Words.{to_le_bytes}
use ferrous_framework.Bytes.Hex.{hex_bytes}

pub data Codec : Type 0 where
  text json messagepack : Codec

-- `matches!(codec, Codec::Messagepack)`
abbrev pub is_messagepack : Codec → Bool
is_messagepack messagepack = true
is_messagepack _ = false

pub data Error : Type 0 where
  io changed_indexing generation_changed changed_reading stale_generation : Error
  invalid_raw_bounds invalid_raw_reference : Error
  invalid_window_budget codec_mismatch invalid_navigation budget_too_small : Error
  invalid_projection_budgets raw_mismatch incomplete_frame not_serializable panicked out_of_rounds :
      Error

-- what `metadata` returns, as far as the index reads it
pub record Stat : Type 0 where
  pub dev : ℕ
  pub ino : ℕ
  pub len : ℕ
  pub mtime : ℕ
  pub mtime_nsec : ℕ

-- the `.fws-reset` marker beside the log
pub data Marker : Type 0 where
  absent unreadable : Marker
  present : List ℕ → Marker

-- The log at one moment. `stat` is `none` where it cannot be opened; `read_size pos take` is how many
-- bytes one `read` gives (`none` is an I/O error), `index_ok` whether the index file takes a write,
-- and `nonce` what `getrandom` returns.
pub record Source : Type 0 where
  pub stat : Option Stat
  pub content : List ℕ
  pub read_size : ℕ → ℕ → Option ℕ
  pub marker : Marker
  pub index_ok : Bool
  pub nonce : Option (List ℕ)

abbrev pub World : Type 0
World = ℕ → Source

pub record LineIndex : Type 0 where
  pub index : List ℕ
  pub identity : Option (ℕ × ℕ)
  pub mtime : ℕ × ℕ
  pub size : ℕ
  pub complete : ℕ
  pub last_end : ℕ
  pub generation : String
  pub codec : Codec
  pub pending : List ℕ
  pub reset : List ℕ

abbrev pub M : Type 0 → Type 0
M A = Action LineIndex Error A

abbrev pub pair_eq : ℕ × ℕ → ℕ × ℕ → Bool
pair_eq a b = a.0 == b.0 && a.1 == b.1

-- `identity == Some(i)`
abbrev pub is_identity : Option (ℕ × ℕ) → ℕ × ℕ → Bool
is_identity none i = false
is_identity (some j) i = pair_eq j i

abbrev pub identity_of : Stat → ℕ × ℕ
identity_of st = (st.dev, st.ino)

abbrev pub mtime_of : Stat → ℕ × ℕ
mtime_of st = (st.mtime, st.mtime_nsec)

abbrev pub scan_bytes : ℕ
scan_bytes = 65536

-- `LineIndex::with_codec`
unfoldable pub with_codec : Codec → LineIndex
with_codec codec = record {
  index = [];
  identity = none;
  mtime = (0, 0);
  size = 0;
  complete = 0;
  last_end = 0;
  generation = "";
  codec = codec;
  pending = [];
  reset = [];
}

unfoldable pub invalidate : LineIndex → LineIndex
invalidate s = record s { identity = none }

abbrev pub marker_token : Marker → Result Error (List ℕ)
marker_token absent = ok []
marker_token unreadable = err io
marker_token (present bytes) = ok (take 64 bytes)

unfoldable pub reset_token : Source → Result Error (List ℕ)
reset_token src = marker_token src.marker

abbrev pub or_io {ℓ} : {A : Type ℓ} → Option A → Result Error A
or_io none = err io
or_io (some a) = ok a

-- `File::open` and `metadata`
unfoldable pub open_stat : Source → Result Error Stat
open_stat src = or_io src.stat

-- one `read` of at most `want` bytes at `pos`
unfoldable pub read_some : Source → ℕ → ℕ → Result Error (List ℕ)
read_some src pos want = elim (src.read_size pos want) [
  | none ↦ err io
  | some n ↦ ok (take (min n want) (drop pos src.content))
]

-- the condition under which `refresh_inner` starts the index again
unfoldable pub must_restart : LineIndex → Stat → List ℕ → Bool
must_restart s st token =
    not (bytes_eq s.reset token)
    || not (is_identity s.identity (identity_of st))
    || ltb st.len s.size
    || (st.len == s.size && not (pair_eq (mtime_of st) s.mtime))

-- the body of that `if`: the index is empty before the nonce is drawn
unfoldable pub restart : Source → M (Unit {0})
restart src s =
    if src.index_ok
    then (let cleared = record s {
      index = [];
      size = 0;
      complete = 0;
      last_end = 0;
      pending = [];
    } in
        elim src.nonce [
          | none ↦ (err io, cleared)
          | some nonce ↦ (ok tt, record cleared { generation = hex_bytes nonce })
        ])
    else (err io, s)

-- `last_end`, `complete` and the `offsets` of one buffer
pub record Marks : Type 0 where
  pub last_end : ℕ
  pub complete : ℕ
  pub offsets : List ℕ

unfoldable pub mark : ℕ → Marks → Marks
mark e m = record { last_end = e; complete = m.complete + 1; offsets = m.offsets ++ to_le_bytes e }

-- the loop over the bytes of one buffer; `pos` is `self.size + position`
unfoldable pub scan_lines : ℕ → List ℕ → Marks → Marks
scan_lines pos [] m = m
scan_lines pos (b ∷ bs) m = scan_lines (pos + 1) bs (if b == b'\n' then mark (pos + 1) m else m)
