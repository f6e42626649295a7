-- ===== src/IndexCache/Defs.antt =====
-- `IndexCache` of src/log_window.rs: the least recently borrowed index stands first.
use ferrous_framework.Base.{
  ℕ, String, str_eq, Bool, true, false, ◌&&◌, Option, none, some, List, [], ◌∷◌, ◌++◌, length, leb,
  ltb, Result, ok, err, if◌then◌else◌,
}
use ferrous_framework.LogIndex.Defs.{
  Codec, text, json, messagepack, LineIndex, with_codec, invalidate,
}

pub data Error : Type 0 where
  zero_capacity bad_path no_tempfile : Error

pub record Entry : Type 0 where
  pub path : String
  pub codec : Codec
  pub index : LineIndex

pub record IndexCache : Type 0 where
  pub capacity : ℕ
  pub entries : List Entry

-- `==` of the codecs
abbrev pub codec_eq : Codec → Codec → Bool
codec_eq text text = true
codec_eq json json = true
codec_eq messagepack messagepack = true
codec_eq _ _ = false

-- `new`
unfoldable pub new : ℕ → Result Error IndexCache
new capacity =
    if ltb 0 capacity then ok (record { capacity = capacity; entries = [] }) else err zero_capacity

abbrev pub is_key : String → Codec → Entry → Bool
is_key path codec e = str_eq e.path path && codec_eq e.codec codec

-- `position` and `remove`: the first entry with the key, and the others
unfoldable pub take_out : String → Codec → List Entry → Option (Entry × List Entry)
take_out path codec [] = none
take_out path codec (e ∷ es) =
    let later = take_out path codec es in
    if is_key path codec e
    then some (e, es)
    else elim later [ none ↦ none | some (x, rest) ↦ some (x, e ∷ rest) ]

-- `pop_front`
abbrev pub pop_front : List Entry → List Entry
pop_front [] = []
pop_front (e ∷ es) = es

-- The entries after the miss made room.
unfoldable pub make_room : IndexCache → List Entry
make_room c = if leb c.capacity (length c.entries) then pop_front c.entries else c.entries

-- the miss: room is made before the index is; `tempfile` says whether an index file can be made
unfoldable pub insert_new :
    Bool → String → Codec → IndexCache → Result Error (Unit {0}) × IndexCache
insert_new false path codec c = (err no_tempfile, record c { entries = make_room c })
insert_new true path codec c =
    let fresh : Entry = record { path = path; codec = codec; index = with_codec codec } in
    (ok tt, record c { entries = make_room c ++ fresh ∷ [] })

-- `borrow` with the absolute path. The borrowed index is the last entry.
unfoldable pub borrow_absolute :
    Bool → String → Codec → IndexCache → Result Error (Unit {0}) × IndexCache
borrow_absolute tempfile path codec c = elim (take_out path codec c.entries) [
  | some (e, rest) ↦ (ok tt, record c { entries = rest ++ e ∷ [] })
  | none ↦ insert_new tempfile path codec c
]

-- `std::path::absolute` looks at the working directory, so it is an argument.
module _ (absolute : String → Option String) where
  unfoldable pub borrow : Bool → String → Codec → IndexCache → Result Error (Unit {0}) × IndexCache
  borrow tempfile path codec c = elim (absolute path) [
    | none ↦ (err bad_path, c)
    | some full ↦ borrow_absolute tempfile full codec c
  ]

  abbrev pub forget : String → List Entry → List Entry
  forget full [] = []
  forget full (e ∷ es) =
      (if str_eq e.path full then record e { index = invalidate e.index } else e) ∷ forget full es

  -- `invalidate`
  unfoldable pub invalidate_path : String → IndexCache → Result Error (Unit {0}) × IndexCache
  invalidate_path path c = elim (absolute path) [
    | none ↦ (err bad_path, c)
    | some full ↦ (ok tt, record c { entries = forget full c.entries })
  ]
