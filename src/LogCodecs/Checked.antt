-- ===== src/LogCodecs/Checked.antt =====
-- What `validate_log_codecs` of src/log_window.rs accepts, `stream_codec` can read.
use mathlib.Core.Path.{subst}
use ferrous_framework.Base.{
  String, str_eq, ◌≡◌, refl, true, Option, none, some, Result, ok, ok_or, ensure, ensure-eq-ok,
  arith, sym, eq_iff, Bool-cases, inl, inr, >>=_elim, ◌>>=◌ as ◌⟫◌,
}
use ferrous_framework.Json.{
  Value, null, bool, number, string, array, object, Fields, end, field, as_str, as_object, get,
}
use ferrous_framework.LogIndex.Defs.{Codec, text, json, messagepack}
use ferrous_framework.LogCodecs.Defs.{
  Error, not_a_mapping, unknown_stream, unknown_codec, is_stream, codec_named, names_codec,
  check_codec, check_codecs, validate_some, validate_log_codecs, name_in, stream_codec,
}

-- the three names of codecs
pub data Names : String → Codec → Type 0 where
  names_text : Names "text" text
  names_json : Names "json" json
  names_messagepack : Names "messagepack" messagepack

-- what the field of a stream says: text where it is missing
abbrev pub Says : Option Value → Codec → Type 0
Says none c = c ≡ text
Says (some v) c = (name : String) × (as_str v ≡ some name) × Names name c

-- a name that the check accepts is the name of one codec
named_codec : (name : String) → names_codec (some name) ≡ true → (c : Codec) × Names name c
named_codec name h = elim (Bool-cases (str_eq name "text")) [
  | inl e ↦ (text, subst (λ n. Names n text) (sym ((eq_iff _ _).0 e)) names_text)
  | inr e ↦ elim (Bool-cases (str_eq name "json")) [
    | inl e₁ ↦ (json, subst (λ n. Names n json) (sym ((eq_iff _ _).0 e₁)) names_json)
    | inr e₁ ↦
        let e₂ : str_eq name "messagepack" ≡ true = ground arith in
        (messagepack, subst (λ n. Names n messagepack) (sym ((eq_iff _ _).0 e₂)) names_messagepack)
  ]
]

-- `stream_codec` reads each of the names as its codec
codec_named-Names : (name : String) (c : Codec) → Names name c → codec_named name ≡ some c
unfolding codec_named
codec_named-Names _ _ names_text = refl
codec_named-Names _ _ names_json = refl
codec_named-Names _ _ names_messagepack = refl

said : (v : Value) → names_codec (as_str v) ≡ true → (c : Codec) × Says (some v) c
said v h = go (as_str v) refl h
  where
    go : (o : Option String) → as_str v ≡ o → names_codec o ≡ true → (c : Codec) × Says (some v) c
    go none q k = absurd (ground arith)
    go (some name) q k = let (c, called) = named_codec name k in (c, (name, q, called))

named :
    (k : String) (x : Value) {u : Unit {0}} → check_codec k x ≡ ok u → names_codec (as_str x) ≡ true
unfolding check_codec
named k x {u} q =
    >>=_elim (names_codec (as_str x) ≡ true) (ensure (is_stream k) unknown_stream) _ q
      λ _ _ last. ensure-eq-ok (names_codec (as_str x)) unknown_codec last

checked :
    (fs : Fields) (stream : String) → check_codecs fs ≡ ok tt → (c : Codec) × Says (get stream fs) c
unfolding check_codecs get
checked end stream h = (text, refl)
checked (field j v fs) stream h =
    >>=_elim ((c : Codec) × Says (get stream (field j v fs)) c) (check_codec j v) _ h λ _ one rest.
      elim (Bool-cases (str_eq j stream)) [
        | inl e ↦ rw e (said v (named j v one))
        | inr e ↦ rw e (checked fs stream rest)
      ]

ok_injective : {a b : Fields} → ◌≡◌ {A = Result Error Fields} (ok a) (ok b) → a ≡ b
ok_injective h = ground arith

some_checked : (v : Value) (fs : Fields) → validate_some v ≡ ok fs → check_codecs fs ≡ ok tt
unfolding validate_some
some_checked v fs h =
    >>=_elim (check_codecs fs ≡ ok tt) (ok_or (as_object v) not_a_mapping) _ h λ m _ h1.
      >>=_elim (check_codecs fs ≡ ok tt) (check_codecs m) _ h1
        λ _ checks h2. subst (λ x. check_codecs x ≡ ok tt) (ok_injective h2) checks

nothing_checked :
    (fs : Fields) → ◌≡◌ {A = Result Error Fields} (ok end) (ok fs) → check_codecs fs ≡ ok tt
unfolding check_codecs
nothing_checked fs h = subst (λ x. check_codecs x ≡ ok tt) (ok_injective h) refl

validated :
    (value : Option Value) (fs : Fields)
    → validate_log_codecs value ≡ ok fs
    → check_codecs fs ≡ ok tt
unfolding validate_log_codecs
validated none fs h = nothing_checked fs h
validated (some null) fs h = nothing_checked fs h
validated (some (bool b)) fs h = some_checked (bool b) fs h
validated (some (number n)) fs h = some_checked (number n) fs h
validated (some (string s)) fs h = some_checked (string s) fs h
validated (some (array xs)) fs h = some_checked (array xs) fs h
validated (some (object os)) fs h = some_checked (object os) fs h

-- When `validate_log_codecs` accepts a mapping, `stream_codec` finds a codec in it for each of the
-- two streams: text where the mapping has none for the stream, and otherwise the text, JSON or
-- MessagePack that the name `text`, `json` or `messagepack` stands for.
pub stream_codec-validate :
    (value : Option Value) (fs : Fields) (stream : String)
    → validate_log_codecs value ≡ ok fs
    → is_stream stream ≡ true
    → (c : Codec) × (stream_codec fs stream ≡ ok c) × Says (get stream fs) c
unfolding stream_codec
stream_codec-validate value fs stream h known =
    let (c, says) = checked fs stream (validated value fs h) in
    (c, found (get stream fs) c says, says)
  where
    found :
        (o : Option Value) (c : Codec)
        → Says o c
        → (ensure (is_stream stream) unknown_stream ⟫ λ _.
            ok_or (name_in o) unknown_codec ⟫ λ name. ok_or (codec_named name) unknown_codec)
          ≡ ok c
    found none c q = rw (known, q, codec_named-Names "text" text names_text) refl
    found (some v) c (name, q, called) = rw (known, q, codec_named-Names name c called) refl
