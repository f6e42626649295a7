-- ===== src/IndexCache/Valid.antt =====
-- The cache of src/log_window.rs stays within its capacity, holds an index for each key once, and a
-- borrow finds the index that an earlier borrow of the same key left.
use ferrous_framework.Base.{
  ◌+◌, ◌-◌, ◌≤◌, ◌<◌, ◌≡◌, refl, ap, ◌∙◌, sym, String, eq_iff, true, false, Option, none, some,
  List, [], ◌∷◌, ◌++◌, length, leb, if◌then◌else◌, arith, Bool-cases, inl, inr, ◌⊎◌, length-append,
}
use ferrous_framework.LogIndex.Defs.{Codec, text, json, messagepack, LineIndex}
use ferrous_framework.IndexCache.Defs.{
  Entry, IndexCache, codec_eq, is_key, take_out, pop_front, make_room,
}

pub eq_of_codec_eq : (a b : Codec) → codec_eq a b ≡ true → a ≡ b
eq_of_codec_eq text text h = refl
eq_of_codec_eq json json h = refl
eq_of_codec_eq messagepack messagepack h = refl
eq_of_codec_eq a b h = ground arith

-- no entry has the key
abbrev pub Absent : String → Codec → List Entry → Type 0
Absent path codec [] = Unit
Absent path codec (e ∷ es) = (is_key path codec e ≡ false) × Absent path codec es

abbrev pub Distinct : List Entry → Type 0
Distinct [] = Unit
Distinct (e ∷ es) = Absent e.path e.codec es × Distinct es

pub record IsValid (c : IndexCache) : Type 0 where
  pub positive : 0 < c.capacity
  pub bounded : length c.entries ≤ c.capacity
  pub distinct : Distinct c.entries

-- the index that is kept for a key
unfoldable pub find : String → Codec → List Entry → Option LineIndex
find path codec [] = none
find path codec (e ∷ es) = if is_key path codec e then some e.index else find path codec es

is_key_sym : (d e : Entry) → is_key d.path d.codec e ≡ false → is_key e.path e.codec d ≡ false
is_key_sym d e h = go (Bool-cases (is_key e.path e.codec d))
  where
    same : is_key e.path e.codec d ≡ true → is_key d.path d.codec e ≡ true
    same q =
        let paths : d.path ≡ e.path = (eq_iff d.path e.path).0 (ground arith) in
        let codecs : d.codec ≡ e.codec = eq_of_codec_eq d.codec e.codec (ground arith) in
        rw (paths, ← codecs) (ground arith)

    go :
        (is_key e.path e.codec d ≡ true) ⊎ (is_key e.path e.codec d ≡ false)
        → is_key e.path e.codec d ≡ false
    go (inl q) = absurd (ground (arith, same q))
    go (inr q) = q

Absent-append :
    (path : String) (codec : Codec) (xs ys : List Entry)
    → Absent path codec xs
    → Absent path codec ys
    → Absent path codec (xs ++ ys)
Absent-append path codec [] ys a b = b
Absent-append path codec (x ∷ xs) ys a b = (a.0, Absent-append path codec xs ys a.1 b)

Absent-rotate :
    (path : String) (codec : Codec) (xs ys : List Entry) (e : Entry)
    → Absent path codec (xs ++ e ∷ ys)
    → Absent path codec ((xs ++ ys) ++ e ∷ [])
Absent-rotate path codec [] ys e a = Absent-append path codec ys (e ∷ []) a.1 (a.0, tt)
Absent-rotate path codec (x ∷ xs) ys e a = (a.0, Absent-rotate path codec xs ys e a.1)

pub Distinct-snoc :
    (xs : List Entry) (e : Entry) → Distinct xs → Absent e.path e.codec xs → Distinct (xs ++ e ∷ [])
Distinct-snoc [] e d a = (tt, tt)
Distinct-snoc (x ∷ xs) e d a = (
  Absent-append x.path x.codec xs (e ∷ []) d.0 (is_key_sym e x a.0, tt),
  Distinct-snoc xs e d.1 a.1,
)

pub Distinct-rotate :
    (xs ys : List Entry) (e : Entry) → Distinct (xs ++ e ∷ ys) → Distinct ((xs ++ ys) ++ e ∷ [])
Distinct-rotate [] ys e d = Distinct-snoc ys e d.1 d.0
Distinct-rotate (x ∷ xs) ys e d =
    (Absent-rotate x.path x.codec xs ys e d.0, Distinct-rotate xs ys e d.1)

-- Where a key is found, the entries split around it.
pub record Split (path : String) (codec : Codec) (es rest : List Entry) (e : Entry) : Type 0 where
  pub before : List Entry
  pub behind : List Entry
  pub all : es ≡ before ++ e ∷ behind
  pub others : rest ≡ before ++ behind
  pub key : is_key path codec e ≡ true
  pub found : find path codec es ≡ some e.index

pub take_out-Split :
    (path : String) (codec : Codec) (es rest : List Entry) (e : Entry)
    → take_out path codec es ≡ some (e, rest)
    → Split path codec es rest e
unfolding take_out find
take_out-Split path codec [] rest e h = absurd (ground arith)
take_out-Split path codec (x ∷ es) rest e h = elim (Bool-cases (is_key path codec x)) [
  | inl here ↦ record {
    before = [];
    behind = es;
    all = ground arith;
    others = ground arith;
    key = ground arith;
    found = ground arith;
  }
  | inr further ↦
      later (take_out path codec es) refl further (λ ys y. take_out-Split path codec es ys y)
]
  where
    later :
        (o : Option (Entry × List Entry))
        → take_out path codec es ≡ o
        → is_key path codec x ≡ false
        → ((ys : List Entry) (y : Entry)
            → take_out path codec es ≡ some (y, ys)
            → Split path codec es ys y)
        → Split path codec (x ∷ es) rest e
    later none q f ih = absurd (ground arith)
    later (some (y, ys)) q f ih =
        let t = ih ys y q in
        let head_eq : y ≡ e = ground arith in
        let rest_eq : x ∷ ys ≡ rest = ground arith in
        record {
          before = x ∷ t.before;
          behind = t.behind;
          all = ap (◌∷◌ x) t.all ∙ ap (λ z. x ∷ t.before ++ z ∷ t.behind) head_eq;
          others = sym rest_eq ∙ ap (◌∷◌ x) t.others;
          key = ap (is_key path codec) (sym head_eq) ∙ t.key;
          found = rw f (t.found ∙ ap (λ (z : Entry). some z.index) head_eq);
        }

pub Absent-of_none :
    (path : String) (codec : Codec) (es : List Entry)
    → take_out path codec es ≡ none
    → Absent path codec es × (find path codec es ≡ none)
unfolding take_out find
Absent-of_none path codec [] h = (tt, refl)
Absent-of_none path codec (e ∷ es) h = elim (Bool-cases (is_key path codec e)) [
  | inl here ↦ absurd (ground arith)
  | inr further ↦
      let (a, f) = Absent-of_none path codec es (missed further) in ((further, a), rw further f)
]
  where
    missed : is_key path codec e ≡ false → take_out path codec es ≡ none
    missed q = ground arith

pub split-length :
    (xs ys : List Entry) (e : Entry) → length ((xs ++ ys) ++ e ∷ []) ≡ length (xs ++ e ∷ ys)
split-length xs ys e =
    omega (arith, length-append (xs ++ ys) (e ∷ []), length-append xs ys, length-append xs (e ∷ ys))

length-pop_front : (xs : List Entry) → length (pop_front xs) ≡ length xs - 1
length-pop_front [] = omega arith
length-pop_front (x ∷ xs) = omega arith

pop_front-Distinct : (xs : List Entry) → Distinct xs → Distinct (pop_front xs)
pop_front-Distinct [] d = d
pop_front-Distinct (x ∷ xs) d = d.1

pop_front-Absent :
    (path : String) (codec : Codec) (xs : List Entry)
    → Absent path codec xs
    → Absent path codec (pop_front xs)
pop_front-Absent path codec [] a = a
pop_front-Absent path codec (x ∷ xs) a = a.1

-- the entries after a miss, with or without an eviction
make_room_elim :
    (P : List Entry → Type 0) (c : IndexCache)
    → (c.capacity ≤ length c.entries → P (pop_front c.entries))
    → (length c.entries < c.capacity → P c.entries)
    → P (make_room c)
unfolding make_room
make_room_elim P c full room = elim (Bool-cases (leb c.capacity (length c.entries))) [
  | inl e ↦ rw e (full (ground arith))
  | inr e ↦ rw e (room (ground arith))
]

pub make_room-short : (c : IndexCache) → IsValid c → length (make_room c) + 1 ≤ c.capacity
make_room-short c v =
    make_room_elim (λ es. length es + 1 ≤ c.capacity) c
      (λ full. omega (arith, length-pop_front c.entries, v.positive, v.bounded))
      (λ room. omega arith)

pub make_room-Distinct : (c : IndexCache) → IsValid c → Distinct (make_room c)
make_room-Distinct c v =
    make_room_elim Distinct c (λ _. pop_front-Distinct c.entries v.distinct) (λ _. v.distinct)

pub make_room-Absent :
    (path : String) (codec : Codec) (c : IndexCache)
    → Absent path codec c.entries
    → Absent path codec (make_room c)
make_room-Absent path codec c a =
    make_room_elim (Absent path codec) c (λ _. pop_front-Absent path codec c.entries a) (λ _. a)
