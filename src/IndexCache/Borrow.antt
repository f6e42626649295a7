-- ===== src/IndexCache/Borrow.antt =====
-- `borrow` of src/log_window.rs, on every branch.
use mathlib.Core.Path.{subst}
use ferrous_framework.Base.{
  ◌≡◌, refl, ap, sym, String, eq_iff, Bool, true, false, Option, none, some, List, [], ◌∷◌, ◌++◌,
  length, ok, arith, Option-cases, inl, inr, length-append,
}
use ferrous_framework.LogIndex.Defs.{Codec, LineIndex, with_codec}
use ferrous_framework.IndexCache.Defs.{
  Entry, IndexCache, take_out, make_room, insert_new, borrow_absolute, borrow,
}
use ferrous_framework.IndexCache.Valid.{
  Absent, Distinct, IsValid, find, Split, Distinct-snoc, Distinct-rotate, take_out-Split,
  Absent-of_none, split-length, make_room-short, make_room-Distinct, make_room-Absent,
  eq_of_codec_eq,
}

-- the state after a hit
hit-IsValid :
    (path : String) (codec : Codec) (c : IndexCache) (rest : List Entry) (e : Entry)
    → IsValid c
    → Split path codec c.entries rest e
    → IsValid (record c { entries = rest ++ e ∷ [] })
hit-IsValid path codec c rest e v t = record {
  positive = v.positive;
  bounded =
      rw t.others (omega (arith, v.bounded, split-length t.before t.behind e, ap length t.all));
  distinct = rw t.others (Distinct-rotate t.before t.behind e (subst Distinct t.all v.distinct));
}

miss-IsValid :
    (path : String) (codec : Codec) (c : IndexCache) (index : LineIndex)
    → IsValid c
    → Absent path codec c.entries
    → IsValid (record c {
      entries = make_room c ++ record { path = path; codec = codec; index = index } ∷ [];
    })
miss-IsValid path codec c index v a = record {
  positive = v.positive;
  bounded = omega (
    arith,
    make_room-short c v,
    length-append (make_room c) (record { path = path; codec = codec; index = index } ∷ []),
  );
  distinct =
      Distinct-snoc (make_room c) _ (make_room-Distinct c v) (make_room-Absent path codec c a);
}

abbrev Kept : IndexCache → IndexCache → Type 0
Kept c c' = IsValid c' × (c'.capacity ≡ c.capacity)

insert_new-IsValid :
    (tempfile : Bool) (path : String) (codec : Codec) (c : IndexCache)
    → IsValid c
    → Absent path codec c.entries
    → Kept c (insert_new tempfile path codec c).1
unfolding insert_new
insert_new-IsValid true path codec c v a = (miss-IsValid path codec c (with_codec codec) v a, refl)
insert_new-IsValid false path codec c v a = (
  record {
    positive = v.positive;
    bounded = omega (arith, make_room-short c v);
    distinct = make_room-Distinct c v;
  },
  refl,
)

borrow_absolute-IsValid :
    (tempfile : Bool) (path : String) (codec : Codec) (c : IndexCache)
    → IsValid c
    → Kept c (borrow_absolute tempfile path codec c).1
unfolding borrow_absolute
borrow_absolute-IsValid tempfile path codec c v =
    elim (Option-cases (take_out path codec c.entries)) [
      | inl q ↦
          rw (q, borrow_absolute)
            (insert_new-IsValid tempfile path codec c v (Absent-of_none path codec c.entries q).0)
      | inr ((e, rest), q) ↦
          rw (q, borrow_absolute)
            (hit-IsValid path codec c rest e v (take_out-Split path codec c.entries rest e q), refl)
    ]

-- `borrow` keeps the capacity and the validity of the cache on every branch, its errors included:
-- the capacity is positive, there are no more entries than it allows, and no two entries have the
-- same path and codec.
pub borrow-IsValid :
    (absolute : String → Option String) (tempfile : Bool) (path : String) (codec : Codec)
    (c : IndexCache)
    → IsValid c
    → IsValid (borrow absolute tempfile path codec c).1
      × ((borrow absolute tempfile path codec c).1.capacity ≡ c.capacity)
unfolding borrow
borrow-IsValid absolute tempfile path codec c v = elim (Option-cases (absolute path)) [
  | inl q ↦ rw (q, borrow) (v, refl)
  | inr (full, q) ↦ rw (q, borrow) (borrow_absolute-IsValid tempfile full codec c v)
]

-- the index that a borrow is to give
abbrev pub index_or_new : Option LineIndex → Codec → LineIndex
index_or_new none codec = with_codec codec
index_or_new (some i) codec = i

-- The last entry is the one that was asked for, with the index that was kept for it.
pub record Gives (path : String) (codec : Codec) (c c' : IndexCache) : Type 0 where
  pub others : List Entry
  pub entry : Entry
  pub entries : c'.entries ≡ others ++ entry ∷ []
  pub path_is : entry.path ≡ path
  pub codec_is : entry.codec ≡ codec
  pub index_is : entry.index ≡ index_or_new (find path codec c.entries) codec

insert_new-Gives :
    (tempfile : Bool) (path : String) (codec : Codec) (c c' : IndexCache)
    → find path codec c.entries ≡ none
    → insert_new tempfile path codec c ≡ (ok tt, c')
    → Gives path codec c c'
unfolding insert_new
insert_new-Gives true path codec c c' q h = record {
  others = make_room c;
  entry = record { path = path; codec = codec; index = with_codec codec };
  entries = ap (λ o. o.1.entries) (sym h);
  path_is = refl;
  codec_is = refl;
  index_is = rw q refl;
}
insert_new-Gives false path codec c c' q h = absurd (ground arith)

hit-Gives :
    (path : String) (codec : Codec) (c c' : IndexCache) (rest : List Entry) (e : Entry)
    → Split path codec c.entries rest e
    → c'.entries ≡ rest ++ e ∷ []
    → Gives path codec c c'
hit-Gives path codec c c' rest e t h = record {
  others = rest;
  entry = e;
  entries = h;
  path_is = (eq_iff e.path path).0 (ground (arith, t.key));
  codec_is = eq_of_codec_eq e.codec codec (ground (arith, t.key));
  index_is = rw t.found refl;
}

-- When `borrow` succeeds at an absolute path, the last entry of the cache has that path and the
-- codec that was asked for, with the index that the cache kept for them, or with a new index if it
-- kept none.
pub borrow-Gives :
    (absolute : String → Option String) (tempfile : Bool) (path full : String) (codec : Codec)
    (c c' : IndexCache)
    → absolute path ≡ some full
    → borrow absolute tempfile path codec c ≡ (ok tt, c')
    → Gives full codec c c'
unfolding borrow borrow_absolute
borrow-Gives absolute tempfile path full codec c c' known h =
    elim (Option-cases (take_out full codec c.entries)) [
      | inl q ↦
          insert_new-Gives tempfile full codec c c' (Absent-of_none full codec c.entries q).1
            (ground arith)
      | inr ((e, rest), q) ↦
          hit-Gives full codec c c' rest e (take_out-Split full codec c.entries rest e q)
            (ground arith)
    ]
