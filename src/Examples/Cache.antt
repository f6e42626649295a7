-- ===== src/Examples/Cache.antt =====
-- A cache of src/log_window.rs with room for two indexes.
use ferrous_framework.Base.{◌≡◌, refl, String, true, Option, some, [], ◌∷◌, ok, arith}
use ferrous_framework.LogIndex.Defs.{Codec, text, json, with_codec}
use ferrous_framework.IndexCache.Defs.{Entry, IndexCache, take_out, borrow_absolute, borrow}
use ferrous_framework.IndexCache.Valid.{IsValid}
use ferrous_framework.IndexCache.Borrow.{Gives, borrow-IsValid, borrow-Gives}

abbrev entry : String → Codec → Entry
entry path codec = record { path = path; codec = codec; index = with_codec codec }

abbrev two : IndexCache
two = record { capacity = 2; entries = entry "/a" text ∷ entry "/b" json ∷ [] }

abbrev absolute : String → Option String
absolute path = some path

two-IsValid : IsValid two
two-IsValid = record {
  positive = omega arith;
  bounded = omega arith;
  distinct = ((refl, tt), (tt, tt));
}

-- a third key, for which the first is evicted
borrow-IsValid_example :
    IsValid (borrow absolute true "/c" text two).1
    × ((borrow absolute true "/c" text two).1.capacity ≡ 2)
borrow-IsValid_example = borrow-IsValid absolute true "/c" text two two-IsValid

abbrev turned : IndexCache
turned = record { capacity = 2; entries = entry "/b" json ∷ entry "/a" text ∷ [] }

again : borrow absolute true "/a" text two ≡ (ok tt, turned)
unfolding borrow borrow_absolute take_out
again = refl

borrow-Gives_example : Gives "/a" text two turned
borrow-Gives_example = borrow-Gives absolute true "/a" "/a" text two turned refl again
