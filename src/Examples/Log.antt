-- ===== src/Examples/Log.antt =====
-- The index of src/log_window.rs on a log of two lines and a part of a third.
use ferrous_framework.Base.{
  ℕ, ◌-◌, ◌≡◌, refl, true, none, some, List, [], ◌∷◌, take, drop, ok, err, arith,
}
use ferrous_framework.Bytes.Compare.{bytes_eq}
use ferrous_framework.Bytes.Words.{le_bytes, to_le_bytes}
use ferrous_framework.Bytes.Hex.{hex_digit, hex_bytes}
use ferrous_framework.LogIndex.Defs.{
  text, io, Stat, absent, Source, World, LineIndex, reset_token, open_stat, read_some, must_restart,
  restart, mark, scan_lines,
}
use ferrous_framework.LogIndex.Ops.{
  Decoder, write_marks, index_lines, index_chunk, index_round, index_rest, restart_if, same_log,
  same_token, validate_snapshot, offset, read_exact, read, conclude, refresh_from, refresh_inner,
  refresh,
}
use ferrous_framework.LogIndex.Indexed.{Indexed}
use ferrous_framework.LogIndex.Progress.{Readable}
use ferrous_framework.LogIndex.Refresh.{Continues, Refreshed, refresh-Refreshed}
use ferrous_framework.LogIndex.Reuse.{Continues-of_none, refresh_agree, refresh-recovers}
use ferrous_framework.LogIndex.Total.{Still, refresh-ok}
use ferrous_framework.LogIndex.Cut.{lines, offset-cuts}
use ferrous_framework.LogIndex.Snapshot.{IsRead, read-IsRead}

-- `a`, newline, `b`, newline, `c`
abbrev pub log_bytes : List ℕ
log_bytes = 97 ∷ 10 ∷ 98 ∷ 10 ∷ 99 ∷ []

abbrev pub log_stat : Stat
log_stat = record { dev = 1; ino = 7; len = 5; mtime = 100; mtime_nsec = 3 }

abbrev pub log_source : Source
log_source = record {
  stat = some log_stat;
  content = log_bytes;
  read_size = λ _ want. some want;
  marker = absent;
  index_ok = true;
  nonce = some (1 ∷ 2 ∷ []);
}

abbrev pub still_world : World
still_world _ = log_source

abbrev pub no_frames : Decoder
no_frames _ = ok none

abbrev pub new_index : LineIndex
new_index = record {
  index = [];
  identity = none;
  mtime = (0, 0);
  size = 0;
  complete = 0;
  last_end = 0;
  generation = "";
  codec = text;
  pending = [];
  reset = [];
}

pub new_index-Continues : Continues log_source new_index
new_index-Continues = Continues-of_none log_source new_index refl

abbrev pub full_index : LineIndex
full_index = record {
  index = 2 ∷ 0 ∷ 0 ∷ 0 ∷ 0 ∷ 0 ∷ 0 ∷ 0 ∷ 4 ∷ 0 ∷ 0 ∷ 0 ∷ 0 ∷ 0 ∷ 0 ∷ 0 ∷ [];
  identity = some (1, 7);
  mtime = (100, 3);
  size = 5;
  complete = 2;
  last_end = 4;
  generation = "0102";
  codec = text;
  pending = [];
  reset = [];
}

pub refreshed : refresh no_frames still_world 0 new_index ≡ (ok tt, full_index)
unfolding refresh refresh_inner refresh_from conclude validate_snapshot same_log same_token
    restart_if index_rest index_round index_chunk index_lines write_marks scan_lines mark
    to_le_bytes le_bytes must_restart restart read_some open_stat reset_token hex_bytes hex_digit
    bytes_eq
refreshed = refl

refresh-Refreshed_example : Refreshed still_world 0 full_index
refresh-Refreshed_example =
    refresh-Refreshed no_frames still_world 0 new_index refl new_index-Continues refreshed

-- an index that was forgotten, and whose fields are wrong
abbrev pub stale_index : LineIndex
stale_index = record full_index { identity = none; complete = 40 }

pub refreshed_again : refresh no_frames still_world 0 stale_index ≡ (ok tt, full_index)
unfolding refresh refresh_inner refresh_from conclude validate_snapshot same_log same_token
    restart_if index_rest index_round index_chunk index_lines write_marks scan_lines mark
    to_le_bytes le_bytes must_restart restart read_some open_stat reset_token hex_bytes hex_digit
    bytes_eq
refreshed_again = refl

stale_index-Continues : Continues log_source stale_index
stale_index-Continues = Continues-of_none log_source stale_index refl

refresh_agree_example :
    (full_index.index ≡ full_index.index)
    × (full_index.complete ≡ full_index.complete)
    × (full_index.last_end ≡ full_index.last_end)
    × (full_index.size ≡ full_index.size)
refresh_agree_example =
    refresh_agree no_frames still_world 0 new_index stale_index refl refl new_index-Continues
      stale_index-Continues refreshed refreshed_again

-- a log that cannot be opened
abbrev gone_world : World
gone_world _ = record log_source { stat = none }

not_opened :
    refresh no_frames gone_world 0 full_index ≡ (err io, record full_index { identity = none })
unfolding refresh refresh_inner open_stat
not_opened = refl

-- and the next refresh, of a log that is there
found_again :
    refresh no_frames still_world 4 (record full_index { identity = none }) ≡ (ok tt, full_index)
unfolding refresh refresh_inner refresh_from conclude validate_snapshot same_log same_token
    restart_if index_rest index_round index_chunk index_lines write_marks scan_lines mark
    to_le_bytes le_bytes must_restart restart read_some open_stat reset_token hex_bytes hex_digit
    bytes_eq
found_again = refl

refresh-recovers_example : Refreshed still_world 4 full_index
refresh-recovers_example =
    refresh-recovers no_frames gone_world still_world 0 4 full_index not_opened refl found_again

log_source-Readable : Readable 5 log_source
log_source-Readable = record {
  reads = λ pos want h. (want, refl, h);
  enough = omega arith;
  index_ok = refl;
}

still_world-Still : Still still_world 0 log_stat []
unfolding reset_token
still_world-Still = record {
  opened = refl;
  again = refl;
  marked = refl;
  marked_again = refl;
  readable = log_source-Readable;
  nonce = (1 ∷ 2 ∷ [], refl);
}

refresh-ok_example : (s' : LineIndex) × (refresh no_frames still_world 0 new_index ≡ (ok tt, s'))
refresh-ok_example =
    refresh-ok no_frames still_world 0 log_stat [] new_index still_world-Still refl
      new_index-Continues

full_index-Indexed : Indexed log_bytes full_index
full_index-Indexed =
    (refresh-Refreshed no_frames still_world 0 new_index refl new_index-Continues refreshed).indexed

offset-cuts_example :
    (a : ℕ) × (e : ℕ) × (offset full_index 1 ≡ ok a)
    × (offset full_index 2 ≡ ok e)
    × (take (e - a) (drop a log_bytes) ≡ 98 ∷ 10 ∷ [])
unfolding lines
offset-cuts_example =
    offset-cuts log_bytes full_index full_index-Indexed (omega arith) 1 (98 ∷ 10 ∷ []) refl

second_line : read still_world 4 full_index 2 2 ≡ ok (98 ∷ 10 ∷ [])
unfolding read read_exact same_log same_token validate_snapshot open_stat reset_token bytes_eq
second_line = refl

read-IsRead_example : IsRead still_world 4 full_index 2 2 (98 ∷ 10 ∷ [])
read-IsRead_example = read-IsRead still_world 4 full_index 2 2 (98 ∷ 10 ∷ []) second_line
