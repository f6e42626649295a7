-- ===== src/Examples/Window.antt =====
-- Windows and raw reads of src/log_window.rs, and the viewport and projections of
-- src/log_projection.rs, on the log of Examples/Log.antt.
use ferrous_framework.Base.{
  ℕ, ◌+◌, ◌*◌, ◌≤◌, ◌<◌, ◌≡◌, refl, true, false, none, some, List, [], ◌∷◌, length, ok, arith,
}
use ferrous_framework.Bytes.Compare.{bytes_eq}
use ferrous_framework.Bytes.Words.{le_bytes, to_le_bytes, from_le, read_word}
use ferrous_framework.Bytes.Hex.{hex_digit, hex_bytes}
use ferrous_framework.LogIndex.Defs.{
  text, reset_token, open_stat, read_some, must_restart, restart, mark, scan_lines,
}
use ferrous_framework.LogIndex.Ops.{
  write_marks, index_lines, index_chunk, index_round, index_rest, restart_if, same_log, same_token,
  validate_snapshot, offset, read_exact, read, conclude, refresh_from, refresh_inner, refresh,
}
use ferrous_framework.LogIndex.Refresh.{Refreshed}
use ferrous_framework.LogProjection.Defs.{
  tail, current, newer, older, RawReference, RecordProjection, window_start,
}
use ferrous_framework.LogProjection.Viewport.{window_start-bounds, window_start-overlap}
use ferrous_framework.LogProjection.Project.{
  Serde, is_char_boundary, floor_boundary, preview_text, preview, project_plain, check_record,
  project_record,
}
use ferrous_framework.LogProjection.Preview.{IsPreview, preview_text-IsPreview}
use ferrous_framework.LogProjection.Bounded.{IsWhole, IsBounded, project_record-IsBounded}
use ferrous_framework.LogWindow.Defs.{LogWindow, Projector}
use ferrous_framework.LogWindow.Ops.{
  raw_read, raw_fresh, raw, total_of, range_from, indices, record_at, extend, undo, over_budget,
  fill, window_read, window_fresh, window,
}
use ferrous_framework.LogWindow.Window.{Shows, window-Shows}
use ferrous_framework.LogWindow.Raw.{IsRaw, raw-IsRaw}
use ferrous_framework.Examples.Log.{
  still_world, no_frames, new_index, new_index-Continues, full_index,
}

-- every text is ASCII, and no JSON is read
abbrev ascii : Serde
ascii = record {
  lossy = λ bytes. bytes;
  from_slice = λ _. none;
  to_json = λ _. none;
  remove = λ _ _ v. some v;
  decode_frame = λ _ _. ok none;
}

abbrev projector : Projector
projector = record { serde = ascii; serialized = λ win. ok (200 + 200 * length win.records) }

abbrev projected : ℕ → ℕ → List ℕ → RecordProjection
projected first last bytes = record {
  text = bytes;
  raw = record { generation = "0102"; byte_start = first; byte_end = last };
  omissions = [];
  diagnostic = none;
}

-- the last two records: the first line does not fit into 700 bytes
abbrev last_two : LogWindow
last_two = record {
  generation = "0102";
  start = 1;
  end = 3;
  total = 3;
  at_start = false;
  at_tail = true;
  records = projected 2 4 (98 ∷ 10 ∷ []) ∷ projected 4 5 (99 ∷ []) ∷ [];
  pending_bytes = 1;
}

shown :
    window no_frames projector still_world 0 tail 0 10 1 text 700 none new_index
    ≡ (ok last_two, full_index)
unfolding window window_fresh window_read fill over_budget undo extend record_at indices range_from
    total_of offset read read_exact project_record project_plain check_record read_word from_le
    refresh refresh_inner refresh_from conclude validate_snapshot same_log same_token restart_if
    index_rest index_round index_chunk index_lines write_marks scan_lines mark to_le_bytes le_bytes
    must_restart restart read_some open_stat reset_token hex_bytes hex_digit bytes_eq
shown = refl

window-Shows_example :
    Refreshed still_world 0 full_index
    × Shows projector still_world text tail 0 10 700 full_index last_two
window-Shows_example =
    window-Shows projector still_world text full_index no_frames 0 tail 0 10 1 700 none new_index
      refl new_index-Continues shown

abbrev second : RawReference
second = record { generation = "0102"; byte_start = 2; byte_end = 4 }

raw_second : raw no_frames still_world 0 second 1 10 new_index ≡ (ok (10 ∷ []), full_index)
unfolding raw raw_fresh raw_read read read_exact refresh refresh_inner refresh_from conclude
    validate_snapshot same_log same_token restart_if index_rest index_round index_chunk index_lines
    write_marks scan_lines mark to_le_bytes le_bytes must_restart restart read_some open_stat
    reset_token hex_bytes hex_digit bytes_eq
raw_second = refl

raw-IsRaw_example :
    Refreshed still_world 0 full_index × IsRaw still_world 4 second 1 10 full_index (10 ∷ [])
raw-IsRaw_example =
    raw-IsRaw no_frames still_world 0 second 1 10 new_index refl new_index-Continues (omega arith)
      raw_second

moved : window_start 100 40 20 5 newer ≡ ok 45
unfolding window_start
moved = refl

window_start-bounds_example : (45 ≤ 80) × (0 < 20) × (0 < 5) × (5 ≤ 20)
window_start-bounds_example = window_start-bounds 100 40 20 5 newer 45 moved

stays : window_start 100 40 20 5 current ≡ ok 40
unfolding window_start
stays = refl

back : window_start 100 45 20 5 older ≡ ok 40
unfolding window_start
back = refl

window_start-overlap_example : (40 ≤ 45) × (45 ≤ 60) × (40 ≤ 40) × (40 < 80 → 40 < 45)
window_start-overlap_example =
    window_start-overlap 100 40 20 5 40 45 40 (omega arith) stays moved back

-- 34 bytes in a budget of 32, cut before the character that goes beyond it
abbrev long_text : List ℕ
long_text =
    97 ∷ 97 ∷ 97 ∷ 97 ∷ 97 ∷ 97 ∷ 97 ∷ 97 ∷ 97 ∷ 97 ∷ 97 ∷ 97 ∷ 97 ∷ 97 ∷ 97 ∷ 97 ∷ 97 ∷ 97 ∷ 97
    ∷ 97 ∷ 97 ∷ 97 ∷ 97 ∷ 97 ∷ 97 ∷ 97 ∷ 97 ∷ 97 ∷ 97 ∷ 97 ∷ 97 ∷ 195 ∷ 164 ∷ 97 ∷ []

abbrev long_cut : RecordProjection
long_cut = record {
  text =
      97 ∷ 97 ∷ 97 ∷ 97 ∷ 97 ∷ 97 ∷ 97 ∷ 97 ∷ 97 ∷ 97 ∷ 97 ∷ 97 ∷ 97 ∷ 97 ∷ 97 ∷ 97 ∷ 97 ∷ 97 ∷ 97
      ∷ 97 ∷ 97 ∷ 97 ∷ 97 ∷ 97 ∷ 97 ∷ 97 ∷ 97 ∷ 97 ∷ 97 ∷ 97 ∷ 97 ∷ [];
  raw = record { generation = "g"; byte_start = 8; byte_end = 42 };
  omissions = [];
  diagnostic = some "record_too_large";
}

cut : project_record ascii long_text long_cut.raw text 32 4096 ≡ ok long_cut
unfolding project_record project_plain check_record preview preview_text floor_boundary
    is_char_boundary
cut = refl

project_record-IsBounded_example :
    IsBounded (IsWhole ascii text 4096 long_text) long_cut.raw 32 long_cut
project_record-IsBounded_example =
    project_record-IsBounded ascii long_text long_cut.raw text 32 4096 (omega arith) cut

preview_text-IsPreview_example : IsPreview long_text 32 (preview_text long_text 32)
preview_text-IsPreview_example = preview_text-IsPreview long_text 32
