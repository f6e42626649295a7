-- ===== src/LogWindow/Defs.antt =====
-- `LogWindow` of src/log_window.rs, and what `window` takes from elsewhere.
use ferrous_framework.Base.{ℕ, String, Bool, List, Result}
use ferrous_framework.LogIndex.Defs.{Error}
use ferrous_framework.LogProjection.Defs.{RecordProjection}
use ferrous_framework.LogProjection.Project.{Serde}

pub record LogWindow : Type 0 where
  pub generation : String
  pub start : ℕ
  pub end : ℕ
  pub total : ℕ
  pub at_start : Bool
  pub at_tail : Bool
  pub records : List RecordProjection
  pub pending_bytes : ℕ

-- what `window` takes from elsewhere; `serialized` is the length of `serde_json::to_vec`
pub record Projector : Type 0 where
  pub serde : Serde
  pub serialized : LogWindow → Result Error ℕ
