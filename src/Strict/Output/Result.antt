-- ===== src/Strict/Output/Result.antt =====
-- strict/output_manager.py: the dict that `emit` makes of a window's result.
use csdlpt.Prelude.{ℕ, ℤ, Bool}
use csdlpt.Common.Types.{WindowId, WindowResult}

pub record Payload : Type 0 where
  pub window_id : WindowId
  pub partition_id : ℕ
  pub window_start : ℤ
  pub window_end : ℤ
  pub count : ℕ
  pub status_500 : ℕ
  pub is_speculative : Bool
  pub version : ℕ
  pub emitted_at : ℕ

abbrev pub payload : ℕ → WindowResult → Payload
payload now r = record {
  window_id = r.window_id;
  partition_id = r.partition_id;
  window_start = r.window_start;
  window_end = r.window_end;
  count = r.count;
  status_500 = r.status_500;
  is_speculative = r.is_speculative;
  version = r.version;
  emitted_at = now;
}
