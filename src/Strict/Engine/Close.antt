-- ===== src/Strict/Engine/Close.antt =====
-- strict/engine.py: `_advance_watermark` and `flush`, which close windows.
use csdlpt.Prelude.{
  ℕ, Bool, false, Option, none, some, List, [], ◌∷◌, ◌++◌, ℤ, pos, ◌+ℤ◌, int_eq, if◌then◌else◌,
  keep,
}
use csdlpt.Prelude.Mark
use csdlpt.Prelude.Mark.{Mark, at}
use csdlpt.Prelude.Dict
use csdlpt.Prelude.Dict.{Dict}
use csdlpt.Prelude.Sort.{sort}
use csdlpt.Common.Types.{WindowResult, uploading, uploaded}
use csdlpt.Common.Window.{window_id}
use csdlpt.Strict.Output.{OutputManager, emit}
use csdlpt.Strict.Engine.State.{
  Engine, WindowState, on_store, delete_open_window, persist_closed_window, purge_window_from_store,
  Tables,
}

abbrev pub result_of : Engine → ℤ → WindowState → WindowResult
result_of e w st = record {
  window_id = window_id e.size e.partition_id w;
  partition_id = e.partition_id;
  window_start = w;
  window_end = w +ℤ pos e.size;
  count = st.count;
  status_500 = st.status_500;
  is_speculative = false;
  version = 1;
}

-- `_upload_to_tiered_storage`: what the storage is handed.
unfoldable pub upload_to_tiered_storage : WindowResult → Engine → List WindowResult
upload_to_tiered_storage r e = if e.has_storage then e.uploads ++ r ∷ [] else e.uploads

abbrev pub emit_output : ℕ → WindowResult → Option OutputManager → Option OutputManager
emit_output now r none = none
emit_output now r (some m) = some (emit now r m).1

-- The body of the loop, for a window that was popped.
unfoldable pub close_with : ℕ → ℤ → WindowState → Engine → Engine
unfolding upload_to_tiered_storage
close_with now w st e =
    let r = result_of e w st in
    record e {
      open_windows = Dict.remove e.open_windows w;
      closed_windows = Dict.put e.closed_windows w r;
      uploads = upload_to_tiered_storage r e;
      output = emit_output now r e.output;
      store =
          on_store
            (λ t. purge_window_from_store w (
              persist_closed_window w r uploaded
                (persist_closed_window w r uploading (delete_open_window w t))))
            e.store;
    }

unfoldable pub close_window : ℕ → ℤ → Engine → Engine
unfolding close_with
close_window now w e = elim (Dict.get e.open_windows w) [
  | none ↦ e
  | some st ↦ close_with now w st e
]

unfoldable pub close_windows : ℕ → List ℤ → Engine → Engine
close_windows now [] e = e
close_windows now (w ∷ ws) e = close_windows now ws (close_window now w e)

-- `w + self.tumbling.size <= self.watermark`
abbrev pub is_due : ℕ → Mark → ℤ → Bool
is_due size watermark w = Mark.le (at (w +ℤ pos size)) watermark

unfoldable pub to_close : Engine → List ℤ
to_close e = keep (is_due e.size e.watermark) (Dict.keys e.open_windows)

unfoldable pub advance_watermark : ℕ → Engine → Engine
unfolding close_windows to_close
advance_watermark now e =
    let e' = record e { watermark = e.local_watermark } in
    close_windows now (sort (λ w. w) (to_close e')) e'

-- The body of the loop of `flush`, which pops nothing.
unfoldable pub flush_with : ℕ → ℤ → WindowState → Engine → Engine
unfolding upload_to_tiered_storage
flush_with now w st e =
    let r = result_of e w st in
    record e {
      closed_windows = Dict.put e.closed_windows w r;
      uploads = upload_to_tiered_storage r e;
      output = emit_output now r e.output;
      store =
          on_store
            (λ t. purge_window_from_store w (
              if e.has_storage
              then persist_closed_window w r uploading t
              else persist_closed_window w r uploaded (persist_closed_window w r uploading t)))
            e.store;
    }

unfoldable pub flush_windows : ℕ → List (ℤ × WindowState) → Engine → Engine
unfolding flush_with
flush_windows now [] e = e
flush_windows now ((w, st) ∷ l) e = flush_windows now l (flush_with now w st e)

-- `clear_prefix("ow:")`
abbrev pub clear_open : Tables → Tables
clear_open t = record t { ow = [] }

unfoldable pub flush : ℕ → Engine → Engine
unfolding flush_windows
flush now e =
    let e' = flush_windows now (sort (λ p. p.0) e.open_windows) e in
    record e' { open_windows = []; store = on_store clear_open e'.store }
