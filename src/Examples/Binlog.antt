-- ===== src/Examples/Binlog.antt =====
-- The binlog service of src/library/binlog.
use wing_binlog_go.Prelude.{
  ℕ, ◌≡◌, refl, true, false, Option, some, List, [], ◌∷◌, ◌++◌, ok, Bytes, text, arith,
}
use wing_binlog_go.Binlog.Position.{pack_pos, unpack_pos}
use wing_binlog_go.Binlog.Position.RoundTrip.{unpack_pos-pack_pos}
use wing_binlog_go.Binlog.State.{Binlog, on_event, new_binlog}
use wing_binlog_go.Binlog.Cache.{on_pos_synced, handler_init}
use wing_binlog_go.Binlog.Cache.Restart.{handler_init-on_pos_synced}
use wing_binlog_go.Binlog.Column.{int8, int64, str, TableColumn, has_prefix, field_decode}
use wing_binlog_go.Binlog.Column.Sets.{selected, join, field_decode-set}
use wing_binlog_go.Binlog.Rows.{RowData, RowsEvent}
use wing_binlog_go.Binlog.Control.{Service, run_fails, stop_begins, stop_ends, close, look_start}
use wing_binlog_go.Binlog.Control.Life.{late_return-stuck, close-cache_file}

unpack_pos-pack_pos_example :
    unpack_pos (pack_pos (text "mysql-bin.000009") 4 7 ++ text "rest")
    ≡ ok (text "mysql-bin.000009", 4, 7)
unpack_pos-pack_pos_example =
    unpack_pos-pack_pos (text "mysql-bin.000009") (text "rest") 4 7 (omega arith) (omega arith)
      (omega arith)

-- A service with an open cache file.
unfoldable open_binlog : Binlog
unfolding new_binlog
open_binlog = record (new_binlog (text "an older and longer record") 1 0) {
  cache_opened = true;
  event_index = 7;
}

unfoldable next_binlog : Binlog
next_binlog = new_binlog (on_pos_synced (text "bin.9") 400 open_binlog).cache_file 1 0

handler_init-on_pos_synced_example :
    handler_init (text "bin.9") 300 next_binlog
    ≡ ok (record next_binlog {
      cache_opened = true;
      event_index = 7;
      last_bin_file = text "bin.9";
      last_pos = 300;
    })
unfolding next_binlog open_binlog new_binlog
handler_init-on_pos_synced_example =
    handler_init-on_pos_synced (text "bin.9") (text "bin.9") 400 300 open_binlog next_binlog refl
      refl (λ e. cc) (omega arith) (omega arith) (omega arith) (omega arith) refl

abbrev column : Bytes → Bytes → TableColumn
column name raw_type = record {
  name = name;
  raw_type = raw_type;
  is_unsigned = true;
  enum_values = text "small" ∷ text "large" ∷ [];
  set_values = text "a" ∷ text "b" ∷ text "c" ∷ [];
}

field_decode-set_example :
    field_decode (int64 5) (column (text "tags") (text "set('a','b','c')"))
    ≡ ok (str (join (selected 5 0 (text "a" ∷ text "b" ∷ text "c" ∷ []))))
unfolding has_prefix
field_decode-set_example =
    field_decode-set 5 (column (text "tags") (text "set('a','b','c')")) refl refl (omega arith)
      ((λ e. cc), ((λ e. cc), ((λ e. cc), tt)))

abbrev one_column : List TableColumn
one_column = column (text "n") (text "int(11)") ∷ []

abbrev tell : RowData → Option Bytes
tell d = some d.table

-- A service with one callback.
unfoldable watched : Binlog
unfolding new_binlog
watched = record (new_binlog [] 0 1) { event_index = 7 }

abbrev two_rows : RowsEvent
two_rows = record {
  schema = text "shop";
  table = text "item";
  columns = one_column;
  action = text "insert";
  rows = (int8 1 ∷ []) ∷ (int8 2 ∷ []) ∷ [];
}

unfoldable two_rows_told : Binlog
unfolding watched
two_rows_told = record watched {
  event_index = 9;
  effects =
      on_event 0 (text "shop.item") (text "item")
      ∷ on_event 0 (text "shop.item") (text "item")
      ∷ [];
}

unfoldable idle : Service
unfolding new_binlog
idle = record {
  binlog = record (new_binlog [] 0 0) {
    last_bin_file = text "bin.9";
    last_pos = 4;
    cache_opened = true;
  };
  handler = 0;
  runs = [];
  closed = [];
  starts = 0;
  stops = [];
}

unfoldable running : Service
unfolding idle
running = record idle { binlog = record idle.binlog { is_running = true }; runs = 0 ∷ [] }

abbrev synced : Bytes × ℕ
synced = (text "bin.9", 700)

unfoldable stopped : Service
unfolding running
stopped = stop_ends false (run_fails 0 (stop_begins false synced running))

late_return-stuck_example :
    let late = run_fails 0 (stop_ends false (stop_begins false synced running)) in
    (late.runs ≡ []) × (late.binlog.is_running ≡ true) × (look_start late ≡ ok late)
unfolding idle running new_binlog
late_return-stuck_example = late_return-stuck running 0 synced refl refl

close-cache_file_example :
    (stop_ends true (stop_begins true synced (close running))).binlog.cache_file
    ≡ running.binlog.cache_file
close-cache_file_example = close-cache_file running synced
