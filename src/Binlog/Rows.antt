-- ===== src/Binlog/Rows.antt =====
-- `OnRow`, `OnTableChanged` and `notify` of src/library/binlog/handler.go. `json.Marshal` is the
-- parameter `marshal` (`none` is its error), the clock the argument `now`. A Go map is an association
-- list; the plugins are called in the order of their registration.
pub mod Fields
pub mod Events
use wing_binlog_go.Prelude.{
  ℕ, suc, ◌+◌, ◌%◌, ◌^◌, Bool, true, false, Option, none, some, List, [], ◌∷◌, ◌++◌, map, Outcome,
  ok, panic, ◌>>=◌, Bytes, text, bytes_eq, if◌then◌else◌,
}
use wing_binlog_go.Binlog.Column.{Value, nil, TableColumn, field_decode}
use wing_binlog_go.Binlog.State.{Binlog, Effect, send_all, on_event, call_each}

abbrev pub Fields : Type 0
Fields = List (Bytes × Value)

-- `fields[name] = v`
unfoldable pub set_field : Bytes → Value → Fields → Fields
set_field name v [] = (name, v) ∷ []
set_field name v ((n, w) ∷ fields) =
    if bytes_eq n name then (name, v) ∷ fields else (n, w) ∷ set_field name v fields

-- The loop over the columns of one row: a column that the row lacks is nil.
unfoldable pub fill_fields : List TableColumn → List Value → Fields → Outcome Fields
fill_fields [] row fields = ok fields
fill_fields (col ∷ cols) [] fields = fill_fields cols [] (set_field col.name nil fields)
fill_fields (col ∷ cols) (v ∷ row) fields =
    field_decode v col >>= λ w. fill_fields cols row (set_field col.name w fields)

-- The `event` of a message: the fields of a row, or those before and after an update.
pub data Event : Type 0 where
  alter : Event
  row : Fields → Event
  update : Fields → Fields → Event

-- The map `rowData` that goes out as JSON.
pub record RowData : Type 0 where
  pub database : Bytes
  pub event_type : Bytes
  pub time : ℕ
  pub table : Bytes
  pub event_index : ℕ
  pub event : Event

-- `canal.RowsEvent`
pub record RowsEvent : Type 0 where
  pub schema : Bytes
  pub table : Bytes
  pub columns : List TableColumn
  pub action : Bytes
  pub rows : List (List Value)

-- `atomic.AddInt64(&h.EventIndex, 1)`
unfoldable pub next_index : Binlog → Binlog
next_index h = record h { event_index = (h.event_index + 1) % 2 ^ 64 }

module _ (marshal : RowData → Option Bytes) where
  -- The calls of `notify` for one message.
  unfoldable pub announce : Binlog → RowData → List Effect
  announce h d = elim (marshal d) [
    | none ↦ []
    | some json ↦
        map (λ name. send_all name (d.database ++ (text "." ++ d.table)) json) h.services
        ++ call_each h.on_events (λ k. on_event k (d.database ++ (text "." ++ d.table)) json)
  ]

  unfoldable pub notify : RowData → Binlog → Binlog
  unfolding announce
  notify d h = record h { effects = h.effects ++ announce h d }

  -- `OnTableChanged`
  unfoldable pub on_table_changed : ℕ → Bytes → Bytes → Binlog → Binlog
  unfolding next_index
  on_table_changed now schema table h =
      let counted = next_index h in
      notify
        (record {
          database = schema;
          event_type = text "alter";
          time = now;
          table = table;
          event_index = counted.event_index;
          event = alter;
        })
        counted

  row_data : ℕ → RowsEvent → ℕ → Event → RowData
  row_data now e index event = record {
    database = e.schema;
    event_type = e.action;
    time = now;
    table = e.table;
    event_index = index;
    event = event;
  }

  -- The loop of an update: the rows come in pairs, old and new. A last row alone is a panic.
  unfoldable pub update_loop : ℕ → RowsEvent → List (List Value) → Binlog → Outcome Binlog
  unfolding next_index row_data
  update_loop now e [] h = ok h
  update_loop now e (old ∷ []) h = panic
  update_loop now e (old ∷ new ∷ rows) h = do
    let counted = next_index h
    old_data ← fill_fields e.columns old []
    new_data ← fill_fields e.columns new []
    update_loop now e rows
        (notify (row_data now e counted.event_index (update old_data new_data)) counted)

  -- The loop of an insert or a delete. The map `data` is made once and used for every row.
  unfoldable pub rows_loop : ℕ → RowsEvent → List (List Value) → Fields → Binlog → Outcome Binlog
  unfolding next_index row_data
  rows_loop now e [] fields h = ok h
  rows_loop now e (r ∷ rows) fields h = do
    let counted = next_index h
    filled ← fill_fields e.columns r fields
    rows_loop now e rows filled (notify (row_data now e counted.event_index (row filled)) counted)

  -- `OnRow`
  unfoldable pub on_row : ℕ → RowsEvent → Binlog → Outcome Binlog
  unfolding update_loop rows_loop
  on_row now e h =
      if h.is_exit
      then ok h
      else if bytes_eq e.action (text "update")
      then update_loop now e e.rows h
      else rows_loop now e e.rows [] h
