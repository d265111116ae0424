-- ===== src/Binlog/Rows/Events.antt =====
-- The messages of a change: one for each row, numbered on without a gap.
use wing_binlog_go.Prelude.{
  ℕ, ◌+◌, ◌/◌, ◌%◌, ◌^◌, ◌≡◌, Option, List, [], ◌∷◌, ◌++◌, ok, Bytes, text, bytes_eq, length,
  if◌then◌else◌,
}
use wing_binlog_go.Binlog.Column.{Value}
use wing_binlog_go.Binlog.State.{Binlog, Effect}
use wing_binlog_go.Binlog.Rows.{Fields, fill_fields, row, update, RowData, RowsEvent, announce}

-- The messages are of the change `e`, and their numbers go on from `i` by one.
abbrev pub Numbered : RowsEvent → ℕ → List RowData → Type 0
Numbered e i [] = Unit {0}
Numbered e i (d ∷ ds) =
    (d.event_index ≡ (i + 1) % 2 ^ 64)
    × (d.database ≡ e.schema)
    × (d.table ≡ e.table)
    × (d.event_type ≡ e.action)
    × Numbered e ((i + 1) % 2 ^ 64) ds

-- The messages are of these rows, in their order: each holds the fields of its row, written over the map
-- `fields` that the loop carries on.
abbrev pub OfRows : RowsEvent → Fields → List (List Value) → List RowData → Type 0
OfRows e fields [] [] = Unit {0}
OfRows e fields (r ∷ rows) (d ∷ ds) =
    (filled : Fields) × (fill_fields e.columns r fields ≡ ok filled)
    × (d.event ≡ row filled)
    × OfRows e filled rows ds
OfRows e fields _ _ = ⊥

-- The messages are of these pairs of rows: each holds the fields of the old row and those of the new.
abbrev pub OfPairs : RowsEvent → List (List Value) → List RowData → Type 0
OfPairs e [] [] = Unit {0}
OfPairs e (old ∷ new ∷ rows) (d ∷ ds) =
    (old_data : Fields) × (new_data : Fields) × (fill_fields e.columns old [] ≡ ok old_data)
    × (fill_fields e.columns new [] ≡ ok new_data)
    × (d.event ≡ update old_data new_data)
    × OfPairs e rows ds
OfPairs e _ _ = ⊥

-- The messages of a change.
unfoldable pub OfChange : RowsEvent → List RowData → Type 0
OfChange e ds =
    if bytes_eq e.action (text "update") then OfPairs e e.rows ds else OfRows e [] e.rows ds

-- The rows of a change that are told of together: the rows of an update come in pairs.
unfoldable pub message_count : RowsEvent → ℕ
message_count e = if bytes_eq e.action (text "update") then length e.rows / 2 else length e.rows

module _ (marshal : RowData → Option Bytes) where
  -- The calls for a list of messages, by the plugins and callbacks of `h`.
  unfoldable pub announce_all : Binlog → List RowData → List Effect
  announce_all h [] = []
  announce_all h (d ∷ ds) = announce marshal h d ++ announce_all h ds

  -- What `n` rounds of a loop do.
  record Announced (e : RowsEvent) (n : ℕ) (Of : List RowData → Type 0) (h k : Binlog)
      : Type 0 where
    messages : List RowData
    of_change : Of messages
    count : length messages ≡ n
    numbered : Numbered e h.event_index messages
    called : k.effects ≡ h.effects ++ announce_all h messages
    index : k.event_index ≡ (h.event_index + n) % 2 ^ 64
