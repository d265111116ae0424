-- ===== src/Binlog/Rows/Fields.antt =====
-- The fields of a message are those of its row, whatever the map held before.
use wing_binlog_go.Prelude.{
  ◌≡◌, refl, ◌∙◌, true, false, Option, none, some, List, [], ◌∷◌, Outcome, ok, ◌>>=◌, >>=-eq-ok,
  ok-injective, Bytes, bytes_eq, bytes_eq→eq, bytes_eq_refl, if◌then◌else◌, arith, Bool-cases, inl,
  inr,
}
use wing_binlog_go.Binlog.Column.{Value, nil, TableColumn, field_decode}
use wing_binlog_go.Binlog.Rows.{Fields, set_field, fill_fields}

unfoldable pub get_field : Bytes → Fields → Option Value
get_field name [] = none
get_field name ((n, v) ∷ fields) = if bytes_eq n name then some v else get_field name fields

get_field-set_field :
    (name key : Bytes) (v : Value) (fields : Fields)
    → get_field key (set_field name v fields)
      ≡ (if bytes_eq name key then some v else get_field key fields)
unfolding get_field set_field
get_field-set_field name key v [] = refl
get_field-set_field name key v ((n, w) ∷ fields) = elim (Bool-cases (bytes_eq n name)) [
  | inl same ↦ rw (same, bytes_eq→eq n name same) (ground arith)
  | inr other ↦ rw other (ground (arith, get_field-set_field name key v fields, apart other))
]
  where
    apart : bytes_eq n name ≡ false → bytes_eq n key ≡ true → bytes_eq name key ≡ false
    apart other e = elim (Bool-cases (bytes_eq name key)) [
      | inl hit ↦ cc (bytes_eq→eq n key e, bytes_eq→eq name key hit, bytes_eq_refl key)
      | inr miss ↦ miss
    ]

-- What a row gives to the column of a name: the last column of that name counts.
unfoldable pub column_value : Bytes → List TableColumn → List Value → Outcome (Option Value)
column_value key [] row = ok none
column_value key (col ∷ cols) [] = column_value key cols [] >>= λ later.
    ok (elim later [ some w ↦ some w | none ↦ if bytes_eq col.name key then some nil else none ])
column_value key (col ∷ cols) (v ∷ row) = field_decode v col >>= λ w.
    column_value key cols row >>= λ later.
    ok (elim later [ some u ↦ some u | none ↦ if bytes_eq col.name key then some w else none ])

abbrev pub or_else : Option Value → Option Value → Option Value
or_else (some w) o = some w
or_else none o = o

-- Where the fields of a row can be decoded, a name of the map has the value that the row gives to its
-- column; only a name that is no column's keeps what the map held before.
pub get_field-fill_fields :
    (key : Bytes) (cols : List TableColumn) (row : List Value) (before after : Fields)
    → fill_fields cols row before ≡ ok after
    → (o : Option Value) × (column_value key cols row ≡ ok o)
      × (get_field key after ≡ or_else o (get_field key before))
unfolding fill_fields column_value
get_field-fill_fields key [] row before after e = (none, refl, rw (ok-injective e) refl)
get_field-fill_fields key (col ∷ cols) [] before after e =
    let (o, c, g) = get_field-fill_fields key cols [] (set_field col.name nil before) after e in
    (
      or_else o (if bytes_eq col.name key then some nil else none),
      rw c (ground arith),
      g ∙ rw (get_field-set_field col.name key nil before) (ground arith),
    )
get_field-fill_fields key (col ∷ cols) (v ∷ row) before after e =
    let (w, ew, ef) =
      >>=-eq-ok (field_decode v col) (λ w. fill_fields cols row (set_field col.name w before)) after
        e in
    let (o, c, g) = get_field-fill_fields key cols row (set_field col.name w before) after ef in
    (
      or_else o (if bytes_eq col.name key then some w else none),
      rw (ew, c) (ground arith),
      g ∙ rw (get_field-set_field col.name key w before) (ground arith),
    )
