-- ===== src/Binlog/Column/Integers.antt =====
-- What `fieldDecode` makes of the integers of a column.
use wing_binlog_go.Prelude.{
  ℕ, zero, suc, ◌+◌, ◌-◌, ◌^◌, ◌<◌, ◌≤◌, ◌≡◌, true, false, ok, panic, text, bytes_eq, length, take,
  ltb, if◌then◌else◌, arith, get_elem?, none, some,
}
use wing_binlog_go.Binlog.Column.{
  int8, int16, int32, int64, str, TableColumn, has_prefix, field_decode,
}

-- The patterns that the canal reads from an unsigned TINYINT, SMALLINT and INT come out as the numbers
-- that they are, where the name of the column's type begins with int.
pub field_decode-unsigned :
    (a b c : ℕ) (column : TableColumn)
    → a < 2 ^ 8
    → b < 2 ^ 16
    → c < 2 ^ 32
    → column.is_unsigned ≡ true
    → 3 ≤ length column.raw_type
    → take 3 column.raw_type ≡ text "int"
    → (field_decode (int8 a) column ≡ ok (int64 a))
      × (field_decode (int16 b) column ≡ ok (int64 b))
      × (field_decode (int32 c) column ≡ ok (int64 c))
unfolding field_decode
field_decode-unsigned a b c column ha hb hc u len e =
    (rw u (ground arith), rw u (ground arith), rw u (ground (arith, e)))

-- An unsigned MEDIUMINT of 24 bits arrives as an int32 with its top bit extended, and comes out as the
-- number that it is, where the name of the column's type has three letters and does not begin with int.
pub field_decode-mediumint :
    (m : ℕ) (column : TableColumn)
    → m < 2 ^ 24
    → column.is_unsigned ≡ true
    → 3 ≤ length column.raw_type
    → bytes_eq (take 3 column.raw_type) (text "int") ≡ false
    → field_decode (int32 (if ltb m (2 ^ 23) then m else 2 ^ 32 - 2 ^ 24 + m)) column ≡ ok (int64 m)
unfolding field_decode
field_decode-mediumint m column hm u len e = rw u (ground (arith, e))

-- Of an ENUM column an index from 1 on gives the value at that place, and an index beyond the values,
-- or 0, which MySQL stores for a value that was not in the list, is a panic.
pub field_decode-enum :
    (x : ℕ) (column : TableColumn)
    → has_prefix (text "enum") column.raw_type ≡ true
    → field_decode (int64 x) column ≡ (elim x [
      | zero ↦ panic
      | suc i ↦ elim (get_elem? column.enum_values i) [ none ↦ panic | some s ↦ ok (str s) ]
    ])
unfolding field_decode
field_decode-enum zero column e = rw e
field_decode-enum (suc i) column e = rw e (ground arith)
