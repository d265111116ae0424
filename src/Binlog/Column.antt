-- ===== src/Binlog/Column.antt =====
-- `fieldDecode` of src/library/binlog/util.go: a value of a row, by the type of its column.
-- An intN or uintN is its bit pattern below 2^N, a float its pattern too.
pub mod Integers
pub mod Sets
use wing_binlog_go.Prelude.{
  ℕ, zero, suc, ◌+◌, ◌-◌, ◌%◌, ◌^◌, bit_and, Bool, true, false, not, ◌&&◌, List, [], ◌∷◌, ◌++◌,
  Outcome, ok, panic, ◌>>=◌, index, slice, Bytes, text, bytes_eq, length, take, ltb, leb, ◌==◌,
  if◌then◌else◌,
}

-- The Go values that the canal hands over; `other` is one of a type that is not listed.
pub data Value : Type 0 where
  nil : Value
  str : Bytes → Value
  raw : Bytes → Value
  int int8 int16 int32 int64 : ℕ → Value
  uint uint8 uint16 uint32 uint64 : ℕ → Value
  float32 float64 : ℕ → Value
  other : ℕ → Value

-- `schema.TableColumn`, as far as the decoder reads it.
pub record TableColumn : Type 0 where
  pub name : Bytes
  pub raw_type : Bytes
  pub is_unsigned : Bool
  pub enum_values : List Bytes
  pub set_values : List Bytes

-- `int64(x)` of a signed number of `w` bits.
abbrev pub sign_extend : ℕ → ℕ → ℕ
sign_extend w x = if ltb x (2 ^ (w - 1)) then x else 2 ^ 64 - 2 ^ w + x

-- `r < 0`
abbrev pub is_negative : ℕ → Bool
is_negative r = leb (2 ^ 63) r

-- `int64(int64(m) + int64(x))`
abbrev pub add64 : ℕ → ℕ → ℕ
add64 m r = (m + r) % 2 ^ 64

-- `len(column.RawType) > len(prefix) && column.RawType[0:len(prefix)] == prefix`
unfoldable pub has_prefix : Bytes → Bytes → Bool
has_prefix prefix raw_type =
    ltb (length prefix) (length raw_type) && bytes_eq (take (length prefix) raw_type) prefix

-- The loop over the bits of a set; `1 << i` is a uint.
unfoldable pub set_loop : ℕ → ℕ → List Bytes → Bytes → Bytes
set_loop v i [] res = res
set_loop v i (s ∷ values) res = set_loop v (suc i) values (
    if ltb 0 (bit_and v (2 ^ i % 2 ^ 64))
    then (if bytes_eq res [] then res else res ++ text ",") ++ s
    else res)

-- `case int32`. Of a type name under three bytes the slice is taken for a panic.
unfoldable pub decode_int32 : ℕ → TableColumn → Outcome Value
decode_int32 x column =
    let r = sign_extend 32 x in
    if column.is_unsigned && is_negative r
    then (slice column.raw_type 0 3 >>= λ t.
        ok (int64 (if not (bytes_eq t (text "int")) then add64 (2 ^ 24) r else add64 4294967296 r)))
    else ok (int64 r)

-- `case int64`. An enum of index 0 is `EnumValues[-1]`, a panic.
unfoldable pub decode_int64 : ℕ → TableColumn → Outcome Value
decode_int64 x column =
    if has_prefix (text "enum") column.raw_type
    then (if x == 0 then panic else (index column.enum_values (x - 1) >>= λ s. ok (str s)))
    else if has_prefix (text "set") column.raw_type
    then ok (str (set_loop x 0 column.set_values []))
    else if column.is_unsigned
    then ok (uint64 x)
    else ok (int64 x)

unfoldable pub field_decode : Value → TableColumn → Outcome Value
unfolding decode_int32 decode_int64
field_decode (int8 x) column =
    let r = sign_extend 8 x in
    ok (int64 (if column.is_unsigned && is_negative r then add64 256 r else r))
field_decode (int16 x) column =
    let r = sign_extend 16 x in
    ok (int64 (if column.is_unsigned && is_negative r then add64 65536 r else r))
field_decode (int32 x) column = decode_int32 x column
field_decode (int64 x) column = decode_int64 x column
field_decode v column = ok v
