-- ===== src/Binlog/Position.antt =====
-- `packPos` and `unpackPos` of src/library/binlog/util.go. An int64 is its bit pattern below 2^64.
pub mod RoundTrip
use wing_binlog_go.Prelude.{
  ℕ, ◌+◌, ◌-◌, Bool, ◌||◌, List, [], ◌∷◌, Outcome, ok, ◌>>=◌, index, slice, Bytes, byte_at, length,
  ltb, if◌then◌else◌,
}
use wing_binlog_go.Wire.Word.{word16, word64}

unfoldable pub pack_pos : Bytes → ℕ → ℕ → Bytes
pack_pos bin_file pos event_index =
    let l = 16 + length bin_file in
    byte_at l 0
    ∷ byte_at l 8
    ∷ byte_at pos 0
    ∷ byte_at pos 8
    ∷ byte_at pos 16
    ∷ byte_at pos 24
    ∷ byte_at pos 32
    ∷ byte_at pos 40
    ∷ byte_at pos 48
    ∷ byte_at pos 56
    ∷ byte_at event_index 0
    ∷ byte_at event_index 8
    ∷ byte_at event_index 16
    ∷ byte_at event_index 24
    ∷ byte_at event_index 32
    ∷ byte_at event_index 40
    ∷ byte_at event_index 48
    ∷ byte_at event_index 56
    ∷ bin_file

-- Eight bytes from the index on.
unfoldable pub read_int64 : Bytes → ℕ → Outcome ℕ
read_int64 buf i = do
  b0 ← index buf i
  b1 ← index buf (i + 1)
  b2 ← index buf (i + 2)
  b3 ← index buf (i + 3)
  b4 ← index buf (i + 4)
  b5 ← index buf (i + 5)
  b6 ← index buf (i + 6)
  b7 ← index buf (i + 7)
  ok (word64 b0 b1 b2 b3 b4 b5 b6 b7)

unfoldable pub unpack_pos : Bytes → Outcome (Bytes × ℕ × ℕ)
unpack_pos buf = do
  d0 ← index buf 0
  d1 ← index buf 1
  let dl = word16 d0 d1
  pos ← read_int64 buf 2
  event_index ← read_int64 buf 10
  if ltb (dl + 2) 18 || ltb (length buf - 2) dl
      then ok ([], 0, 0)
      else do file ← slice buf 18 (dl + 2); ok (file, pos, event_index)
