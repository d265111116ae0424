-- ===== src/Binlog/Position/RoundTrip.antt =====
-- A position that was packed is read back, also from a longer buffer.
use wing_binlog_go.Prelude.{
  ℕ, ◌+◌, ◌-◌, ◌<◌, ◌^◌, ◌≡◌, ◌++◌, ok, Bytes, length, length-append, take-append_eq, arith,
}
use wing_binlog_go.Wire.Word.{word16-byte_at, word64-byte_at}
use wing_binlog_go.Binlog.Position.{pack_pos, unpack_pos, read_int64}

pub length-pack_pos :
    (file : Bytes) (pos event_index : ℕ) → length (pack_pos file pos event_index) ≡ length file + 18
unfolding pack_pos
length-pack_pos file pos event_index = omega arith

-- `unpack_pos` reads back the file, the position and the event index that `pack_pos` wrote, whatever
-- bytes follow, for a file name whose length, and 16, fits two bytes.
pub unpack_pos-pack_pos :
    (file rest : Bytes) (pos event_index : ℕ)
    → length file + 16 < 2 ^ 16
    → pos < 2 ^ 64
    → event_index < 2 ^ 64
    → unpack_pos (pack_pos file pos event_index ++ rest) ≡ ok (file, pos, event_index)
unfolding unpack_pos pack_pos read_int64
unpack_pos-pack_pos file rest pos event_index hf hp he =
    rw
      (
        word16-byte_at (16 + length file) (omega arith),
        word64-byte_at pos hp,
        word64-byte_at event_index he,
      )
      (ground (
        arith,
        length-append file rest,
        take-append_eq (16 + length file + 2 - 18) file rest (omega arith),
      ))
