-- ===== src/Wire.antt =====
-- src/library/service/util.go: the frame format that every TCP peer speaks.
-- A byte is a number below 256. `int` has 64 bits, so `int(b) << 24` loses no bit.
pub mod Word
pub mod RoundTrip
pub mod Filter
use wing_binlog_go.Prelude.{
  ℕ, ◌+◌, ◌*◌, ◌^◌, bit_or, List, [], ◌∷◌, Option, none, some, Outcome, ok, ◌>>=◌, index, slice,
  Bytes, byte_at, length, ltb, if◌then◌else◌,
}
use Word.{word16, word32}

-- `int(buf[0]) | int(buf[1]) << 8 | int(buf[2]) << 16 | int(buf[3]) << 24`
unfoldable pub read_length : Bytes → Outcome ℕ
read_length buf = do
  b0 ← index buf 0
  b1 ← index buf 1
  b2 ← index buf 2
  b3 ← index buf 3
  ok (word32 b0 b1 b2 b3)

-- `int(buf[4]) | int(buf[5]) << 8`
unfoldable pub read_cmd : Bytes → Outcome ℕ
read_cmd buf = do b4 ← index buf 4; b5 ← index buf 5; ok (word16 b4 b5)

-- `Pack`: four bytes of length, which counts the command, two bytes of command, the message.
unfoldable pub pack : ℕ → Bytes → Bytes
pack cmd msg =
    let cl = length msg + 2 in
    byte_at cl 0
    ∷ byte_at cl 8
    ∷ byte_at cl 16
    ∷ byte_at cl 24
    ∷ byte_at cmd 0
    ∷ byte_at cmd 8
    ∷ msg

-- `Unpack`. `none` is the error DataLenError.
unfoldable pub unpack : Bytes → Outcome (Option (ℕ × Bytes))
unpack buf = do
  clen ← read_length buf
  if ltb (length buf) (clen + 4)
      then ok none
      else do cmd ← read_cmd buf; content ← slice buf 6 (clen + 4); ok (some (cmd, content))
