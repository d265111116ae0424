-- ===== src/Wire/Word.antt =====
-- Little-endian words out of bytes, as the source joins them by `|` and `<<`.
use wing_binlog_go.Prelude.{ℕ, ◌+◌, ◌*◌, ◌^◌, ◌<◌, ◌≡◌, bit_or, bit_or-join, arith, IsByte, byte_at}

unfoldable pub word16 : ℕ → ℕ → ℕ
word16 b0 b1 = bit_or b0 (b1 * 2 ^ 8)

unfoldable pub word32 : ℕ → ℕ → ℕ → ℕ → ℕ
unfolding word16
word32 b0 b1 b2 b3 = bit_or (bit_or (word16 b0 b1) (b2 * 2 ^ 16)) (b3 * 2 ^ 24)

-- The pattern of an int64.
unfoldable pub word64 : ℕ → ℕ → ℕ → ℕ → ℕ → ℕ → ℕ → ℕ → ℕ
unfolding word32
word64 b0 b1 b2 b3 b4 b5 b6 b7 =
    bit_or (bit_or (bit_or (bit_or (word32 b0 b1 b2 b3) (b4 * 2 ^ 32)) (b5 * 2 ^ 40)) (b6 * 2 ^ 48))
      (b7 * 2 ^ 56)

pub word16_sum : (b0 b1 : ℕ) → IsByte b0 → word16 b0 b1 ≡ b0 + b1 * 256
unfolding word16
word16_sum b0 b1 h = bit_or-join 8 b0 b1 h

pub word32_sum :
    (b0 b1 b2 b3 : ℕ)
    → IsByte b0
    → IsByte b1
    → IsByte b2
    → word32 b0 b1 b2 b3 ≡ b0 + b1 * 256 + b2 * 65536 + b3 * 16777216
unfolding word32
word32_sum b0 b1 b2 b3 h0 h1 h2 =
    rw (bit_or-join 8 b0 b1 h0, bit_or-join 16 (b0 + b1 * 2 ^ 8) b2 (omega arith))
      (bit_or-join 24 (b0 + b1 * 2 ^ 8 + b2 * 2 ^ 16) b3 (omega arith))

pub word64_sum :
    (b0 b1 b2 b3 b4 b5 b6 b7 : ℕ)
    → IsByte b0
    → IsByte b1
    → IsByte b2
    → IsByte b3
    → IsByte b4
    → IsByte b5
    → IsByte b6
    → word64 b0 b1 b2 b3 b4 b5 b6 b7
      ≡ b0
        + b1 * 2 ^ 8
        + b2 * 2 ^ 16
        + b3 * 2 ^ 24
        + b4 * 2 ^ 32
        + b5 * 2 ^ 40
        + b6 * 2 ^ 48
        + b7 * 2 ^ 56
unfolding word64
word64_sum b0 b1 b2 b3 b4 b5 b6 b7 h0 h1 h2 h3 h4 h5 h6 =
    let s3 : ℕ = b0 + b1 * 2 ^ 8 + b2 * 2 ^ 16 + b3 * 2 ^ 24 in
    rw
      (
        word32_sum b0 b1 b2 b3 h0 h1 h2,
        bit_or-join 32 s3 b4 (omega arith),
        bit_or-join 40 (s3 + b4 * 2 ^ 32) b5 (omega arith),
        bit_or-join 48 (s3 + b4 * 2 ^ 32 + b5 * 2 ^ 40) b6 (omega arith),
      )
      (bit_or-join 56 (s3 + b4 * 2 ^ 32 + b5 * 2 ^ 40 + b6 * 2 ^ 48) b7 (omega arith))

-- The words that `byte(n)`, `byte(n >> 8)`, … spell out again.
pub word16-byte_at : (n : ℕ) → n < 2 ^ 16 → word16 (byte_at n 0) (byte_at n 8) ≡ n
word16-byte_at n h = omega (arith, word16_sum (byte_at n 0) (byte_at n 8) (omega arith))

pub word32-byte_at :
    (n : ℕ) → n < 2 ^ 32 → word32 (byte_at n 0) (byte_at n 8) (byte_at n 16) (byte_at n 24) ≡ n
word32-byte_at n h = omega (
  arith,
  word32_sum (byte_at n 0) (byte_at n 8) (byte_at n 16) (byte_at n 24) (omega arith) (omega arith)
      (omega arith),
)

pub word64-byte_at :
    (n : ℕ)
    → n < 2 ^ 64
    → word64
        (byte_at n 0)
        (byte_at n 8)
        (byte_at n 16)
        (byte_at n 24)
        (byte_at n 32)
        (byte_at n 40)
        (byte_at n 48)
        (byte_at n 56)
      ≡ n
word64-byte_at n h = omega (
  arith,
  word64_sum (byte_at n 0) (byte_at n 8) (byte_at n 16) (byte_at n 24) (byte_at n 32) (byte_at n 40)
      (byte_at n 48) (byte_at n 56) (omega arith) (omega arith) (omega arith) (omega arith)
      (omega arith) (omega arith) (omega arith),
)
