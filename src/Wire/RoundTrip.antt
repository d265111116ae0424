-- ===== src/Wire/RoundTrip.antt =====
-- What `unpack` makes of a buffer, and that it reads back what `pack` wrote.
use wing_binlog_go.Prelude.{
  ℕ, ◌+◌, ◌-◌, ◌*◌, ◌≤◌, ◌<◌, ◌^◌, ◌≡◌, ap, ◌∙◌, arith, [], ◌∷◌, ◌++◌, none, some, ok, panic, Bytes,
  IsByte, false, length, length-append, take, take-append_eq, drop, drop-append_eq, ltb, le→ltb,
  slice, if◌then◌else◌,
}
use wing_binlog_go.Wire.{pack, unpack, read_length, read_cmd}
use wing_binlog_go.Wire.Word.{word32_sum, word16_sum, word16-byte_at, word32-byte_at}

pub length-pack : (cmd : ℕ) (msg : Bytes) → length (pack cmd msg) ≡ length msg + 6
unfolding pack
length-pack cmd msg = omega arith

module _ (cmd : ℕ) (msg : Bytes) (hm : length msg + 2 < 2 ^ 32) where
  pub read_length-pack : (rest : Bytes) → read_length (pack cmd msg ++ rest) ≡ ok (length msg + 2)
  unfolding read_length pack
  read_length-pack rest = ap ok (word32-byte_at (length msg + 2) hm)

  pub read_cmd-pack : (rest : Bytes) → cmd < 2 ^ 16 → read_cmd (pack cmd msg ++ rest) ≡ ok cmd
  unfolding read_cmd pack
  read_cmd-pack rest hc = ap ok (word16-byte_at cmd hc)

  pub slice-pack : (rest : Bytes) → slice (pack cmd msg ++ rest) 6 (length msg + 2 + 4) ≡ ok msg
  unfolding pack
  slice-pack rest = ground (
    arith,
    length-append msg rest,
    take-append_eq (length msg + 2 + 4 - 6) msg rest (omega arith),
  )

  pub drop-pack : (rest : Bytes) → drop (length msg + 2 + 4) (pack cmd msg ++ rest) ≡ rest
  drop-pack rest =
      drop-append_eq (length msg + 2 + 4) (pack cmd msg) rest (omega (arith, length-pack cmd msg))

  -- The length stands in the first four bytes, so a part of a frame that holds them tells it.
  pub read_length-partial :
      (p q : Bytes) (x : ℕ)
      → p ++ (x ∷ q) ≡ pack cmd msg
      → 6 ≤ length p
      → read_length p ≡ ok (length msg + 2)
  unfolding read_length pack
  read_length-partial [] q x e h = absurd (omega arith)
  read_length-partial (a ∷ []) q x e h = absurd (omega arith)
  read_length-partial (a ∷ b ∷ []) q x e h = absurd (omega arith)
  read_length-partial (a ∷ b ∷ c ∷ []) q x e h = absurd (omega arith)
  read_length-partial (a ∷ b ∷ c ∷ d ∷ p) q x e h = ap read_length e ∙ read_length-pack []

  -- So does the command.
  pub read_cmd-partial :
      (p q : Bytes) (x : ℕ)
      → p ++ (x ∷ q) ≡ pack cmd msg
      → 6 ≤ length p
      → cmd < 2 ^ 16
      → read_cmd p ≡ ok cmd
  unfolding read_cmd pack
  read_cmd-partial [] q x e h hc = absurd (omega arith)
  read_cmd-partial (a ∷ []) q x e h hc = absurd (omega arith)
  read_cmd-partial (a ∷ b ∷ []) q x e h hc = absurd (omega arith)
  read_cmd-partial (a ∷ b ∷ c ∷ []) q x e h hc = absurd (omega arith)
  read_cmd-partial (a ∷ b ∷ c ∷ d ∷ []) q x e h hc = absurd (omega arith)
  read_cmd-partial (a ∷ b ∷ c ∷ d ∷ f ∷ []) q x e h hc = absurd (omega arith)
  read_cmd-partial (a ∷ b ∷ c ∷ d ∷ f ∷ g ∷ p) q x e h hc = ap read_cmd e ∙ read_cmd-pack [] hc

  pub length-header : (rest : Bytes) → ltb (length (pack cmd msg ++ rest)) 6 ≡ false
  length-header rest =
      le→ltb (length (pack cmd msg ++ rest)) 6
        (omega (arith, length-append (pack cmd msg) rest, length-pack cmd msg))

  pub length-whole :
      (rest : Bytes) → ltb (length (pack cmd msg ++ rest)) (length msg + 2 + 4) ≡ false
  length-whole rest =
      le→ltb (length (pack cmd msg ++ rest)) (length msg + 2 + 4)
        (omega (arith, length-append (pack cmd msg) rest, length-pack cmd msg))

  pub length-partial :
      (p q : Bytes) (x : ℕ) → p ++ (x ∷ q) ≡ pack cmd msg → length p < length msg + 2 + 4
  length-partial p q x e = omega (arith, ap length e, length-append p (x ∷ q), length-pack cmd msg)

-- `unpack` on a buffer that holds the six bytes of a header, by the length `n` that its first four
-- bytes state: an error if fewer than `n + 4` bytes are there, else a panic if `n` is below two, else
-- the command and the `n - 2` bytes behind the header.
pub unpack_branches :
    (b0 b1 b2 b3 b4 b5 : ℕ) (rest : Bytes)
    → IsByte b0
    → IsByte b1
    → IsByte b2
    → IsByte b4
    → let n = b0 + b1 * 256 + b2 * 65536 + b3 * 16777216 in
      unpack (b0 ∷ b1 ∷ b2 ∷ b3 ∷ b4 ∷ b5 ∷ rest) ≡ (
        if ltb (length rest + 2) n
        then ok none
        else if ltb n 2
        then panic
        else ok (some (b4 + b5 * 256, take (n - 2) rest)))
unfolding unpack read_length read_cmd
unpack_branches b0 b1 b2 b3 b4 b5 rest h0 h1 h2 h4 =
    ground (arith, word32_sum b0 b1 b2 b3 h0 h1 h2, word16_sum b4 b5 h4)

-- `unpack` reads back what `pack` wrote, whatever follows it in the buffer, for a command of two
-- bytes and a message whose length, and two, fits the four bytes of the header.
pub unpack-pack :
    (cmd : ℕ) (msg rest : Bytes)
    → cmd < 2 ^ 16
    → length msg + 2 < 2 ^ 32
    → unpack (pack cmd msg ++ rest) ≡ ok (some (cmd, msg))
unfolding unpack
unpack-pack cmd msg rest hc hm = rw (
  read_length-pack cmd msg hm rest,
  length-whole cmd msg hm rest,
  read_cmd-pack cmd msg hm rest hc,
  slice-pack cmd msg hm rest,
)
