-- ===== src/Client/Pack.antt =====
-- The client's `pack` and `setPro` against the frames that the server reads.
use wing_binlog_go.Prelude.{
  ℕ, ◌+◌, ◌<◌, ◌%◌, ◌^◌, ◌≡◌, ap, ◌∙◌, ◌∷◌, ◌++◌, ok, Bytes, byte_at, length, arith,
}
use wing_binlog_go.Wire.{pack, read_length}
use wing_binlog_go.Wire.Word.{word32_sum}
use wing_binlog_go.Client
use wing_binlog_go.Client.{set_pro, cmd_set_pro}

-- The length that a reader finds in a frame of the client whose length fits four bytes is the length of
-- the command and the content modulo 2^24: the fourth byte is zero.
pub read_length-client_pack :
    (cmd : ℕ) (content rest : Bytes)
    → length content + 2 < 2 ^ 32
    → read_length (Client.pack cmd content ++ rest) ≡ ok ((length content + 2) % 2 ^ 24)
unfolding read_length Client.pack
read_length-client_pack cmd content rest h =
    ap ok (word32_sum _ _ _ _ (omega arith) (omega arith) (omega arith) ∙ omega (arith, h))

fourth-byte_at : (l : ℕ) → l < 2 ^ 24 → byte_at l 32 ≡ byte_at l 24
fourth-byte_at l h = omega (arith, h)

short_pack :
    (cmd : ℕ) (content : Bytes)
    → length content + 2 < 2 ^ 24
    → Client.pack cmd content ≡ pack cmd content
unfolding Client.pack pack
short_pack cmd content h =
    ap
      (λ b.
        byte_at (length content + 2) 0
        ∷ byte_at (length content + 2) 8
        ∷ byte_at (length content + 2) 16
        ∷ b
        ∷ byte_at cmd 0
        ∷ byte_at cmd 8
        ∷ content)
      (fourth-byte_at (length content + 2) h)

set_pro-pack : (content : Bytes) → set_pro content ≡ Client.pack cmd_set_pro (0 ∷ content)
unfolding Client.pack set_pro
set_pro-pack content =
    ap (λ l. byte_at l 0 ∷ byte_at l 8 ∷ byte_at l 16 ∷ byte_at l 32 ∷ 0 ∷ 0 ∷ 0 ∷ content)
      (omega arith)

-- Below 2^24 the client's frames are those of `service.Pack`: `pack` with its command, `set_pro` as a
-- registration whose content follows a zero flag.
pub client_pack-pack :
    (cmd : ℕ) (content : Bytes)
    → length content + 3 < 2 ^ 24
    → (Client.pack cmd content ≡ pack cmd content)
      × (set_pro content ≡ pack cmd_set_pro (0 ∷ content))
client_pack-pack cmd content h = (
  short_pack cmd content (omega arith),
  set_pro-pack content ∙ short_pack cmd_set_pro (0 ∷ content) (omega arith),
)
