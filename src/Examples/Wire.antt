-- ===== src/Examples/Wire.antt =====
-- Frames and filters of src/library/service/util.go.
use wing_binlog_go.Prelude.{
  ◌≡◌, refl, true, false, Bool, Option, none, some, [], ◌∷◌, ◌++◌, ok, panic, Bytes, text, bytes_eq,
  arith,
}
use wing_binlog_go.Wire.{pack, unpack, read_length, read_cmd}
use wing_binlog_go.Wire.Word.{word16, word32}
use wing_binlog_go.Wire.RoundTrip.{unpack-pack, unpack_branches}

-- A pattern that matches itself only; `[` does not compile.
abbrev match_exactly : Bytes → Bytes → Option Bool
match_exactly f table = elim (bytes_eq f (text "[")) [
  | true ↦ none
  | false ↦ some (bytes_eq f table)
]

unpack_test : unpack (3 ∷ 0 ∷ 0 ∷ 0 ∷ 4 ∷ 0 ∷ []) ≡ ok none
unfolding unpack read_length read_cmd word32 word16
unpack_test = refl

short_length_test : unpack (0 ∷ 0 ∷ 0 ∷ 0 ∷ 4 ∷ 0 ∷ []) ≡ panic
unfolding unpack read_length read_cmd word32 word16
short_length_test = refl

unpack-pack_example : unpack (pack 4 (text "row") ++ text "more") ≡ ok (some (4, text "row"))
unpack-pack_example = unpack-pack 4 (text "row") (text "more") (omega arith) (omega arith)

unpack_branches_example : unpack (4 ∷ 0 ∷ 0 ∷ 0 ∷ 4 ∷ 0 ∷ text "abc") ≡ ok (some (4, text "ab"))
unpack_branches_example =
    unpack_branches 4 0 0 0 4 0 (text "abc") (omega arith) (omega arith) (omega arith) (omega arith)
