-- ===== src/System/Runes.antt =====
-- `Substr` and `Length` of src/library/string/string.go, which count the runes of a UTF-8 text. A byte
-- that begins no rune is read as U+FFFD.
pub mod RoundTrip
use wing_binlog_go.Prelude.{
  ℕ, zero, suc, ◌+◌, ◌-◌, ◌*◌, ◌/◌, ◌%◌, ◌^◌, ◌<◌, ◌≤◌, ◌≡◌, refl, ap, sym, ◌∙◌, Bool, true, false,
  ◌&&◌, ◌||◌, Option, none, some, List, [], ◌∷◌, ◌++◌, All, Outcome, ok, panic, ◌>>=◌, Bytes,
  length, take, drop, slice, leb, ltb, ◌==◌, if◌then◌else◌, arith,
}
use wing_binlog_go.System.Numbers.{ℤ, pos, negsuc}

abbrev pub rune_error : ℕ
rune_error = 0xfffd

-- `lo <= b && b <= hi`
abbrev pub within : ℕ → ℕ → ℕ → Bool
within lo hi b = leb lo b && leb b hi

unfoldable pub two_bytes : ℕ → Bytes → ℕ × ℕ
two_bytes a [] = (rune_error, 1)
two_bytes a (b ∷ s) =
    if within 0x80 0xbf b then ((a - 0xc0) * 64 + (b - 0x80), 2) else (rune_error, 1)

unfoldable pub three_bytes : ℕ → ℕ → ℕ → Bytes → ℕ × ℕ
three_bytes lo hi a [] = (rune_error, 1)
three_bytes lo hi a (b ∷ []) = (rune_error, 1)
three_bytes lo hi a (b ∷ c ∷ s) =
    if within lo hi b && within 0x80 0xbf c
    then ((a - 0xe0) * 4096 + ((b - 0x80) * 64 + (c - 0x80)), 3)
    else (rune_error, 1)

unfoldable pub four_bytes : ℕ → ℕ → ℕ → Bytes → ℕ × ℕ
four_bytes lo hi a [] = (rune_error, 1)
four_bytes lo hi a (b ∷ []) = (rune_error, 1)
four_bytes lo hi a (b ∷ c ∷ []) = (rune_error, 1)
four_bytes lo hi a (b ∷ c ∷ d ∷ s) =
    if within lo hi b && (within 0x80 0xbf c && within 0x80 0xbf d)
    then ((a - 0xf0) * 262144 + ((b - 0x80) * 4096 + ((c - 0x80) * 64 + (d - 0x80))), 4)
    else (rune_error, 1)

-- The rune at the front of a text that begins with the byte `a`, and its width.
unfoldable pub decode_rune : ℕ → Bytes → ℕ × ℕ
unfolding two_bytes three_bytes four_bytes
decode_rune a s =
    if ltb a 0x80
    then (a, 1)
    else if within 0xc2 0xdf a
    then two_bytes a s
    else if a == 0xe0
    then three_bytes 0xa0 0xbf a s
    else if a == 0xed
    then three_bytes 0x80 0x9f a s
    else if within 0xe1 0xef a
    then three_bytes 0x80 0xbf a s
    else if a == 0xf0
    then four_bytes 0x90 0xbf a s
    else if a == 0xf4
    then four_bytes 0x80 0x8f a s
    else if within 0xf1 0xf3 a
    then four_bytes 0x80 0xbf a s
    else (rune_error, 1)

-- `[]rune(s)` past the first `skip` bytes.
unfoldable pub runes_from : ℕ → Bytes → List ℕ
unfolding decode_rune
runes_from skip [] = []
runes_from (suc skip) (a ∷ s) = runes_from skip s
runes_from zero (a ∷ s) = let (r, width) = decode_rune a s in r ∷ runes_from (width - 1) s

unfoldable pub runes : Bytes → List ℕ
unfolding runes_from
runes s = runes_from 0 s

-- The bytes of a rune.
unfoldable pub encode_rune : ℕ → Bytes
encode_rune r =
    if ltb r 0x80
    then r ∷ []
    else if ltb r 0x800
    then (r / 64 + 0xc0) ∷ (r % 64 + 0x80) ∷ []
    else if ltb r 0x10000
    then (r / 4096 + 0xe0) ∷ (r / 64 % 64 + 0x80) ∷ (r % 64 + 0x80) ∷ []
    else (r / 262144 + 0xf0) ∷ (r / 4096 % 64 + 0x80) ∷ (r / 64 % 64 + 0x80) ∷ (r % 64 + 0x80) ∷ []

-- `string(runes)`
unfoldable pub string_of : List ℕ → Bytes
unfolding encode_rune
string_of [] = []
string_of (r ∷ rs) = encode_rune r ++ string_of rs

-- Where `Substr` starts in `n` runes: from the end, if `pos` is negative; `none` is still negative.
unfoldable pub start_of : ℤ → ℕ → Option ℕ
start_of (pos p) n = some p
start_of (negsuc p) n = if ltb p n then some (n - suc p) else none

-- Where it ends: at the last rune at most; `none` is in front of the start, where also a sum is that an
-- int64 cannot hold, since it is negative.
unfoldable pub end_of : ℕ → ℤ → ℕ → Option ℕ
end_of p (pos k) n =
    if ltb (p + k) (2 ^ 63) then some (if ltb n (p + k) then n else p + k) else none
end_of p (negsuc k) n = none

-- `Substr` of the text that `ToString` gives.
unfoldable pub substr : ℤ → ℤ → Bytes → Outcome Bytes
unfolding runes string_of start_of end_of
substr from len s =
    let rs = runes s in
    elim (start_of from (length rs)) [
      | none ↦ panic
      | some p ↦ elim (end_of p len (length rs)) [
        | none ↦ panic
        | some l ↦ (slice rs p l >>= λ part. ok (string_of part))
      ]
    ]

-- `Length` of the text that `ToString` gives.
unfoldable pub rune_count : Bytes → ℕ
unfolding runes
rune_count s = length (runes s)

-- A Unicode code point that is no surrogate.
abbrev pub IsRune : ℕ → Type 0
IsRune r = (r < 0x110000) × ((within 0xd800 0xdfff r) ≡ false)
