-- ===== src/System/Numbers.antt =====
-- src/library/string: the conversions of `WString` to text and numbers, and `RandString`. The parsers
-- and roundings of floating point numbers are arguments.
pub mod Digits
pub mod Conversions
use wing_binlog_go.Prelude.{
  ℕ, zero, suc, ◌+◌, ◌-◌, ◌*◌, ◌^◌, Bool, true, false, not, ◌&&◌, ◌||◌, Option, none, some, List,
  [], ◌∷◌, ◌++◌, Outcome, ok, ◌>>=◌, index, Bytes, text, decimal, length, ltb, leb, bytes_eq, ◌==◌,
  if◌then◌else◌,
}

-- An int as the library's integers, over the native numbers: `negsuc n` is -(n + 1).
pub data ℤ : Type 0 where
  pos : ℕ → ℤ
  negsuc : ℕ → ℤ

-- What `Str` holds; a `uint` is its pattern below 2^64.
pub data WString : Type 0 where
  string : Bytes → WString
  uint8s : Bytes → WString
  int : ℤ → WString
  int64 : ℤ → WString
  uint : ℕ → WString
  other : WString

-- `int(n)` of a uint.
unfoldable pub int_of_uint : ℕ → ℤ
int_of_uint n = if ltb n (2 ^ 63) then pos n else negsuc (2 ^ 64 - 1 - n)

-- `strconv.Itoa` and `strconv.FormatInt`
unfoldable pub format_int : ℤ → Bytes
format_int (pos n) = decimal n
format_int (negsuc n) = b'-' ∷ decimal (suc n)

-- `ToString`
unfoldable pub to_string : WString → Bytes
unfolding format_int int_of_uint
to_string (string s) = s
to_string (uint8s s) = s
to_string (int z) = format_int z
to_string (int64 z) = format_int z
to_string (uint n) = format_int (int_of_uint n)
to_string other = []

unfoldable pub is_digit : ℕ → Bool
is_digit v = leb 48 v && leb v 57

-- The loop of `ToInt` and `ToInt64` with its flag: the first run of digits.
unfoldable pub scan : Bool → Bytes → Bytes
scan start [] = []
scan start (v ∷ s) = elim (is_digit v) [
  | true ↦ v ∷ scan true s
  | false ↦ elim start [ true ↦ [] | false ↦ scan false s ]
]

-- The loop of `strconv.ParseUint`: `none` is a syntax error, and a number out of range ends it.
unfoldable pub uint_loop : ℕ → Bytes → Option ℕ
uint_loop n [] = some n
uint_loop n (v ∷ s) =
    let n1 = n * 10 + (v - 48) in
    let rest = uint_loop n1 s in
    if is_digit v then (if ltb n1 (2 ^ 64) then rest else some (2 ^ 64 - 1)) else none

unfoldable pub parse_uint : Bytes → Option ℕ
unfolding uint_loop
parse_uint [] = none
parse_uint (v ∷ s) = uint_loop 0 (v ∷ s)

-- The sign, and the range of an int64.
unfoldable pub signed : Bool → Option ℕ → ℤ
signed negative none = pos 0
signed false (some n) = if ltb n (2 ^ 63) then pos n else pos (2 ^ 63 - 1)
signed true (some zero) = pos 0
signed true (some (suc n)) = if ltb n (2 ^ 63) then negsuc n else negsuc (2 ^ 63 - 1)

-- The value that `strconv.Atoi` and `strconv.ParseInt` give beside their error.
unfoldable pub parse_int : Bytes → ℤ
unfolding signed parse_uint
parse_int [] = pos 0
parse_int (v ∷ s) =
    if v == b'+'
    then signed false (parse_uint s)
    else if v == b'-'
    then signed true (parse_uint s)
    else signed false (parse_uint (v ∷ s))

unfoldable pub or_zero : Bytes → Bytes
or_zero [] = text "0"
or_zero (v ∷ s) = v ∷ s

-- `ToInt`
unfoldable pub to_int : WString → ℤ
unfolding scan or_zero parse_int int_of_uint
to_int (string s) = parse_int (or_zero (scan false s))
to_int (uint8s s) = parse_int s
to_int (int z) = z
to_int (int64 z) = z
to_int (uint n) = int_of_uint n
to_int other = pos 0

-- `ToInt64`, which walks over runes: a rune of more than one byte is no digit, and neither are its
-- bytes.
unfoldable pub to_int64 : WString → ℤ
unfolding scan or_zero parse_int int_of_uint
to_int64 (string s) = parse_int (or_zero (scan false s))
to_int64 (uint8s s) = parse_int s
to_int64 (int z) = z
to_int64 (int64 z) = z
to_int64 (uint n) = int_of_uint n
to_int64 other = pos 0

-- The loop of `ToFloat32` and `ToFloat64`: `first` is `k == 0`.
unfoldable pub scan_float : Bool → Bool → Bytes → Bytes
scan_float first start [] = []
scan_float first start (v ∷ s) = elim (first && not (is_digit v)) [
  | true ↦ []
  | false ↦ elim (is_digit v || v == b'.') [
    | true ↦ v ∷ scan_float false true s
    | false ↦ elim start [ true ↦ [] | false ↦ scan_float false false s ]
  ]
]

module _ {F : Type 0} (parse_float : Bytes → F) (float_of : ℤ → F) (float_of_uint : ℕ → F) where
  -- `ToFloat32`, by the parser and the roundings of a float32.
  unfoldable pub to_float32 : WString → F
  unfolding scan_float or_zero
  to_float32 (string s) = parse_float (or_zero (scan_float true false s))
  to_float32 (uint8s s) = parse_float s
  to_float32 (int z) = float_of z
  to_float32 (int64 z) = float_of z
  to_float32 (uint n) = float_of_uint n
  to_float32 other = float_of (pos 0)

  -- `ToFloat64`, by those of a float64.
  unfoldable pub to_float64 : WString → F
  unfolding scan_float or_zero
  to_float64 (string s) = parse_float (or_zero (scan_float true false s))
  to_float64 (uint8s s) = parse_float s
  to_float64 (int z) = float_of z
  to_float64 (int64 z) = float_of z
  to_float64 (uint n) = float_of_uint n
  to_float64 other = float_of (pos 0)

abbrev pub letters : Bytes
letters = text "0123456789abcdefghijklmnopqrstuvwxyzABCDEFGHIJKLMNOPQRSTUVWXYZ"

-- `RandString`; `intn` is `r.Intn` at each round of the loop.
unfoldable pub rand_string : (ℕ → ℕ) → ℕ → Outcome Bytes
rand_string intn zero = ok []
rand_string intn (suc i) = do
  result ← rand_string intn i
  b ← index letters (intn i)
  ok (result ++ b ∷ [])
