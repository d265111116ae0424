-- ===== src/System/Numbers/Conversions.antt =====
-- What `ToInt` and `ToInt64` make of a text with a number.
use wing_binlog_go.Prelude.{
  ℕ, suc, ◌^◌, ◌≡◌, ◌<◌, refl, ap, sym, ◌∙◌, true, false, [], ◌∷◌, ◌++◌, Bytes, decimal, lt→ltb,
  arith, All,
}
use mathlib.Core.List.{append-nil}
use wing_binlog_go.System.Numbers.{
  ℤ, pos, negsuc, string, uint8s, int, format_int, to_string, is_digit, scan, parse_uint, signed,
  parse_int, or_zero, to_int, to_int64,
}
use wing_binlog_go.System.Numbers.Digits.{AllDigits, decimal-cons, parse_uint-decimal}

-- Bytes among which no digit is.
abbrev pub NoDigits : Bytes → Type 0
NoDigits = All (λ v. is_digit v ≡ false)

-- Bytes that do not begin with a digit.
abbrev pub BeginsOther : Bytes → Type 0
BeginsOther [] = Unit {0}
BeginsOther (v ∷ s) = is_digit v ≡ false

scan-digits : (s rest : Bytes) → AllDigits s → BeginsOther rest → scan true (s ++ rest) ≡ s
unfolding scan
scan-digits [] [] h o = refl
scan-digits [] (v ∷ rest) h o = rw (o, scan) refl
scan-digits (v ∷ s) rest (hv, hs) o = rw (hv, scan) (ap (◌∷◌ v) (scan-digits s rest hs o))

scan-first :
    (before s rest : Bytes) (v : ℕ)
    → NoDigits before
    → is_digit v ≡ true
    → AllDigits s
    → BeginsOther rest
    → scan false (before ++ ((v ∷ s) ++ rest)) ≡ v ∷ s
unfolding scan
scan-first [] s rest v h hv hs o = rw (hv, scan) (ap (◌∷◌ v) (scan-digits s rest hs o))
scan-first (b ∷ before) s rest v (hb, h) hv hs o =
    rw (hb, scan) (scan-first before s rest v h hv hs o)

parse_int-unsigned :
    (v : ℕ) (s : Bytes) → is_digit v ≡ true → parse_int (v ∷ s) ≡ signed false (parse_uint (v ∷ s))
unfolding parse_int is_digit
parse_int-unsigned v s h = ground arith

parse_int-minus : (s : Bytes) → parse_int (b'-' ∷ s) ≡ signed true (parse_uint s)
unfolding parse_int
parse_int-minus s = refl

parse_int-decimal : (n : ℕ) → n < 2 ^ 63 → parse_int (decimal n) ≡ pos n
unfolding signed
parse_int-decimal n h =
    let (c, t, e, digit, _) = decimal-cons n in
    ap parse_int e
    ∙ parse_int-unsigned c t digit
    ∙ ap (λ s. signed false (parse_uint s)) (sym e)
    ∙ ap (signed false) (parse_uint-decimal n (omega arith))
    ∙ rw (lt→ltb n (2 ^ 63) h) refl

scan-decimal :
    (n : ℕ) (before rest : Bytes)
    → NoDigits before
    → BeginsOther rest
    → or_zero (scan false (before ++ (decimal n ++ rest))) ≡ decimal n
unfolding or_zero
scan-decimal n before rest hb o =
    let (c, t, e, digit, digits) = decimal-cons n in
    ap (λ s. or_zero (scan false (before ++ (s ++ rest)))) e
    ∙ ap or_zero (scan-first before t rest c hb digit digits o)
    ∙ sym e

-- `ToInt` and `ToInt64` of a text give its first number, whatever other bytes stand before it and
-- behind it. The number fits an int64.
pub to_int-first_number :
    (n : ℕ) (before rest : Bytes)
    → n < 2 ^ 63
    → NoDigits before
    → BeginsOther rest
    → (to_int (string (before ++ (decimal n ++ rest))) ≡ pos n)
      × (to_int64 (string (before ++ (decimal n ++ rest))) ≡ pos n)
unfolding to_int to_int64
to_int-first_number n before rest h hb o =
    let found = ap parse_int (scan-decimal n before rest hb o) ∙ parse_int-decimal n h in
    (found, found)

-- An int64.
abbrev pub InRange : ℤ → Type 0
InRange (pos n) = n < 2 ^ 63
InRange (negsuc n) = n < 2 ^ 63

parse_int-format_int : (z : ℤ) → InRange z → parse_int (format_int z) ≡ z
unfolding format_int signed
parse_int-format_int (pos n) h = parse_int-decimal n h
parse_int-format_int (negsuc n) h =
    parse_int-minus (decimal (suc n))
    ∙ ap (signed true) (parse_uint-decimal (suc n) (omega arith))
    ∙ rw (lt→ltb n (2 ^ 63) h) refl

-- The text of an int is read back as the int, negative or not, by `ToInt` and by `ToInt64` of a slice
-- of bytes. Of a string a number below zero loses its sign, where the number without it fits an int64.
pub to_int-to_string :
    (z : ℤ) (n : ℕ)
    → InRange z
    → suc n < 2 ^ 63
    → (to_int (uint8s (to_string (int z))) ≡ z)
      × (to_int64 (uint8s (to_string (int z))) ≡ z)
      × (to_int (string (to_string (int (negsuc n)))) ≡ pos (suc n))
unfolding to_int to_int64 to_string format_int
to_int-to_string z n h hn = (
  parse_int-format_int z h,
  parse_int-format_int z h,
  ap (λ s. to_int (string (b'-' ∷ s))) (sym (append-nil (decimal (suc n))))
      ∙ (to_int-first_number (suc n) (b'-' ∷ []) [] hn (no_digit, tt) tt).0,
)
  where
    no_digit : is_digit b'-' ≡ false
    no_digit = unfold is_digit in refl
