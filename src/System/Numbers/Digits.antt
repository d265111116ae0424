-- ===== src/System/Numbers/Digits.antt =====
-- Numbers written and read again.
use wing_binlog_go.Prelude.{
  ℕ, zero, suc, ◌+◌, ◌-◌, ◌*◌, ◌/◌, ◌%◌, ◌^◌, ◌≡◌, ◌≢◌, subst, ◌≤◌, ◌<◌, refl, ap, ◌∙◌, true, some,
  [], ◌∷◌, Bytes, decimal, decimal_digits, ltb, arith, All, Bool-cases, inl, inr,
}
use wing_binlog_go.System.Numbers.{is_digit, uint_loop, parse_uint}

-- The number that some digits write, behind others that wrote `n`.
value : ℕ → Bytes → ℕ
value n [] = n
value n (v ∷ s) = value (n * 10 + (v - 48)) s

abbrev pub AllDigits : Bytes → Type 0
AllDigits = All (λ v. is_digit v ≡ true)

value-decimal_digits :
    (fuel n : ℕ) (acc : Bytes) → n < fuel → value 0 (decimal_digits fuel n acc) ≡ value n acc
unfolding value decimal_digits
value-decimal_digits zero n acc h = absurd (omega arith)
value-decimal_digits (suc fuel) n acc h = elim (Bool-cases (ltb n 10)) [
  | inl small ↦
      let last : 0 * 10 + (n % 10 + 48 - 48) ≡ n = ground arith in
      rw small (ap (λ m. value m acc) last)
  | inr large ↦
      let tens : n / 10 < fuel = ground arith in
      let whole : n / 10 * 10 + (n % 10 + 48 - 48) ≡ n = omega arith in
      rw large (
        value-decimal_digits fuel (n / 10) ((n % 10 + b'0') ∷ acc) tens
        ∙ ap (λ m. value m acc) whole)
]

is_digit-mod : (n : ℕ) → is_digit (n % 10 + b'0') ≡ true
unfolding is_digit
is_digit-mod n = ground arith

decimal_digits-AllDigits :
    (fuel n : ℕ) (acc : Bytes) → AllDigits acc → AllDigits (decimal_digits fuel n acc)
unfolding decimal_digits is_digit
decimal_digits-AllDigits zero n acc h = h
decimal_digits-AllDigits (suc fuel) n acc h =
    let digit = is_digit-mod n in
    elim (Bool-cases (ltb n 10)) [
      | inl small ↦ rw small (digit, h)
      | inr large ↦
          rw large (decimal_digits-AllDigits fuel (n / 10) ((n % 10 + b'0') ∷ acc) (digit, h))
    ]

value-bound : (n : ℕ) (s : Bytes) → n ≤ value n s
unfolding value
value-bound n [] = omega arith
value-bound n (v ∷ s) = omega (arith, value-bound (n * 10 + (v - 48)) s)

uint_loop-value :
    (n : ℕ) (s : Bytes) → AllDigits s → value n s < 2 ^ 64 → uint_loop n s ≡ some (value n s)
unfolding uint_loop value
uint_loop-value n [] h small = refl
uint_loop-value n (v ∷ s) (hv, hs) small =
    let m = n * 10 + (v - 48) in
    let fits : ltb m (2 ^ 64) ≡ true = ground (arith, value-bound m s) in
    rw (hv, fits) (uint_loop-value m s hs small)

-- A decimal is digits and no other bytes, and reads as its number.
pub decimal-AllDigits : (n : ℕ) → AllDigits (decimal n)
unfolding decimal
decimal-AllDigits n = decimal_digits-AllDigits (suc n) n [] tt

parse_uint-digits :
    (s : Bytes) → s ≢ [] → AllDigits s → value 0 s < 2 ^ 64 → parse_uint s ≡ some (value 0 s)
unfolding parse_uint
parse_uint-digits [] full h small = absurd (full refl)
parse_uint-digits (v ∷ s) full h small = uint_loop-value 0 (v ∷ s) h small

value-decimal : (n : ℕ) → value 0 (decimal n) ≡ n
unfolding decimal value
value-decimal n = value-decimal_digits (suc n) n [] (omega arith)

decimal_digits-full :
    (fuel n : ℕ) (b : ℕ) (acc : Bytes)
    → (c : ℕ) × (t : Bytes) × (decimal_digits fuel n (b ∷ acc) ≡ c ∷ t)
unfolding decimal_digits
decimal_digits-full zero n b acc = (b, acc, refl)
decimal_digits-full (suc fuel) n b acc = elim (Bool-cases (ltb n 10)) [
  | inl small ↦ (n % 10 + b'0', b ∷ acc, rw small refl)
  | inr large ↦
      let (c, t, e) = decimal_digits-full fuel (n / 10) (n % 10 + b'0') (b ∷ acc) in
      (c, t, rw large e)
]

-- A decimal begins with a digit.
pub decimal-cons :
    (n : ℕ) → (c : ℕ) × (t : Bytes) × (decimal n ≡ c ∷ t) × (is_digit c ≡ true) × AllDigits t
unfolding decimal decimal_digits
decimal-cons n = elim (Bool-cases (ltb n 10)) [
  | inl small ↦ (n % 10 + b'0', [], rw small refl, is_digit-mod n, tt)
  | inr large ↦
      let (c, t, e) = decimal_digits-full n (n / 10) (n % 10 + b'0') [] in
      let digits = subst AllDigits e (decimal_digits-AllDigits n (n / 10) _ (is_digit-mod n, tt)) in
      (c, t, rw large e, digits.0, digits.1)
]

pub parse_uint-decimal : (n : ℕ) → n < 2 ^ 64 → parse_uint (decimal n) ≡ some n
parse_uint-decimal n h =
    let (c, t, e, _, _) = decimal-cons n in
    parse_uint-digits (decimal n) (λ z. cc) (decimal-AllDigits n) (omega (arith, value-decimal n))
    ∙ ap some (value-decimal n)
