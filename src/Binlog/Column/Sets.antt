-- ===== src/Binlog/Column/Sets.antt =====
-- What `fieldDecode` makes of a SET column.
use Prim.Native.Nat.{min, digits, bit_and-bitwise}
use wing_binlog_go.Prelude.{
  ℕ, zero, suc, ◌+◌, ◌*◌, ◌/◌, ◌%◌, ◌^◌, ◌<◌, ◌≤◌, ◌≡◌, ◌≢◌, refl, ap, sym, ◌∙◌, bit_and, true,
  false, List, [], ◌∷◌, ◌++◌, ok, Bytes, text, bytes_eq, length, ltb, ◌==◌, if◌then◌else◌, arith,
  All, Bool-cases, inl, inr,
}
use native.Mathlib.Nat.{pow-suc, one-le-pow, pow-le-pow_right}
use mathlib.Core.List.{append_assoc, append-nil}
use wing_binlog_go.Binlog.Column.{int64, str, TableColumn, has_prefix, set_loop, field_decode}

-- The binary digit of `v` at place `i`.
unfoldable pub digit : ℕ → ℕ → ℕ
digit zero v = v % 2
digit (suc i) v = digit i (v / 2)

abbrev and_digits : ℕ → ℕ → ℕ → ℕ
and_digits n a b = digits (λ b. 0) min n a b

and_digits-zero : (n a : ℕ) → and_digits n a 0 ≡ 0
and_digits-zero zero a = refl
and_digits-zero (suc n) zero = refl
and_digits-zero (suc n) (suc a) = omega (arith, and_digits-zero n (suc a / 2))

digit-zero : (i : ℕ) → digit i 0 ≡ 0
unfolding digit
digit-zero zero = refl
digit-zero (suc i) = digit-zero i

and_digits-pow : (n a i p : ℕ) → a ≤ n → p ≡ 2 ^ i → and_digits n a p ≡ digit i a * 2 ^ i
unfolding digit
and_digits-pow zero zero i p h e = omega (arith, ap (λ (t : ℕ). t * 2 ^ i) (digit-zero i))
and_digits-pow zero (suc a) i p h e = absurd (omega arith)
and_digits-pow (suc n) zero i p h e = omega (arith, ap (λ (t : ℕ). t * 2 ^ i) (digit-zero i))
and_digits-pow (suc n) (suc a) zero p h e = rw e (omega (arith, and_digits-zero n (suc a / 2)))
and_digits-pow (suc n) (suc a) (suc i) p h e =
    let double : p ≡ 2 ^ i * 2 = omega (arith, pow-suc 2 i) in
    omega (
      arith,
      double,
      pow-suc 2 i,
      and_digits-pow n (suc a / 2) i (p / 2) (omega arith) (omega (arith, double)),
      ap (λ (t : ℕ). digit i (suc a / 2) * t) (pow-suc 2 i),
    )

digit-le-one : (i v : ℕ) → digit i v ≤ 1
unfolding digit
digit-le-one zero v = omega arith
digit-le-one (suc i) v = digit-le-one i (v / 2)

product_test : (d p : ℕ) → d ≤ 1 → 1 ≤ p → ltb 0 (d * p) ≡ (d == 1)
product_test zero p h k = ground arith
product_test (suc zero) p h k = ground arith
product_test (suc (suc d)) p h k = absurd (omega arith)

-- `v & (1 << i)` is above zero exactly if the digit is one.
bit_and-digit : (v i : ℕ) → i < 64 → ltb 0 (bit_and v (2 ^ i % 2 ^ 64)) ≡ (digit i v == 1)
bit_and-digit v i h =
    rw (no_wrap, value)
      (product_test (digit i v) (2 ^ i) (digit-le-one i v) (one-le-pow i 2 (omega arith)))
  where
    no_wrap : 2 ^ i % 2 ^ 64 ≡ 2 ^ i
    no_wrap = omega (arith, pow-le-pow_right {n = 2} (omega arith) {i = i} {j = 63} (omega arith))

    value : bit_and v (2 ^ i) ≡ digit i v * 2 ^ i
    value = bit_and-bitwise v (2 ^ i) ∙ and_digits-pow v v i (2 ^ i) (omega arith) refl

-- The values whose place has digit one, counted from place `i`.
unfoldable pub selected : ℕ → ℕ → List Bytes → List Bytes
selected v i [] = []
selected v i (s ∷ values) =
    let rest = selected v (suc i) values in if digit i v == 1 then s ∷ rest else rest

-- Texts with a comma between them.
unfoldable pub join : List Bytes → Bytes
join [] = []
join (s ∷ []) = s
join (s ∷ t ∷ rest) = s ++ (text "," ++ join (t ∷ rest))

-- What the loop appends to a result that is not empty.
tail_of : List Bytes → Bytes
tail_of [] = []
tail_of (s ∷ rest) = text "," ++ (s ++ tail_of rest)

join-tail_of : (s : Bytes) (rest : List Bytes) → join (s ∷ rest) ≡ s ++ tail_of rest
unfolding join tail_of
join-tail_of s [] = sym (append-nil s)
join-tail_of s (t ∷ rest) = ap (λ u. s ++ (text "," ++ u)) (join-tail_of t rest)

nonempty : (res : Bytes) → res ≢ [] → bytes_eq res [] ≡ false
nonempty [] ne = absurd (ne refl)
nonempty (b ∷ res) ne = refl

append-nil-left : (xs ys : Bytes) → xs ++ ys ≡ [] → xs ≡ []
append-nil-left [] ys e = refl
append-nil-left (x ∷ xs) ys e = absurd (cc)

set_loop-tail_of :
    (v i : ℕ) (values : List Bytes) (res : Bytes)
    → i + length values ≤ 64
    → res ≢ []
    → set_loop v i values res ≡ res ++ tail_of (selected v i values)
unfolding set_loop selected tail_of
set_loop-tail_of v i [] res h ne = sym (append-nil res)
set_loop-tail_of v i (s ∷ values) res h ne =
    rw (bit_and-digit v i (omega arith)) (elim (Bool-cases (digit i v == 1)) [
      | inl one ↦
          rw (one, nonempty res ne)
            (set_loop-tail_of v (suc i) values ((res ++ text ",") ++ s) (omega arith) longer
              ∙ regroup)
      | inr zero_digit ↦ rw zero_digit (set_loop-tail_of v (suc i) values res (omega arith) ne)
    ])
  where
    later : Bytes
    later = tail_of (selected v (suc i) values)

    longer : (res ++ text ",") ++ s ≢ []
    longer e = ne (append-nil-left res (text ",") (append-nil-left (res ++ text ",") s e))

    regroup : ((res ++ text ",") ++ s) ++ later ≡ res ++ (text "," ++ (s ++ later))
    regroup = append_assoc (res ++ text ",") s later ∙ append_assoc res (text ",") (s ++ later)

set_loop-join :
    (v i : ℕ) (values : List Bytes)
    → i + length values ≤ 64
    → All (λ s. s ≢ []) values
    → set_loop v i values [] ≡ join (selected v i values)
unfolding set_loop selected
set_loop-join v i [] h ne = unfold join in refl
set_loop-join v i (s ∷ values) h ne =
    rw (bit_and-digit v i (omega arith)) (elim (Bool-cases (digit i v == 1)) [
      | inl one ↦ rw one (
          set_loop-tail_of v (suc i) values s (omega arith) ne.0
          ∙ sym (join-tail_of s (selected v (suc i) values)))
      | inr zero_digit ↦ rw zero_digit (set_loop-join v (suc i) values (omega arith) ne.1)
    ])

-- Of a SET column a value of up to 64 places gives the texts of the places whose digit is one, in the
-- order of the places and with a comma between them, where no text is empty.
pub field_decode-set :
    (v : ℕ) (column : TableColumn)
    → has_prefix (text "set") column.raw_type ≡ true
    → has_prefix (text "enum") column.raw_type ≡ false
    → length column.set_values ≤ 64
    → All (λ s. s ≢ []) column.set_values
    → field_decode (int64 v) column ≡ ok (str (join (selected v 0 column.set_values)))
unfolding field_decode
field_decode-set v column e e' h ne =
    rw (e, e', set_loop-join v 0 column.set_values (omega arith) ne)
