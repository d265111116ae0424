-- ===== src/System/Runes/RoundTrip.antt =====
-- The runes of a text are read back, and cut out.
use wing_binlog_go.Prelude.{
  ℕ, zero, suc, ◌+◌, ◌-◌, ◌/◌, ◌%◌, ◌^◌, ◌&&◌, ◌<◌, ◌≤◌, ◌≡◌, refl, ap, sym, ◌∙◌, Bool, true, false,
  List, [], ◌∷◌, ◌++◌, All, Option, some, none, Outcome, ok, panic, ◌>>=◌, Bytes, length, take,
  drop, slice, leb, ltb, if◌then◌else◌, arith, Bool-cases, inl, inr, length-drop,
}
use wing_binlog_go.System.Numbers.{pos}
use wing_binlog_go.System.Runes.{
  within, two_bytes, three_bytes, four_bytes, decode_rune, runes_from, runes, encode_rune,
  string_of, substr, start_of, end_of, rune_count, IsRune,
}

decode-one : (r : ℕ) (s : Bytes) → r < 0x80 → decode_rune r s ≡ (r, 1)
unfolding decode_rune
decode-one r s h = ground arith

decode-two :
    (r : ℕ) (s : Bytes)
    → 0x80 ≤ r
    → r < 0x800
    → decode_rune (r / 64 + 0xc0) ((r % 64 + 0x80) ∷ s) ≡ (r, 2)
unfolding decode_rune two_bytes
decode-two r s low high = ground arith

decode-three :
    (r : ℕ) (s : Bytes)
    → 0x800 ≤ r
    → r < 0x10000
    → within 0xd800 0xdfff r ≡ false
    → decode_rune (r / 4096 + 0xe0) ((r / 64 % 64 + 0x80) ∷ (r % 64 + 0x80) ∷ s) ≡ (r, 3)
unfolding decode_rune three_bytes
decode-three r s low high none_half = ground arith

decode-four :
    (r : ℕ) (s : Bytes)
    → 0x10000 ≤ r
    → r < 0x110000
    → decode_rune
        (r / 262144 + 0xf0)
        ((r / 4096 % 64 + 0x80) ∷ (r / 64 % 64 + 0x80) ∷ (r % 64 + 0x80) ∷ s)
      ≡ (r, 4)
unfolding decode_rune four_bytes
decode-four r s low high = ground arith

-- A rune at the front of a text is read, and the rest behind it.
runes-encode :
    (r : ℕ) (s : Bytes) → IsRune r → runes_from 0 (encode_rune r ++ s) ≡ r ∷ runes_from 0 s
unfolding runes_from encode_rune
runes-encode r s (top, none_half) = elim (Bool-cases (ltb r 0x80)) [
  | inl one ↦ rw one (ap (λ d. d.0 ∷ runes_from (d.1 - 1) s) (decode-one r s (ground (arith, one))))
  | inr more ↦ elim (Bool-cases (ltb r 0x800)) [
    | inl two ↦
        rw (more, two)
          (ap (λ d. d.0 ∷ runes_from (d.1 - 1) ((r % 64 + 0x80) ∷ s))
            (decode-two r s (ground (arith, more)) (ground (arith, two))))
    | inr big ↦ elim (Bool-cases (ltb r 0x10000)) [
      | inl three ↦
          rw (more, big, three)
            (ap (λ d. d.0 ∷ runes_from (d.1 - 1) ((r / 64 % 64 + 0x80) ∷ (r % 64 + 0x80) ∷ s))
              (decode-three r s (ground (arith, big)) (ground (arith, three)) none_half))
      | inr four ↦
          rw (more, big, four)
            (ap
              (λ d.
                d.0
                ∷ runes_from (d.1 - 1)
                    ((r / 4096 % 64 + 0x80) ∷ (r / 64 % 64 + 0x80) ∷ (r % 64 + 0x80) ∷ s))
              (decode-four r s (ground (arith, four)) top))
    ]
  ]
]

pub runes-string_of : (rs : List ℕ) → All IsRune rs → runes (string_of rs) ≡ rs
unfolding runes string_of runes_from
runes-string_of [] h = refl
runes-string_of (r ∷ rs) (hr, h) =
    runes-encode r (string_of rs) hr ∙ ap (◌∷◌ r) (unfold runes in runes-string_of rs h)

le→leb : (a b : ℕ) → a ≤ b → leb a b ≡ true
le→leb a b h = ground arith

take-all : (k : ℕ) (xs : List ℕ) → length xs ≤ k → take k xs ≡ xs
take-all zero [] h = refl
take-all zero (x ∷ xs) h = absurd (omega arith)
take-all (suc k) [] h = refl
take-all (suc k) (x ∷ xs) h = ap (◌∷◌ x) (take-all k xs (omega arith))

-- The slice that `Substr` takes.
cut :
    (p k : ℕ) (rs : List ℕ)
    → slice rs p (if ltb (length rs) (p + k) then length rs else p + k)
      ≡ (if leb p (length rs) then ok (take k (drop p rs)) else panic)
cut p k rs = elim (Bool-cases (leb p (length rs))) [
  | inr behind ↦
      let low : ltb (length rs) (p + k) ≡ true = ground (arith, behind) in rw (low, behind) refl
  | inl there ↦ elim (Bool-cases (ltb (length rs) (p + k))) [
    | inl short ↦
        let all = length-drop p rs in
        rw (short, there, le→leb (length rs) (length rs) (omega arith))
          (ap ok (
            take-all (length rs - p) (drop p rs) (omega arith)
            ∙ sym (take-all k (drop p rs) (ground (arith, short, all)))))
    | inr long ↦
        let first : leb p (p + k) ≡ true = ground arith in
        let last : leb (p + k) (length rs) ≡ true = ground (arith, long) in
        let exact : p + k - p ≡ k = omega arith in rw (long, there, first, last, exact) refl
  ]
]

-- What `Substr` cuts out of the runes of a text.
unfoldable part_of : ℕ → ℕ → List ℕ → Outcome Bytes
part_of p k rs =
    if ltb (p + k) (2 ^ 63)
    then (slice rs p (if ltb (length rs) (p + k) then length rs else p + k) >>= λ part.
        ok (string_of part))
    else panic

abbrev part_end : Bool → ℕ → Option ℕ
part_end b l = if b then some l else none

substr-part_of : (p k : ℕ) (s : Bytes) → substr (pos p) (pos k) s ≡ part_of p k (runes s)
unfolding substr start_of end_of part_of
substr-part_of p k s = by_sum (ltb (p + k) (2 ^ 63)) _
  where
    by_sum :
        (b : Bool) (l : ℕ)
        → (elim (part_end b l) [
          | none ↦ panic
          | some m ↦ (slice (runes s) p m >>= λ part. ok (string_of part))
        ])
          ≡ (if b then (slice (runes s) p l >>= λ part. ok (string_of part)) else panic)
    by_sum true l = refl
    by_sum false l = refl

part_of-branches :
    (p k : ℕ) (rs : List ℕ)
    → part_of p k rs ≡ (
        if ltb (p + k) (2 ^ 63) && leb p (length rs)
        then ok (string_of (take k (drop p rs)))
        else panic)
unfolding part_of
part_of-branches p k rs = elim (Bool-cases (ltb (p + k) (2 ^ 63))) [
  | inl fits ↦
      rw fits (ap (λ o. o >>= λ part. ok (string_of part)) (cut p k rs) ∙ told (leb p (length rs)))
  | inr wraps ↦ rw wraps refl
]
  where
    told :
        (b : Bool)
        → ((if b then ok (take k (drop p rs)) else panic) >>= λ part. ok (string_of part))
          ≡ (if b then ok (string_of (take k (drop p rs))) else panic)
    told true = refl
    told false = refl

-- On the text of some runes `Length` is their number, and `Substr` from a place among them gives the
-- text of as many of them as were asked for, or of those that are left; from a place behind them it
-- panics, and so it does where the place and the length add up to more than an int64 can hold.
pub substr-string_of :
    (p k : ℕ) (rs : List ℕ)
    → All IsRune rs
    → (rune_count (string_of rs) ≡ length rs)
      × (substr (pos p) (pos k) (string_of rs) ≡ (
          if ltb (p + k) (2 ^ 63) && leb p (length rs)
          then ok (string_of (take k (drop p rs)))
          else panic))
unfolding rune_count
substr-string_of p k rs h = (
  ap length (runes-string_of rs h),
  substr-part_of p k (string_of rs)
      ∙ ap (part_of p k) (runes-string_of rs h)
      ∙ part_of-branches p k rs,
)
