-- ===== src/System/Files/Windows.antt =====
-- What `ReadAt` reads.
use wing_binlog_go.Prelude.{
  ℕ, zero, suc, ◌+◌, ◌-◌, ◌≡◌, ◌≤◌, ◌<◌, refl, ap, ◌∙◌, true, false, some, [], ◌∷◌, ◌++◌, ok, Bytes,
  length, length-append, take, drop, drop-append_eq, take-append_eq, ◌==◌, arith,
}
use mathlib.Core.List.{append-nil}
use wing_binlog_go.System.Numbers.{ℤ, pos, negsuc}
use wing_binlog_go.System.Files.{Disk, nuls, at_most, seek, fill, read_open, read_at_file, read_at}

fill-window :
    (n : ℕ) (middle after : Bytes)
    → n ≡ length middle
    → 0 < length middle
    → fill n (middle ++ after) ≡ middle
unfolding fill nuls
fill-window n middle after e h =
    let none_left : n - length middle ≡ 0 = omega arith in
    let some_read : (length middle == 0) ≡ false = ground arith in
    rw (take-append_eq n middle after e, some_read, none_left) (append-nil middle)

drop-window : (n : ℕ) (before rest : Bytes) → n ≡ length before → drop n (before ++ rest) ≡ rest
drop-window n before rest e = drop-append_eq n before rest e

read_open-window :
    (offset : ℤ) (size : ℕ) (before middle after : Bytes)
    → seek offset (length (before ++ (middle ++ after))) ≡ length before
    → size ≡ length middle
    → 0 < length middle
    → read_open offset (pos size) (before ++ (middle ++ after)) ≡ ok middle
unfolding read_open
read_open-window offset size before middle after there e h =
    let all = before ++ (middle ++ after) in
    let fits : at_most size (length all) ≡ length middle =
      ground (arith, length-append before (middle ++ after), length-append middle after) in
    ap (λ k. ok (fill (at_most size (length all)) (drop k all))) there
    ∙ ap (λ r. ok (fill (at_most size (length all)) r))
        (drop-window _ before (middle ++ after) refl)
    ∙ ap ok (fill-window (at_most size (length all)) middle after fits h)

take-long : (n : ℕ) (s : Bytes) → length s ≤ n → take n s ≡ s
take-long zero [] h = refl
take-long zero (b ∷ s) h = absurd (omega arith)
take-long (suc n) [] h = refl
take-long (suc n) (b ∷ s) h = ap (◌∷◌ b) (take-long n s (omega arith))

-- The bytes in the middle of a file are read at their place, counted from the start or from the end.
pub read_at-window :
    (path before middle after : Bytes) (d : Disk)
    → d path ≡ some (before ++ (middle ++ after))
    → 0 < length middle
    → (read_at true path (pos (length before)) (pos (length middle)) d ≡ ok middle)
      × (read_at true path (negsuc (length middle + length after - 1)) (pos (length middle)) d
          ≡ ok middle)
unfolding read_at read_at_file seek
read_at-window path before middle after d e h =
    let size = length-append before (middle ++ after) in
    let rest = length-append middle after in
    (
      ap (read_at_file true (pos (length before)) (pos (length middle))) e
          ∙ read_open-window (pos (length before)) (length middle) before middle after
              (ground (arith, size, rest)) refl h,
      ap (read_at_file true (negsuc (length middle + length after - 1)) (pos (length middle))) e
          ∙ read_open-window (negsuc (length middle + length after - 1)) (length middle) before
              middle after (ground (arith, size, rest)) refl h,
    )

-- A read that goes beyond the end of the file answers the rest of the file and then NULs, up to the
-- size that was asked for, where this is at most the size of the file.
pub read_at-pads :
    (path before rest : Bytes) (size : ℕ) (d : Disk)
    → d path ≡ some (before ++ rest)
    → 0 < length rest
    → length rest ≤ size
    → size ≤ length before + length rest
    → read_at true path (pos (length before)) (pos size) d ≡ ok (rest ++ nuls (size - length rest))
unfolding read_at read_at_file read_open seek fill
read_at-pads path before rest size d e h short long =
    let all = before ++ rest in
    let total = length-append before rest in
    let fits : at_most size (length all) ≡ size = ground (arith, total) in
    let there : at_most (length before) (length all) ≡ length before = ground (arith, total) in
    let some_read : (length rest == 0) ≡ false = ground arith in
    ap (read_at_file true (pos (length before)) (pos size)) e
    ∙ ap (λ k. ok (fill (at_most size (length all)) (drop k all))) there
    ∙ ap (λ r. ok (fill (at_most size (length all)) r)) (drop-window _ before rest refl)
    ∙ ap (λ n. ok (fill n rest)) fits
    ∙ rw (take-long size rest short, some_read) refl
