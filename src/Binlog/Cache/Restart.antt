-- ===== src/Binlog/Cache/Restart.antt =====
-- What is saved is found again: by a read, by a restart, and by a follower.
use wing_binlog_go.Prelude.{
  ℕ, zero, suc, ◌+◌, ◌-◌, ◌%◌, ◌^◌, ◌<◌, ◌≤◌, ◌≡◌, ◌≢◌, refl, ap, ◌∙◌, true, false, ◌&&◌, [], ◌∷◌,
  ◌++◌, ok, Bytes, bytes_eq, length, take, drop, ltb, lt→ltb, ◌==◌, if◌then◌else◌, arith,
}
use mathlib.Core.List.{append_assoc, append-nil}
use wing_binlog_go.Binlog.Position.{pack_pos, unpack_pos}
use wing_binlog_go.Binlog.Position.RoundTrip.{length-pack_pos, unpack_pos-pack_pos}
use wing_binlog_go.Binlog.State.{Binlog}
use wing_binlog_go.Binlog.Cache.{
  write_at, zeros, min_read, read_buffer, save_binlog_position_cache, get_binlog_position_cache,
  on_pos_synced, save_binlog_position, start_position, handler_init,
}

take-append_short :
    (n k : ℕ) (xs ys : Bytes) → n ≡ length xs + k → take n (xs ++ ys) ≡ xs ++ take k ys
take-append_short n k [] ys e = let e' : n ≡ k = omega arith in ap (λ (i : ℕ). take i ys) e'
take-append_short zero k (x ∷ xs) ys e = absurd (omega arith)
take-append_short (suc n) k (x ∷ xs) ys e = ap (◌∷◌ x) (take-append_short n k xs ys (omega arith))

-- A record of at most 512 bytes stands at the front of what is read back.
read_buffer-write_at :
    (r file : Bytes)
    → length r ≤ min_read
    → (rest : Bytes) × (read_buffer (write_at r file) ≡ r ++ rest)
unfolding read_buffer write_at
read_buffer-write_at r file h =
    let k = min_read - length r in
    let filled = r ++ drop (length r) file in
    let front = take-append_short min_read k r (drop (length r) file) (omega arith) in
    let pad = zeros (min_read - length (take min_read filled)) in
    (
      take k (drop (length r) file) ++ pad,
      ap (λ t. t ++ pad) front ∙ append_assoc r (take k (drop (length r) file)) pad,
    )

-- Reading the position of an open cache whose file begins with a packed position.
read-packed :
    (file : Bytes) (pos index : ℕ) (old : Bytes)
    → length file ≤ 494
    → pos < 2 ^ 64
    → index < 2 ^ 64
    → unpack_pos (read_buffer (write_at (pack_pos file pos index) old)) ≡ ok (file, pos, index)
read-packed file pos index old hf hp hi =
    let (rest, e) =
      read_buffer-write_at (pack_pos file pos index) old
        (omega (arith, length-pack_pos file pos index)) in
    rw e (unpack_pos-pack_pos file rest pos index (omega arith) hp hi)

not_empty :
    (file : Bytes) (pos index : ℕ) (old : Bytes)
    → (length (write_at (pack_pos file pos index) old) == 0) ≡ false
unfolding write_at pack_pos
not_empty file pos index old = ground arith

-- What is saved is read back, whatever was in the file before: a longer old record, or a shorter one.
-- The service is not exiting, its cache is open, and the file name has at most 494 bytes.
pub get-save :
    (file : Bytes) (pos index : ℕ) (h : Binlog)
    → h.is_exit ≡ false
    → h.cache_opened ≡ true
    → length file ≤ 494
    → pos < 2 ^ 64
    → index < 2 ^ 64
    → get_binlog_position_cache (save_binlog_position_cache (pack_pos file pos index) h)
      ≡ ok (file, pos, index)
unfolding get_binlog_position_cache save_binlog_position_cache
get-save file pos index h live opened hf hp hi =
    rw (live, opened, not_empty file pos index h.cache_file)
      (read-packed file pos index h.cache_file hf hp hi)

bytes_eq-nil : (file : Bytes) → file ≢ [] → bytes_eq file [] ≡ false
bytes_eq-nil [] ne = absurd (ne refl)
bytes_eq-nil (b ∷ file) ne = refl

start_position-noted :
    (file master_file : Bytes) (pos master_pos : ℕ)
    → file ≢ []
    → 0 < pos
    → pos < 2 ^ 32
    → start_position file pos master_file master_pos
      ≡ (file, (if bytes_eq file master_file && ltb master_pos pos then master_pos else pos))
unfolding start_position
start_position-noted file master_file pos master_pos ne h0 h32 =
    let small : pos % 2 ^ 32 ≡ pos = omega arith in
    rw (bytes_eq-nil file ne, lt→ltb 0 pos h0, lt→ltb pos (2 ^ 63) (omega arith), small)

noted :
    (file : Bytes) (pos : ℕ) (h : Binlog)
    → h.is_exit ≡ false
    → h.cache_opened ≡ true
    → (on_pos_synced file pos h).cache_file
      ≡ write_at (pack_pos file pos h.event_index) h.cache_file
unfolding on_pos_synced save_binlog_position_cache
noted file pos h live opened = rw (live, opened)

-- A service that starts on the cache file of one that noted a position goes on from there, with the
-- same event index; if the master's log of that name is shorter, from the master's position. The
-- first service was not exiting and its cache was open; the position is a uint32 above zero, the file
-- name is not empty and has at most 494 bytes.
pub handler_init-on_pos_synced :
    (file master_file : Bytes) (pos master_pos : ℕ) (h next : Binlog)
    → h.is_exit ≡ false
    → h.cache_opened ≡ true
    → file ≢ []
    → length file ≤ 494
    → 0 < pos
    → pos < 2 ^ 32
    → h.event_index < 2 ^ 64
    → next.cache_file ≡ (on_pos_synced file pos h).cache_file
    → handler_init master_file master_pos next
      ≡ ok (record next {
        cache_opened = true;
        event_index = h.event_index;
        last_bin_file = file;
        last_pos = if bytes_eq file master_file && ltb master_pos pos then master_pos else pos;
      })
unfolding handler_init
handler_init-on_pos_synced file master_file pos master_pos h next live opened ne hf h0 h32 hi e =
    rw (found, start_position-noted file master_file pos master_pos ne h0 h32)
  where
    found :
        get_binlog_position_cache (record next { cache_opened = true })
        ≡ ok (file, pos, h.event_index)
    found =
        unfold get_binlog_position_cache in
        rw (e ∙ noted file pos h live opened, not_empty file pos h.event_index h.cache_file)
          (read-packed file pos h.event_index h.cache_file hf (omega arith) hi)

-- A follower that is sent a packed position notes it in full: file, position, event index, and, where
-- its cache is open and it is not exiting, the same record for its own restart. The position is a
-- uint32, and the file name has at most 494 bytes.
pub save_binlog_position-pack_pos :
    (file : Bytes) (pos index : ℕ) (h : Binlog)
    → h.is_exit ≡ false
    → h.cache_opened ≡ true
    → length file ≤ 494
    → pos < 2 ^ 32
    → index < 2 ^ 64
    → (k : Binlog) × (save_binlog_position (pack_pos file pos index) h ≡ ok k)
      × (k.last_bin_file ≡ file)
      × (k.last_pos ≡ pos)
      × (k.event_index ≡ index)
      × (get_binlog_position_cache k ≡ ok (file, pos, index))
unfolding save_binlog_position
save_binlog_position-pack_pos file pos index h live opened hf hp hi = (
  save_binlog_position_cache (pack_pos file pos index) taken,
  rw unpacked,
  kept.0,
  kept.1 ∙ omega arith,
  kept.2,
  get-save file pos index taken live opened hf (omega arith) hi,
)
  where
    taken : Binlog
    taken = record h { last_bin_file = file; last_pos = pos % 2 ^ 32; event_index = index }

    unpacked : unpack_pos (pack_pos file pos index) ≡ ok (file, pos, index)
    unpacked =
        rw append-nil at (unpack_pos-pack_pos file [] pos index (omega arith) (omega arith) hi)

    kept :
        ((save_binlog_position_cache (pack_pos file pos index) taken).last_bin_file ≡ file)
        × ((save_binlog_position_cache (pack_pos file pos index) taken).last_pos ≡ pos % 2 ^ 32)
        × ((save_binlog_position_cache (pack_pos file pos index) taken).event_index ≡ index)
    kept = unfold save_binlog_position_cache in rw live (refl, refl, refl)
