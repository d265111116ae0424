-- ===== src/Binlog/Cache.antt =====
-- The position cache of src/library/binlog/handler.go. A write to the open file succeeds.
pub mod Restart
use wing_binlog_go.Prelude.{
  ℕ, zero, suc, ◌+◌, ◌-◌, ◌%◌, ◌^◌, Bool, true, false, not, ◌&&◌, List, [], ◌∷◌, ◌++◌, Outcome, ok,
  ◌>>=◌, Bytes, bytes_eq, length, take, drop, ltb, ◌==◌, if◌then◌else◌,
}
use wing_binlog_go.Binlog.Position.{pack_pos, unpack_pos}
use wing_binlog_go.Binlog.State.{Binlog, Effect, pos_changed, call_each}

-- `WriteAt(r, 0)`: what stands behind the bytes that are written stays.
unfoldable pub write_at : Bytes → Bytes → Bytes
write_at r file = r ++ drop (length r) file

abbrev zeros : ℕ → Bytes
zeros zero = []
zeros (suc n) = 0 ∷ zeros n

-- `bytes.MinRead`
abbrev pub min_read : ℕ
min_read = 512

-- `Read` from the start of a file into a buffer of 512 zero bytes.
unfoldable pub read_buffer : Bytes → Bytes
read_buffer file = take min_read file ++ zeros (min_read - length (take min_read file))

-- `saveBinlogPositionCache`
unfoldable pub save_binlog_position_cache : Bytes → Binlog → Binlog
unfolding write_at
save_binlog_position_cache r h = if h.is_exit then h else record h {
  cache_file = if h.cache_opened then write_at r h.cache_file else h.cache_file;
  effects = h.effects ++ call_each h.on_pos_changes (λ k. pos_changed k r);
}

-- `getBinlogPositionCache`
unfoldable pub get_binlog_position_cache : Binlog → Outcome (Bytes × ℕ × ℕ)
unfolding read_buffer
get_binlog_position_cache h =
    if not h.cache_opened
    then ok ([], 0, 0)
    else if length h.cache_file == 0
    then ok ([], 0, 0)
    else unpack_pos (read_buffer h.cache_file)

-- `OnPosSynced`
unfoldable pub on_pos_synced : Bytes → ℕ → Binlog → Binlog
on_pos_synced name pos h =
    let saved = save_binlog_position_cache (pack_pos name pos h.event_index) h in
    record saved { last_bin_file = name; last_pos = pos }

-- `SaveBinlogPosition`: the position that the leader sent. `uint32(pos)` drops the high bits.
unfoldable pub save_binlog_position : Bytes → Binlog → Outcome Binlog
save_binlog_position r h = do
  (file, pos, index) ← unpack_pos r
  ok (
      save_binlog_position_cache r
        (record h { last_bin_file = file; last_pos = pos % 2 ^ 32; event_index = index }))

-- Whether an int64 pattern is above zero.
abbrev is_positive : ℕ → Bool
is_positive pos = ltb 0 pos && ltb pos (2 ^ 63)

-- Where `handlerInit` starts from: the cached position, but not beyond the master's in its file.
unfoldable pub start_position : Bytes → ℕ → Bytes → ℕ → Bytes × ℕ
start_position file pos master_file master_pos =
    if not (bytes_eq file []) && is_positive pos
    then (
      file,
      (if bytes_eq file master_file && ltb master_pos (pos % 2 ^ 32)
          then master_pos
          else pos % 2 ^ 32),
    )
    else (master_file, master_pos)

-- `handlerInit`, with the position of the master that the canal reports.
unfoldable pub handler_init : Bytes → ℕ → Binlog → Outcome Binlog
unfolding start_position
handler_init master_file master_pos h = do
  let opened = record h { cache_opened = true }
  (file, pos, index) ← get_binlog_position_cache opened
  ok (record opened {
    event_index = index;
    last_bin_file = (start_position file pos master_file master_pos).0;
    last_pos = (start_position file pos master_file master_pos).1;
  })
