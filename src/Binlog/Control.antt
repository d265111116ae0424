-- ===== src/Binlog/Control.antt =====
-- The life of the service in src/library/binlog/binlog.go: `lookStartService`, `lookStopService`,
-- `OnLeader`, `Close`. The two goroutines and the runner of the canal interleave, so that what runs
-- under one lock is one operation here. The handler is set before the runner reads it.
pub mod Life
use wing_binlog_go.Prelude.{
  ℕ, zero, suc, ◌+◌, Bool, true, false, not, ◌&&◌, List, [], ◌∷◌, ◌++◌, Outcome, ok, panic, ◌>>=◌,
  Bytes, bytes_eq, ◌==◌, if◌then◌else◌,
}
use wing_binlog_go.Binlog.Position.{pack_pos}
use wing_binlog_go.Binlog.State.{Binlog}
use wing_binlog_go.Binlog.Cache.{on_pos_synced, save_binlog_position_cache}

-- The service with the number of its canal (`setHandler` makes the next), the canals in which a
-- `RunFrom` is under way, the plugins' `Close` calls, how many signals wait in `startServiceChan`, and
-- those in `stopServiceChan`, oldest first. A goroutine reads each channel.
pub record Service : Type 0 where
  pub binlog : Binlog
  pub handler : ℕ
  pub runs : List ℕ
  pub closed : List Bytes
  pub starts : ℕ
  pub stops : List Bool

unfoldable pub set_running : Bool → Service → Service
set_running b s = record s { binlog = record s.binlog { is_running = b } }

-- `lookStartService` on a signal. The runner panics when no position came within its three seconds.
unfoldable pub look_start : Service → Outcome Service
unfolding set_running
look_start s =
    if s.binlog.is_running
    then ok s
    else if bytes_eq s.binlog.last_bin_file []
    then panic
    else ok (set_running true (record s { runs = s.runs ++ s.handler ∷ [] }))

unfoldable pub without : ℕ → List ℕ → List ℕ
without c [] = []
without c (r ∷ rs) = if r == c then rs else r ∷ without c rs

-- `RunFrom` of the canal `c` returns an error: `h.status ^= binlogIsRunning`.
unfoldable pub run_fails : ℕ → Service → Service
unfolding set_running without
run_fails c s = set_running (not s.binlog.is_running) (record s { runs = without c s.runs })

-- `lookStopService` on a signal, up to its second look at the status: the canal is closed, which calls
-- `OnPosSynced` with the canal's position, and a new one takes its place.
unfoldable pub stop_begins : Bool → Bytes × ℕ → Service → Service
stop_begins exit (name, pos) s =
    if s.binlog.is_running && not exit
    then record s { binlog = on_pos_synced name pos s.binlog; handler = suc s.handler }
    else s

-- The position is saved and the cache file is closed, on exit only.
unfoldable pub exit_saves : Bool → Binlog → Binlog
exit_saves exit h =
    if exit
    then record (save_binlog_position_cache (pack_pos h.last_bin_file h.last_pos h.event_index) h) {
      cache_opened = false;
    }
    else h

-- The rest of `lookStopService`.
unfoldable pub stop_ends : Bool → Service → Service
unfolding set_running exit_saves
stop_ends exit s = set_running false (record s { binlog = exit_saves exit s.binlog })

unfoldable pub start_service : Service → Service
start_service s = record s { starts = suc s.starts }

unfoldable pub stop_service : Bool → Service → Service
stop_service exit s = record s { stops = s.stops ++ exit ∷ [] }

-- `OnLeader`
unfoldable pub on_leader : Bool → Service → Service
unfolding start_service stop_service
on_leader is_leader s = if is_leader then start_service s else stop_service false s

-- `Close`, up to the wait for the goroutines.
unfoldable pub close : Service → Service
unfolding stop_service
close s =
    if s.binlog.is_exit
    then s
    else let exits = stop_service true (record s { binlog = record s.binlog { is_exit = true } }) in
      record exits { closed = exits.closed ++ exits.binlog.services }

-- `lookStartService` takes a signal off its channel, if there is one.
unfoldable pub take_start : Service → Outcome Service
unfolding look_start
take_start s = elim s.starts [ zero ↦ ok s | suc k ↦ look_start (record s { starts = k }) ]
