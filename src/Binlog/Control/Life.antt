-- ===== src/Binlog/Control/Life.antt =====
-- What the order of the goroutines does to the `running` bit, and what an exit saves.
use wing_binlog_go.Prelude.{
  ℕ, ◌≡◌, refl, ◌∙◌, Bool, true, false, List, [], ◌∷◌, ok, Bytes, ==_refl, arith, ◌⊎◌,
}
use wing_binlog_go.Binlog.Cache.{save_binlog_position_cache}
use wing_binlog_go.Binlog.Control.{
  Service, look_start, without, run_fails, stop_begins, stop_ends, on_leader, close,
}

-- The service runs one canal when its bit is set, and none when it is not.
unfoldable pub IsSteady : Service → Type 0
IsSteady s =
    ((s.binlog.is_running ≡ true) × (s.runs ≡ s.handler ∷ []))
    ⊎ ((s.binlog.is_running ≡ false) × (s.runs ≡ []))

-- While a stop is under way the canal that it has closed may still run.
unfoldable pub IsStopping : Service → Type 0
IsStopping s =
    ((s.binlog.is_running ≡ true) × ((c : ℕ) × (s.runs ≡ c ∷ [])))
    ⊎ ((s.binlog.is_running ≡ false) × (s.runs ≡ []))

-- By whether a stop is under way.
abbrev pub IsAt : Bool → Service → Type 0
IsAt true s = IsStopping s
IsAt false s = IsSteady s

-- The steps of the goroutines, by whether a stop is under way before and after: a start signal, an error
-- of the canal that runs, the two parts of a stop, and a leader's signal that is sent. A start signal
-- makes no canal run while a stop is under way, and a stop ends when no runner is left.
pub data Turn : Bool → Service → Bool → Service → Type 0 where
  starts_canal : {s t : Service} → look_start s ≡ ok t → Turn false s false t
  starts_nothing :
      {b : Bool} {s t : Service} → s.binlog.is_running ≡ true → look_start s ≡ ok t → Turn b s b t
  fails : {b : Bool} {s : Service} {c : ℕ} → s.runs ≡ c ∷ [] → Turn b s b (run_fails c s)
  begins_stop : {s : Service} (synced : Bytes × ℕ) → Turn false s true (stop_begins false synced s)
  ends_stop : {s : Service} → s.runs ≡ [] → Turn true s false (stop_ends false s)
  is_told : {b : Bool} {s : Service} (is_leader : Bool) → Turn b s b (on_leader is_leader s)

pub data Turns : Service → Bool → Service → Type 0 where
  rest : {s : Service} → Turns s false s
  then_turn : {r s t : Service} {b c : Bool} → Turns r b s → Turn b s c t → Turns r c t

pub without-alone : (c : ℕ) (rs : List ℕ) → rs ≡ c ∷ [] → without c rs ≡ []
unfolding without
without-alone c rs e = rw (e, ==_refl c)

-- Beginning to stop leaves the runs and the bit alone.
pub runs-stop_begins :
    (exit : Bool) (synced : Bytes × ℕ) (s : Service) → (stop_begins exit synced s).runs ≡ s.runs
unfolding stop_begins
runs-stop_begins exit synced s = ground arith

-- When the runner of the closed canal returns only after the stop signal is done, the service is
-- left with the running bit and no canal that runs, and a start signal changes nothing.
pub late_return-stuck :
    (s : Service) (c : ℕ) (synced : Bytes × ℕ)
    → s.binlog.is_running ≡ true
    → s.runs ≡ c ∷ []
    → let late = run_fails c (stop_ends false (stop_begins false synced s)) in
      (late.runs ≡ []) × (late.binlog.is_running ≡ true) × (look_start late ≡ ok late)
unfolding run_fails stop_ends stop_begins look_start
late_return-stuck s c synced r e =
    (without-alone c _ (runs-stop_begins false synced s ∙ e), refl, refl)

-- Closing the service never writes the position to the cache file.
pub close-cache_file :
    (s : Service) (synced : Bytes × ℕ)
    → (stop_ends true (stop_begins true synced (close s))).binlog.cache_file ≡ s.binlog.cache_file
unfolding close stop_ends stop_begins save_binlog_position_cache
close-cache_file s synced = ground arith
