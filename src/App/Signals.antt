-- ===== src/App/Signals.antt =====
-- The signals of the elections, as the goroutines of the binlog service take them.
use wing_binlog_go.Prelude.{
  ℕ, ◌≡◌, refl, ap, ◌∙◌, Bool, true, false, List, [], ◌∷◌, ◌++◌, Outcome, ok, ◌>>=◌, Bytes,
  bytes_eq, if◌then◌else◌, arith,
}
use wing_binlog_go.Binlog.Cache.{on_pos_synced, save_binlog_position_cache}
use wing_binlog_go.Binlog.Control.{
  Service, set_running, look_start, take_start, run_fails, stop_begins, stop_ends, on_leader,
  start_service, stop_service,
}
use wing_binlog_go.Binlog.Control.Life.{without-alone, runs-stop_begins}
use wing_binlog_go.Agent.{ServiceMember}

-- A round of the election: whether the node won, how often it asked for the leader in vain, and whom
-- it found then; and the position of the canal that it closes, if it closes one.
pub record Election : Type 0 where
  pub is_leader : Bool
  pub waits : ℕ
  pub found : ServiceMember
  pub synced : Bytes × ℕ

-- Whether the node won the last election; before the first it had `b`.
abbrev pub latest : Bool → List Election → Bool
latest b [] = b
latest b (e ∷ es) = latest e.is_leader es

-- The position of a canal names a file.
abbrev pub HasFile : Election → Type 0
HasFile e = bytes_eq e.synced.0 [] ≡ false

-- The runner of a canal that is closed returns.
unfoldable pub returned : List ℕ → Service → Service
unfolding run_fails
returned [] s = s
returned (c ∷ rest) s = run_fails c s

-- A stop signal taken in full, if there is one; the runner of the closed canal returns before the stop
-- ends.
unfoldable pub take_stop : Bytes × ℕ → Service → Service
unfolding stop_begins stop_ends returned
take_stop synced s = elim s.stops [
  | [] ↦ s
  | exit ∷ rest ↦
      stop_ends exit (returned s.runs (stop_begins exit synced (record s { stops = rest })))
]

-- Both goroutines take a signal off their channel, if there is one.
unfoldable pub take_both : Bytes × ℕ → Service → Outcome Service
unfolding take_start take_stop
take_both synced s = take_start s >>= λ t. ok (take_stop synced t)

-- The service runs one canal if the node leads, and none if it does not; a position is known, and no
-- signal waits.
abbrev pub Runs : Bool → Service → Type 0
Runs b s =
    (s.binlog.is_running ≡ b)
    × (s.runs ≡ (if b then s.handler ∷ [] else []))
    × (bytes_eq s.binlog.last_bin_file [] ≡ false)
    × (s.starts ≡ 0)
    × (s.stops ≡ [])

-- What a stop leaves alone, and the file of the position it leaves.
stopped-kept :
    (rs : List ℕ) (synced : Bytes × ℕ) (s : Service)
    → let t = stop_ends false (returned rs (stop_begins false synced s)) in
      (t.starts ≡ s.starts)
      × (t.stops ≡ s.stops)
      × (t.binlog.last_bin_file
          ≡ (if s.binlog.is_running then synced.0 else s.binlog.last_bin_file))
unfolding returned stop_ends stop_begins run_fails set_running on_pos_synced
    save_binlog_position_cache
stopped-kept [] synced s = (ground arith, ground arith, ground arith)
stopped-kept (c ∷ rest) synced s = (ground arith, ground arith, ground arith)

runs-returned :
    (b : Bool) (c : ℕ) (synced : Bytes × ℕ) (s : Service)
    → s.runs ≡ (if b then c ∷ [] else [])
    → (stop_ends false (returned (if b then c ∷ [] else []) (stop_begins false synced s))).runs ≡ []
unfolding returned stop_ends run_fails set_running
runs-returned true c synced s e = without-alone c _ (runs-stop_begins false synced s ∙ e)
runs-returned false c synced s e = runs-stop_begins false synced s ∙ e

either_file :
    (b : Bool) (f g : Bytes)
    → bytes_eq f [] ≡ false
    → bytes_eq g [] ≡ false
    → bytes_eq (if b then f else g) [] ≡ false
either_file true f g x y = x
either_file false f g x y = y

-- After a stop no canal runs.
stopped-Runs :
    (b : Bool) (synced : Bytes × ℕ) (s : Service)
    → bytes_eq synced.0 [] ≡ false
    → Runs b s
    → Runs false (stop_ends false (returned s.runs (stop_begins false synced s)))
stopped-Runs b synced s file (r, q, known, starts, stops) =
    let (same_starts, same_stops, last) = stopped-kept s.runs synced s in
    (
      unfold stop_ends set_running in refl,
      ap (λ rs. (stop_ends false (returned rs (stop_begins false synced s))).runs) q
          ∙ runs-returned b s.handler synced s q,
      ap (λ f. bytes_eq f []) last ∙ either_file s.binlog.is_running _ _ file known,
      same_starts ∙ starts,
      same_stops ∙ stops,
    )

take_start-none : (s : Service) → s.starts ≡ 0 → take_start s ≡ ok s
unfolding take_start
take_start-none s e = rw e refl

take_start-one : (s : Service) → take_start (start_service s) ≡ look_start s
unfolding take_start start_service
take_start-one s = refl

take_stop-none : (synced : Bytes × ℕ) (s : Service) → s.stops ≡ [] → take_stop synced s ≡ s
unfolding take_stop
take_stop-none synced s e = rw e refl

take_stop-one :
    (synced : Bytes × ℕ) (s : Service)
    → s.stops ≡ false ∷ []
    → take_stop synced s
      ≡ stop_ends false (returned s.runs (stop_begins false synced (record s { stops = [] })))
unfolding take_stop
take_stop-one synced s e = rw e refl

won-Runs :
    (b : Bool) (synced : Bytes × ℕ) (s : Service)
    → Runs b s
    → (t : Service) × (take_both synced (start_service s) ≡ ok t) × Runs true t
unfolding take_both look_start set_running
won-Runs true synced s (r, q, known, starts, stops) =
    let stays : look_start s ≡ ok s = rw r refl in
    (
      s,
      ap (λ o. o >>= λ t. ok (take_stop synced t)) (take_start-one s ∙ stays)
          ∙ ap ok (take_stop-none synced s stops),
      (r, q, known, starts, stops),
    )
won-Runs false synced s (r, q, known, starts, stops) =
    let t = record s {
      binlog = record s.binlog { is_running = true };
      runs = s.runs ++ s.handler ∷ [];
    } in
    let begun : look_start s ≡ ok t = rw (r, known) refl in
    (
      t,
      ap (λ o. o >>= λ u. ok (take_stop synced u)) (take_start-one s ∙ begun)
          ∙ ap ok (take_stop-none synced t stops),
      (refl, rw q refl, known, starts, stops),
    )

pub take_both-Runs :
    (b won : Bool) (synced : Bytes × ℕ) (s : Service)
    → bytes_eq synced.0 [] ≡ false
    → Runs b s
    → (t : Service) × (take_both synced (on_leader won s) ≡ ok t) × Runs won t
unfolding take_both on_leader
take_both-Runs b true synced s file h = won-Runs b synced s h
take_both-Runs b false synced s file (r, q, known, starts, stops) =
    let u = record s { stops = [] } in
    (
      stop_ends false (returned s.runs (stop_begins false synced u)),
      unfold stop_service in
          (ap (λ o. o >>= λ t. ok (take_stop synced t))
              (take_start-none (stop_service false s) starts)
            ∙ ap ok
                (take_stop-one synced (stop_service false s) (ap (λ e. e ++ false ∷ []) stops))),
      stopped-Runs b synced u file (r, q, known, starts, refl),
    )
