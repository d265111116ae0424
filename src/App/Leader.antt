-- ===== src/App/Leader.antt =====
-- Elections and the binlog service: `OnLeader` of `main`, from the boot of a node to the canal that it
-- runs.
use wing_binlog_go.Prelude.{
  ℕ, zero, suc, ◌≡◌, refl, ap, ◌∙◌, Bool, true, false, Option, none, some, List, [], ◌∷◌, Outcome,
  ok, ◌>>=◌, All, Bytes, text, bytes_eq, if◌then◌else◌, arith,
}
use wing_binlog_go.Binlog.State.{Binlog, register_service}
use wing_binlog_go.Binlog.Control.{Service, on_leader}
use wing_binlog_go.Agent.{
  TcpService, ServiceMember, selected, connect_to_leader, fire, new_agent_server, add_on_event,
  add_on_pos, add_on_leader,
}
use wing_binlog_go.App.{
  Parts, lead, boot, start_services, save_position, send_to_subscribers, http_name, redis_name,
  kafka_name, subscribe_name,
}
use wing_binlog_go.App.Signals.{Election, HasFile, latest, Runs, take_both, take_both-Runs}

unfoldable pub answers : ℕ → ServiceMember → List (Option ServiceMember)
answers zero m = some m ∷ []
answers (suc n) m = none ∷ answers n m

-- The elections, after each of which the service takes the signal that it was sent.
unfoldable pub elect_all : List Election → TcpService Parts → Outcome (TcpService Parts)
unfolding answers
elect_all [] s = ok s
elect_all (e ∷ es) s = selected e.is_leader (answers e.waits e.found) s >>= λ t.
    take_both e.synced t.world.service >>= λ v.
    elect_all es (record t { world = record t.world { service = v } })

-- A leader is found after some vain questions.
found-answers :
    (n : ℕ) (m : ServiceMember) (s : TcpService Parts)
    → (c : List Bytes) × (connect_to_leader (answers n m) s ≡ ok (record s { connected = c }))
unfolding answers connect_to_leader
found-answers zero m s = (_, refl)
found-answers (suc n) m s = found-answers n m s

fired :
    (b : Bool) (s : TcpService Parts)
    → s.on_leader ≡ lead ∷ []
    → fire (λ f. f b) s.on_leader s.world
      ≡ ok (record s.world { service = on_leader b s.world.service })
unfolding fire lead
fired b s told = ap (λ fs. fire (λ f. f b) fs s.world) told

told_of : Bool → TcpService Parts → TcpService Parts
told_of b s = record s {
  leader = b;
  world = record s.world { service = on_leader b s.world.service };
}

selected-fired :
    (b : Bool) (ms : List (Option ServiceMember)) (s : TcpService Parts)
    → s.on_leader ≡ lead ∷ []
    → selected b ms s ≡ (if b then ok (told_of b s) else connect_to_leader ms (told_of b s))
unfolding selected told_of
selected-fired b ms s told =
    ap
      (λ m. m >>= λ w.
        if b
        then ok (record s { leader = b; world = w })
        else connect_to_leader ms (record s { leader = b; world = w }))
      (fired b s told)

-- An election tells the service, and leaves the rest of its world alone.
elect-one :
    (b : Bool) (n : ℕ) (m : ServiceMember) (s : TcpService Parts)
    → s.on_leader ≡ lead ∷ []
    → (c : List Bytes) × (selected b (answers n m) s ≡ ok (record (told_of b s) { connected = c }))
unfolding told_of
elect-one true n m s told = (s.connected, selected-fired true (answers n m) s told)
elect-one false n m s told =
    let (c, asked) = found-answers n m (told_of false s) in
    (c, selected-fired false (answers n m) s told ∙ asked)

-- A node that leads or does not, with its service as it is to be.
abbrev IsInRole : Bool → TcpService Parts → Type 0
IsInRole b s = (s.on_leader ≡ lead ∷ []) × (s.leader ≡ b) × Runs b s.world.service

elect_all-IsInRole :
    (es : List Election) (b : Bool) (s : TcpService Parts)
    → All HasFile es
    → IsInRole b s
    → (t : TcpService Parts) × (elect_all es s ≡ ok t) × IsInRole (latest b es) t
unfolding elect_all told_of
elect_all-IsInRole [] b s files h = (s, refl, h)
elect_all-IsInRole (e ∷ es) b s (file, files) (told, role, runs) =
    let (c, won) = elect-one e.is_leader e.waits e.found s told in
    let (v, taken, there) = take_both-Runs b e.is_leader e.synced s.world.service file runs in
    let t = record s {
      leader = e.is_leader;
      connected = c;
      world = record s.world { service = v };
    } in
    let (u, more, end) = elect_all-IsInRole es e.is_leader t files (told, refl, there) in
    (u, rw (won, taken) more, end)

-- What the boot leaves of the service: a position that was known stays known.
register_service-kept :
    (name : Bytes) (h : Binlog)
    → ((register_service name h).is_running ≡ h.is_running)
      × ((register_service name h).last_bin_file ≡ h.last_bin_file)
unfolding register_service
register_service-kept name h = ground arith

start_services-Runs :
    (listens : Bool) (p : Parts)
    → p.service.binlog.is_running ≡ false
    → p.service.runs ≡ []
    → bytes_eq p.service.binlog.last_bin_file [] ≡ false
    → p.service.starts ≡ 0
    → p.service.stops ≡ []
    → Runs false (start_services listens p).service
unfolding start_services
start_services-Runs listens p idle none_runs known no_start no_stop =
    let h = register_service http_name p.service.binlog in
    let r = register_service redis_name h in
    let k = register_service kafka_name r in
    let (rs, fs) = register_service-kept subscribe_name k in
    let (rk, fk) = register_service-kept kafka_name r in
    let (rr, fr) = register_service-kept redis_name h in
    let (rh, fh) = register_service-kept http_name p.service.binlog in
    (
      rs ∙ rk ∙ rr ∙ rh ∙ idle,
      none_runs,
      ap (λ f. bytes_eq f []) (fs ∙ fk ∙ fr ∙ fh) ∙ known,
      no_start,
      no_stop,
    )

module _ (match_string : Bytes → Bytes → Option Bool) where
  -- A node of a cluster that boots with no canal, at a known position, goes through the elections,
  -- none of which panics or waits without end, and after the last its service runs exactly one canal if
  -- the node won it, and none if it lost it or there was none. The service has taken the signal of each
  -- election before the next is decided, and the runner of a closed canal has returned before the stop
  -- ends. Each time the node loses, the new leader is found after some questions, and the position of a
  -- closed canal names a file.
  pub elections-run :
      (es : List Election) (listens : Bool) (p : Parts)
      → All HasFile es
      → p.service.binlog.is_running ≡ false
      → p.service.runs ≡ []
      → bytes_eq p.service.binlog.last_bin_file [] ≡ false
      → p.service.starts ≡ 0
      → p.service.stops ≡ []
      → (s : TcpService Parts) × (t : TcpService Parts) × (boot match_string true listens p ≡ ok s)
        × (elect_all es s ≡ ok t)
        × (t.leader ≡ latest false es)
        × (t.world.service.binlog.is_running ≡ latest false es)
        × (t.world.service.runs ≡ (if latest false es then t.world.service.handler ∷ [] else []))
  unfolding boot new_agent_server add_on_event add_on_pos add_on_leader
  elections-run es listens p files idle none_runs known no_start no_stop =
      let q = start_services listens p in
      let a =
        add_on_pos save_position
          (add_on_event (send_to_subscribers match_string) (new_agent_server true q)) in
      let s = record a { on_leader = lead ∷ [] } in
      let boots = start_services-Runs listens p idle none_runs known no_start no_stop in
      let (t, elected, (told, role, runs)) =
        elect_all-IsInRole es false s files (refl, refl, boots) in
      (s, t, refl, elected, role, runs.0, runs.1)

  -- A node without a cluster signals its service at boot, and when the signal is taken the service
  -- runs exactly one canal. It boots with no canal, at a known position.
  pub boot-runs :
      (listens : Bool) (p : Parts)
      → p.service.binlog.is_running ≡ false
      → p.service.runs ≡ []
      → bytes_eq p.service.binlog.last_bin_file [] ≡ false
      → p.service.starts ≡ 0
      → p.service.stops ≡ []
      → (s : TcpService Parts) × (k : Service) × (boot match_string false listens p ≡ ok s)
        × (take_both (text "none", 0) s.world.service ≡ ok k)
        × (k.binlog.is_running ≡ true)
        × (k.runs ≡ k.handler ∷ [])
  unfolding boot new_agent_server add_on_event add_on_pos add_on_leader lead
  boot-runs listens p idle none_runs known no_start no_stop =
      let q = start_services listens p in
      let boots = start_services-Runs listens p idle none_runs known no_start no_stop in
      let (k, taken, r) = take_both-Runs false true (text "none", 0) q.service refl boots in
      let a =
        add_on_pos save_position
          (add_on_event (send_to_subscribers match_string) (new_agent_server false q)) in
      (
        record a { world = record q { service = on_leader true q.service } },
        k,
        refl,
        taken,
        r.0,
        r.1,
      )
