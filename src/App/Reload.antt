-- ===== src/App/Reload.antt =====
-- What a reload by name reaches, and the way of a reload from the command line to the services.
use wing_binlog_go.Prelude.{
  sym, ◌⊎◌, inl, inr, ◌+◌, ◌<◌, ◌^◌, ◌≡◌, refl, ap, ◌∙◌, true, false, List, [], ◌∷◌, Outcome, ok,
  panic, spins, no_fuel, ◌>>=◌, >>=-eq-ok, ok-injective, Bytes, text, bytes_eq, length, arith,
  Option-cases, Bool-cases,
}
use wing_binlog_go.Wire.{pack}
use wing_binlog_go.Stream.Chunks.{concat}
use wing_binlog_go.Control.{Callbacks, new_node, cmd_reload, reload_command, call, send}
use wing_binlog_go.Control.Frames.{stream, serve, serve_all, on_messages, on_messages-commands}
use wing_binlog_go.Subscribe.Server.{Server}
use wing_binlog_go.Subscribe.Server
use wing_binlog_go.Plugins.Http.{HttpService}
use wing_binlog_go.Plugins.Http
use wing_binlog_go.Plugins.Redis
use wing_binlog_go.App.{
  Parts, Configs, reload, reload_http, reload_redis, reload_subscribe, control_callbacks, http_name,
  redis_name, subscribe_name,
}
use wing_binlog_go.App.Commands.{Flags, Run, run_cmd}

answered :
    (cb : Callbacks Parts) (m : Outcome Parts) (answer : Bytes) (p : Parts)
    → ((call cb m answer (new_node p) >>= λ t. ok t) >>= λ t. ok (record t { recv_buf = [] }))
      ≡ (m >>= λ q. ok (record (new_node q) { out = answer ∷ [] }))
unfolding call send new_node
answered cb (ok w) answer p = refl
answered cb panic answer p = refl
answered cb spins answer p = refl
answered cb no_fuel answer p = refl

written-reload :
    (f : Flags) (r : Run)
    → bytes_eq f.service_reload [] ≡ false
    → f.version ≡ false
    → f.v ≡ false
    → f.stop ≡ false
    → run_cmd true f ≡ ok r
    → r.written ≡ reload_command f.service_reload ∷ []
unfolding run_cmd
written-reload f r given version v stop run = ground arith

-- A `-reload` of the command line reaches `reload` of the service, however the connection cuts the
-- bytes, and is answered by one frame that says ok, or it panics or waits as `reload` does. No other
-- command is given and a service listens, and the name fits a frame.
pub run_cmd-reload :
    (cfg : Configs) (members : Bytes) (f : Flags) (p : Parts) (r : Run) (ms : List Bytes)
    → length f.service_reload + 2 < 2 ^ 32
    → bytes_eq f.service_reload [] ≡ false
    → f.version ≡ false
    → f.v ≡ false
    → f.stop ≡ false
    → run_cmd true f ≡ ok r
    → concat ms ≡ stream r.written
    → on_messages (control_callbacks cfg members) ms (new_node p) ≡ (
        reload cfg f.service_reload p >>= λ q.
        ok (record (new_node q) { out = pack cmd_reload (text "ok") ∷ [] }))
unfolding serve serve_all control_callbacks new_node
run_cmd-reload cfg members f p r ms fit given version v stop run whole =
    let cb = control_callbacks cfg members in
    let wrote = written-reload f r given version v stop run in
    let cs = reload_command f.service_reload ∷ [] in
    on_messages-commands cb ms cs (new_node p) (fit, tt) refl (whole ∙ ap stream wrote)
    ∙ answered cb (reload cfg f.service_reload p) (pack cmd_reload (text "ok")) p

module _ (cfg : Configs) (p q : Parts) where
  http-only : reload_http cfg p ≡ ok q → (h : HttpService) × (q ≡ record p { http = h })
  unfolding reload_http
  http-only e =
      let (h, _, f) = >>=-eq-ok (Http.reload cfg.http_config p.http) _ q e in
      (h, sym (ok-injective f))

  redis-only : reload_redis cfg p ≡ ok q → (r : Redis.Redis) × (q ≡ record p { redis = r })
  unfolding reload_redis
  redis-only e =
      let (r, _, f) = >>=-eq-ok (Redis.reload cfg.redis_config p.redis) _ q e in
      (r, sym (ok-injective f))

  subscribe-only : reload_subscribe cfg p ≡ ok q → (s : Server) × (q ≡ record p { subscribe = s })
  unfolding reload_subscribe
  subscribe-only e = elim (Option-cases cfg.subscribe_config) [
    | inl missing ↦ absurd (ground arith)
    | inr ((enable, listens), given) ↦
        let f : ok (record p { subscribe = Server.reload enable listens p.subscribe }) ≡ ok q =
          ground arith in
        (Server.reload enable listens p.subscribe, sym (ok-injective f))
  ]

-- A reload of one service, with a name that is not `all`, changes only the service with that name: the
-- binlog and the Kafka plugin, whose name it does not know, stay, and each of the others stays unless
-- its own name is given.
pub reload-one :
    (cfg : Configs) (name : Bytes) (p q : Parts)
    → bytes_eq name (text "all") ≡ false
    → reload cfg name p ≡ ok q
    → (q.service ≡ p.service)
      × (q.kafka ≡ p.kafka)
      × (q.stopping ≡ p.stopping)
      × ((bytes_eq name http_name ≡ true) ⊎ (q.http ≡ p.http))
      × ((bytes_eq name redis_name ≡ true) ⊎ (q.redis ≡ p.redis))
      × ((bytes_eq name subscribe_name ≡ true) ⊎ (q.subscribe ≡ p.subscribe))
unfolding reload
reload-one cfg name p q one h = elim (Bool-cases (bytes_eq name http_name)) [
  | inl is_http ↦
      let e : reload_http cfg p ≡ ok q = ground arith in
      let (x, f) = http-only cfg p q e in rw f (refl, refl, refl, inl is_http, inr refl, inr refl)
  | inr not_http ↦ elim (Bool-cases (bytes_eq name redis_name)) [
    | inl is_redis ↦
        let e : reload_redis cfg p ≡ ok q = ground arith in
        let (x, f) = redis-only cfg p q e in
        rw f (refl, refl, refl, inr refl, inl is_redis, inr refl)
    | inr not_redis ↦ elim (Bool-cases (bytes_eq name subscribe_name)) [
      | inl is_subscribe ↦
          let e : reload_subscribe cfg p ≡ ok q = ground arith in
          let (x, f) = subscribe-only cfg p q e in
          rw f (refl, refl, refl, inr refl, inr refl, inl is_subscribe)
      | inr other ↦
          let e : ok p ≡ ok q = ground arith in
          rw (sym (ok-injective e)) (refl, refl, refl, inr refl, inr refl, inr refl)
    ]
  ]
]
