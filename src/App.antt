-- ===== src/App.antt =====
-- src/wing-binlog-go/main.go: how the parts of the program are put together.
pub mod Commands
pub mod Reload
pub mod Process
pub mod Replica
pub mod Forward
pub mod Start
pub mod Main
pub mod Exit
pub mod Signals
pub mod Leader
use wing_binlog_go.Prelude.{
  ℕ, Bool, true, false, not, Option, none, some, List, [], ◌∷◌, ◌++◌, Outcome, ok, panic, spins,
  ◌>>=◌, Bytes, text, bytes_eq, if◌then◌else◌,
}
use wing_binlog_go.Wire.{pack}
use wing_binlog_go.Subscribe.Server
use wing_binlog_go.Subscribe.Server.{Server}
use wing_binlog_go.Binlog.State.{Effect, pos_changed, send_all, on_event, register_service}
use wing_binlog_go.Binlog.Cache.{save_binlog_position}
use wing_binlog_go.Binlog.Control.{Service, on_leader}
use wing_binlog_go.Plugins.Redis
use wing_binlog_go.Plugins.Redis.{RedisConfig}
use wing_binlog_go.Plugins.Kafka
use wing_binlog_go.Plugins.Kafka.{KafkaConfig, Producer}
use wing_binlog_go.Plugins.Http
use wing_binlog_go.Plugins.Http.{HttpNodeConfig, HttpService}
use wing_binlog_go.Agent.{
  TcpService, new_agent_server, add_on_event, add_on_pos, add_on_leader, sync, cmd_pos, cmd_event,
}
use wing_binlog_go.Control.{Callbacks}

-- The services of `main`, and whether `Stop` was called.
pub record Parts : Type 0 where
  pub service : Service
  pub http : HttpService
  pub redis : Redis.Redis
  pub kafka : Producer
  pub subscribe : Server
  pub stopping : Bool

-- What the config files say when a service reads them again; for the subscribe service also whether
-- its listener opens.
pub record Configs : Type 0 where
  pub http_config : Option (Bool × List HttpNodeConfig)
  pub redis_config : Option RedisConfig
  pub kafka_config : Option KafkaConfig
  pub subscribe_config : Option (Bool × Bool)

-- The names that the services answer to `Name`.
abbrev pub http_name : Bytes
http_name = text "http"

abbrev pub redis_name : Bytes
redis_name = text "redis"

abbrev pub kafka_name : Bytes
kafka_name = text "kafka"

abbrev pub subscribe_name : Bytes
subscribe_name = text "subscribe"

module _ (cfg : Configs) where
  unfoldable pub reload_http : Parts → Outcome Parts
  reload_http p = Http.reload cfg.http_config p.http >>= λ h. ok (record p { http = h })

  unfoldable pub reload_redis : Parts → Outcome Parts
  reload_redis p = Redis.reload cfg.redis_config p.redis >>= λ r. ok (record p { redis = r })

  unfoldable pub reload_kafka : Parts → Outcome Parts
  reload_kafka p = Kafka.reload cfg.kafka_config p.kafka >>= λ k. ok (record p { kafka = k })

  -- `subscribeService.Reload()`: without a config its log line reads a nil pointer.
  unfoldable pub reload_subscribe : Parts → Outcome Parts
  reload_subscribe p = elim cfg.subscribe_config [
    | none ↦ panic
    | some (enable, listens) ↦
        ok (record p { subscribe = Server.reload enable listens p.subscribe })
  ]

  -- The function `reload` of `main`.
  unfoldable pub reload : Bytes → Parts → Outcome Parts
  unfolding reload_http reload_redis reload_kafka reload_subscribe
  reload name p =
      if bytes_eq name (text "all")
      then (reload_redis p >>= λ q.
          reload_http q >>= λ r. reload_kafka r >>= λ s. reload_subscribe s)
      else if bytes_eq name http_name
      then reload_http p
      else if bytes_eq name redis_name
      then reload_redis p
      else if bytes_eq name subscribe_name
      then reload_subscribe p
      else ok p

-- `appContext.Stop`: `main` takes one signal off the channel, a second call waits.
unfoldable pub stop : Parts → Outcome Parts
stop p = if p.stopping then spins else ok (record p { stopping = true })

-- The callbacks of `NewControl` in `main`.
unfoldable pub control_callbacks : Configs → Bytes → Callbacks Parts
control_callbacks cfg members = record {
  stop_all = stop;
  reload = reload cfg;
  show_member = λ p. members;
}

-- `agent.OnPos(blog.SaveBinlogPosition)`
unfoldable pub save_position : Bytes → Parts → Outcome Parts
save_position r p = save_binlog_position r p.service.binlog >>= λ b.
    ok (record p { service = record p.service { binlog = b } })

-- `agent.OnLeader(blog.OnLeader)`
unfoldable pub lead : Bool → Parts → Outcome Parts
lead is_leader p = ok (record p { service = on_leader is_leader p.service })

-- `main` up to `blog.Start`: the four services are registered and started. Redis has nothing to start;
-- the goroutines that HTTP and Kafka start are no part of this state.
unfoldable pub start_services : Bool → Parts → Parts
start_services listens p =
    let registered = register_service subscribe_name (
      register_service kafka_name
        (register_service redis_name (register_service http_name p.service.binlog))) in
    record p {
      service = record p.service { binlog = registered };
      subscribe = Server.start listens p.subscribe;
    }

module _ (match_string : Bytes → Bytes → Option Bool) where
  -- `agent.OnEvent(subscribeService.SendAll)`, its answer dropped.
  unfoldable pub send_to_subscribers : Bytes → Bytes → Parts → Outcome Parts
  send_to_subscribers table msg p =
      Server.send_all match_string table msg p.subscribe >>= λ r. ok (record p { subscribe = r.1 })

  -- `main` up to `agentServer.Start`: the agent with its callbacks.
  unfoldable pub boot : Bool → Bool → Parts → Outcome (TcpService Parts)
  boot agent_enable listens p =
      let started = start_services listens p in
      add_on_leader lead (
        add_on_pos save_position
          (add_on_event send_to_subscribers (new_agent_server agent_enable started)))

-- The callbacks `PosChange` and `OnEvent` that `main` gives to `NewBinlog`; a plugin's `SendAll` is no
-- call of theirs.
unfoldable pub broadcast : Effect → TcpService Parts → TcpService Parts
broadcast (pos_changed k r) s = sync (pack cmd_pos r) s
broadcast (on_event k table json) s = sync (pack cmd_event json) s
broadcast (send_all name table json) s = s

unfoldable pub broadcast_all : List Effect → TcpService Parts → TcpService Parts
unfolding broadcast
broadcast_all [] s = s
broadcast_all (e ∷ es) s = broadcast_all es (broadcast e s)
