-- ===== src/Config/Services.antt =====
-- The `getConfig` of the services: src/services/*/config.go, src/services/redis/redis.go,
-- src/library/agent/config.go, and `getMysqlConfig` of src/library/app/app.go. Each reads one file below
-- the config path; the decoder gives the values of its fields.
use wing_binlog_go.Prelude.{ℕ, suc, Bool, Option, none, some, List, ◌++◌, Bytes, text}
use wing_binlog_go.System.Numbers.{ℤ, pos}
use wing_binlog_go.Plugins.Redis.{RedisConfig}
use wing_binlog_go.Plugins.Kafka.{KafkaConfig}
use wing_binlog_go.Plugins.Http.{HttpNodeConfig}
use wing_binlog_go.App.{Configs}
use wing_binlog_go.Config.{Loaded, loaded, file_not_found, file_parse, decode_file}

-- `HttpConfig`
pub record HttpConfig : Type 0 where
  pub http_enable : Bool
  pub time_tick : ℤ
  pub http_groups : List HttpNodeConfig

-- `TcpConfig` of the subscribe service.
pub record TcpConfig : Type 0 where
  pub listen : Bytes
  pub tcp_enable : Bool
  pub consul_address : Bytes
  pub consul_enable : Bool

-- `Config` of the agent.
pub record AgentConfig : Type 0 where
  pub agent_enable : Bool
  pub agent_type : Bytes
  pub lock : Bytes
  pub agent_listen : Bytes
  pub agent_consul : Bytes

-- `MysqlConfig`, the durations and numbers as they are decoded.
pub record MysqlConfig : Type 0 where
  pub addr : Bytes
  pub user : Bytes
  pub password : Bytes
  pub charset : Bytes
  pub server_id : ℕ
  pub flavor : Bytes
  pub heartbeat_period : ℤ
  pub read_timeout : ℤ
  pub bin_file : Bytes
  pub bin_pos : ℕ

-- Which files there are, and what the decoder makes of each.
pub record Files : Type 0 where
  pub exists : Bytes → Bool
  pub decode_http : Bytes → Option HttpConfig
  pub decode_redis : Bytes → Option RedisConfig
  pub decode_kafka : Bytes → Option KafkaConfig
  pub decode_tcp : Bytes → Option TcpConfig
  pub decode_agent : Bytes → Option AgentConfig
  pub decode_mysql : Bytes → Option MysqlConfig

-- `if config.TimeTick <= 0 { config.TimeTick = 1 }`
unfoldable pub at_least_one : ℤ → ℤ
at_least_one (pos (suc n)) = pos (suc n)
at_least_one _ = pos 1

module _ (config_path : Bytes) (files : Files) where
  unfoldable pub read_file : {C : Type 0} → Bytes → (Bytes → Option C) → Loaded C
  unfolding decode_file
  read_file name decode =
      decode_file (files.exists (config_path ++ name)) (decode (config_path ++ name))

  -- `getHttpConfig`
  unfoldable pub get_http_config : Loaded HttpConfig
  unfolding read_file at_least_one
  get_http_config = elim (read_file (text "/http.toml") files.decode_http) [
    | loaded c ↦ loaded (record c { time_tick = at_least_one c.time_tick })
    | file_not_found ↦ file_not_found
    | file_parse ↦ file_parse
  ]

  -- `getRedisConfig`
  unfoldable pub get_redis_config : Loaded RedisConfig
  unfolding read_file
  get_redis_config = read_file (text "/redis.toml") files.decode_redis

  -- `getConfig` of Kafka.
  unfoldable pub get_kafka_config : Loaded KafkaConfig
  unfolding read_file
  get_kafka_config = read_file (text "/kafka.toml") files.decode_kafka

  -- `getConfig` of the subscribe service.
  unfoldable pub get_tcp_config : Loaded TcpConfig
  unfolding read_file
  get_tcp_config = read_file (text "/subscribe.toml") files.decode_tcp

  -- `getConfig` of the agent.
  unfoldable pub get_agent_config : Loaded AgentConfig
  unfolding read_file
  get_agent_config = read_file (text "/agent.toml") files.decode_agent

  -- `getMysqlConfig`
  unfoldable pub get_mysql_config : Loaded MysqlConfig
  unfolding read_file
  get_mysql_config = read_file (text "/canal.toml") files.decode_mysql

  -- What a reload of each service reads. The answer says whether the listener opens.
  unfoldable pub read_configs : Bool → Configs
  unfolding get_http_config get_redis_config get_kafka_config get_tcp_config
  read_configs listens = record {
    http_config = elim get_http_config [
      | loaded c ↦ some (c.http_enable, c.http_groups)
      | _ ↦ none
    ];
    redis_config = elim get_redis_config [ loaded c ↦ some c | _ ↦ none ];
    kafka_config = elim get_kafka_config [ loaded c ↦ some c | _ ↦ none ];
    subscribe_config = elim get_tcp_config [ loaded c ↦ some (c.tcp_enable, listens) | _ ↦ none ];
  }
