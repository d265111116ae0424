-- ===== src/Config/Missing.antt =====
-- A reload whose config files are gone.
use wing_binlog_go.Prelude.{
  ◌≡◌, refl, ap, ◌∙◌, Bool, false, Option, none, some, ◌++◌, ok, panic, ◌>>=◌, Bytes, text,
}
use wing_binlog_go.Plugins.Redis
use wing_binlog_go.Plugins.Redis.{Redis}
use wing_binlog_go.Plugins.Kafka
use wing_binlog_go.Plugins.Http
use wing_binlog_go.App.{Parts, reload_http, reload_redis, reload_kafka, reload_subscribe}
use wing_binlog_go.Config.{decode_file, file_not_found}
use wing_binlog_go.Config.Services.{Files, read_configs, read_file}

not_there : {C : Type 0} (o : Option C) → decode_file false o ≡ file_not_found
unfolding decode_file
not_there none = refl
not_there (some c) = refl

module _ (config_path : Bytes) (files : Files)
    (gone : (name : Bytes) → files.exists (config_path ++ name) ≡ false) where
  read_file-missing :
      {C : Type 0} (name : Bytes) (decode : Bytes → Option C)
      → read_file config_path files name decode ≡ file_not_found
  unfolding read_file
  read_file-missing name decode =
      ap (λ b. decode_file b (decode (config_path ++ name))) (gone name)
      ∙ not_there (decode (config_path ++ name))

  read_configs-missing :
      (listens : Bool)
      → read_configs config_path files listens ≡ record {
        http_config = none;
        redis_config = none;
        kafka_config = none;
        subscribe_config = none;
      }
  unfolding read_configs
  read_configs-missing listens =
      rw
        (
          read_file-missing (text "/http.toml") files.decode_http,
          read_file-missing (text "/redis.toml") files.decode_redis,
          read_file-missing (text "/kafka.toml") files.decode_kafka,
          read_file-missing (text "/subscribe.toml") files.decode_tcp,
        )
        refl

-- A reload while the config files are missing: the HTTP service stays as it was, Kafka and the subscribe
-- service panic, and the Redis service, if its close returns, panics with the next message.
pub reload-missing :
    (match_string : Bytes → Bytes → Option Bool) (config_path table msg : Bytes) (files : Files)
    (listens : Bool) (p : Parts) (r : Redis)
    → ((name : Bytes) → files.exists (config_path ++ name) ≡ false)
    → Redis.close p.redis ≡ ok r
    → let cfg = read_configs config_path files listens in
      (reload_http cfg p ≡ ok p)
      × (reload_kafka cfg p ≡ panic)
      × (reload_subscribe cfg p ≡ panic)
      × ((reload_redis cfg p >>= λ q. Redis.send_all match_string table msg q.redis) ≡ panic)
unfolding reload_http reload_redis reload_kafka reload_subscribe read_configs Redis.reload
    Redis.load Redis.send_all Kafka.reload Http.reload
reload-missing match_string config_path table msg files listens p r gone closes =
    rw (read_configs-missing config_path files gone listens, closes) (refl, refl, refl, refl)
