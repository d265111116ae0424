-- ===== src/Plugins/Restarted.antt =====
-- What the plugins do with a message after a reload.
use wing_binlog_go.Prelude.{
  ◌≡◌, refl, Bool, true, false, Option, some, List, [], ◌∷◌, ok, panic, ◌>>=◌, Bytes, arith,
}
use wing_binlog_go.Plugins.Redis
use wing_binlog_go.Plugins.Redis.{RedisConfig, new_redis}
use wing_binlog_go.Plugins.Kafka
use wing_binlog_go.Plugins.Kafka.{KafkaConfig, new_producer}
use wing_binlog_go.Plugins.Http
use wing_binlog_go.Plugins.Http.{HttpNodeConfig, new_http_service}

module _ (match_string : Bytes → Bytes → Option Bool) (table msg : Bytes) where
  -- A Redis service that is enabled and connected, and is reloaded with a config that enables it, takes
  -- no message any more: the reload closes the service and nothing opens it again.
  pub redis_reload-send_all :
      (c d : RedisConfig) (r : Redis.Redis)
      → r.config ≡ some c
      → c.enable ≡ true
      → d.enable ≡ true
      → r.has_client ≡ true
      → r.has_lock ≡ true
      → (Redis.reload (some d) r >>= Redis.send_all match_string table msg)
        ≡ ok (false, record r { config = some d; is_close = true })
  unfolding Redis.reload Redis.close Redis.load Redis.send_all
  redis_reload-send_all c d r e ce de h l = ground (arith, e, ce, de, h, l)

  -- A plugin that starts disabled has no lock, so that enabling it by a reload makes a panic: of Redis
  -- and Kafka with the first message, of HTTP at once if the config has a group.
  pub enable-panic :
      (c d : RedisConfig) (k l : KafkaConfig) (g : HttpNodeConfig) (gs : List HttpNodeConfig)
      → c.enable ≡ false
      → d.enable ≡ true
      → k.config_enable ≡ false
      → ((Redis.reload (some d) (new_redis (some c)) >>= Redis.send_all match_string table msg)
          ≡ panic)
        × ((new_producer (some k)
              >>= Kafka.reload (some l)
              >>= Kafka.send_all match_string table msg)
            ≡ panic)
        × (Http.reload (some (true, g ∷ gs)) (new_http_service false []) ≡ panic)
  unfolding Redis.reload Redis.close Redis.load Redis.send_all new_redis new_producer Kafka.reload
      Kafka.send_all Http.reload new_http_service
  enable-panic c d k l g gs ce de ke = (rw (ce, de) refl, rw ke refl, refl)
