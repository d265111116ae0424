-- ===== src/Plugins/Redis.antt =====
-- src/services/redis/redis.go. What `getRedisConfig` answers is an argument, `none` its error; the
-- Redis library is known by the calls that it gets.
use wing_binlog_go.Prelude.{
  Bool, true, false, not, ◌||◌, Option, none, some, List, [], ◌∷◌, ◌++◌, Outcome, ok, panic, ◌>>=◌,
  Bytes, if◌then◌else◌,
}
use wing_binlog_go.Wire.Filter.{match_filters}

-- `redisConfig`, as far as the service reads it.
pub record RedisConfig : Type 0 where
  pub enable : Bool
  pub filter : List Bytes
  pub queue : Bytes

-- `Redis`: its config, client and lock may be nil; `pushed` are the calls of `RPush`, oldest first.
pub record Redis : Type 0 where
  pub config : Option RedisConfig
  pub has_client : Bool
  pub has_lock : Bool
  pub is_close : Bool
  pub pushed : List (Bytes × Bytes)

-- `NewRedis`
unfoldable pub new_redis : Option RedisConfig → Redis
new_redis none = record {
  config = none;
  has_client = false;
  has_lock = false;
  is_close = false;
  pushed = [];
}
new_redis (some c) = record {
  config = some c;
  has_client = c.enable;
  has_lock = c.enable;
  is_close = false;
  pushed = [];
}

-- `SendAll`
unfoldable pub send_all :
    (Bytes → Bytes → Option Bool) → Bytes → Bytes → Redis → Outcome (Bool × Redis)
send_all match_string table msg r = elim r.config [
  | none ↦ panic
  | some c ↦
      if not c.enable || not r.has_client
      then ok (true, r)
      else if not r.has_lock
      then panic
      else if r.is_close
      then ok (false, r)
      else if match_filters match_string c.filter table
      then ok (true, record r { pushed = r.pushed ++ (c.queue, msg) ∷ [] })
      else ok (true, r)
]

-- `Close`
unfoldable pub close : Redis → Outcome Redis
close r = elim r.config [
  | none ↦ panic
  | some c ↦
      if not c.enable || not r.has_client
      then ok r
      else if not r.has_lock
      then panic
      else ok (record r { is_close = true })
]

-- `Reload` past its `Close`.
unfoldable pub load : Option RedisConfig → Redis → Redis
load none r = record r { config = none; has_client = false }
load (some c) r =
    if not c.enable
    then record r { config = some c }
    else record r { config = some c; has_client = true }

-- `Reload`
unfoldable pub reload : Option RedisConfig → Redis → Outcome Redis
unfolding close load
reload answer r = close r >>= λ s. ok (load answer s)
