-- ===== src/Examples/Plugins.antt =====
-- The plugins of src/services on concrete configs.
use wing_binlog_go.Prelude.{
  ℕ, zero, suc, ◌≤◌, ◌≡◌, refl, Bool, true, Option, some, List, [], ◌∷◌, map, ok, spins, ◌>>=◌,
  Bytes, text, bytes_eq, length, inl, arith,
}
use wing_binlog_go.Plugins.Redis.{RedisConfig}
use wing_binlog_go.Plugins.Kafka.{KafkaConfig}
use wing_binlog_go.Plugins.Http
use wing_binlog_go.Plugins.Http.{
  HttpNodeConfig, HttpGroup, HttpService, new_http_service, new_http_group, new_http_node, add_all,
  add,
}
use wing_binlog_go.Plugins.Http.Send.{told, send_all-told}
use wing_binlog_go.Plugins.Http.Workers.{Pool, takes, posts, pick, leaves, wait_returns}
use wing_binlog_go.Plugins.Http.Workers.Held.{Works, rests, then_takes, then_posts, then_leaves}
use wing_binlog_go.Plugins.Http.Workers.Wait.{steps, work, wait-ends}
use wing_binlog_go.Plugins.Http.Starved.{send_each, reload-starves}
use wing_binlog_go.Wire.Filter.{match_filters}

abbrev exactly : Bytes → Bytes → Option Bool
exactly f table = some (bytes_eq f table)

abbrev redis_config : Bool → RedisConfig
redis_config enable = record {
  enable = enable;
  filter = text "test.user" ∷ [];
  queue = text "rows";
}

abbrev kafka_config : Bool → KafkaConfig
kafka_config enable = record {
  config_enable = enable;
  config_topic = text "rows";
  config_filter = [];
}

abbrev http_config : HttpNodeConfig
http_config = record {
  config_name = text "all";
  config_filter = text "test.user" ∷ [];
  config_nodes = text "http://a" ∷ text "http://b" ∷ [];
}

send_all-told_example :
    Http.send_all exactly (text "test.user") (text "row") (new_http_service true (http_config ∷ []))
    ≡ ok (
      true,
      record (new_http_service true (http_config ∷ [])) {
        groups =
            map
              (told exactly (text "test.user") (text "row"))
              (new_http_service true (http_config ∷ [])).groups;
      },
    )
unfolding new_http_service add_all add new_http_group new_http_node
send_all-told_example =
    send_all-told exactly (text "test.user") (text "row") (new_http_service true (http_config ∷ []))
      refl ((omega arith, (omega arith, tt)), tt)

-- Two goroutines, one of which posts, and two messages that wait.
abbrev posting : Pool
posting = record {
  node = record { url = text "http://a"; send_queue = text "b" ∷ text "c" ∷ []; posted = [] };
  spawned = 0;
  idle = 1;
  busy = text "a" ∷ [];
  left = 0;
  is_done = true;
}

-- The one that waits takes a message and posts it while the other posts on; then both leave.
all_posted : (q : Pool) × Works posting q × (wait_returns q ≡ true)
unfolding takes posts leaves pick wait_returns
all_posted = (
  _,
  then_takes
      {q = record posting {
        node = record posting.node { send_queue = text "c" ∷ [] };
        idle = 0;
        busy = text "b" ∷ text "a" ∷ [];
      }}
      refl
      (then_posts
        {q = record posting {
          node = record posting.node { send_queue = text "c" ∷ []; posted = text "a" ∷ [] };
          idle = 1;
          busy = text "b" ∷ [];
        }}
        1 refl
        (then_takes
          {q = record posting {
            node = record posting.node { send_queue = []; posted = text "a" ∷ [] };
            idle = 0;
            busy = text "c" ∷ text "b" ∷ [];
          }}
          refl
          (then_posts
            {q = record posting {
              node = record posting.node { send_queue = []; posted = text "a" ∷ text "c" ∷ [] };
              idle = 1;
              busy = text "b" ∷ [];
            }}
            0 refl
            (then_leaves
              {q = record posting {
                node = record posting.node { send_queue = []; posted = text "a" ∷ text "c" ∷ [] };
                idle = 0;
                busy = text "b" ∷ [];
                left = 1;
              }}
              refl
              (then_posts
                {q = record posting {
                  node = record posting.node {
                    send_queue = [];
                    posted = text "a" ∷ text "c" ∷ text "b" ∷ [];
                  };
                  idle = 1;
                  busy = [];
                  left = 1;
                }}
                0 refl
                (then_leaves
                  {q = record posting {
                    node = record posting.node {
                      send_queue = [];
                      posted = text "a" ∷ text "c" ∷ text "b" ∷ [];
                    };
                    idle = 0;
                    busy = [];
                    left = 2;
                  }}
                  refl rests)))))),
  refl,
)

wait-ends_example :
    (steps all_posted.1 ≤ work posting)
    × ((r : Pool) × Works all_posted.0 r × (wait_returns r ≡ true))
wait-ends_example = wait-ends all_posted.1 refl

many : ℕ → Bytes → List Bytes
many zero m = []
many (suc k) m = m ∷ many k m

length-many : (k : ℕ) (m : Bytes) → length (many k m) ≡ k
unfolding many
length-many zero m = refl
length-many (suc k) m = omega (arith, length-many k m)

reload-starves_example :
    (Http.reload (some (true, http_config ∷ [])) (new_http_service true [])
      >>= send_each exactly (text "test.user") (many 10001 (text "row")))
    ≡ spins
unfolding new_http_service add_all add new_http_group new_http_node Http.reload match_filters
reload-starves_example =
    reload-starves exactly (text "test.user") (some (true, http_config ∷ []))
      (many 10001 (text "row")) (new_http_service true [])
      (new_http_service true (http_config ∷ [])) refl refl (inl (refl, inl (omega arith)))
      (omega (arith, length-many 10001 (text "row")))
