-- ===== src/App/Exit.antt =====
-- The end of `main` in src/wing-binlog-go/main.go: the wait for the context, and the closes behind it.
use wing_binlog_go.Prelude.{
  ℕ, zero, suc, ◌≡◌, refl, Bool, true, false, List, [], ◌∷◌, Outcome, ok, spins, ◌>>=◌, Bytes,
  bytes_eq, if◌then◌else◌,
}
use wing_binlog_go.Subscribe.Server
use wing_binlog_go.Binlog.Control.{Service}
use wing_binlog_go.Binlog.Control
use wing_binlog_go.Plugins.Redis
use wing_binlog_go.Plugins.Kafka
use wing_binlog_go.Agent
use wing_binlog_go.Agent.{TcpService}
use wing_binlog_go.App.{Parts, http_name, redis_name, kafka_name, subscribe_name}

-- The program while `main` waits: the cluster with the services behind it, how many callers stand in the
-- send of `Stop` or of the signal handler, and what the closes undo.
pub record Program : Type 0 where
  pub agent : TcpService Parts
  pub senders : ℕ
  pub is_cancelled : Bool
  pub control_open : Bool
  pub has_pid_file : Bool

-- `Close` of the service with a name. That of HTTP changes nothing: it waits for its goroutines.
unfoldable pub close_service : Bytes → Parts → Outcome Parts
close_service name p =
    if bytes_eq name redis_name
    then (Redis.close p.redis >>= λ r. ok (record p { redis = r }))
    else if bytes_eq name kafka_name
    then (Kafka.close p.kafka >>= λ k. ok (record p { kafka = k }))
    else if bytes_eq name subscribe_name
    then ok (record p { subscribe = Server.close p.subscribe })
    else ok p

unfoldable pub close_services : List Bytes → Parts → Outcome Parts
unfolding close_service
close_services [] p = ok p
close_services (name ∷ names) p = close_service name p >>= λ q. close_services names q

-- `blog.Close()`, up to the wait for the goroutines: the stop signal, then the services.
unfoldable pub close_binlog : Parts → Outcome Parts
unfolding close_services
close_binlog p =
    if p.service.binlog.is_exit
    then ok p
    else close_services p.service.binlog.services (record p { service = Control.close p.service })

-- A caller of `Stop`, or the signal handler, begins to send on the channel.
unfoldable pub asks : Program → Program
asks p = record p { senders = suc p.senders }

-- What `main` does once it has received: `Cancel`, the close of the binlog, then the deferred closes of
-- the control service and of the cluster, and `Release`. One sender gets through.
unfoldable pub exits : Program → Outcome Program
unfolding close_binlog
exits p = elim p.senders [
  | zero ↦ spins
  | suc others ↦
      (close_binlog p.agent.world >>= λ w. ok (record p {
        agent = Agent.close (record p.agent { world = w });
        senders = others;
        is_cancelled = true;
        control_open = false;
        has_pid_file = false;
      }))
]

-- An exit closes everything: the four services that main registers, the binlog with its stop signal, the
-- cluster and the control service; and the pid file goes. One caller of `Stop` gets through, the others
-- stay where they are. The program is not exiting already, and Redis and Kafka can be closed.
exits-closed :
    (p : Program) (others : ℕ) (r : Redis.Redis) (k : Kafka.Producer)
    → p.senders ≡ suc others
    → p.agent.world.service.binlog.is_exit ≡ false
    → p.agent.world.service.binlog.services
      ≡ http_name ∷ redis_name ∷ kafka_name ∷ subscribe_name ∷ []
    → Redis.close p.agent.world.redis ≡ ok r
    → Kafka.close p.agent.world.kafka ≡ ok k
    → exits p
      ≡ ok (record {
        agent = Agent.close (record p.agent {
          world = record p.agent.world {
            service = Control.close p.agent.world.service;
            redis = r;
            kafka = k;
            subscribe = Server.close p.agent.world.subscribe;
          };
        });
        senders = others;
        is_cancelled = true;
        control_open = false;
        has_pid_file = false;
      })
unfolding exits close_binlog close_services close_service
exits-closed p others r k waits runs four redis kafka = rw (waits, runs, four, redis, kafka) refl
