-- ===== src/Subscribe/Registry.antt =====
-- src/services/subscribe/service.go: the service in consul, and `getConnects` of
-- src/library/client/watcher.go, which reads what it publishes.
-- Consul is known by the calls that it gets, in their order, and its answers are arguments: an error
-- is `false`. The intervals are in seconds.
pub mod Published
use wing_binlog_go.Prelude.{
  ℕ, ◌*◌, Bool, true, false, not, ◌&&◌, Option, none, some, List, [], ◌∷◌, ◌++◌, Outcome, ok, panic,
  ◌>>=◌, Bytes, text, bytes_eq, byte_at, decimal, if◌then◌else◌,
}
use wing_binlog_go.Binlog.Position.{read_int64}

abbrev pub service_name : Bytes
service_name = text "wing-binlog-go-subscribe"

-- `AgentServiceRegistration`
pub record Registration : Type 0 where
  pub id : Bytes
  pub name : Bytes
  pub address : Bytes
  pub port : ℕ
  pub tags : List Bytes

-- A call of the consul client.
pub data Call : Type 0 where
  create_session : Bytes → Call
  renew : Call
  put : Bytes → Bytes → Call
  update_ttl : Bytes → Call
  service_register : Registration → Call
  check_register : Bytes → Bytes → Call
  service_deregister : Bytes → Call
  check_deregister : Bytes → Call

-- `Service`; `calls` are the calls of consul, oldest first.
pub record Service : Type 0 where
  pub service_host : Bytes
  pub service_ip : Bytes
  pub service_port : ℕ
  pub interval : ℕ
  pub ttl : ℕ
  pub service_id : Bytes
  pub registered : Bool
  pub connects : ℕ
  pub calls : List Call

-- The options `Ttl`, `Interval` and `ServiceIp`.
pub data ServiceOption : Type 0 where
  with_ttl : ℕ → ServiceOption
  with_interval : ℕ → ServiceOption
  with_service_ip : Bytes → ServiceOption

unfoldable pub set_option : ServiceOption → Service → Service
set_option (with_ttl ttl) s = record s { ttl = ttl }
set_option (with_interval interval) s = record s { interval = interval }
set_option (with_service_ip ip) s = record s { service_ip = ip }

unfoldable pub set_options : List ServiceOption → Service → Service
set_options [] s = s
set_options (o ∷ os) s = set_options os (set_option o s)

abbrev pub any_host : Bytes
any_host = text "0.0.0.0"

-- `fmt.Sprintf("%s-%s-%d", ServiceName, ip, port)`
unfoldable pub id_of : Bytes → ℕ → Bytes
id_of ip port = service_name ++ (text "-" ++ (ip ++ (text "-" ++ decimal port)))

-- The end of `NewService`: the id. `host` is the argument of `NewService`.
unfoldable pub identify : Bytes → Service → Outcome Service
unfolding id_of
identify host s =
    if bytes_eq host any_host
    then if bytes_eq s.service_ip []
      then panic
      else ok (record s { service_id = id_of s.service_ip s.service_port })
    else ok (record s { service_id = id_of host s.service_port })

-- The `Service` that `NewService` makes before its options.
unfoldable pub initial : Bytes → ℕ → Service
initial host port = record {
  service_host = host;
  service_ip = [];
  service_port = port;
  interval = 10;
  ttl = 15;
  service_id = [];
  registered = false;
  connects = 0;
  calls = [];
}

-- `NewService`, before its goroutine starts. No option changes the port.
unfoldable pub new_service : Bytes → ℕ → List ServiceOption → Outcome Service
unfolding set_options identify initial
new_service host port opts = identify host (set_options opts (initial host port))

-- `ip` of `updateTtl` and `Register`.
unfoldable pub address : Service → Bytes
address s =
    if bytes_eq s.service_host any_host && not (bytes_eq s.service_ip [])
    then s.service_ip
    else s.service_host

-- `fmt.Sprintf("connects/%v/%v", ip, port)`, in `updateTtl` and in `getConnects`.
unfoldable pub connects_key : Bytes → ℕ → Bytes
connects_key ip port = text "connects/" ++ (ip ++ (text "/" ++ decimal port))

-- `binary.LittleEndian.PutUint64`
unfoldable pub put_uint64 : ℕ → Bytes
put_uint64 n =
    byte_at n 0
    ∷ byte_at n 8
    ∷ byte_at n 16
    ∷ byte_at n 24
    ∷ byte_at n 32
    ∷ byte_at n 40
    ∷ byte_at n 48
    ∷ byte_at n 56
    ∷ []

abbrev called : List Call → Service → Service
called cs s = record s { calls = s.calls ++ cs }

-- `updateTtl` before its loop. Without a session it panics.
unfoldable pub open_session : Bool → Service → Outcome Service
open_session created s =
    let asked = called (create_session (decimal (s.interval * 3) ++ text "s") ∷ []) s in
    if created then ok asked else panic

-- One round of the loop of `updateTtl`; it only logs errors.
unfoldable pub update_round : Service → Service
unfolding put_uint64 connects_key address
update_round s =
    called
      (renew
        ∷ put (connects_key (address s) s.service_port) (put_uint64 s.connects)
        ∷ (if s.registered then update_ttl s.service_id ∷ [] else []))
      s

unfoldable pub registration : Bytes → Service → Registration
unfolding address
registration hostname s = record {
  id = s.service_id;
  name = service_name;
  address = address s;
  port = s.service_port;
  tags = hostname ∷ [];
}

-- `Register`, with the answers of consul; whether it returns no error.
unfoldable pub register : Bytes → Bool → Bool → Service → Bool × Service
unfolding registration
register hostname service_ok check_ok s =
    let asked =
      called (service_register (registration hostname s) ∷ []) (record s { registered = true }) in
    if not service_ok
    then (false, asked)
    else (check_ok, called (check_register s.service_id (decimal s.ttl ++ text "s") ∷ []) asked)

-- `Deregister`, which `Close` calls.
unfoldable pub deregister : Bool → Bool → Service → Bool × Service
deregister service_ok check_ok s =
    let asked = called (service_deregister s.service_id ∷ []) s in
    if not service_ok
    then (false, asked)
    else (check_ok, called (check_deregister s.service_id ∷ []) asked)

-- What the query of a key answers: an error, no pair, or a pair.
pub data Answer : Type 0 where
  failed : Answer
  missing : Answer
  pair : Bytes → Answer

unfoldable pub read_answer : Answer → Outcome ℕ
read_answer failed = ok 0
read_answer missing = panic
read_answer (pair value) = read_int64 value 0

-- `getConnects` of the client. The pair of a missing key is a nil pointer, and `Uint64` needs eight
-- bytes.
unfoldable pub get_connects : (Bytes → Answer) → Bytes → ℕ → Outcome ℕ
unfolding connects_key read_answer
get_connects get ip port = read_answer (get (connects_key ip port))
