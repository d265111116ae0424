-- ===== src/Subscribe/Server.antt =====
-- src/services/subscribe/tcp.go: the service around the groups.
-- The lists of callbacks are those that `NewSubscribeService` sets: the methods of one `tcpGroups` and,
-- where consul is on, the counter of service.go. The listener is its being open; whether
-- `net.Listen` succeeds is an argument.
pub mod Reload
use wing_binlog_go.Prelude.{
  ℕ, Bool, true, false, not, ◌&&◌, Option, none, some, List, [], Outcome, ok, ◌>>=◌, Bytes,
  if◌then◌else◌,
}
use wing_binlog_go.Wire.{pack}
use wing_binlog_go.Subscribe.Node.{new_node, cmd_event, pack_data_tick_ok}
use wing_binlog_go.Subscribe.Groups.{Groups, on_connect, close_all, async_send_all}
use wing_binlog_go.Subscribe.Groups

-- `TcpService`: the two bits of `status`, the listener and the groups.
pub record Server : Type 0 where
  pub enabled : Bool
  pub closed : Bool
  pub listening : Bool
  pub groups : Groups

-- `newGroups` and `newSubscribeService`.
unfoldable pub new_subscribe_service : Bool → Bool → Server
new_subscribe_service enable consul = record {
  enabled = enable;
  closed = false;
  listening = false;
  groups = record {
    nodes = λ id. new_node;
    next = 0;
    g = record { live = []; spare = [] };
    registry = if consul then some 0 else none;
  };
}

module _ (match_string : Bytes → Bytes → Option Bool) where
  -- `SendAll`, with its result.
  unfoldable pub send_all : Bytes → Bytes → Server → Outcome (Bool × Server)
  send_all table msg s =
      if not s.enabled
      then ok (false, s)
      else (Groups.send_all match_string table (pack cmd_event msg) s.groups >>= λ gs.
          ok (true, record s { groups = gs }))

-- `SendRaw`
unfoldable pub send_raw : Bytes → Server → Outcome (Bool × Server)
send_raw msg s =
    if not s.enabled
    then ok (false, s)
    else (async_send_all msg s.groups >>= λ gs. ok (true, record s { groups = gs }))

-- `Start`. Where `net.Listen` fails there is no new listener.
unfoldable pub start : Bool → Server → Server
start listens s =
    if not s.enabled
    then s
    else record s { closed = false; listening = if listens then true else s.listening }

-- What one round of the accept loop finds.
pub data Accepted : Type 0 where
  connection : Accepted
  failure : Accepted
  context_done : Accepted

-- One round of the accept loop, and whether the loop goes on.
unfoldable pub accept : Accepted → Server → Bool × Server
accept context_done s = (false, s)
accept connection s =
    if s.closed then (false, s) else (true, record s { groups = on_connect s.groups })
accept failure s = if s.closed then (false, s) else (true, s)

-- `Close`
unfoldable pub close : Server → Server
close s =
    if s.closed
    then s
    else record s { listening = false; groups = close_all s.groups; closed = true }

-- `Reload` with the `enable` of the new configuration.
unfoldable pub reload : Bool → Bool → Server → Server
unfolding close start
reload enable listens s =
    let on = if enable && not s.enabled then true else s.enabled in
    let toggled = record s { enabled = if not enable && on then not on else on } in
    let reloaded = record toggled { groups = Groups.reload s.groups } in
    start listens (close reloaded)

-- One round of `keepalive`, which was started if the service was enabled at first.
unfoldable pub keepalive_round : Server → Outcome Server
keepalive_round s =
    async_send_all pack_data_tick_ok s.groups >>= λ gs. ok (record s { groups = gs })
