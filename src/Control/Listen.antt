-- ===== src/Control/Listen.antt =====
-- src/library/control/control.go: the service that accepts the connections of the command line.
use wing_binlog_go.Prelude.{Bool, false, Bytes}
use wing_binlog_go.Control.{Callbacks}

-- `TcpService`: its address, its token and its callbacks, and whether its listener is open.
pub record TcpService (S : Type 0) : Type 0 where
  pub address : Bytes
  pub token : Bytes
  pub callbacks : Callbacks S
  pub listening : Bool

-- `NewControl` with its three options; the token is the answer of `GetKey`.
unfoldable pub new_control : {S : Type 0} → Bytes → Bytes → Callbacks S → TcpService S
new_control address token callbacks = record {
  address = address;
  token = token;
  callbacks = callbacks;
  listening = false;
}

-- `Start`, by whether the listener opens.
unfoldable pub start : {S : Type 0} → Bool → TcpService S → TcpService S
start listens t = record t { listening = listens }

-- `Close`
unfoldable pub close : {S : Type 0} → TcpService S → TcpService S
close t = record t { listening = false }
