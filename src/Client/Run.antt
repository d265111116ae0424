-- ===== src/Client/Run.antt =====
-- The goroutine of `start` in src/library/client/tcp.go: the loop over the servers and the loop that
-- reads one connection, with the `Close` of the caller in between.
pub mod Sessions
pub mod Closed
use wing_binlog_go.Prelude.{
  Bool, true, false, Option, none, some, List, [], ◌∷◌, Outcome, ok, ◌>>=◌, Bytes, if◌then◌else◌,
}
use wing_binlog_go.Client.{Client, Dial, connect, disconnect, close}
use wing_binlog_go.Client.Messages.{on_message}

-- What one call of `Read` comes to: bytes, or an error; or the caller's `Close` comes while it waits,
-- and the read of the closed connection fails; or bytes, and `Close` comes while they are handled. Here a
-- `Close` has set the status before the goroutine goes on; it leaves the lock before that, so that the
-- goroutine can also dial again first.
pub data Read : Type 0 where
  arrives : Bytes → Read
  fails : Read
  closed_waiting : Read
  closed_handling : Bytes → Read

-- How the loop stands: the goroutine has returned, the server was marked offline, there was no
-- connection, or the loop waits in its next read.
pub data Left : Type 0 where
  returned : Left
  broken : Left
  unconnected : Left
  waits : Left

-- Whether the outer loop asks for the next server.
pub goes_on : Left → Bool
goes_on returned = false
goes_on broken = true
goes_on unconnected = true
goes_on waits = false

-- `client.node == nil || client.node.conn == nil || client.node.status & nodeOffline > 0`
unfoldable pub is_unconnected : {D : Type 0} → Client D → Bool
is_unconnected c = elim c.node [
  | none ↦ true
  | some n ↦ elim n.conn [ none ↦ true | some k ↦ n.node_offline ]
]

module _ {D : Type 0} (unmarshal : Bytes → D) where
  -- The inner loop of `start`, by what its reads come to.
  unfoldable pub read_loop : List Read → Client D → Outcome (Left × Client D)
  read_loop [] c = if c.client_offline then ok (returned, c) else ok (waits, c)
  read_loop (arrives m ∷ rs) c =
      if c.client_offline
      then ok (returned, c)
      else (on_message unmarshal m c >>= λ d. read_loop rs d)
  read_loop (fails ∷ rs) c =
      if c.client_offline then ok (returned, c) else (disconnect c >>= λ d. ok (broken, d))
  read_loop (closed_waiting ∷ rs) c =
      if c.client_offline
      then ok (returned, c)
      else (close c >>= λ d. disconnect d >>= λ e. ok (broken, e))
  read_loop (closed_handling m ∷ rs) c =
      if c.client_offline
      then ok (returned, c)
      else (on_message unmarshal m c >>= λ d. close d >>= λ e. read_loop rs e)

  -- One round of the outer loop with a server that `getServer` answers.
  unfoldable pub visit : Dial × List Read → Client D → Outcome (Left × Client D)
  unfolding is_unconnected read_loop
  visit (dial, rs) c = connect dial c >>= λ d.
      if is_unconnected d
      then ok (unconnected, d)
      else if d.client_offline
      then ok (returned, d)
      else read_loop rs d

  -- `start`, by the rounds in which `getServer` answers a server. While it answers none the loop sleeps.
  unfoldable pub start : List (Dial × List Read) → Client D → Outcome (Left × Client D)
  unfolding visit goes_on
  start [] c = ok (waits, c)
  start (v ∷ vs) c = visit v c >>= λ (l, d). if goes_on l then start vs d else ok (l, d)
