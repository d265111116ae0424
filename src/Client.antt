-- ===== src/Client.antt =====
-- src/library/client/tcp.go: the client of the subscribe service. The goroutine of `start`, the one of
-- `keepalive` and the caller's `Subscribe` and `Close` are operations on one state. The log lines and
-- the rate that they print are left out.
pub mod Pack
pub mod Messages
pub mod Frames
pub mod Life
pub mod Servers
pub mod Watch
pub mod Run
pub mod Options
use wing_binlog_go.Prelude.{
  ℕ, zero, suc, ◌+◌, ◌<◌, Bool, true, false, not, ◌&&◌, ◌||◌, Option, none, some, List, [], ◌∷◌,
  ◌++◌, Outcome, ok, panic, ◌>>=◌, index, slice, Bytes, byte_at, bytes_eq, length, drop, ltb, ◌==◌,
  if◌then◌else◌,
}
use wing_binlog_go.Wire.{read_length, read_cmd}
use wing_binlog_go.Stream.{Round, stop, again, drain}

abbrev pub cmd_set_pro : ℕ
cmd_set_pro = 0

abbrev pub cmd_tick : ℕ
cmd_tick = 3

abbrev pub cmd_event : ℕ
cmd_event = 4

-- `hasCmd`: the commands are numbered from CMD_SET_PRO to CMD_POS.
unfoldable pub has_cmd : ℕ → Bool
has_cmd cmd =
    cmd == 0
    || (cmd == 1
        || (cmd == 2
            || (cmd == 3
                || (cmd == 4 || (cmd == 5 || (cmd == 6 || (cmd == 7 || (cmd == 8 || cmd == 9))))))))

-- A connection: whether it was closed, and what was written to it.
pub record Conn : Type 0 where
  pub is_closed : Bool
  pub sent : List Bytes

-- `Node`: the two bits of its status, and `conn`, which is nil when the dial failed.
pub record Node : Type 0 where
  pub conn : Option Conn
  pub node_offline : Bool
  pub node_online : Bool

-- `Client`: the two bits of its status; `delivered` is what the callbacks were called with, by the
-- place of the callback, oldest first.
pub record Client (D : Type 0) : Type 0 where
  pub node : Option Node
  pub buffer : Bytes
  pub times : ℕ
  pub client_offline : Bool
  pub client_online : Bool
  pub onevent : ℕ
  pub topics : List Bytes
  pub delivered : List (ℕ × D)

-- `NewClient` before `start`, with the number of callbacks.
unfoldable pub new_client : {D : Type 0} → ℕ → Client D
new_client onevent = record {
  node = none;
  buffer = [];
  times = 0;
  client_offline = true;
  client_online = false;
  onevent = onevent;
  topics = [];
  delivered = [];
}

-- `pack`. The fourth byte of the length is shifted by 32.
unfoldable pub pack : ℕ → Bytes → Bytes
pack cmd content =
    let l = length content + 2 in
    byte_at l 0
    ∷ byte_at l 8
    ∷ byte_at l 16
    ∷ byte_at l 32
    ∷ byte_at cmd 0
    ∷ byte_at cmd 8
    ∷ content

-- `setPro`
unfoldable pub set_pro : Bytes → Bytes
set_pro content =
    let l = length content + 3 in
    byte_at l 0
    ∷ byte_at l 8
    ∷ byte_at l 16
    ∷ byte_at l 32
    ∷ byte_at cmd_set_pro 0
    ∷ byte_at cmd_set_pro 8
    ∷ 0
    ∷ content

-- `conn.Write`: nothing is sent once the connection is closed, and a nil connection is a panic.
unfoldable pub write : Bytes → Node → Outcome Node
write bytes n = elim n.conn [
  | none ↦ panic
  | some c ↦ ok (
      if c.is_closed
      then n
      else record n { conn = some (record c { sent = c.sent ++ bytes ∷ [] }) })
]

write_all : List Bytes → Node → Outcome Node
unfolding write
write_all [] n = ok n
write_all (t ∷ topics) n = write (set_pro t) n >>= λ m. write_all topics m

contains : Bytes → List Bytes → Bool
contains t [] = false
contains t (s ∷ topics) = if bytes_eq s t then true else contains t topics

close_conn : Node → Outcome Node
close_conn n = elim n.conn [
  | none ↦ panic
  | some k ↦ ok (record n { conn = some (record k { is_closed = true }) })
]

-- `nodeOnline` off and `nodeOffline` on, when it was online.
set_offline : Node → Node
set_offline n = if n.node_online then record n { node_online = false; node_offline = true } else n

module _ {D : Type 0} where
  subscribe_loop : List Bytes → Node → Client D → Outcome (Client D)
  unfolding contains write
  subscribe_loop [] n c = ok (record c { node = some n })
  subscribe_loop (t ∷ topics) n c =
      let rest = write (set_pro t) n >>= λ m.
      subscribe_loop topics m (record c { topics = c.topics ++ t ∷ [] }) in
      let skipped = subscribe_loop topics n c in if contains t c.topics then skipped else rest

  -- `Subscribe`
  unfoldable pub subscribe : List Bytes → Client D → Outcome (Client D)
  unfolding subscribe_loop
  subscribe topics c = elim c.node [ none ↦ ok c | some n ↦ subscribe_loop topics n c ]

  -- `disconnect`
  unfoldable pub disconnect : Client D → Outcome (Client D)
  unfolding close_conn set_offline
  disconnect c = elim c.node [
    | none ↦ ok c
    | some n ↦
        if n.node_offline
        then ok c
        else (close_conn n >>= λ m. ok (record c { node = some (set_offline m) }))
  ]

  -- The second part of `Close`, under the lock.
  unfoldable pub go_offline : Client D → Client D
  go_offline c =
      if c.client_online then record c { client_online = false; client_offline = true } else c

  -- `Close`: the connection, and, once the lock was free in between, the status.
  unfoldable pub close : Client D → Outcome (Client D)
  unfolding disconnect go_offline
  close c = if c.client_offline then ok c else (disconnect c >>= λ d. ok (go_offline d))

  is_online : Client D → Bool
  is_online c = elim c.node [ none ↦ false | some n ↦ n.node_online ]

-- What dialling a server comes to.
pub data Dial : Type 0 where
  resolve_error : Dial
  dial_error : Dial
  dialled : Dial

module _ {D : Type 0} where
  abbrev set_client_online : Client D → Client D
  set_client_online c =
      if c.client_offline then record c { client_offline = false; client_online = true } else c

  -- `connect`, once an online node is disconnected.
  unfoldable pub connect_to : Dial → Client D → Outcome (Client D)
  unfolding write_all
  connect_to resolve_error c = ok c
  connect_to dial_error c =
      ok (record c {
        node = some (record { conn = none; node_offline = true; node_online = false });
      })
  connect_to dialled c = do
    let opened : Node = record {
      conn = some (record { is_closed = false; sent = [] });
      node_offline = false;
      node_online = true;
    }
    n ← write_all c.topics opened
    ok (record (set_client_online c) { node = some n })

  -- `connect`
  unfoldable pub connect : Dial → Client D → Outcome (Client D)
  unfolding is_online disconnect
  connect dial c =
      if is_online c then (disconnect c >>= λ d. connect_to dial d) else connect_to dial c

  -- One round of `keepalive`. `fails` says that the write returns an error.
  unfoldable pub keepalive_round : Bool → Client D → Outcome (Client D)
  unfolding write disconnect
  keepalive_round fails c = elim c.node [
    | none ↦ ok c
    | some n ↦ elim n.conn [
      | none ↦ ok c
      | some k ↦
          if not n.node_online
          then ok c
          else if fails
          then disconnect c
          else (write (pack cmd_tick []) n >>= λ m. ok (record c { node = some m }))
    ]
  ]
