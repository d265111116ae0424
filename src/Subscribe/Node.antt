-- ===== src/Subscribe/Node.antt =====
-- src/services/subscribe/node.go, config.go and util.go: one connected subscriber.
-- A bit of `status` is a Bool. The lock makes each operation one step. `strings.ToLower` is the
-- parameter `to_lower`.
pub mod Frames
pub mod Topics
pub mod Queue
pub mod Loop
pub mod Life
use wing_binlog_go.Prelude.{
  ℕ, suc, ◌+◌, ◌-◌, ◌≡◌, Bool, true, false, not, ◌&&◌, ◌||◌, List, [], ◌∷◌, ◌++◌, Outcome, ok,
  panic, spins, ◌>>=◌, index, slice, Bytes, text, decimal, bytes_eq, length, drop, ltb, leb, ◌==◌,
  if◌then◌else◌,
}
use wing_binlog_go.Wire.{pack, read_length, read_cmd}
use wing_binlog_go.Stream.{Round, stop, again, drain}
use mathlib.Core.List.{reverse}

abbrev pub cmd_set_pro : ℕ
cmd_set_pro = 0

abbrev pub cmd_auth : ℕ
cmd_auth = 1

abbrev pub cmd_error : ℕ
cmd_error = 2

abbrev pub cmd_tick : ℕ
cmd_tick = 3

abbrev pub cmd_event : ℕ
cmd_event = 4

abbrev pub cmd_agent : ℕ
cmd_agent = 5

abbrev pub cmd_stop : ℕ
cmd_stop = 6

abbrev pub cmd_reload : ℕ
cmd_reload = 7

abbrev pub cmd_show_members : ℕ
cmd_show_members = 8

abbrev pub cmd_pos : ℕ
cmd_pos = 9

abbrev pub flag_set_pro : ℕ
flag_set_pro = 0

abbrev pub flag_ping : ℕ
flag_ping = 1

abbrev pub tcp_max_send_queue : ℕ
tcp_max_send_queue = 10000

unfoldable pub has_cmd : ℕ → Bool
has_cmd cmd =
    (cmd == cmd_set_pro)
    || (cmd == cmd_auth)
    || (cmd == cmd_error)
    || (cmd == cmd_tick)
    || (cmd == cmd_event)
    || (cmd == cmd_agent)
    || (cmd == cmd_stop)
    || (cmd == cmd_reload)
    || (cmd == cmd_show_members)
    || (cmd == cmd_pos)

unfoldable pub pack_data_tick_ok : Bytes
unfolding pack
pack_data_tick_ok = pack cmd_tick (text "ok")

unfoldable pub pack_data_set_pro : Bytes
unfolding pack
pack_data_set_pro = pack cmd_set_pro (text "ok")

-- `tcpClientNode`. `out` is what was written to the connection, oldest first; `removals` counts the
-- calls of the `onclose` functions.
pub record Node : Type 0 where
  pub online : Bool
  pub topics : List Bytes
  pub recv_buf : Bytes
  pub send_queue : List Bytes
  pub queue_closed : Bool
  pub conn_closed : Bool
  pub send_failure_times : ℕ
  pub out : List Bytes
  pub removals : ℕ

unfoldable pub new_node : Node
new_node = record {
  online = true;
  topics = [];
  recv_buf = [];
  send_queue = [];
  queue_closed = false;
  conn_closed = false;
  send_failure_times = 0;
  out = [];
  removals = 0;
}

trim_left : Bytes → Bytes
trim_left [] = []
trim_left (b ∷ s) = elim (b == b' ') [ true ↦ trim_left s | false ↦ b ∷ s ]

-- `strings.Trim(s, " ")`
unfoldable pub trim : Bytes → Bytes
unfolding trim_left
trim s = reverse (trim_left (reverse (trim_left s)))

unfoldable pub contains : Bytes → List Bytes → Bool
contains topic [] = false
contains topic (v ∷ topics) = elim (bytes_eq v topic) [
  | true ↦ true
  | false ↦ contains topic topics
]

unfoldable pub close : Node → Node
close n = if not n.online then n else record n {
  online = false;
  conn_closed = true;
  queue_closed = true;
  removals = suc n.removals;
}

-- `send`: a write to the connection, past the queue. On a closed one it fails, and no caller looks.
unfoldable pub send : Bytes → Node → Node
send msg n = if n.conn_closed then n else record n { out = n.out ++ msg ∷ [] }

-- `node.sendQueue <- data` behind the wait for room. A send to a closed channel panics.
unfoldable pub push_queue : Bytes → Node → Outcome Node
push_queue msg n =
    if ltb (length n.send_queue) tcp_max_send_queue
    then (if n.queue_closed then panic else ok (record n { send_queue = n.send_queue ++ msg ∷ [] }))
    else spins

unfoldable pub async_send : Bytes → Node → Outcome Node
unfolding push_queue
async_send msg n = if not n.online then ok n else push_queue msg n

unfoldable pub unsupported : ℕ → Bytes
unfolding pack decimal
unsupported cmd = pack cmd_error (text "tcp service does not support cmd: " ++ decimal cmd)

module _ (to_lower : Bytes → Bytes) where
  unfoldable pub add_topic : Bytes → Node → Node
  add_topic raw n =
      let topic = to_lower (trim raw) in
      if contains topic n.topics then n else record n { topics = n.topics ++ topic ∷ [] }

  unfoldable pub on_set_pro : Bytes → Node → Node
  unfolding add_topic send
  on_set_pro group_name n = add_topic group_name (send pack_data_set_pro n)

  unfoldable pub on_set_pro_event : Bytes → Node → Outcome Node
  unfolding on_set_pro send close
  on_set_pro_event content n = do
    flag ← index content 0
    rest ← slice content 1 (length content)
    if flag == flag_set_pro
        then ok (on_set_pro rest n)
        else if flag == flag_ping
        then ok (close (send pack_data_set_pro n))
        else ok (close n)

  -- The switch over the command. A command that is not served empties the buffer and ends the read.
  unfoldable pub dispatch : ℕ → ℕ → Bytes → Node → Outcome (Round Node)
  unfolding on_set_pro_event async_send unsupported
  dispatch clen cmd content n =
      if cmd == cmd_set_pro
      then (on_set_pro_event content n >>= λ m.
          ok (again (record m { recv_buf = drop (clen + 4) m.recv_buf })))
      else if cmd == cmd_tick
      then (async_send pack_data_tick_ok n >>= λ m.
          ok (again (record m { recv_buf = drop (clen + 4) m.recv_buf })))
      else (async_send (unsupported cmd) n >>= λ m. ok (stop (record m { recv_buf = [] })))

  -- One round of the loop of `onMessage`.
  unfoldable pub round : Node → Outcome (Round Node)
  round n = if ltb (length n.recv_buf) 6 then ok (stop n) else do
    clen ← read_length n.recv_buf
    if ltb (length n.recv_buf) (clen + 4) then ok (stop n) else do
      cmd ← read_cmd n.recv_buf
      if not (has_cmd cmd)
          then ok (stop (record n { recv_buf = [] }))
          else do content ← slice n.recv_buf 6 (clen + 4); dispatch clen cmd content n

  -- `onMessage`. A round that goes on takes six bytes at least off the buffer.
  unfoldable pub on_message : Bytes → Node → Outcome Node
  unfolding round drain
  on_message msg n =
      drain round (suc (length (n.recv_buf ++ msg))) (record n { recv_buf = n.recv_buf ++ msg })

-- What `asyncSendService` finds in its select: a message of the queue, whose write succeeds or fails,
-- a closed queue, or the end of the context.
pub data Selected : Type 0 where
  message : Bool → Selected
  closed_queue : Selected
  context_done : Selected

unfoldable pub take_message : Bool → List Bytes → Node → Round Node
take_message written [] n = again n
take_message true (msg ∷ rest) n = again (record n { send_queue = rest; out = n.out ++ msg ∷ [] })
take_message false (msg ∷ rest) n =
    stop (close (record n { send_queue = rest; send_failure_times = suc n.send_failure_times }))

-- One round of the loop of `asyncSendService`.
unfoldable pub send_round : Selected → Node → Round Node
unfolding take_message close
send_round sel n = if not n.online then stop n else elim sel [
  | message written ↦ take_message written n.send_queue n
  | closed_queue ↦ stop n
  | context_done ↦ if length n.send_queue == 0 then stop n else again n
]
