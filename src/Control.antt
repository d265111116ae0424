-- ===== src/Control.antt =====
-- src/library/control: the channel by which the command line stops, reloads and inspects the program.
-- The callbacks that main.go sets work on a world `S`, which is the rest of the program; a node is one
-- connection of the command line.
pub mod Frames
pub mod Listen
use wing_binlog_go.Prelude.{
  ℕ, suc, ◌+◌, Bool, true, false, not, ◌||◌, List, [], ◌∷◌, ◌++◌, Outcome, ok, ◌>>=◌, slice, Bytes,
  text, decimal, length, drop, ltb, ◌==◌, if◌then◌else◌,
}
use wing_binlog_go.Wire.{pack, read_length, read_cmd}
use wing_binlog_go.Stream.{Round, stop, again, drain}

abbrev pub cmd_error : ℕ
cmd_error = 0

abbrev pub cmd_tick : ℕ
cmd_tick = 1

abbrev pub cmd_stop : ℕ
cmd_stop = 2

abbrev pub cmd_reload : ℕ
cmd_reload = 3

abbrev pub cmd_show_members : ℕ
cmd_show_members = 4

-- `hasCmd`
unfoldable pub has_cmd : ℕ → Bool
has_cmd cmd =
    cmd == cmd_error
    || (cmd == cmd_tick || (cmd == cmd_stop || (cmd == cmd_reload || cmd == cmd_show_members)))

-- `StopFunc`, `ReloadFunc` and `ShowMemberFunc`.
pub record Callbacks (S : Type 0) : Type 0 where
  pub stop_all : S → Outcome S
  pub reload : Bytes → S → Outcome S
  pub show_member : S → Bytes

-- `TcpClientNode`, with the world that its callbacks work on; `out` is what was written.
pub record TcpClientNode (S : Type 0) : Type 0 where
  pub online : Bool
  pub recv_buf : Bytes
  pub out : List Bytes
  pub world : S

-- `newNode`
unfoldable pub new_node : {S : Type 0} → S → TcpClientNode S
new_node world = record { online = true; recv_buf = []; out = []; world = world }

unfoldable pub pack_data_tick_ok : Bytes
pack_data_tick_ok = pack cmd_tick (text "ok")

unfoldable pub unsupported : ℕ → Bytes
unsupported cmd = pack cmd_error (text "tcp service does not support cmd: " ++ decimal cmd)

module _ {S : Type 0} where
  -- `close`
  unfoldable pub close : TcpClientNode S → TcpClientNode S
  close n = if not n.online then n else record n { online = false }

  -- `send`: an offline node answers `nodeOffline`, which the callers drop.
  unfoldable pub send : Bytes → TcpClientNode S → TcpClientNode S
  send msg n = if not n.online then n else record n { out = n.out ++ msg ∷ [] }

  module _ (cb : Callbacks S) where
    -- A callback that changes the world, and the answer behind it.
    unfoldable pub call : Outcome S → Bytes → TcpClientNode S → Outcome (TcpClientNode S)
    unfolding send
    call done answer n = done >>= λ w. ok (send answer (record n { world = w }))

    -- The cases of the switch of `onMessage` that go on with the loop.
    unfoldable pub serve_cmd : ℕ → Bytes → TcpClientNode S → Outcome (TcpClientNode S)
    unfolding call
    serve_cmd cmd content n =
        if cmd == cmd_tick
        then ok (send pack_data_tick_ok n)
        else if cmd == cmd_stop
        then call (cb.stop_all n.world) (pack cmd_stop (text "ok")) n
        else if cmd == cmd_reload
        then call (cb.reload content n.world) (pack cmd_reload (text "ok")) n
        else ok (send (pack cmd_show_members (cb.show_member n.world)) n)

    -- The switch, and the frame taken off the buffer behind it.
    unfoldable pub dispatch : ℕ → ℕ → Bytes → TcpClientNode S → Outcome (Round (TcpClientNode S))
    dispatch clen cmd content n =
        if cmd == cmd_error
        then ok (stop (record (send (unsupported cmd) n) { recv_buf = [] }))
        else (serve_cmd cmd content n >>= λ m.
            ok (again (record m { recv_buf = drop (clen + 4) m.recv_buf })))

    -- One round of the loop of `onMessage`.
    unfoldable pub round : TcpClientNode S → Outcome (Round (TcpClientNode S))
    unfolding dispatch has_cmd
    round n = if ltb (length n.recv_buf) 6 then ok (stop n) else do
      clen ← read_length n.recv_buf
      if ltb (length n.recv_buf) (clen + 4) then ok (stop n) else do
        cmd ← read_cmd n.recv_buf
        if not (has_cmd cmd)
            then ok (stop (record n { recv_buf = [] }))
            else (slice n.recv_buf 6 (clen + 4) >>= λ content. dispatch clen cmd content n)

    -- `onMessage`, with a round of fuel for each byte and one more.
    unfoldable pub on_message : Bytes → TcpClientNode S → Outcome (TcpClientNode S)
    unfolding round drain
    on_message msg n =
        drain round (suc (length (n.recv_buf ++ msg))) (record n { recv_buf = n.recv_buf ++ msg })

    -- `readMessage`: the chunks `ms` arrive, then a read fails.
    unfoldable pub read_message : List Bytes → TcpClientNode S → Outcome (TcpClientNode S)
    unfolding on_message close
    read_message [] n = ok (close n)
    read_message (m ∷ ms) n = on_message m n >>= λ k. read_message ms k

-- What the command line writes: `Stop`, `Reload` and `ShowMembers` of src/library/control/client.go.
pub data Command : Type 0 where
  stop_command : Command
  reload_command : Bytes → Command
  show_members_command : Command

unfoldable pub client_write : Command → Bytes
client_write stop_command = pack cmd_stop []
client_write (reload_command name) = pack cmd_reload name
client_write show_members_command = pack cmd_show_members []
