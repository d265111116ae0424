-- ===== src/Client/Messages.antt =====
-- `onMessage` of src/library/client/tcp.go.
use wing_binlog_go.Prelude.{
  ℕ, zero, suc, ◌+◌, not, List, [], ◌∷◌, ◌++◌, Outcome, ok, ◌>>=◌, slice, Bytes, length, drop, ltb,
  ◌==◌, if◌then◌else◌,
}
use wing_binlog_go.Wire.{read_length, read_cmd}
use wing_binlog_go.Stream.{Round, stop, again, drain}
use wing_binlog_go.Client.{Client, cmd_event, has_cmd}

module _ {D : Type 0} where
  -- The calls of the first `k` callbacks.
  unfoldable pub call_each : ℕ → D → List (ℕ × D)
  call_each zero d = []
  call_each (suc k) d = call_each k d ++ (k, d) ∷ []

  module _ (unmarshal : Bytes → D) where
    -- The case CMD_EVENT. `unmarshal` is `json.Unmarshal` into an empty map, its error ignored.
    unfoldable pub deliver : Bytes → Client D → Client D
    unfolding call_each
    deliver content c = record c {
      times = suc c.times;
      delivered = c.delivered ++ call_each c.onevent (unmarshal content);
    }

    -- A frame that is there whole, past the checks of the loop.
    unfoldable pub take_frame : ℕ → ℕ → Client D → Outcome (Round (Client D))
    unfolding deliver
    take_frame content_len cmd c = do
      content ← slice c.buffer 6 (4 + content_len)
      let handled = if cmd == cmd_event then deliver content c else c
      ok (again (record handled { buffer = drop (content_len + 4) handled.buffer }))

    -- One round of the loop of `onMessage`.
    unfoldable pub round : Client D → Outcome (Round (Client D))
    unfolding take_frame has_cmd
    round c = if ltb (length c.buffer) 6 then ok (stop c) else do
      content_len ← read_length c.buffer
      cmd ← read_cmd c.buffer
      if not (has_cmd cmd)
          then ok (stop (record c { buffer = [] }))
          else if ltb (length c.buffer) (4 + content_len)
          then ok (stop c)
          else take_frame content_len cmd c

    -- `onMessage`, with a round of fuel for each byte and one more.
    unfoldable pub on_message : Bytes → Client D → Outcome (Client D)
    unfolding round drain
    on_message msg c =
        drain round (suc (length (c.buffer ++ msg))) (record c { buffer = c.buffer ++ msg })
