-- ===== src/Examples/Subscribe.antt =====
-- A subscriber's node of src/services/subscribe/node.go.
use wing_binlog_go.Prelude.{
  ◌+◌, ◌≡◌, ◌≢◌, refl, ◌&&◌, List, [], ◌∷◌, ◌++◌, map, ok, no_fuel, ◌>>=◌, Bytes, text, arith,
  if◌then◌else◌, leb, take, drop,
}
use wing_binlog_go.Stream.Chunks.{concat}
use wing_binlog_go.Subscribe.Node.{
  Node, new_node, push_queue, on_message, flag_set_pro, async_send, send_round, take_message,
  pack_data_tick_ok,
}
use wing_binlog_go.Wire.{pack}
use wing_binlog_go.Subscribe.Node.Frames.{
  Request, pro, tick, frame, serve_all, stream, on_messages, on_messages-stream,
}
use wing_binlog_go.Subscribe.Node.Queue.{Act, produce, write, act, acts, produced, acts-out}
use wing_binlog_go.Subscribe.Node.Loop.{on_message-ne-no_fuel}

abbrev lower : Bytes → Bytes
lower = map (λ b. if leb 65 b && leb b 90 then b + 32 else b)

abbrev two_requests : List Request
two_requests = pro flag_set_pro (text "Test.User ") ∷ tick [] ∷ []

unfoldable two_requests_bytes : Bytes
unfolding stream frame
two_requests_bytes = stream two_requests

unfoldable three_chunks : List Bytes
unfolding two_requests_bytes
three_chunks =
    take 5 two_requests_bytes ∷ take 9 (drop 5 two_requests_bytes) ∷ drop 14 two_requests_bytes ∷ []

three_chunks-concat : concat three_chunks ≡ stream two_requests
unfolding three_chunks two_requests_bytes stream frame concat pack
three_chunks-concat = refl

on_messages-stream_example :
    on_messages lower three_chunks new_node
    ≡ (serve_all lower two_requests new_node >>= λ m. ok (record m { recv_buf = [] }))
unfolding new_node
on_messages-stream_example =
    on_messages-stream lower three_chunks two_requests new_node (omega arith, (omega arith, tt))
      refl three_chunks-concat

abbrev three_acts : List Act
three_acts = produce (text "a") ∷ write ∷ produce (text "b") ∷ []

unfoldable acted : Node
unfolding new_node
acted = record new_node { out = text "a" ∷ []; send_queue = text "b" ∷ [] }

acts-out_example :
    acted.out ++ acted.send_queue ≡ (new_node.out ++ new_node.send_queue) ++ produced three_acts
unfolding acted acts act async_send push_queue send_round take_message new_node
acts-out_example = acts-out three_acts new_node acted refl refl

on_message-ne-no_fuel_example : on_message lower (1 ∷ 2 ∷ 3 ∷ 4 ∷ 3 ∷ 0 ∷ 7 ∷ []) new_node ≢ no_fuel
on_message-ne-no_fuel_example =
    on_message-ne-no_fuel lower (1 ∷ 2 ∷ 3 ∷ 4 ∷ 3 ∷ 0 ∷ 7 ∷ []) new_node

unfoldable after_tick : Node
unfolding new_node pack_data_tick_ok
after_tick = record new_node { send_queue = pack_data_tick_ok ∷ [] }
