-- ===== src/Examples/Groups.antt =====
-- Groups of subscribers of src/services/subscribe/groups.go.
use wing_binlog_go.Prelude.{
  ℕ, ◌≡◌, refl, Bool, ◌&&◌, Option, none, some, List, [], ◌∷◌, ◌++◌, ok, Bytes, text, bytes_eq,
  arith, if◌then◌else◌,
}
use wing_binlog_go.Subscribe.Node.{new_node}
use wing_binlog_go.Wire.Filter.{match_filters}
use wing_binlog_go.Subscribe.Groups.{
  Groups, update, member, close_all, send_all, on_connect, close_node,
}
use wing_binlog_go.Subscribe.Groups.Send.{IsReady, send_all-nodes}
use wing_binlog_go.Subscribe.Groups.Counter.{
  Happening, connects, drops, happen, happen_all, no_clients, online_count, happen_all-registry,
}
use wing_binlog_go.Subscribe.Groups.Close.{close_all-skips_second}

abbrev match_exactly : Bytes → Bytes → Option Bool
match_exactly f table = some (bytes_eq f table)

unfoldable three_clients : Groups
unfolding new_node
three_clients = record {
  nodes = update (λ id. new_node) 1 (record new_node { topics = text "test.user" ∷ [] });
  next = 3;
  g = record { live = 0 ∷ 1 ∷ 2 ∷ []; spare = [] };
  registry = none;
}

close_all-skips_second_example :
    ((close_all three_clients).nodes 1 ≡ three_clients.nodes 1)
    × ((close_all three_clients).g.live ≡ [])
unfolding three_clients new_node member
close_all-skips_second_example = close_all-skips_second three_clients 0 1 2 [] refl refl refl refl

three_clients-IsReady : (j : ℕ) → IsReady (three_clients.nodes j)
unfolding three_clients new_node
three_clients-IsReady j = record { room = ground arith; channel = ground arith }

send_all-nodes_example :
    (hs : Groups) × (send_all match_exactly (text "test.order") (text "row") three_clients ≡ ok hs)
    × (hs.g ≡ three_clients.g)
    × ((j : ℕ)
        → hs.nodes j ≡ (
            if member j three_clients.g.live
              && (three_clients.nodes j).online
              && match_filters match_exactly (three_clients.nodes j).topics (text "test.order")
            then record (three_clients.nodes j) {
              send_queue = (three_clients.nodes j).send_queue ++ text "row" ∷ [];
            }
            else three_clients.nodes j))
unfolding three_clients new_node member
send_all-nodes_example =
    send_all-nodes match_exactly (text "test.order") (text "row") three_clients
      (refl, (refl, (refl, tt))) (λ j m. three_clients-IsReady j)

abbrev two_and_one : List Happening
two_and_one = connects ∷ connects ∷ drops 0 ∷ []

unfoldable one_left : Groups
one_left = close_node 0 (on_connect (on_connect no_clients))

happen_all-registry_example : one_left.registry ≡ some (online_count one_left.next one_left.nodes)
unfolding one_left happen_all happen on_connect no_clients
happen_all-registry_example = happen_all-registry (λ b. b) two_and_one one_left (omega arith) refl
