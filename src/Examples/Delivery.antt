-- ===== src/Examples/Delivery.antt =====
-- Events on their way to a client.
use wing_binlog_go.Prelude.{
  ℕ, ◌+◌, ◌≡◌, refl, Bool, true, false, Option, none, some, List, [], ◌∷◌, ◌++◌, ok, Bytes, text,
  bytes_eq, arith,
}
use mathlib.Core.List.{append-nil}
use wing_binlog_go.Wire.Filter.{match_filters}
use wing_binlog_go.Stream.Chunks.{concat}
use wing_binlog_go.Subscribe.Node.{new_node}
use wing_binlog_go.Subscribe.Groups.{update, member}
use wing_binlog_go.Subscribe.Server.{Server}
use wing_binlog_go.Client.{Client, new_client}
use wing_binlog_go.Client.Frames.{on_messages}
use wing_binlog_go.Delivery.{Step, event, writes, events, flush, step_all, matching}
use wing_binlog_go.Delivery.Queues.{HasRoom}
use wing_binlog_go.Delivery.Steps.{CanTake}
use wing_binlog_go.Delivery.Whole.{heard, broadcasts-heard}

abbrev exactly : Bytes → Bytes → Option Bool
exactly f table = some (bytes_eq f table)

unfoldable two_clients : Server
unfolding new_node
two_clients = record {
  enabled = true;
  closed = false;
  listening = true;
  groups = record {
    nodes = update (λ id. new_node) 1 (record new_node { topics = text "test.user" ∷ [] });
    next = 2;
    g = record { live = 0 ∷ 1 ∷ []; spare = [] };
    registry = none;
  };
}

abbrev some_steps : List Step
some_steps =
    event (text "test.user") (text "a")
    ∷ writes 1
    ∷ event (text "test.order") (text "b")
    ∷ writes 0
    ∷ event (text "test.user") (text "c")
    ∷ []

one_chunk : Bytes → List Bytes
one_chunk b = b ∷ []

whole_chunk : (b : Bytes) → concat (one_chunk b) ≡ b
unfolding concat one_chunk
whole_chunk b = append-nil b

two_clients-HasRoom : (j : ℕ) → HasRoom 3 (two_clients.groups.nodes j)
unfolding two_clients new_node
two_clients-HasRoom j = record { room = ground arith; channel = ground arith }

two_clients-CanTake : CanTake (events some_steps) two_clients
unfolding two_clients events member
two_clients-CanTake = record {
  on = refl;
  distinct = (refl, (refl, tt));
  rooms = λ j m. two_clients-HasRoom j;
}

abbrev fresh_client : Client Bytes
fresh_client = new_client 1

broadcasts-heard_example :
    (t : Server) × (step_all exactly (some_steps ++ flush 1 (events some_steps)) two_clients ≡ ok t)
    × ((t.groups.nodes 1).send_queue ≡ [])
    × (on_messages (λ b. b) (one_chunk (concat (t.groups.nodes 1).out)) fresh_client
        ≡ ok (record fresh_client {
          buffer = [];
          times = fresh_client.times + 2;
          delivered = fresh_client.delivered ++ heard (λ b. b) 1 (text "a" ∷ text "c" ∷ []);
        }))
unfolding two_clients new_node new_client matching member match_filters
broadcasts-heard_example =
    broadcasts-heard exactly (λ b. b) some_steps two_clients 1 fresh_client one_chunk whole_chunk
      two_clients-CanTake refl refl refl refl (omega arith, (omega arith, tt)) refl
