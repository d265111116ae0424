-- ===== src/Delivery.antt =====
-- An event on its way from `SendAll` of src/services/subscribe to the callbacks of a client of
-- src/library/client: the broadcast, the queues, the goroutines that write, the connection.
pub mod Queues
pub mod Steps
pub mod Whole
use wing_binlog_go.Prelude.{
  ℕ, zero, suc, Bool, true, Option, List, [], ◌∷◌, ◌++◌, Outcome, ok, ◌>>=◌, Bytes, if◌then◌else◌,
}
use wing_binlog_go.Wire.Filter.{match_filters}
use wing_binlog_go.Subscribe.Node.{send_round, message}
use wing_binlog_go.Subscribe.Node.Queue.{node_of}
use wing_binlog_go.Subscribe.Groups.{update}
use wing_binlog_go.Subscribe.Server.{Server, send_all}

-- What happens at the service: an event is broadcast for a table, or the goroutine of a node writes
-- the next message of its queue, if there is one.
pub data Step : Type 0 where
  event : Bytes → Bytes → Step
  writes : ℕ → Step

unfoldable pub events : List Step → ℕ
events [] = 0
events (event table msg ∷ steps) = suc (events steps)
events (writes id ∷ steps) = events steps

-- `n` writes of one node.
unfoldable pub flush : ℕ → ℕ → List Step
flush id zero = []
flush id (suc n) = writes id ∷ flush id n

unfoldable pub write_node : ℕ → Server → Server
unfolding send_round
write_node id s =
    let n = s.groups.nodes id in
    record s {
      groups = record s.groups {
        nodes = update s.groups.nodes id (node_of (send_round (message true) n));
      };
    }

module _ (match_string : Bytes → Bytes → Option Bool) where
  unfoldable pub step : Step → Server → Outcome Server
  unfolding write_node
  step (event table msg) s = send_all match_string table msg s >>= λ r. ok r.1
  step (writes id) s = ok (write_node id s)

  unfoldable pub step_all : List Step → Server → Outcome Server
  step_all [] s = ok s
  step_all (a ∷ steps) s = step a s >>= λ t. step_all steps t

  -- The messages that are for a client with these topics.
  unfoldable pub matching : List Bytes → List Step → List Bytes
  matching topics [] = []
  matching topics (event table msg ∷ steps) =
      let rest = matching topics steps in
      if match_filters match_string topics table then msg ∷ rest else rest
  matching topics (writes id ∷ steps) = matching topics steps
