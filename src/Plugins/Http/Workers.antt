-- ===== src/Plugins/Http/Workers.antt =====
-- The goroutines of a node in src/services/http/node.go: `sendService` starts them, each posts what it
-- takes off the queue, and `wait` waits until they have left after the context is cancelled.
pub mod Held
pub mod Wait
pub mod Life
pub mod Close
use wing_binlog_go.Prelude.{
  ℕ, zero, suc, ◌+◌, Bool, true, false, not, ◌&&◌, ◌≡◌, Option, none, some, List, [], ◌∷◌, ◌++◌,
  Bytes, length, ◌==◌, ltb, if◌then◌else◌, refl,
}
use wing_binlog_go.Plugins.Http.{HttpNode, HttpGroup, HttpService}

-- A node with its goroutines: those that were started and have not yet run, those that wait in the
-- `select`, the messages of those that post, and those that have left. The wait group counts the second
-- and the third. `is_done` says that the context was cancelled.
pub record Pool : Type 0 where
  pub node : HttpNode
  pub spawned : ℕ
  pub idle : ℕ
  pub busy : List Bytes
  pub left : ℕ
  pub is_done : Bool

-- `sendService` for one node: as many goroutines as there are processors, and two.
unfoldable pub send_service : ℕ → HttpNode → Pool
send_service cpu n = record {
  node = n;
  spawned = cpu + 2;
  idle = 0;
  busy = [];
  left = 0;
  is_done = false;
}

-- A goroutine begins: `wg.Add(1)`.
unfoldable pub joins : Pool → Option Pool
joins p = elim p.spawned [
  | zero ↦ none
  | suc k ↦ some (record p { spawned = k; idle = suc p.idle })
]

-- A goroutine takes a message off the queue.
unfoldable pub takes : Pool → Option Pool
takes p = elim p.idle [
  | zero ↦ none
  | suc k ↦ elim p.node.send_queue [
    | [] ↦ none
    | msg ∷ queue ↦
        some
          (record p { node = record p.node { send_queue = queue }; idle = k; busy = msg ∷ p.busy })
  ]
]

behind : Bytes → Option (Bytes × List Bytes) → Option (Bytes × List Bytes)
behind m none = none
behind m (some (x, xs)) = some (x, m ∷ xs)

-- The entry at a place, and the others.
unfoldable pub pick : ℕ → List Bytes → Option (Bytes × List Bytes)
unfolding behind
pick i [] = none
pick zero (m ∷ ms) = some (m, ms)
pick (suc i) (m ∷ ms) = behind m (pick i ms)

posted_by : Pool → Option (Bytes × List Bytes) → Option Pool
posted_by p none = none
posted_by p (some (msg, others)) = some (record p {
  node = record p.node { posted = p.node.posted ++ msg ∷ [] };
  idle = suc p.idle;
  busy = others;
})

-- One of the goroutines that post is done, whether the post failed or not: an error is only logged. A
-- post that does not return, for which the HTTP client has no limit, is one that never takes this step.
unfoldable pub posts : ℕ → Pool → Option Pool
unfolding pick posted_by
posts i p = posted_by p (pick i p.busy)

-- A goroutine sees that the context is done, and leaves if the queue is empty: `wg.Done()`.
unfoldable pub leaves : Pool → Option Pool
leaves p = elim p.idle [
  | zero ↦ none
  | suc k ↦
      if p.is_done && length p.node.send_queue == 0
      then some (record p { idle = k; left = suc p.left })
      else none
]

-- `wait` returns: the counter of the wait group is zero.
unfoldable pub wait_returns : Pool → Bool
wait_returns p = p.idle == 0 && length p.busy == 0

-- `Start` of the service: the goroutines of every node of every group, if it is enabled.
unfoldable pub start_nodes : ℕ → List HttpNode → List Pool
unfolding send_service
start_nodes cpu [] = []
start_nodes cpu (n ∷ ns) = send_service cpu n ∷ start_nodes cpu ns

unfoldable pub start_groups : ℕ → List HttpGroup → List Pool
unfolding start_nodes
start_groups cpu [] = []
start_groups cpu (g ∷ gs) = start_nodes cpu g.nodes ++ start_groups cpu gs

unfoldable pub start : ℕ → HttpService → List Pool
unfolding start_groups
start cpu s = if not s.enabled then [] else start_groups cpu s.groups
