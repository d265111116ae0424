-- ===== src/Plugins/Http/Workers/Close.antt =====
-- What `Close` of src/services/http waits for, and how it leaves the nodes.
use wing_binlog_go.Prelude.{ℕ, ◌+◌, true, ◌≡◌, List, [], ◌∷◌, ◌++◌, Bytes}
use wing_binlog_go.Plugins.Http.Workers.{Pool, send_service, wait_returns}
use wing_binlog_go.Plugins.Http.Workers.Held.{count}
use wing_binlog_go.Plugins.Http.Workers.Life.{Lives}

-- What follows once nothing waits and the context is done: goroutines that begin late leave.
abbrev IsQuiet : Pool → Type 0
IsQuiet q = (q.is_done ≡ true) × (q.node.send_queue ≡ []) × (q.busy ≡ [])

-- One node up to the return of `Close`: its `Wait` returns at some time, and while `Close` waits for
-- other nodes it lives on.
pub data Closes : Pool → List Bytes → Pool → Type 0 where
  waited :
      {p q r : Pool} {ms ns : List Bytes}
      → Lives p ms q
      → wait_returns q ≡ true
      → Lives q ns r
      → Closes p (ms ++ ns) r

-- The nodes of a service, each with its own messages, up to the return of `Close`.
pub data AllClose : List Pool → List (List Bytes) → List Pool → Type 0 where
  none_close : AllClose [] [] []
  one_closes :
      {p r : Pool} {ms : List Bytes} {ps rs : List Pool} {mss : List (List Bytes)}
      → Closes p ms r
      → AllClose ps mss rs
      → AllClose (p ∷ ps) (ms ∷ mss) (r ∷ rs)

-- How `Close` leaves a node: all is posted, as often as it was queued, and nothing waits; or no goroutine
-- had begun when its `Wait` returned, and nothing had been posted.
pub data IsLeft (m : Bytes) (p : Pool) (ms : List Bytes) (r : Pool) : Type 0 where
  all_posted :
      r.node.send_queue ≡ []
      → r.busy ≡ []
      → count m r.node.posted ≡ count m p.node.posted + (count m p.node.send_queue + count m ms)
      → IsLeft m p ms r
  none_begun :
      {q : Pool} {ns : List Bytes}
      → q.spawned ≡ p.spawned
      → q.node.posted ≡ p.node.posted
      → Lives q ns r
      → IsLeft m p ms r

abbrev pub AllLeft : Bytes → List Pool → List (List Bytes) → List Pool → Type 0
AllLeft m [] [] [] = Unit {0}
AllLeft m (p ∷ ps) (ms ∷ mss) (r ∷ rs) = IsLeft m p ms r × AllLeft m ps mss rs
AllLeft m _ _ _ = ⊥

-- A pool as `sendService` leaves it.
abbrev IsFresh : ℕ → Pool → Type 0
IsFresh cpu p = p ≡ send_service cpu p.node
