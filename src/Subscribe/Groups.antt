-- ===== src/Subscribe/Groups.antt =====
-- src/services/subscribe/groups.go, and the connection counter of service.go.
-- A `*tcpClientNode` is a number, and `nodes` is the heap. `groups.g` is a slice over an array that
-- `remove` shifts in place, so the cells behind its length are kept.
pub mod Close
pub mod Send
pub mod Counter
use wing_binlog_go.Prelude.{
  ℕ, zero, suc, ◌+◌, ◌-◌, ◌%◌, ◌^◌, Bool, true, false, not, ◌&&◌, Option, none, some, List, [], ◌∷◌,
  ◌++◌, Outcome, ok, ◌>>=◌, Bytes, length, get_elem?, drop, ◌==◌, if◌then◌else◌,
}
use mathlib.Core.Option
use wing_binlog_go.Wire.Filter.{match_filters}
use wing_binlog_go.Subscribe.Node.{Node, new_node, close, async_send, on_message}

-- The entries of a slice, and the cells of its array behind them.
pub record Slice : Type 0 where
  pub live : List ℕ
  pub spare : List ℕ

-- `tcpGroups` with the heap of nodes. `registry` is the counter of connections that service.go
-- publishes, if the service is registered with consul.
pub record Groups : Type 0 where
  pub nodes : ℕ → Node
  pub next : ℕ
  pub g : Slice
  pub registry : Option ℕ

abbrev pub update : (ℕ → Node) → ℕ → Node → ℕ → Node
update nodes id n j = if id == j then n else nodes j

-- `newConnect` and `disconnect`: `atomic.AddInt64(&sev.connects, 1)` and `-1`, on the bit pattern.
unfoldable pub new_connect : ℕ → ℕ
new_connect c = (c + 1) % 2 ^ 64

unfoldable pub disconnect : ℕ → ℕ
disconnect c = (c + (2 ^ 64 - 1)) % 2 ^ 64

unfoldable pub member : ℕ → List ℕ → Bool
member id [] = false
member id (x ∷ xs) = elim (x == id) [ true ↦ true | false ↦ member id xs ]

unfoldable pub erase : ℕ → List ℕ → List ℕ
erase id [] = []
erase id (x ∷ xs) = let rest = x ∷ erase id xs in if x == id then xs else rest

unfoldable pub last_or : ℕ → List ℕ → ℕ
last_or d [] = d
last_or d (x ∷ xs) = last_or x xs

-- `append(g[:index], g[index+1:]...)` at the first entry that is `id`: the entries behind it move down
-- by one cell, and the cell of the last one keeps its old content.
unfoldable pub remove_entry : ℕ → Slice → Slice
unfolding erase last_or
remove_entry id s =
    if member id s.live
    then record { live = erase id s.live; spare = last_or id s.live ∷ s.spare }
    else s

unfoldable pub remove : ℕ → Groups → Groups
remove id gs = record gs { g = remove_entry id gs.g; registry = Option.map disconnect gs.registry }

-- `node.close()` of the node at `id`, whose only `onclose` function is `groups.remove`.
unfoldable pub close_node : ℕ → Groups → Groups
close_node id gs =
    if not (gs.nodes id).online
    then gs
    else remove id (record gs { nodes = update gs.nodes id (close (gs.nodes id)) })

-- `for _, group := range groups.g { group.close() }`: the range has the array and the length of the
-- slice at its start, and reads cell after cell while `remove` shifts them.
close_range : ℕ → ℕ → Groups → Groups
close_range zero i gs = gs
close_range (suc left) i gs = elim (get_elem? (gs.g.live ++ gs.g.spare) i) [
  | none ↦ gs
  | some id ↦ close_range left (suc i) (close_node id gs)
]

unfoldable pub close_all : Groups → Groups
unfolding close_range
close_all gs =
    let closed = close_range (length gs.g.live) 0 gs in
    record closed { g = record { live = []; spare = [] } }

-- `reload`
unfoldable pub reload : Groups → Groups
unfolding close_all
reload gs = close_all gs

-- `onConnect` of the groups and, where the service is registered, `newConnect`. The node takes the
-- next free pointer; `append` writes to the first spare cell or to a new array.
unfoldable pub on_connect : Groups → Groups
on_connect gs = record {
  nodes = update gs.nodes gs.next new_node;
  next = suc gs.next;
  g = record { live = gs.g.live ++ gs.next ∷ []; spare = drop 1 gs.g.spare };
  registry = Option.map new_connect gs.registry;
}

-- `asyncSend` to every node of the slice.
unfoldable pub async_send_to : List ℕ → Bytes → Groups → Outcome Groups
async_send_to [] msg gs = ok gs
async_send_to (id ∷ ids) msg gs = async_send msg (gs.nodes id) >>= λ n.
    async_send_to ids msg (record gs { nodes = update gs.nodes id n })

unfoldable pub async_send_all : Bytes → Groups → Outcome Groups
async_send_all msg gs = async_send_to gs.g.live msg gs

module _ (match_string : Bytes → Bytes → Option Bool) where
  -- `sendAll`: to every node of the slice whose topics match the table.
  send_all_to : List ℕ → Bytes → Bytes → Groups → Outcome Groups
  send_all_to [] table msg gs = ok gs
  send_all_to (id ∷ ids) table msg gs =
      (if match_filters match_string (gs.nodes id).topics table
        then (async_send msg (gs.nodes id) >>= λ n. ok (record gs { nodes = update gs.nodes id n }))
        else ok gs)
      >>= λ hs. send_all_to ids table msg hs

  unfoldable pub send_all : Bytes → Bytes → Groups → Outcome Groups
  unfolding send_all_to
  send_all table msg gs = send_all_to gs.g.live table msg gs

-- A chunk arrives for the node at `id`; if serving it closed the node, `groups.remove` was called.
unfoldable pub deliver : (Bytes → Bytes) → ℕ → Bytes → Groups → Outcome Groups
deliver to_lower id msg gs = do
  n ← on_message to_lower msg (gs.nodes id)
  let hs = record gs { nodes = update gs.nodes id n }
  ok (if (gs.nodes id).removals == n.removals then hs else remove id hs)
