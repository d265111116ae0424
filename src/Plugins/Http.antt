-- ===== src/Plugins/Http.antt =====
-- src/services/http: the groups of URLs. The map of groups is an association list in the order in
-- which the loops visit it. The goroutines that post are in Workers.
pub mod Send
pub mod Workers
pub mod Starved
use wing_binlog_go.Prelude.{
  ℕ, ◌+◌, ◌<◌, ◌≡◌, refl, ap, sym, ◌∙◌, Bool, true, false, not, ◌&&◌, ◌||◌, Option, none, some,
  List, [], ◌∷◌, ◌++◌, map, All, Outcome, ok, panic, spins, ◌>>=◌, Bytes, bytes_eq, length, ltb,
  lt→ltb, ◌==◌, if◌then◌else◌, arith, Bool-cases, inl, inr,
}
use wing_binlog_go.Wire.Filter.{match_filters}

abbrev pub http_max_send_queue : ℕ
http_max_send_queue = 10000

-- `httpNode`: the queue, and what was posted.
pub record HttpNode : Type 0 where
  pub url : Bytes
  pub send_queue : List Bytes
  pub posted : List Bytes

pub record HttpNodeConfig : Type 0 where
  pub config_name : Bytes
  pub config_filter : List Bytes
  pub config_nodes : List Bytes

pub record HttpGroup : Type 0 where
  pub name : Bytes
  pub filter : List Bytes
  pub nodes : List HttpNode

-- `HttpService`: whether it is enabled, whether its lock is there, and the groups.
pub record HttpService : Type 0 where
  pub enabled : Bool
  pub has_lock : Bool
  pub groups : List HttpGroup

unfoldable pub new_http_node : Bytes → HttpNode
new_http_node url = record { url = url; send_queue = []; posted = [] }

unfoldable pub new_http_group : HttpNodeConfig → HttpGroup
unfolding new_http_node
new_http_group c = record {
  name = c.config_name;
  filter = c.config_filter;
  nodes = map new_http_node c.config_nodes;
}

-- `asyncSend` of a node: while the queue is full the call does not return.
unfoldable pub node_send : Bytes → HttpNode → Outcome HttpNode
node_send msg n =
    if ltb (length n.send_queue) http_max_send_queue
    then ok (record n { send_queue = n.send_queue ++ msg ∷ [] })
    else spins

nodes_send : Bytes → List HttpNode → Outcome (List HttpNode)
unfolding node_send
nodes_send msg [] = ok []
nodes_send msg (n ∷ ns) = node_send msg n >>= λ m. nodes_send msg ns >>= λ ms. ok (m ∷ ms)

-- `httpGroup.asyncSend`
unfoldable pub group_send : Bytes → HttpGroup → Outcome HttpGroup
unfolding nodes_send
group_send msg g = nodes_send msg g.nodes >>= λ ns. ok (record g { nodes = ns })

-- `httpGroups.add`
unfoldable pub add : HttpGroup → List HttpGroup → List HttpGroup
add g [] = g ∷ []
add g (h ∷ hs) = if bytes_eq h.name g.name then g ∷ hs else h ∷ add g hs

-- `NewHttpService` and `Reload` enter the configured groups one by one, under the lock.
unfoldable pub add_all : List HttpNodeConfig → List HttpGroup → List HttpGroup
unfolding add
add_all [] gs = gs
add_all (c ∷ cs) gs = add_all cs (add (new_http_group c) gs)

-- `NewHttpService`
unfoldable pub new_http_service : Bool → List HttpNodeConfig → HttpService
unfolding add_all
new_http_service enable configs =
    if not enable
    then record { enabled = false; has_lock = false; groups = [] }
    else record { enabled = true; has_lock = true; groups = add_all configs [] }

-- `Reload`, by what `getHttpConfig` answers: `none` is its error.
unfoldable pub reload : Option (Bool × List HttpNodeConfig) → HttpService → Outcome HttpService
unfolding add_all
reload none s = ok s
reload (some (enable, [])) s = ok (record s { enabled = enable; groups = [] })
reload (some (enable, c ∷ cs)) s =
    if not s.has_lock
    then panic
    else ok (record s { enabled = enable; groups = add_all (c ∷ cs) [] })

module _ (match_string : Bytes → Bytes → Option Bool) where
  -- `httpGroup.match`
  unfoldable pub group_match : Bytes → HttpGroup → Bool
  group_match table g =
      if length g.nodes == 0 || not (match_filters match_string g.filter table) then false else true

  groups_send : Bytes → Bytes → List HttpGroup → Outcome (List HttpGroup)
  unfolding group_match group_send
  groups_send table msg [] = ok []
  groups_send table msg (g ∷ gs) = do
    h ← if group_match table g then group_send msg g else ok g
    hs ← groups_send table msg gs
    ok (h ∷ hs)

  -- `SendAll`
  unfoldable pub send_all : Bytes → Bytes → HttpService → Outcome (Bool × HttpService)
  unfolding groups_send
  send_all table msg s =
      if not s.enabled
      then ok (false, s)
      else (groups_send table msg s.groups >>= λ gs. ok (true, record s { groups = gs }))
