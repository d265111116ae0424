-- ===== src/Plugins/Http/Send.antt =====
-- A broadcast over HTTP.
use wing_binlog_go.Prelude.{
  ◌<◌, ◌≡◌, refl, Bool, true, Option, List, [], ◌∷◌, ◌++◌, map, All, ok, Bytes, length, lt→ltb,
  if◌then◌else◌, Bool-cases, inl, inr,
}
use wing_binlog_go.Plugins.Http.{
  HttpNode, HttpGroup, HttpService, http_max_send_queue, node_send, nodes_send, group_send,
  group_match, groups_send, send_all,
}

-- The node with the message behind what is queued.
abbrev pub queued : Bytes → HttpNode → HttpNode
queued msg n = record n { send_queue = n.send_queue ++ msg ∷ [] }

abbrev pub HasRoom : HttpNode → Type 0
HasRoom n = length n.send_queue < http_max_send_queue

nodes_send-room :
    (msg : Bytes) (ns : List HttpNode)
    → All HasRoom ns
    → nodes_send msg ns ≡ ok (map (queued msg) ns)
unfolding nodes_send node_send
nodes_send-room msg [] r = refl
nodes_send-room msg (n ∷ ns) (h, r) =
    rw (lt→ltb (length n.send_queue) http_max_send_queue h, nodes_send-room msg ns r)

module _ (match_string : Bytes → Bytes → Option Bool) where
  -- A group that matches the table has the message queued at every node.
  abbrev pub told : Bytes → Bytes → HttpGroup → HttpGroup
  told table msg g =
      if group_match match_string table g then record g { nodes = map (queued msg) g.nodes } else g

  group_send-told :
      (table msg : Bytes) (g : HttpGroup)
      → All HasRoom g.nodes
      → (if group_match match_string table g then group_send msg g else ok g)
        ≡ ok (told table msg g)
  unfolding group_send
  group_send-told table msg g r = elim (Bool-cases (group_match match_string table g)) [
    | inl fits ↦ rw (fits, nodes_send-room msg g.nodes r)
    | inr other ↦ rw other
  ]

  groups_send-told :
      (table msg : Bytes) (gs : List HttpGroup)
      → All (λ g. All HasRoom g.nodes) gs
      → groups_send match_string table msg gs ≡ ok (map (told table msg) gs)
  unfolding groups_send
  groups_send-told table msg [] r = refl
  groups_send-told table msg (g ∷ gs) (h, r) =
      rw (group_send-told table msg g h, groups_send-told table msg gs r)

  -- A broadcast of an enabled HTTP service whose nodes all have room returns. It queues the message
  -- once at every node of the groups that match the table, behind what is queued, and changes nothing
  -- else.
  pub send_all-told :
      (table msg : Bytes) (s : HttpService)
      → s.enabled ≡ true
      → All (λ g. All HasRoom g.nodes) s.groups
      → send_all match_string table msg s
        ≡ ok (true, record s { groups = map (told table msg) s.groups })
  unfolding send_all
  send_all-told table msg s e r = rw (e, groups_send-told table msg s.groups r)
