-- ===== src/Subscribe/Groups/Send.antt =====
-- Broadcasting an event: who gets it.
use wing_binlog_go.Prelude.{
  ℕ, ◌<◌, ◌≡◌, refl, ◌∙◌, inl, inr, Bool, true, false, not, ◌&&◌, Option, List, [], ◌∷◌, ◌++◌,
  length, Bool-cases, ==_iff, ==_refl, ◌==◌, if◌then◌else◌, arith, Bytes, ok,
}
use wing_binlog_go.Wire.Filter.{match_filters}
use wing_binlog_go.Subscribe.Node.{Node, async_send, push_queue, tcp_max_send_queue}
use wing_binlog_go.Subscribe.Groups.{Groups, update, member, send_all, send_all_to}

-- No node stands twice in the list.
abbrev pub IsDistinct : List ℕ → Type 0
IsDistinct [] = Unit {0}
IsDistinct (id ∷ ids) = (member id ids ≡ false) × IsDistinct ids

-- There is room in the queue, and it is closed exactly when the node is.
pub record IsReady (n : Node) : Type 0 where
  pub room : length n.send_queue < tcp_max_send_queue
  pub channel : n.queue_closed ≡ not n.online

abbrev pub queued : Bytes → Node → Node
queued msg n = if n.online then record n { send_queue = n.send_queue ++ msg ∷ [] } else n

async_send-IsReady : (msg : Bytes) (n : Node) → IsReady n → async_send msg n ≡ ok (queued msg n)
unfolding async_send push_queue
async_send-IsReady msg n r = ground (arith, r.room, r.channel)

module _ (match_string : Bytes → Bytes → Option Bool) where
  -- What a broadcast does to one node.
  abbrev pub received : Bytes → Bytes → Node → Node
  received table msg n = if match_filters match_string n.topics table then queued msg n else n

  delivered : ℕ → Bytes → Bytes → Groups → Groups
  delivered id table msg gs =
      if match_filters match_string (gs.nodes id).topics table
      then record gs { nodes = update gs.nodes id (queued msg (gs.nodes id)) }
      else gs

  delivered-nodes :
      (id j : ℕ) (table msg : Bytes) (gs : Groups)
      → (delivered id table msg gs).nodes j
        ≡ (if id == j then received table msg (gs.nodes j) else gs.nodes j)
  unfolding delivered
  delivered-nodes id j table msg gs = elim (Bool-cases (id == j)) [
    | inl same ↦ rw (same, (==_iff id j).0 same) (ground arith)
    | inr other ↦ rw other (ground arith)
  ]

  delivered-g : (id : ℕ) (table msg : Bytes) (gs : Groups) → (delivered id table msg gs).g ≡ gs.g
  unfolding delivered
  delivered-g id table msg gs = ground arith

  send_all_to-delivered :
      (id : ℕ) (ids : List ℕ) (table msg : Bytes) (gs : Groups)
      → IsReady (gs.nodes id)
      → send_all_to match_string (id ∷ ids) table msg gs
        ≡ send_all_to match_string ids table msg (delivered id table msg gs)
  unfolding send_all_to delivered
  send_all_to-delivered id ids table msg gs r =
      elim (Bool-cases (match_filters match_string (gs.nodes id).topics table)) [
        | inl hit ↦ rw (hit, async_send-IsReady msg (gs.nodes id) r)
        | inr miss ↦ rw miss
      ]

  other_of_member :
      (id j : ℕ) (ids : List ℕ) → member id ids ≡ false → member j ids ≡ true → (id == j) ≡ false
  other_of_member id j ids h k = elim (Bool-cases (id == j)) [
    | inl same ↦ cc ((==_iff id j).0 same)
    | inr other ↦ other
  ]

  record Sent (ids : List ℕ) (table msg : Bytes) (gs : Groups) : Type 0 where
    after : Groups
    returns : send_all_to match_string ids table msg gs ≡ ok after
    slice : after.g ≡ gs.g
    each :
        (j : ℕ)
        → after.nodes j ≡ (if member j ids then received table msg (gs.nodes j) else gs.nodes j)

  send_all_to-Sent :
      (ids : List ℕ) (table msg : Bytes) (gs : Groups)
      → IsDistinct ids
      → ((j : ℕ) → member j ids ≡ true → IsReady (gs.nodes j))
      → Sent ids table msg gs
  unfolding send_all_to member
  send_all_to-Sent [] table msg gs d ready = record {
    after = gs;
    returns = refl;
    slice = refl;
    each = λ j. refl;
  }
  send_all_to-Sent (id ∷ ids) table msg gs d ready =
      join (send_all_to-Sent ids table msg (delivered id table msg gs) d.1 still)
    where
      still : (j : ℕ) → member j ids ≡ true → IsReady ((delivered id table msg gs).nodes j)
      still j m =
          let away = other_of_member id j ids d.0 m in
          rw (delivered-nodes id j table msg gs, away) (ready j (rw (away, member) m))

      join : Sent ids table msg (delivered id table msg gs) → Sent (id ∷ ids) table msg gs
      join s = record {
        after = s.after;
        returns =
            send_all_to-delivered id ids table msg gs (ready id (rw (==_refl id, member)))
            ∙ s.returns;
        slice = s.slice ∙ delivered-g id table msg gs;
        each = λ j.
            s.each j
            ∙ rw (delivered-nodes id j table msg gs) (ground (arith, other_of_member id j ids d.0));
      }

  -- A broadcast to distinct, ready nodes returns. It queues the message, behind what is queued, at
  -- the online nodes of the slice whose topics match the table, and leaves every other node and the
  -- slice as they were.
  pub send_all-nodes :
      (table msg : Bytes) (gs : Groups)
      → IsDistinct gs.g.live
      → ((j : ℕ) → member j gs.g.live ≡ true → IsReady (gs.nodes j))
      → (hs : Groups) × (send_all match_string table msg gs ≡ ok hs)
        × (hs.g ≡ gs.g)
        × ((j : ℕ)
            → hs.nodes j ≡ (
                if member j gs.g.live
                  && (gs.nodes j).online
                  && match_filters match_string (gs.nodes j).topics table
                then record (gs.nodes j) { send_queue = (gs.nodes j).send_queue ++ msg ∷ [] }
                else gs.nodes j))
  unfolding send_all
  send_all-nodes table msg gs d ready =
      let s = send_all_to-Sent gs.g.live table msg gs d ready in
      (s.after, s.returns, s.slice, λ j. s.each j ∙ ground arith)
