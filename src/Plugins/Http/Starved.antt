-- ===== src/Plugins/Http/Starved.antt =====
-- What becomes of the groups that a reload of src/services/http makes.
use wing_binlog_go.Prelude.{
  ℕ, suc, ◌+◌, ◌≤◌, ◌<◌, ◌≡◌, refl, ap, ◌∙◌, Bool, true, false, not, Option, List, [], ◌∷◌, ◌++◌,
  Outcome, ok, spins, ◌>>=◌, Bytes, length, ltb, if◌then◌else◌, arith, Bool-cases, inl, inr, ◌⊎◌,
  length-append,
}
use wing_binlog_go.Wire.Filter.{match_filters}
use wing_binlog_go.Plugins.Http.{
  HttpNode, HttpGroup, HttpService, HttpNodeConfig, http_max_send_queue, node_send, nodes_send,
  group_send, group_match, groups_send, send_all, reload,
}

-- Some node has `k` messages in its queue at least.
abbrev pub SomeNode : ℕ → List HttpNode → Type 0
SomeNode k [] = ⊥
SomeNode k (n ∷ ns) = (k ≤ length n.send_queue) ⊎ SomeNode k ns

-- A send either waits for room in a full queue, or goes through and leaves one message more.
node_send-grows :
    (msg : Bytes) (n : HttpNode)
    → ((node_send msg n ≡ spins) × (http_max_send_queue ≤ length n.send_queue))
      ⊎ ((m : HttpNode) × (node_send msg n ≡ ok m)
          × (length m.send_queue ≡ suc (length n.send_queue))
          × (length n.send_queue < http_max_send_queue))
unfolding node_send
node_send-grows msg n = elim (Bool-cases (ltb (length n.send_queue) http_max_send_queue)) [
  | inl room ↦ inr (
    record n { send_queue = n.send_queue ++ msg ∷ [] },
    rw room refl,
    omega (arith, length-append n.send_queue (msg ∷ [])),
    ground (arith, room),
  )
  | inr full ↦ inl (rw full refl, ground (arith, full))
]

nodes_send-or_spins :
    (msg : Bytes) (ns : List HttpNode)
    → (nodes_send msg ns ≡ spins) ⊎ ((ms : List HttpNode) × (nodes_send msg ns ≡ ok ms))
unfolding nodes_send
nodes_send-or_spins msg [] = inr ([], refl)
nodes_send-or_spins msg (n ∷ ns) = elim (node_send-grows msg n) [
  | inl (full, _) ↦ inl (rw full refl)
  | inr (m, e, _, _) ↦ elim (nodes_send-or_spins msg ns) [
    | inl full ↦ inl (rw (e, full) refl)
    | inr (ms, f) ↦ inr (m ∷ ms, rw (e, f) refl)
  ]
]

-- A broadcast to nodes one of which has `k` messages waits, or goes through with `k` below the limit
-- and leaves some node with one more.
nodes_send-grows :
    (msg : Bytes) (k : ℕ) (ns : List HttpNode)
    → SomeNode k ns
    → (nodes_send msg ns ≡ spins)
      ⊎ ((ms : List HttpNode) × (nodes_send msg ns ≡ ok ms)
          × (k < http_max_send_queue)
          × SomeNode (suc k) ms)
unfolding nodes_send
nodes_send-grows msg k [] h = absurd h
nodes_send-grows msg k (n ∷ ns) (inl h) = elim (node_send-grows msg n) [
  | inl (full, _) ↦ inl (rw full refl)
  | inr (m, e, grown, room) ↦ elim (nodes_send-or_spins msg ns) [
    | inl full ↦ inl (rw (e, full) refl)
    | inr (ms, f) ↦ inr (m ∷ ms, rw (e, f) refl, omega arith, inl (omega arith))
  ]
]
nodes_send-grows msg k (n ∷ ns) (inr h) = elim (node_send-grows msg n) [
  | inl (full, _) ↦ inl (rw full refl)
  | inr (m, e, _, _) ↦ elim (nodes_send-grows msg k ns h) [
    | inl full ↦ inl (rw (e, full) refl)
    | inr (ms, f, few, some_more) ↦ inr (m ∷ ms, rw (e, f) refl, few, inr some_more)
  ]
]

module _ (match_string : Bytes → Bytes → Option Bool) (table : Bytes) where
  -- Some group that lets the table pass has a node with `k` messages at least.
  abbrev pub SomeGroup : ℕ → List HttpGroup → Type 0
  SomeGroup k [] = ⊥
  SomeGroup k (g ∷ gs) =
      ((match_filters match_string g.filter table ≡ true) × SomeNode k g.nodes) ⊎ SomeGroup k gs

  matched :
      (k : ℕ) (g : HttpGroup) (ns : List HttpNode)
      → g.nodes ≡ ns
      → match_filters match_string g.filter table ≡ true
      → SomeNode k ns
      → group_match match_string table g ≡ true
  unfolding group_match
  matched k g [] e f h = absurd h
  matched k g (n ∷ ns) e f h = rw (e, f) (ground arith)

  -- What a broadcast to one group does: the group stays, or its nodes take the message.
  sent_to : Bytes → HttpGroup → Outcome HttpGroup
  sent_to msg g = if group_match match_string table g then group_send msg g else ok g

  sent_to-or_spins :
      (msg : Bytes) (g : HttpGroup)
      → (sent_to msg g ≡ spins) ⊎ ((h : HttpGroup) × (sent_to msg g ≡ ok h))
  unfolding sent_to group_send
  sent_to-or_spins msg g = elim (Bool-cases (group_match match_string table g)) [
    | inr other ↦ inr (g, rw other refl)
    | inl fits ↦ elim (nodes_send-or_spins msg g.nodes) [
      | inl full ↦ inl (rw (fits, full) refl)
      | inr (ms, e) ↦ inr (record g { nodes = ms }, rw (fits, e) refl)
    ]
  ]

  groups_send-or_spins :
      (msg : Bytes) (gs : List HttpGroup)
      → (groups_send match_string table msg gs ≡ spins)
        ⊎ ((hs : List HttpGroup) × (groups_send match_string table msg gs ≡ ok hs))
  unfolding groups_send sent_to
  groups_send-or_spins msg [] = inr ([], refl)
  groups_send-or_spins msg (g ∷ gs) = elim (sent_to-or_spins msg g) [
    | inl full ↦ inl (rw full refl)
    | inr (h, e) ↦ elim (groups_send-or_spins msg gs) [
      | inl full ↦ inl (rw (e, full) refl)
      | inr (hs, f) ↦ inr (h ∷ hs, rw (e, f) refl)
    ]
  ]

  groups_send-grows :
      (msg : Bytes) (k : ℕ) (gs : List HttpGroup)
      → SomeGroup k gs
      → (groups_send match_string table msg gs ≡ spins)
        ⊎ ((hs : List HttpGroup) × (groups_send match_string table msg gs ≡ ok hs)
            × (k < http_max_send_queue)
            × SomeGroup (suc k) hs)
  unfolding groups_send sent_to group_send
  groups_send-grows msg k [] h = absurd h
  groups_send-grows msg k (g ∷ gs) (inl (f, h)) = elim (nodes_send-grows msg k g.nodes h) [
    | inl full ↦ inl (rw (matched k g g.nodes refl f h, full) refl)
    | inr (ms, e, few, more) ↦ elim (groups_send-or_spins msg gs) [
      | inl full ↦ inl (rw (matched k g g.nodes refl f h, e, full) refl)
      | inr (hs, q) ↦ inr (
        record g { nodes = ms } ∷ hs,
        rw (matched k g g.nodes refl f h, e, q) refl,
        few,
        inl (f, more),
      )
    ]
  ]
  groups_send-grows msg k (g ∷ gs) (inr h) = elim (sent_to-or_spins msg g) [
    | inl full ↦ inl (rw full refl)
    | inr (g', e) ↦ elim (groups_send-grows msg k gs h) [
      | inl full ↦ inl (rw (e, full) refl)
      | inr (hs, q, few, more) ↦ inr (g' ∷ hs, rw (e, q) refl, few, inr more)
    ]
  ]

  -- The broadcasts of a list of messages, one after the other.
  unfoldable pub send_each : List Bytes → HttpService → Outcome HttpService
  send_each [] s = ok s
  send_each (m ∷ ms) s = send_all match_string table m s >>= λ r. send_each ms r.1

  goes_through :
      (m : Bytes) (s : HttpService) (hs : List HttpGroup)
      → s.enabled ≡ true
      → groups_send match_string table m s.groups ≡ ok hs
      → send_all match_string table m s ≡ ok (true, record s { groups = hs })
  unfolding send_all
  goes_through m s hs on e =
      ap
        (λ b.
          if not b
          then ok (false, s)
          else (groups_send match_string table m s.groups >>= λ gs.
              ok (true, record s { groups = gs })))
        on
      ∙ ap (λ o. o >>= λ gs. ok (true, record s { groups = gs })) e

  fills :
      (ms : List Bytes) (k : ℕ) (s : HttpService)
      → s.enabled ≡ true
      → SomeGroup k s.groups
      → k ≤ http_max_send_queue
      → http_max_send_queue < k + length ms
      → send_each ms s ≡ spins
  unfolding send_each send_all
  fills [] k s on h few many = absurd (omega arith)
  fills (m ∷ ms) k s on h few many = elim (groups_send-grows m k s.groups h) [
    | inl full ↦ rw (on, full) refl
    | inr (hs, e, room, more) ↦
        ap (λ o. o >>= λ r. send_each ms r.1) (goes_through m s hs on e)
        ∙ fills ms (suc k) (record s { groups = hs }) on more (omega arith) (omega arith)
  ]

  -- After a reload that leaves the service enabled with a node in some group that lets the table pass,
  -- the broadcasts of more than 10000 messages of that table do not return, as long as nothing takes
  -- from the queues of the nodes that the reload made: only `Start` starts their goroutines.
  pub reload-starves :
      (config : Option (Bool × List HttpNodeConfig)) (ms : List Bytes) (s t : HttpService)
      → reload config s ≡ ok t
      → t.enabled ≡ true
      → SomeGroup 0 t.groups
      → http_max_send_queue < length ms
      → (reload config s >>= send_each ms) ≡ spins
  reload-starves config ms s t e on h many = rw e (fills ms 0 t on h (omega arith) (omega arith))
