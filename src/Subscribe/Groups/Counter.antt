-- ===== src/Subscribe/Groups/Counter.antt =====
-- The published number of connections is the number of online nodes.
use wing_binlog_go.Prelude.{
  ℕ, zero, suc, ◌+◌, ◌^◌, ◌<◌, ◌≤◌, ◌≡◌, refl, ap, subst, ltb, ltb→lt, length, inl, inr, some, List,
  [], ◌∷◌, Bool-cases, >>=-eq-ok, ok-injective, ◌==◌, if◌then◌else◌, arith, Bytes, Outcome, ok,
  ◌>>=◌,
}
use wing_binlog_go.Subscribe.Node.{Node, new_node, close, on_message}
use wing_binlog_go.Subscribe.Node.Life.{Life, bit, on_message-Life}
use wing_binlog_go.Subscribe.Groups.{
  Groups, update, new_connect, disconnect, remove, close_node, on_connect, deliver,
}

-- How many of the nodes below `k` are online.
unfoldable pub online_count : ℕ → (ℕ → Node) → ℕ
online_count zero nodes = 0
online_count (suc k) nodes = online_count k nodes + bit (nodes k).online

online_count-le : (k : ℕ) (nodes : ℕ → Node) → online_count k nodes ≤ k
unfolding online_count
online_count-le zero nodes = omega arith
online_count-le (suc k) nodes = ground (arith, online_count-le k nodes)

online_count-above :
    (k id : ℕ) (nodes : ℕ → Node) (n : Node)
    → k ≤ id
    → online_count k (update nodes id n) ≡ online_count k nodes
unfolding online_count
online_count-above zero id nodes n h = refl
online_count-above (suc k) id nodes n h = ground (arith, online_count-above k id nodes n)

online_count-update :
    (k id : ℕ) (nodes : ℕ → Node) (n : Node)
    → id < k
    → online_count k (update nodes id n) + bit (nodes id).online
      ≡ online_count k nodes + bit n.online
unfolding online_count
online_count-update zero id nodes n h = absurd (omega arith)
online_count-update (suc k) id nodes n h =
    ground (arith, online_count-update k id nodes n, online_count-above k id nodes n)

-- The registered counter is the number of online nodes, and it is far from wrapping.
record IsCounted (gs : Groups) : Type 0 where
  registered : gs.registry ≡ some (online_count gs.next gs.nodes)
  small : gs.next < 2 ^ 63

on_connect-IsCounted :
    (gs : Groups) → suc gs.next < 2 ^ 63 → IsCounted gs → IsCounted (on_connect gs)
unfolding on_connect new_connect new_node online_count
on_connect-IsCounted gs h c = record {
  registered = rw c.registered (
      ground (
        arith,
        online_count-above gs.next gs.next gs.nodes new_node,
        online_count-le gs.next gs.nodes,
      ));
  small = h;
}

close_node-IsCounted :
    (id : ℕ) (gs : Groups) → id < gs.next → IsCounted gs → IsCounted (close_node id gs)
unfolding close_node remove disconnect close
close_node-IsCounted id gs h c = elim (Bool-cases (gs.nodes id).online) [
  | inl up ↦ rw up (record {
    registered = rw c.registered (
        ground (
          arith,
          online_count-update gs.next id gs.nodes (close (gs.nodes id)),
          online_count-le gs.next gs.nodes,
        ));
    small = c.small;
  })
  | inr down ↦ rw down c
]

-- A node that went offline is removed, any other keeps the counter.
served-IsCounted :
    (id : ℕ) (gs : Groups) (n : Node)
    → id < gs.next
    → Life (gs.nodes id) n
    → IsCounted gs
    → let hs = record gs { nodes = update gs.nodes id n } in
      IsCounted (if (gs.nodes id).removals == n.removals then hs else remove id hs)
unfolding remove disconnect
served-IsCounted id gs n h l c = elim (Bool-cases ((gs.nodes id).removals == n.removals)) [
  | inl quiet ↦
      rw quiet (record {
        registered = rw c.registered (ap some (ground (arith, counted)));
        small = c.small;
      })
  | inr gone ↦ rw gone (record {
    registered =
        rw c.registered (ap some (ground (arith, counted, online_count-le gs.next gs.nodes)));
    small = c.small;
  })
]
  where
    counted :
        online_count gs.next (update gs.nodes id n) + bit (gs.nodes id).online
        ≡ online_count gs.next gs.nodes + bit n.online
    counted = online_count-update gs.next id gs.nodes n h

-- A registered service before the first client.
unfoldable pub no_clients : Groups
no_clients = record {
  nodes = λ id. new_node;
  next = 0;
  g = record { live = []; spare = [] };
  registry = some 0;
}

-- What happens to the groups: a client connects, a chunk arrives from one, or one is closed by its
-- reader or its writer.
pub data Happening : Type 0 where
  connects : Happening
  sends : ℕ → Bytes → Happening
  drops : ℕ → Happening

module _ (to_lower : Bytes → Bytes) where
  deliver-IsCounted :
      (id : ℕ) (msg : Bytes) (gs hs : Groups)
      → id < gs.next
      → deliver to_lower id msg gs ≡ ok hs
      → IsCounted gs
      → IsCounted hs
  unfolding deliver remove disconnect
  deliver-IsCounted id msg gs hs h e c =
      let (n, en, eh) = >>=-eq-ok (on_message to_lower msg (gs.nodes id)) _ hs e in
      subst IsCounted (ok-injective eh)
        (served-IsCounted id gs n h (on_message-Life to_lower msg (gs.nodes id) n en) c)

  unfoldable pub happen : Happening → Groups → Outcome Groups
  happen connects gs = ok (on_connect gs)
  happen (sends id msg) gs = if ltb id gs.next then deliver to_lower id msg gs else ok gs
  happen (drops id) gs = if ltb id gs.next then ok (close_node id gs) else ok gs

  unfoldable pub happen_all : List Happening → Groups → Outcome Groups
  happen_all [] gs = ok gs
  happen_all (h ∷ hs) gs = happen h gs >>= λ g. happen_all hs g

  happen-next : (h : Happening) (gs hs : Groups) → happen h gs ≡ ok hs → hs.next ≤ suc gs.next
  unfolding happen on_connect deliver close_node remove
  happen-next connects gs hs e = ground arith
  happen-next (sends id msg) gs hs e = ground arith
  happen-next (drops id) gs hs e = ground arith

  happen-IsCounted :
      (h : Happening) (gs hs : Groups)
      → suc gs.next < 2 ^ 63
      → happen h gs ≡ ok hs
      → IsCounted gs
      → IsCounted hs
  unfolding happen
  happen-IsCounted connects gs hs b e c =
      subst IsCounted (ok-injective e) (on_connect-IsCounted gs b c)
  happen-IsCounted (sends id msg) gs hs b e c = elim (Bool-cases (ltb id gs.next)) [
    | inl known ↦ deliver-IsCounted id msg gs hs (ltb→lt id gs.next known) (rw known at e) c
    | inr unknown ↦ subst IsCounted (ok-injective (rw unknown at e)) c
  ]
  happen-IsCounted (drops id) gs hs b e c = elim (Bool-cases (ltb id gs.next)) [
    | inl known ↦
        subst IsCounted (ok-injective (rw known at e))
          (close_node-IsCounted id gs (ltb→lt id gs.next known) c)
    | inr unknown ↦ subst IsCounted (ok-injective (rw unknown at e)) c
  ]

  happen_all-IsCounted :
      (es : List Happening) (gs hs : Groups)
      → gs.next + length es < 2 ^ 63
      → happen_all es gs ≡ ok hs
      → IsCounted gs
      → IsCounted hs
  unfolding happen_all
  happen_all-IsCounted [] gs hs b e c = subst IsCounted (ok-injective e) c
  happen_all-IsCounted (h ∷ es) gs hs b e c =
      let (k, ek, ehs) = >>=-eq-ok (happen h gs) (happen_all es) hs e in
      happen_all-IsCounted es k hs (omega (arith, happen-next h gs k ek)) ehs
        (happen-IsCounted h gs k (omega arith) ek c)

  -- From a registered service with no client on, after any history of fewer than 2^63 events that
  -- does not panic or wait, the counter that is published is the number of nodes that are online.
  pub happen_all-registry :
      (es : List Happening) (hs : Groups)
      → length es < 2 ^ 63
      → happen_all es no_clients ≡ ok hs
      → hs.registry ≡ some (online_count hs.next hs.nodes)
  unfolding no_clients online_count
  happen_all-registry es hs b e =
      (happen_all-IsCounted es no_clients hs (omega arith) e
        (record { registered = refl; small = omega arith })).registered
