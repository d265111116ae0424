-- ===== src/Delivery/Queues.antt =====
-- The service's side: what one node's queue and connection carry.
use wing_binlog_go.Prelude.{
  ℕ, suc, ◌+◌, ◌≤◌, ◌≡◌, refl, ap, sym, ◌∙◌, subst, Bool, true, false, not, List, [], ◌∷◌, ◌++◌,
  Bytes, length, length-append, Bool-cases, inl, inr, if◌then◌else◌, arith,
}
use mathlib.Core.List.{append_assoc, append-nil}
use wing_binlog_go.Subscribe.Node.{Node, send_round, take_message, message, tcp_max_send_queue}
use wing_binlog_go.Subscribe.Node.Queue.{node_of}

-- Room for `k` more messages in the queue, which is closed exactly when the node is.
pub record HasRoom (k : ℕ) (n : Node) : Type 0 where
  pub room : length n.send_queue + k ≤ tcp_max_send_queue
  pub channel : n.queue_closed ≡ not n.online

-- A node goes on, with `sent` behind what it wrote and queued.
pub record Moved (sent : List Bytes) (n m : Node) : Type 0 where
  pub online : m.online ≡ n.online
  pub topics : m.topics ≡ n.topics
  pub channel : m.queue_closed ≡ n.queue_closed
  pub grows : length m.send_queue ≤ length n.send_queue + length sent
  pub carried : m.out ++ m.send_queue ≡ (n.out ++ n.send_queue) ++ sent

unfoldable pub written : Node → Node
written n = node_of (send_round (message true) n)

taken-Moved :
    (queue : List Bytes) (n : Node)
    → n.send_queue ≡ queue
    → Moved [] n (node_of (take_message true queue n))
unfolding take_message
taken-Moved [] n e = record {
  online = refl;
  topics = refl;
  channel = refl;
  grows = omega arith;
  carried = sym (append-nil (n.out ++ n.send_queue));
}
taken-Moved (msg ∷ rest) n e = record {
  online = refl;
  topics = refl;
  channel = refl;
  grows = omega (arith, ap length e);
  carried =
      append_assoc n.out (msg ∷ []) rest
      ∙ ap (◌++◌ n.out) (sym e)
      ∙ sym (append-nil (n.out ++ n.send_queue));
}

pub same-Moved : (n : Node) → Moved [] n n
same-Moved n = record {
  online = refl;
  topics = refl;
  channel = refl;
  grows = omega arith;
  carried = sym (append-nil (n.out ++ n.send_queue));
}

pub written-online :
    (n : Node) → n.online ≡ true → written n ≡ node_of (take_message true n.send_queue n)
unfolding written send_round
written-online n up = ground arith

pub written-Moved : (n : Node) → Moved [] n (written n)
unfolding written send_round
written-Moved n = elim (Bool-cases n.online) [
  | inl up ↦ subst (Moved [] n) (sym (written-online n up)) (taken-Moved n.send_queue n refl)
  | inr down ↦
      let idle : written n ≡ n = ground arith in subst (Moved [] n) (sym idle) (same-Moved n)
]

queued-Moved :
    (msg : Bytes) (n : Node)
    → Moved (msg ∷ []) n (record n { send_queue = n.send_queue ++ msg ∷ [] })
queued-Moved msg n = record {
  online = refl;
  topics = refl;
  channel = refl;
  grows = omega (arith, length-append n.send_queue (msg ∷ []));
  carried = sym (append_assoc n.out n.send_queue (msg ∷ []));
}

pub Moved-trans : (a b : List Bytes) (n m k : Node) → Moved a n m → Moved b m k → Moved (a ++ b) n k
Moved-trans a b n m k x y = record {
  online = y.online ∙ x.online;
  topics = y.topics ∙ x.topics;
  channel = y.channel ∙ x.channel;
  grows = omega (arith, x.grows, y.grows, length-append a b);
  carried = y.carried ∙ ap (λ t. t ++ b) x.carried ∙ append_assoc (n.out ++ n.send_queue) a b;
}

pub HasRoom-Moved :
    (sent : List Bytes) (k : ℕ) (n m : Node)
    → Moved sent n m
    → HasRoom (length sent + k) n
    → HasRoom k m
HasRoom-Moved sent k n m v r = record {
  room = omega (arith, v.grows, r.room);
  channel = v.channel ∙ r.channel ∙ ap not (sym v.online);
}

pub less_room : (k m : ℕ) (n : Node) → k ≤ m → HasRoom m n → HasRoom k n
less_room k m n h r = record { room = omega (arith, r.room); channel = r.channel }

-- One message for a node, or none.
unfoldable pub one_if : Bool → Bytes → List Bytes
one_if b msg = if b then msg ∷ [] else []

length-one_if : (b : Bool) (msg : Bytes) → length (one_if b msg) ≤ 1
unfolding one_if
length-one_if b msg = ground arith

pub one_if-Moved :
    (b : Bool) (msg : Bytes) (n : Node)
    → Moved (one_if b msg) n (if b then record n { send_queue = n.send_queue ++ msg ∷ [] } else n)
unfolding one_if
one_if-Moved true msg n = queued-Moved msg n
one_if-Moved false msg n = same-Moved n

pub one_if-HasRoom :
    (b : Bool) (msg : Bytes) (k : ℕ) (n m : Node)
    → Moved (one_if b msg) n m
    → HasRoom (suc k) n
    → HasRoom k m
one_if-HasRoom b msg k n m v r =
    HasRoom-Moved (one_if b msg) k n m v
      (less_room (length (one_if b msg) + k) (suc k) n (omega (arith, length-one_if b msg)) r)
