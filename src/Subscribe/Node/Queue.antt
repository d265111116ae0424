-- ===== src/Subscribe/Node/Queue.antt =====
-- The send queue between `asyncSend` and the goroutine that writes.
use wing_binlog_go.Prelude.{
  ◌≤◌, ◌<◌, ◌≡◌, refl, ap, sym, ◌∙◌, true, List, [], ◌∷◌, ◌++◌, Outcome, ok, panic, ◌>>=◌,
  >>=-eq-ok, ok-injective, Bytes, length, length-append, arith,
}
use mathlib.Core.List.{append_assoc, append-nil}
use wing_binlog_go.Stream.{Round, stop, again}
use wing_binlog_go.Subscribe.Node.{
  Node, close, async_send, push_queue, take_message, send_round, message, tcp_max_send_queue,
}

-- What producers and the writer do with an open connection.
pub data Act : Type 0 where
  produce : Bytes → Act
  write : Act

abbrev pub node_of : Round Node → Node
node_of (stop n) = n
node_of (again n) = n

unfoldable pub act : Act → Node → Outcome Node
unfolding async_send send_round
act (produce msg) n = async_send msg n
act write n = ok (node_of (send_round (message true) n))

unfoldable pub acts : List Act → Node → Outcome Node
acts [] n = ok n
acts (a ∷ as') n = act a n >>= λ m. acts as' m

-- The messages that are produced, in order.
pub produced : List Act → List Bytes
produced [] = []
produced (produce msg ∷ as') = msg ∷ produced as'
produced (write ∷ as') = produced as'

pub write-out :
    (queue : List Bytes) (n : Node)
    → n.send_queue ≡ queue
    → (node_of (take_message true queue n)).out ++ (node_of (take_message true queue n)).send_queue
      ≡ n.out ++ n.send_queue
unfolding take_message
write-out [] n e = refl
write-out (msg ∷ rest) n e = append_assoc n.out (msg ∷ []) rest ∙ ap (◌++◌ n.out) (sym e)

act-out :
    (a : Act) (n m : Node)
    → n.online ≡ true
    → act a n ≡ ok m
    → (m.online ≡ true) × (m.out ++ m.send_queue ≡ (n.out ++ n.send_queue) ++ produced (a ∷ []))
unfolding act produced take_message
act-out (produce msg) n m up e = ground (arith, append_assoc n.out n.send_queue (msg ∷ []))
act-out write n m up e =
    ground (arith, write-out n.send_queue n refl, append-nil (n.out ++ n.send_queue))

produced-cons : (a : Act) (as' : List Act) → produced (a ∷ as') ≡ produced (a ∷ []) ++ produced as'
unfolding produced
produced-cons (produce msg) as' = refl
produced-cons write as' = refl

take_message-length :
    (queue : List Bytes) (n : Node)
    → n.send_queue ≡ queue
    → length (node_of (take_message true queue n)).send_queue ≤ length n.send_queue
unfolding take_message
take_message-length [] n e = omega arith
take_message-length (msg ∷ rest) n e = omega (arith, ap length e)

-- What the connection carried and what waits in the queue are, in this order, what stood there before
-- and the messages that were produced: none is lost, doubled or overtaken. This is of any sequence
-- of `asyncSend` and successful writes of an online node in which no call waits for room.
pub acts-out :
    (as' : List Act) (n m : Node)
    → n.online ≡ true
    → acts as' n ≡ ok m
    → m.out ++ m.send_queue ≡ (n.out ++ n.send_queue) ++ produced as'
unfolding acts act produced
acts-out [] n m up e = rw (append-nil (n.out ++ n.send_queue), ok-injective e)
acts-out (a ∷ as') n m up e =
    let (k, ek, em) = >>=-eq-ok (act a n) (acts as') m e in
    let (upk, h) = act-out a n k up ek in
    acts-out as' k m upk em
    ∙ rw (h, produced-cons a as')
        (append_assoc (n.out ++ n.send_queue) (produced (a ∷ [])) (produced as'))

-- The queue never holds more than its channel has room for.
pub act-bound :
    (a : Act) (n m : Node)
    → length n.send_queue ≤ tcp_max_send_queue
    → act a n ≡ ok m
    → length m.send_queue ≤ tcp_max_send_queue
unfolding act
act-bound (produce msg) n m h e = ground (arith, length-append n.send_queue (msg ∷ []))
act-bound write n m h e = ground (arith, take_message-length n.send_queue n refl)

-- Between the test of `asyncSend` and its send to the channel a `close` may come: then the send panics,
-- for every online node whose queue has room.
pub push_queue-close :
    (msg : Bytes) (n : Node)
    → n.online ≡ true
    → length n.send_queue < tcp_max_send_queue
    → push_queue msg (close n) ≡ panic
unfolding push_queue close
push_queue-close msg n on h = ground arith
