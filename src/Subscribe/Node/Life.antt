-- ===== src/Subscribe/Node/Life.antt =====
-- A node goes offline at most once, and its removal from the groups is called exactly then.
use wing_binlog_go.Prelude.{
  ℕ, zero, suc, ◌+◌, ◌≤◌, ◌≡◌, refl, Bool, true, false, not, [], ◌++◌, ◌==◌, if◌then◌else◌, arith,
  ltb, length, drop, slice, Bytes, Outcome, ok, panic, spins, no_fuel, ◌>>=◌,
}
use wing_binlog_go.Wire.{read_length, read_cmd}
use wing_binlog_go.Stream.{Round, stop, again, drain}
use wing_binlog_go.Subscribe.Node.{
  Node, close, async_send, on_set_pro_event, has_cmd, cmd_set_pro, cmd_tick, pack_data_tick_ok,
  unsupported, dispatch, round, on_message,
}

abbrev pub bit : Bool → ℕ
bit true = 1
bit false = 0

-- A node keeps its status and its count of removals, or goes offline and is removed once.
abbrev pub Life : Node → Node → Type 0
Life n m = (bit m.online + m.removals ≡ bit n.online + n.removals) × (n.removals ≤ m.removals)

pub close-Life : (n : Node) → Life n (close n)
unfolding close
close-Life n = ground arith

module _ (to_lower : Bytes → Bytes) where
  event-Life :
      (content : Bytes) (n m : Node) → on_set_pro_event to_lower content n ≡ ok m → Life n m
  unfolding on_set_pro_event
  event-Life content n m e = ground arith

  send-Life : (msg : Bytes) (n m : Node) → async_send msg n ≡ ok m → Life n m
  unfolding async_send
  send-Life msg n m e = ground arith

  node_of : Round Node → Node
  node_of (stop m) = m
  node_of (again m) = m

  abbrev RoundLife : Node → Outcome (Round Node) → Type 0
  RoundLife n (ok r) = Life n (node_of r)
  RoundLife n panic = Unit {0}
  RoundLife n spins = Unit {0}
  RoundLife n no_fuel = Unit {0}

  RoundLife->>= :
      {A : Type 0} (n : Node) (m : Outcome A) (f : A → Outcome (Round Node))
      → ((a : A) → RoundLife n (f a))
      → RoundLife n (m >>= f)
  RoundLife->>= n (ok a) f h = h a
  RoundLife->>= n panic f h = tt
  RoundLife->>= n spins f h = tt
  RoundLife->>= n no_fuel f h = tt

  RoundLife-if :
      (n : Node) (t : Bool) (a b : Outcome (Round Node))
      → RoundLife n a
      → RoundLife n b
      → RoundLife n (if t then a else b)
  RoundLife-if n true a b h k = h
  RoundLife-if n false a b h k = k

  dispatch-Life :
      (clen cmd : ℕ) (content : Bytes) (n : Node)
      → RoundLife n (dispatch to_lower clen cmd content n)
  unfolding dispatch node_of
  dispatch-Life clen cmd content n =
      RoundLife-if n (cmd == cmd_set_pro) _ _
        (again-Life (on_set_pro_event to_lower content n) (event-Life content n))
        (RoundLife-if n (cmd == cmd_tick) _ _
          (again-Life (async_send pack_data_tick_ok n) (send-Life pack_data_tick_ok n))
          (stop-Life (async_send (unsupported cmd) n) (send-Life (unsupported cmd) n)))
    where
      again-Life :
          (o : Outcome Node)
          → ((m : Node) → o ≡ ok m → Life n m)
          → RoundLife n (o >>= λ m. ok (again (record m { recv_buf = drop (clen + 4) m.recv_buf })))
      again-Life (ok m) h = h m refl
      again-Life panic h = tt
      again-Life spins h = tt
      again-Life no_fuel h = tt

      stop-Life :
          (o : Outcome Node)
          → ((m : Node) → o ≡ ok m → Life n m)
          → RoundLife n (o >>= λ m. ok (stop (record m { recv_buf = [] })))
      stop-Life (ok m) h = h m refl
      stop-Life panic h = tt
      stop-Life spins h = tt
      stop-Life no_fuel h = tt

  round-RoundLife : (n : Node) → RoundLife n (round to_lower n)
  unfolding round node_of
  round-RoundLife n = RoundLife-if n (ltb (length n.recv_buf) 6) _ _ (omega arith) (
      RoundLife->>= n (read_length n.recv_buf) _ λ clen.
        RoundLife-if n (ltb (length n.recv_buf) (clen + 4)) _ _ (omega arith) (
          RoundLife->>= n (read_cmd n.recv_buf) _ λ cmd.
            RoundLife-if n (not (has_cmd cmd)) _ _ (omega arith) (
              RoundLife->>= n (slice n.recv_buf 6 (clen + 4)) _
                λ content. dispatch-Life clen cmd content n)))

  round-Life : (n : Node) (r : Round Node) → round to_lower n ≡ ok r → Life n (node_of r)
  round-Life n r e = rw e at (round-RoundLife n)

  drain-Life : (fuel : ℕ) (n m : Node) → drain (round to_lower) fuel n ≡ ok m → Life n m
  unfolding drain node_of
  drain-Life zero n m e = cc
  drain-Life (suc fuel) n m e = next (round to_lower n) (round-Life n) (λ k. drain-Life fuel k m) e
    where
      next :
          (r : Outcome (Round Node))
          → ((k : Round Node) → r ≡ ok k → Life n (node_of k))
          → ((k : Node) → drain (round to_lower) fuel k ≡ ok m → Life k m)
          → (r >>= λ r. elim r [ stop t ↦ ok t | again t ↦ drain (round to_lower) fuel t ]) ≡ ok m
          → Life n m
      next (ok (stop k)) l ih e = ground (arith, l (stop k) refl)
      next (ok (again k)) l ih e = omega (arith, ih k e, l (again k) refl)
      next panic l ih e = cc
      next spins l ih e = cc
      next no_fuel l ih e = cc

  -- A message that a node takes in leaves it as it was on line, or takes it off line and out of the
  -- groups once: the status bit and the number of removals keep their sum, and no removal is undone.
  pub on_message-Life : (msg : Bytes) (n m : Node) → on_message to_lower msg n ≡ ok m → Life n m
  unfolding on_message
  on_message-Life msg n m e = drain-Life (suc _) (record n { recv_buf = n.recv_buf ++ msg }) m e
