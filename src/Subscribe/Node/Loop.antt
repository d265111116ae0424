-- ===== src/Subscribe/Node/Loop.antt =====
-- `on_message` on any input: the loop ends, and a header with a length below two is a crash.
use wing_binlog_go.Prelude.{
  ℕ, zero, suc, ◌+◌, ◌<◌, ◌≡◌, ◌≢◌, refl, true, [], ◌∷◌, ◌++◌, Outcome, ok, panic, spins, no_fuel,
  ◌>>=◌, Bytes, length, drop, length-drop, arith,
}
use wing_binlog_go.Wire.{read_length, read_cmd}
use wing_binlog_go.Wire.Word.{word16, word32}
use wing_binlog_go.Stream.{Round, stop, again, drain}
use wing_binlog_go.Subscribe.Node.{
  Node, has_cmd, async_send, on_set_pro_event, dispatch, round, on_message,
}

module _ (to_lower : Bytes → Bytes) where
  on_set_pro_event-recv_buf :
      (content : Bytes) (n m : Node)
      → on_set_pro_event to_lower content n ≡ ok m
      → m.recv_buf ≡ n.recv_buf
  unfolding on_set_pro_event
  on_set_pro_event-recv_buf content n m e = ground arith

  async_send-recv_buf :
      (msg : Bytes) (n m : Node) → async_send msg n ≡ ok m → m.recv_buf ≡ n.recv_buf
  unfolding async_send
  async_send-recv_buf msg n m e = ground arith

  dispatch-recv_buf :
      (clen cmd : ℕ) (content : Bytes) (n m : Node)
      → dispatch to_lower clen cmd content n ≡ ok (again m)
      → m.recv_buf ≡ drop (clen + 4) n.recv_buf
  unfolding dispatch on_set_pro_event async_send
  dispatch-recv_buf clen cmd content n m e = ground arith

  round-ne-no_fuel : (n : Node) → round to_lower n ≢ no_fuel
  unfolding round dispatch on_set_pro_event async_send read_length read_cmd
  round-ne-no_fuel n e = ground arith

  -- A round that goes on has shortened the buffer.
  round-shrinks :
      (n m : Node) → round to_lower n ≡ ok (again m) → length m.recv_buf < length n.recv_buf
  unfolding round read_length read_cmd
  round-shrinks n m e = grind (arith, dispatch-recv_buf, length-drop)

  drain-ne-no_fuel :
      (fuel : ℕ) (n : Node) → length n.recv_buf < fuel → drain (round to_lower) fuel n ≢ no_fuel
  unfolding drain
  drain-ne-no_fuel zero n h = absurd (omega arith)
  drain-ne-no_fuel (suc fuel) n h =
      next (round to_lower n) (round-ne-no_fuel n) (round-shrinks n) (λ m. drain-ne-no_fuel fuel m)
    where
      next :
          (r : Outcome (Round Node))
          → r ≢ no_fuel
          → ((m : Node) → r ≡ ok (again m) → length m.recv_buf < length n.recv_buf)
          → ((m : Node) → length m.recv_buf < fuel → drain (round to_lower) fuel m ≢ no_fuel)
          → (r >>= λ r. elim r [ stop t ↦ ok t | again t ↦ drain (round to_lower) fuel t ])
            ≢ no_fuel
      next (ok (stop m)) ends shrinks ih e = cc
      next (ok (again m)) ends shrinks ih e = ih m (omega (arith, shrinks m refl)) e
      next panic ends shrinks ih e = cc
      next spins ends shrinks ih e = cc
      next no_fuel ends shrinks ih e = ends refl

  -- The fuel of `on_message` is enough: on every message the loop ends, unless the call waits for room
  -- in the queue.
  pub on_message-ne-no_fuel : (msg : Bytes) (n : Node) → on_message to_lower msg n ≢ no_fuel
  unfolding on_message
  on_message-ne-no_fuel msg n =
      drain-ne-no_fuel (suc (length (n.recv_buf ++ msg)))
        (record n { recv_buf = n.recv_buf ++ msg }) (omega arith)

  -- A header whose length is below two, with a known command, makes a node with an empty buffer panic:
  -- the slice of the content runs from 6 to at most 5.
  pub on_message-short_length :
      (b0 b1 b2 b3 b4 b5 : ℕ) (rest : Bytes) (n : Node)
      → n.recv_buf ≡ []
      → word32 b0 b1 b2 b3 < 2
      → has_cmd (word16 b4 b5) ≡ true
      → on_message to_lower (b0 ∷ b1 ∷ b2 ∷ b3 ∷ b4 ∷ b5 ∷ rest) n ≡ panic
  unfolding on_message drain round read_length read_cmd
  on_message-short_length b0 b1 b2 b3 b4 b5 rest n e h known = rw e (ground arith)
