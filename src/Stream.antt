-- ===== src/Stream.antt =====
-- The read loop that the three TCP readers share: services/subscribe/node.go, library/control/node.go
-- and library/client/tcp.go append what arrives to a buffer and take complete frames off its front.
-- `Framing` is the contract of one reader, and the child proves what follows from it.
pub mod Chunks
use wing_binlog_go.Prelude.{
  ℕ, zero, suc, ◌+◌, ◌<◌, ◌≡◌, List, [], ◌∷◌, ◌++◌, Outcome, ok, no_fuel, ◌>>=◌, Bytes, length,
}

-- One round of the loop returns from the reader, or goes round again.
pub data Round {ℓ} (S : Type ℓ) : Type ℓ where
  stop : S → Round S
  again : S → Round S

-- `for { … }` with fuel.
unfoldable pub drain {ℓ} : {S : Type ℓ} → (S → Outcome (Round S)) → ℕ → S → Outcome S
drain round zero s = no_fuel
drain round (suc fuel) s = round s >>= λ r. elim r [ stop t ↦ ok t | again t ↦ drain round fuel t ]

-- A reader: the state `S` with its buffer, and the requests `R` that a well-behaved peer sends.
pub record Framing (S R : Type 0) : Type 1 where
  pub round : S → Outcome (Round S)
  pub buf : S → Bytes
  pub put : S → Bytes → S
  pub frame : R → Bytes
  pub Fits : R → Type 0
  pub handle : S → R → Outcome S
  -- The buffer is a field of the state, and handling a request does not look at it.
  pub buf-put : (s : S) (b : Bytes) → buf (put s b) ≡ b
  pub put-put : (s : S) (a b : Bytes) → put (put s a) b ≡ put s b
  pub put-buf : (s : S) → put s (buf s) ≡ s
  pub handle-put :
      (s : S) (b : Bytes) (r : R) → handle (put s b) r ≡ (handle s r >>= λ t. ok (put t b))
  -- A frame at the front of the buffer is taken off and handled.
  pub consume :
      (s : S) (r : R) (rest : Bytes)
      → Fits r
      → round (put s (frame r ++ rest)) ≡ (handle s r >>= λ t. ok (again (put t rest)))
  -- On an empty buffer, or a frame that has not arrived whole, the reader waits for more.
  pub wait_empty : (s : S) → round (put s []) ≡ ok (stop (put s []))
  pub wait_partial :
      (s : S) (r : R) (p q : Bytes) (x : ℕ)
      → Fits r
      → p ++ (x ∷ q) ≡ frame r
      → round (put s p) ≡ ok (stop (put s p))
  pub frame-pos : (r : R) → 0 < length (frame r)
