-- ===== src/Subscribe/Node/Frames.antt =====
-- `on_message` as a reader of frames: what a subscriber sends, and how the node answers.
use wing_binlog_go.Prelude.{
  ℕ, ◌+◌, ◌<◌, ◌^◌, ◌≡◌, refl, ap, sym, ◌∙◌, true, inl, inr, List, [], ◌∷◌, ◌++◌, Outcome, ok,
  panic, spins, no_fuel, ◌>>=◌, slice, Bytes, length, drop, take-length, ltb, ltb→le, ◌==◌,
  if◌then◌else◌, arith, Bool-cases, All, lt→ltb,
}
use mathlib.Core.Path.{fun_ext}
use wing_binlog_go.Wire.{pack}
use wing_binlog_go.Wire.RoundTrip.{
  length-header, length-pack, read_length-pack, read_cmd-pack, slice-pack, drop-pack,
  read_length-partial, length-whole, length-partial,
}
use wing_binlog_go.Stream.{Round, stop, again, Framing}
use wing_binlog_go.Stream.Chunks.{read, read_all, read_all-frames, handle_all, frames, concat}
use wing_binlog_go.Subscribe.Node.{
  Node, cmd_set_pro, cmd_tick, flag_set_pro, flag_ping, has_cmd, close, send, async_send,
  on_set_pro, on_set_pro_event, dispatch, round, on_message, pack_data_tick_ok, pack_data_set_pro,
}

-- What the server's own client sends: a flagged request (a topic or a ping) or a heartbeat.
pub data Request : Type 0 where
  pro : ℕ → Bytes → Request
  tick : Bytes → Request

unfoldable pub frame : Request → Bytes
frame (pro flag content) = pack cmd_set_pro (flag ∷ content)
frame (tick content) = pack cmd_tick content

abbrev pub Fits : Request → Type 0
Fits (pro flag content) = length content + 3 < 2 ^ 32
Fits (tick content) = length content + 2 < 2 ^ 32

abbrev with_buf : Node → Bytes → Node
with_buf n b = record n { recv_buf = b }

unfoldable pub stream : List Request → Bytes
stream [] = []
stream (r ∷ rs) = frame r ++ stream rs

module _ (to_lower : Bytes → Bytes) where
  -- How a node serves one request.
  unfoldable pub serve : Node → Request → Outcome Node
  unfolding on_set_pro send close async_send
  serve n (pro flag content) = ok (
      if flag == flag_set_pro
      then on_set_pro to_lower content n
      else if flag == flag_ping
      then close (send pack_data_set_pro n)
      else close n)
  serve n (tick content) = async_send pack_data_tick_ok n

  serve-put :
      (n : Node) (b : Bytes) (r : Request)
      → serve (with_buf n b) r ≡ (serve n r >>= λ m. ok (with_buf m b))
  unfolding serve
  serve-put n b (pro flag content) = ground arith
  serve-put n b (tick content) = ground arith

  -- A known command whose frame is whole comes to the switch.
  round-pack :
      (n : Node) (cmd : ℕ) (msg rest : Bytes)
      → cmd < 2 ^ 16
      → has_cmd cmd ≡ true
      → length msg + 2 < 2 ^ 32
      → round to_lower (with_buf n (pack cmd msg ++ rest))
        ≡ dispatch to_lower (length msg + 2) cmd msg (with_buf n (pack cmd msg ++ rest))
  unfolding round
  round-pack n cmd msg rest hc known hm = rw (
    length-header cmd msg hm rest,
    read_length-pack cmd msg hm rest,
    length-whole cmd msg hm rest,
    read_cmd-pack cmd msg hm rest hc,
    known,
    slice-pack cmd msg hm rest,
  )

  round-partial :
      (n : Node) (cmd : ℕ) (msg p q : Bytes) (x : ℕ)
      → length msg + 2 < 2 ^ 32
      → p ++ (x ∷ q) ≡ pack cmd msg
      → round to_lower (with_buf n p) ≡ ok (stop (with_buf n p))
  unfolding round
  round-partial n cmd msg p q x hm e = elim (Bool-cases (ltb (length p) 6)) [
    | inl short ↦ rw short
    | inr long ↦ rw (
      long,
      read_length-partial cmd msg hm p q x e (ltb→le (length p) 6 long),
      lt→ltb (length p) (length msg + 2 + 4) (length-partial cmd msg hm p q x e),
    )
  ]

  event-serve :
      (n : Node) (flag : ℕ) (content : Bytes)
      → on_set_pro_event to_lower (flag ∷ content) n ≡ serve n (pro flag content)
  unfolding serve on_set_pro_event
  event-serve n flag content = rw part (ground arith)
    where
      part : slice (flag ∷ content) 1 (length (flag ∷ content)) ≡ ok content
      part = ground (arith, take-length content)

  abbrev again_from : ℕ → Outcome Node → Outcome (Round Node)
  again_from k m = m >>= λ t. ok (again (with_buf t (drop k t.recv_buf)))

  -- The buffer after a served request is the one before it, less the frame.
  finish :
      (m : Outcome Node) (b rest : Bytes) (k : ℕ)
      → drop k b ≡ rest
      → again_from k (m >>= λ t. ok (with_buf t b)) ≡ (m >>= λ t. ok (again (with_buf t rest)))
  finish (ok t) b rest k e = ap (λ r. ok (again (with_buf t r))) e
  finish panic b rest k e = refl
  finish spins b rest k e = refl
  finish no_fuel b rest k e = refl

  consume :
      (n : Node) (r : Request) (rest : Bytes)
      → Fits r
      → round to_lower (with_buf n (frame r ++ rest))
        ≡ (serve n r >>= λ m. ok (again (with_buf m rest)))
  unfolding frame dispatch has_cmd serve
  consume n (pro flag content) rest h =
      let msg = flag ∷ content in
      let b = pack cmd_set_pro msg ++ rest in
      let k = length msg + 2 + 4 in
      round-pack n cmd_set_pro msg rest (omega arith) refl (omega arith)
      ∙ ap (again_from k)
          (event-serve (with_buf n b) flag content ∙ serve-put n b (pro flag content))
      ∙ finish (serve n (pro flag content)) b rest k (drop-pack cmd_set_pro msg (omega arith) rest)
  consume n (tick content) rest h =
      let b = pack cmd_tick content ++ rest in
      let k = length content + 2 + 4 in
      round-pack n cmd_tick content rest (omega arith) refl h
      ∙ ap (again_from k) (serve-put n b (tick content))
      ∙ finish (serve n (tick content)) b rest k (drop-pack cmd_tick content h rest)

  wait_partial :
      (n : Node) (r : Request) (p q : Bytes) (x : ℕ)
      → Fits r
      → p ++ (x ∷ q) ≡ frame r
      → round to_lower (with_buf n p) ≡ ok (stop (with_buf n p))
  unfolding frame
  wait_partial n (pro flag content) p q x h e =
      round-partial n cmd_set_pro (flag ∷ content) p q x (omega arith) e
  wait_partial n (tick content) p q x h e = round-partial n cmd_tick content p q x h e

  wait_empty : (n : Node) → round to_lower (with_buf n []) ≡ ok (stop (with_buf n []))
  unfolding round
  wait_empty n = refl

  frame-pos : (r : Request) → 0 < length (frame r)
  unfolding frame
  frame-pos (pro flag content) = omega (arith, length-pack cmd_set_pro (flag ∷ content))
  frame-pos (tick content) = omega (arith, length-pack cmd_tick content)

  framing : Framing Node Request
  framing = record {
    round = round to_lower;
    buf = λ n. n.recv_buf;
    put = with_buf;
    frame = frame;
    Fits = Fits;
    handle = serve;
    buf-put = λ n b. refl;
    put-put = λ n a b. refl;
    put-buf = λ n. refl;
    handle-put = serve-put;
    consume = consume;
    wait_empty = wait_empty;
    wait_partial = wait_partial;
    frame-pos = frame-pos;
  }

  -- `onMessage` for each chunk that the connection delivers.
  unfoldable pub on_messages : List Bytes → Node → Outcome Node
  on_messages [] n = ok n
  on_messages (c ∷ cs) n = on_message to_lower c n >>= λ m. on_messages cs m

  unfoldable pub serve_all : List Request → Node → Outcome Node
  serve_all [] n = ok n
  serve_all (r ∷ rs) n = serve n r >>= λ m. serve_all rs m

  on_messages-read : (cs : List Bytes) (n : Node) → on_messages cs n ≡ read_all framing n cs
  unfolding on_messages read_all read on_message framing
  on_messages-read [] n = refl
  on_messages-read (c ∷ cs) n = ap (λ k. read framing n c >>= k) (fun_ext (on_messages-read cs))

  serve_all-handle : (rs : List Request) (n : Node) → serve_all rs n ≡ handle_all framing n rs
  unfolding serve_all handle_all framing
  serve_all-handle [] n = refl
  serve_all-handle (r ∷ rs) n = ap (λ k. serve n r >>= k) (fun_ext (serve_all-handle rs))

  stream-frames : (rs : List Request) → stream rs ≡ frames framing rs
  unfolding stream frames framing
  stream-frames [] = refl
  stream-frames (r ∷ rs) = ap (◌++◌ (frame r)) (stream-frames rs)

  -- A node that has nothing in its buffer serves the requests of a stream of frames one after the
  -- other, and its buffer is empty again, however the stream is cut into chunks. The length of a
  -- request fits the four bytes of its header.
  pub on_messages-stream :
      (cs : List Bytes) (rs : List Request) (n : Node)
      → All Fits rs
      → n.recv_buf ≡ []
      → concat cs ≡ stream rs
      → on_messages cs n ≡ (serve_all rs n >>= λ m. ok (record m { recv_buf = [] }))
  unfolding framing
  on_messages-stream cs rs n fit e h =
      on_messages-read cs n
      ∙ read_all-frames framing cs n rs fit e (h ∙ stream-frames rs)
      ∙ ap (λ m. m >>= λ t. ok (with_buf t [])) (sym (serve_all-handle rs n))
