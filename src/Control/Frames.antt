-- ===== src/Control/Frames.antt =====
-- `on_message` of the control channel as a reader of the frames that the command line writes.
use wing_binlog_go.Prelude.{
  ℕ, ◌+◌, ◌<◌, ◌^◌, ◌≡◌, refl, ap, sym, ◌∙◌, true, false, inl, inr, List, [], ◌∷◌, ◌++◌, Outcome,
  ok, panic, spins, no_fuel, ◌>>=◌, Bytes, text, length, drop, ltb, ltb→le, lt→ltb, ◌==◌, arith,
  Bool-cases, All,
}
use mathlib.Core.Path.{fun_ext}
use wing_binlog_go.Wire.{pack}
use wing_binlog_go.Wire.RoundTrip.{
  length-header, length-pack, read_length-pack, read_cmd-pack, slice-pack, drop-pack,
  read_length-partial, length-whole, length-partial,
}
use wing_binlog_go.Stream.{stop, again, Framing}
use wing_binlog_go.Stream.Chunks.{read, read_all, read_all-frames, handle_all, frames, concat}
use wing_binlog_go.Control.{
  Callbacks, TcpClientNode, Command, stop_command, reload_command, show_members_command,
  client_write, cmd_stop, cmd_reload, cmd_show_members, has_cmd, send, call, serve_cmd, dispatch,
  round, on_message,
}

abbrev pub Fits : Command → Type 0
Fits stop_command = Unit {0}
Fits (reload_command name) = length name + 2 < 2 ^ 32
Fits show_members_command = Unit {0}

unfoldable pub stream : List Command → Bytes
stream [] = []
stream (c ∷ cs) = client_write c ++ stream cs

cmd_of : Command → ℕ
cmd_of stop_command = cmd_stop
cmd_of (reload_command name) = cmd_reload
cmd_of show_members_command = cmd_show_members

content_of : Command → Bytes
content_of (reload_command name) = name
content_of stop_command = []
content_of show_members_command = []

client_write-pack : (c : Command) → client_write c ≡ pack (cmd_of c) (content_of c)
unfolding client_write cmd_of content_of
client_write-pack stop_command = refl
client_write-pack (reload_command name) = refl
client_write-pack show_members_command = refl

content-short : (c : Command) → Fits c → length (content_of c) + 2 < 2 ^ 32
unfolding content_of
content-short stop_command h = omega arith
content-short (reload_command name) h = h
content-short show_members_command h = omega arith

cmd_of-known :
    (c : Command) → (cmd_of c < 2 ^ 16) × (has_cmd (cmd_of c) ≡ true) × ((cmd_of c == 0) ≡ false)
unfolding cmd_of has_cmd
cmd_of-known stop_command = (omega arith, refl, refl)
cmd_of-known (reload_command name) = (omega arith, refl, refl)
cmd_of-known show_members_command = (omega arith, refl, refl)

module _ {S : Type 0} (cb : Callbacks S) where
  abbrev with_buf : TcpClientNode S → Bytes → TcpClientNode S
  with_buf n b = record n { recv_buf = b }

  -- What a command does to the world, and the answer that is sent for it.
  unfoldable pub serve : Command → TcpClientNode S → Outcome (TcpClientNode S)
  unfolding call send
  serve stop_command n = call cb (cb.stop_all n.world) (pack cmd_stop (text "ok")) n
  serve (reload_command name) n = call cb (cb.reload name n.world) (pack cmd_reload (text "ok")) n
  serve show_members_command n = ok (send (pack cmd_show_members (cb.show_member n.world)) n)

  serve-serve_cmd :
      (c : Command) (n : TcpClientNode S) → serve_cmd cb (cmd_of c) (content_of c) n ≡ serve c n
  unfolding serve serve_cmd cmd_of content_of
  serve-serve_cmd stop_command n = refl
  serve-serve_cmd (reload_command name) n = refl
  serve-serve_cmd show_members_command n = refl

  call-put :
      (done : Outcome S) (answer b : Bytes) (n : TcpClientNode S)
      → call cb done answer (with_buf n b) ≡ (call cb done answer n >>= λ m. ok (with_buf m b))
  unfolding call send
  call-put (ok w) answer b n = ground arith
  call-put panic answer b n = refl
  call-put spins answer b n = refl
  call-put no_fuel answer b n = refl

  serve-put :
      (n : TcpClientNode S) (b : Bytes) (c : Command)
      → serve c (with_buf n b) ≡ (serve c n >>= λ m. ok (with_buf m b))
  unfolding serve
  serve-put n b stop_command = call-put (cb.stop_all n.world) _ b n
  serve-put n b (reload_command name) = call-put (cb.reload name n.world) _ b n
  serve-put n b show_members_command = ground arith

  round-pack :
      (n : TcpClientNode S) (cmd : ℕ) (msg rest : Bytes)
      → cmd < 2 ^ 16
      → has_cmd cmd ≡ true
      → length msg + 2 < 2 ^ 32
      → round cb (with_buf n (pack cmd msg ++ rest))
        ≡ dispatch cb (length msg + 2) cmd msg (with_buf n (pack cmd msg ++ rest))
  unfolding round
  round-pack n cmd msg rest hc known hm = rw (
    length-header cmd msg hm rest,
    read_length-pack cmd msg hm rest,
    length-whole cmd msg hm rest,
    read_cmd-pack cmd msg hm rest hc,
    known,
    slice-pack cmd msg hm rest,
  )

  finish :
      (m : Outcome (TcpClientNode S)) (b rest : Bytes) (k : ℕ)
      → drop k b ≡ rest
      → ((m >>= λ t. ok (with_buf t b)) >>= λ t. ok (again (with_buf t (drop k t.recv_buf))))
        ≡ (m >>= λ t. ok (again (with_buf t rest)))
  finish (ok t) b rest k e = ap (λ r. ok (again (with_buf t r))) e
  finish panic b rest k e = refl
  finish spins b rest k e = refl
  finish no_fuel b rest k e = refl

  dispatch-serve :
      (n : TcpClientNode S) (c : Command) (b : Bytes)
      → (cmd_of c == 0) ≡ false
      → dispatch cb (length (content_of c) + 2) (cmd_of c) (content_of c) (with_buf n b) ≡ (
          (serve c n >>= λ t. ok (with_buf t b)) >>= λ t.
          ok (again (with_buf t (drop (length (content_of c) + 2 + 4) t.recv_buf))))
  unfolding dispatch
  dispatch-serve n c b served = rw served (
      ap (λ m. m >>= λ t. ok (again (with_buf t (drop (length (content_of c) + 2 + 4) t.recv_buf))))
        (serve-serve_cmd c (with_buf n b) ∙ serve-put n b c))

  consume :
      (n : TcpClientNode S) (c : Command) (rest : Bytes)
      → Fits c
      → round cb (with_buf n (client_write c ++ rest))
        ≡ (serve c n >>= λ m. ok (again (with_buf m rest)))
  unfolding dispatch
  consume n c rest h =
      let cmd = cmd_of c in
      let msg = content_of c in
      let hm = content-short c h in
      let (small, known, served) = cmd_of-known c in
      ap (λ w. round cb (with_buf n (w ++ rest))) (client_write-pack c)
      ∙ round-pack n cmd msg rest small known hm
      ∙ dispatch-serve n c (pack cmd msg ++ rest) served
      ∙ finish (serve c n) (pack cmd msg ++ rest) rest (length msg + 2 + 4)
          (drop-pack cmd msg hm rest)

  wait_partial :
      (n : TcpClientNode S) (c : Command) (p q : Bytes) (x : ℕ)
      → Fits c
      → p ++ (x ∷ q) ≡ client_write c
      → round cb (with_buf n p) ≡ ok (stop (with_buf n p))
  unfolding round
  wait_partial n c p q x h e = elim (Bool-cases (ltb (length p) 6)) [
    | inl short ↦ rw short
    | inr long ↦
        let cmd = cmd_of c in
        let msg = content_of c in
        let hm = content-short c h in
        let cut = e ∙ client_write-pack c in
        rw (
          long,
          read_length-partial cmd msg hm p q x cut (ltb→le (length p) 6 long),
          lt→ltb (length p) (length msg + 2 + 4) (length-partial cmd msg hm p q x cut),
        )
  ]

  wait_empty : (n : TcpClientNode S) → round cb (with_buf n []) ≡ ok (stop (with_buf n []))
  unfolding round
  wait_empty n = refl

  frame-pos : (c : Command) → 0 < length (client_write c)
  frame-pos c = rw (client_write-pack c) (omega (arith, length-pack (cmd_of c) (content_of c)))

  framing : Framing (TcpClientNode S) Command
  framing = record {
    round = round cb;
    buf = λ n. n.recv_buf;
    put = with_buf;
    frame = client_write;
    Fits = Fits;
    handle = λ n c. serve c n;
    buf-put = λ n b. refl;
    put-put = λ n a b. refl;
    put-buf = λ n. refl;
    handle-put = serve-put;
    consume = consume;
    wait_empty = wait_empty;
    wait_partial = wait_partial;
    frame-pos = frame-pos;
  }

  -- `onMessage` for each chunk that the connection delivers.
  unfoldable pub on_messages : List Bytes → TcpClientNode S → Outcome (TcpClientNode S)
  on_messages [] n = ok n
  on_messages (m ∷ ms) n = on_message cb m n >>= λ k. on_messages ms k

  unfoldable pub serve_all : List Command → TcpClientNode S → Outcome (TcpClientNode S)
  serve_all [] n = ok n
  serve_all (c ∷ cs) n = serve c n >>= λ m. serve_all cs m

  on_messages-read :
      (ms : List Bytes) (n : TcpClientNode S) → on_messages ms n ≡ read_all framing n ms
  unfolding on_messages read_all read on_message framing
  on_messages-read [] n = refl
  on_messages-read (m ∷ ms) n = ap (λ k. read framing n m >>= k) (fun_ext (on_messages-read ms))

  serve_all-handle :
      (cs : List Command) (n : TcpClientNode S) → serve_all cs n ≡ handle_all framing n cs
  unfolding serve_all handle_all framing
  serve_all-handle [] n = refl
  serve_all-handle (c ∷ cs) n = ap (λ k. serve c n >>= k) (fun_ext (serve_all-handle cs))

  stream-frames : (cs : List Command) → stream cs ≡ frames framing cs
  unfolding stream frames framing
  stream-frames [] = refl
  stream-frames (c ∷ cs) = ap (◌++◌ (client_write c)) (stream-frames cs)

  -- A control connection with nothing in its buffer carries out the commands that the command line
  -- writes, one after the other, however they are cut into chunks, and its buffer is empty again. The
  -- chunks come before the read deadline of the connection, nothing else changes the world in between,
  -- and the length of a service name fits the four bytes of its header.
  pub on_messages-commands :
      (ms : List Bytes) (cs : List Command) (n : TcpClientNode S)
      → All Fits cs
      → n.recv_buf ≡ []
      → concat ms ≡ stream cs
      → on_messages ms n ≡ (serve_all cs n >>= λ m. ok (record m { recv_buf = [] }))
  unfolding framing
  on_messages-commands ms cs n fit e h =
      on_messages-read ms n
      ∙ read_all-frames framing ms n cs fit e (h ∙ stream-frames cs)
      ∙ ap (λ m. m >>= λ t. ok (with_buf t [])) (sym (serve_all-handle cs n))
