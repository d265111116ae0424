-- ===== src/Client/Frames.antt =====
-- `on_message` of the client as a reader of the frames that `service.Pack` makes.
use wing_binlog_go.Prelude.{
  ℕ, suc, ◌+◌, ◌<◌, ◌^◌, ◌≡◌, refl, ap, ◌∙◌, true, inl, inr, List, [], ◌∷◌, ◌++◌, Outcome, ok,
  ◌>>=◌, Bytes, length, drop, ltb, ltb→le, ◌==◌, if◌then◌else◌, arith, Bool-cases, All, lt→ltb,
}
use mathlib.Core.Path.{fun_ext}
use mathlib.Core.List.{append_assoc, append-nil}
use wing_binlog_go.Wire.{pack}
use wing_binlog_go.Wire.RoundTrip.{
  length-header, length-pack, read_length-pack, read_cmd-pack, slice-pack, drop-pack,
  read_length-partial, read_cmd-partial, length-whole, length-partial,
}
use wing_binlog_go.Stream.{stop, again, Framing}
use wing_binlog_go.Stream.Chunks.{read, read_all, read_all-frames, handle_all, frames, concat}
use wing_binlog_go.Client.{Client, cmd_event, has_cmd}
use wing_binlog_go.Client.Messages.{call_each, deliver, take_frame, round, on_message}

-- A frame of the server: a command that the client knows, and its content.
pub record Frame : Type 0 where
  pub cmd : ℕ
  pub content : Bytes

abbrev pub Fits : Frame → Type 0
Fits f = (has_cmd f.cmd ≡ true) × (length f.content + 2 < 2 ^ 32)

abbrev bytes_of : Frame → Bytes
bytes_of f = pack f.cmd f.content

has_cmd-small : (cmd : ℕ) → has_cmd cmd ≡ true → cmd < 2 ^ 16
unfolding has_cmd
has_cmd-small cmd h = ground (arith, h)

unfoldable pub stream : List Frame → Bytes
stream [] = []
stream (f ∷ fs) = bytes_of f ++ stream fs

unfoldable pub event_count : List Frame → ℕ
event_count [] = 0
event_count (f ∷ fs) = if f.cmd == cmd_event then suc (event_count fs) else event_count fs

module _ {D : Type 0} (unmarshal : Bytes → D) where
  abbrev with_buf : Client D → Bytes → Client D
  with_buf c b = record c { buffer = b }

  -- What a frame does to the client, its buffer apart.
  unfoldable pub take_in : Frame → Client D → Client D
  take_in f c = if f.cmd == cmd_event then deliver unmarshal f.content c else c

  take_in-put :
      (c : Client D) (b : Bytes) (f : Frame) → take_in f (with_buf c b) ≡ with_buf (take_in f c) b
  unfolding take_in deliver
  take_in-put c b f = ground arith

  consume :
      (c : Client D) (f : Frame) (rest : Bytes)
      → Fits f
      → round unmarshal (with_buf c (bytes_of f ++ rest)) ≡ ok (again (with_buf (take_in f c) rest))
  unfolding round take_frame take_in
  consume c f rest (known, small) =
      rw
        (
          length-header f.cmd f.content small rest,
          read_length-pack f.cmd f.content small rest,
          read_cmd-pack f.cmd f.content small rest (has_cmd-small f.cmd known),
          known,
          four,
          length-whole f.cmd f.content small rest,
          slice-pack f.cmd f.content small rest,
        )
        (ap {A = Client D}
            (λ t. ok (again (record t { buffer = drop (length f.content + 2 + 4) t.buffer })))
            (take_in-put c (bytes_of f ++ rest) f)
          ∙ ap (λ b. ok (again (with_buf (take_in f c) b))) (drop-pack f.cmd f.content small rest))
    where
      four : 4 + (length f.content + 2) ≡ length f.content + 2 + 4
      four = omega arith

  wait_partial :
      (c : Client D) (f : Frame) (p q : Bytes) (x : ℕ)
      → Fits f
      → p ++ (x ∷ q) ≡ bytes_of f
      → round unmarshal (with_buf c p) ≡ ok (stop (with_buf c p))
  unfolding round
  wait_partial c f p q x (known, hm) e = elim (Bool-cases (ltb (length p) 6)) [
    | inl short ↦ rw short
    | inr long ↦ rw (
      long,
      read_length-partial f.cmd f.content hm p q x e (ltb→le (length p) 6 long),
      read_cmd-partial f.cmd f.content hm p q x e (ltb→le (length p) 6 long)
          (has_cmd-small f.cmd known),
      known,
      lt→ltb (length p) (4 + (length f.content + 2))
          (omega (arith, length-partial f.cmd f.content hm p q x e)),
    )
  ]

  wait_empty : (c : Client D) → round unmarshal (with_buf c []) ≡ ok (stop (with_buf c []))
  unfolding round
  wait_empty c = refl

  framing : Framing (Client D) Frame
  framing = record {
    round = round unmarshal;
    buf = λ c. c.buffer;
    put = with_buf;
    frame = bytes_of;
    Fits = Fits;
    handle = λ c f. ok (take_in f c);
    buf-put = λ c b. refl;
    put-put = λ c a b. refl;
    put-buf = λ c. refl;
    handle-put = λ c b f. ap ok (take_in-put c b f);
    consume = consume;
    wait_empty = wait_empty;
    wait_partial = wait_partial;
    frame-pos = λ f. omega (arith, length-pack f.cmd f.content);
  }

  -- `onMessage` for each chunk that the connection delivers.
  unfoldable pub on_messages : List Bytes → Client D → Outcome (Client D)
  on_messages [] c = ok c
  on_messages (m ∷ ms) c = on_message unmarshal m c >>= λ d. on_messages ms d

  -- The calls of the callbacks for the events of a list of frames, in order.
  unfoldable pub calls : ℕ → List Frame → List (ℕ × D)
  calls k [] = []
  calls k (f ∷ fs) =
      if f.cmd == cmd_event then call_each k (unmarshal f.content) ++ calls k fs else calls k fs

  on_messages-read : (ms : List Bytes) (c : Client D) → on_messages ms c ≡ read_all framing c ms
  unfolding on_messages read_all read on_message framing
  on_messages-read [] c = refl
  on_messages-read (m ∷ ms) c = ap (λ k. read framing c m >>= k) (fun_ext (on_messages-read ms))

  stream-frames : (fs : List Frame) → stream fs ≡ frames framing fs
  unfolding stream frames framing
  stream-frames [] = refl
  stream-frames (f ∷ fs) = ap (◌++◌ (bytes_of f)) (stream-frames fs)

  taken_in : List Frame → Client D → Client D
  taken_in fs c = record c {
    buffer = [];
    times = c.times + event_count fs;
    delivered = c.delivered ++ calls c.onevent fs;
  }

  handle_all-taken_in :
      (fs : List Frame) (c : Client D)
      → (handle_all framing c fs >>= λ d. ok (with_buf d [])) ≡ ok (taken_in fs c)
  unfolding handle_all framing taken_in calls event_count take_in deliver
  handle_all-taken_in [] c = ground (arith, append-nil c.delivered)
  handle_all-taken_in (f ∷ fs) c =
      handle_all-taken_in fs (take_in f c)
      ∙ ground (
        arith,
        append_assoc c.delivered (call_each c.onevent (unmarshal f.content)) (calls c.onevent fs),
      )

  -- A client with nothing in its buffer that receives a stream of frames, however it is cut, calls its
  -- callbacks with exactly the events, in order, counts them, and its buffer is empty again. The
  -- commands are known ones, and a length fits the four bytes of its header.
  pub on_messages-events :
      (ms : List Bytes) (fs : List Frame) (c : Client D)
      → All Fits fs
      → c.buffer ≡ []
      → concat ms ≡ stream fs
      → on_messages ms c
        ≡ ok (record c {
          buffer = [];
          times = c.times + event_count fs;
          delivered = c.delivered ++ calls c.onevent fs;
        })
  unfolding framing taken_in
  on_messages-events ms fs c fit e h =
      on_messages-read ms c
      ∙ read_all-frames framing ms c fs fit e (h ∙ stream-frames fs)
      ∙ handle_all-taken_in fs c
