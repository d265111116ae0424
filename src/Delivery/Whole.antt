-- ===== src/Delivery/Whole.antt =====
-- The whole way: what is broadcast for a client's topics is what its callbacks hear.
use wing_binlog_go.Prelude.{
  ℕ, zero, suc, ◌+◌, ◌-◌, ◌≤◌, ◌<◌, ◌^◌, ◌≡◌, refl, ap, sym, ◌∙◌, subst, Bool, true, Option, List,
  [], ◌∷◌, ◌++◌, map, ok, ok-injective, >>=-eq-ok, Bytes, All, length, ==_refl, if◌then◌else◌,
  arith,
}
use mathlib.Core.List.{append-nil}
use wing_binlog_go.Wire.{pack}
use wing_binlog_go.Stream.Chunks.{concat}
use wing_binlog_go.Subscribe.Node.{Node, cmd_event, take_message}
use wing_binlog_go.Subscribe.Node.Queue.{node_of}
use wing_binlog_go.Subscribe.Groups.{member}
use wing_binlog_go.Subscribe.Server.{Server}
use wing_binlog_go.Client.{Client, has_cmd}
use wing_binlog_go.Client.Messages.{call_each}
use wing_binlog_go.Client.Frames.{
  Frame, Fits, stream, event_count, calls, on_messages, on_messages-events,
}
use wing_binlog_go.Delivery.{
  Step, event, writes, events, flush, write_node, step, step_all, matching,
}
use wing_binlog_go.Delivery.Queues.{Moved, written, written-online}
use wing_binlog_go.Delivery.Steps.{
  CanTake, frames_of, step_all-Went, take_less, nodes-write_node, write_node-Moved,
}

-- A message whose length fits the header of its frame.
abbrev pub IsShort : Bytes → Type 0
IsShort msg = length msg + 2 < 2 ^ 32

abbrev frame_of : Bytes → Frame
frame_of msg = record { cmd = cmd_event; content = msg }

frames-stream :
    (msgs : List Bytes) → concat (map (pack cmd_event) msgs) ≡ stream (map frame_of msgs)
unfolding concat stream
frames-stream [] = refl
frames-stream (m ∷ ms) = ap (◌++◌ (pack cmd_event m)) (frames-stream ms)

frames-Fits : (msgs : List Bytes) → All IsShort msgs → All Fits (map frame_of msgs)
unfolding has_cmd
frames-Fits [] h = tt
frames-Fits (m ∷ ms) (h, hs) = ((refl, h), frames-Fits ms hs)

event_count-frames : (msgs : List Bytes) → event_count (map frame_of msgs) ≡ length msgs
unfolding event_count
event_count-frames [] = refl
event_count-frames (m ∷ ms) = ap suc (event_count-frames ms)

length-written :
    (queue : List Bytes) (n : Node)
    → n.online ≡ true
    → n.send_queue ≡ queue
    → length (written n).send_queue ≡ length queue - 1
unfolding take_message
length-written [] n up e =
    ap (λ k. length k.send_queue) (written-online n up)
    ∙ ap (λ q. length (node_of (take_message true q n)).send_queue) e
    ∙ ap length e
length-written (m ∷ ms) n up e =
    ap (λ k. length k.send_queue) (written-online n up)
    ∙ ap (λ q. length (node_of (take_message true q n)).send_queue) e
    ∙ omega arith

events-flush : (id n : ℕ) → events (flush id n) ≡ 0
unfolding events flush
events-flush id zero = refl
events-flush id (suc n) = events-flush id n

queue-write_node :
    (id : ℕ) (s : Server)
    → (s.groups.nodes id).online ≡ true
    → length ((write_node id s).groups.nodes id).send_queue
      ≡ length (s.groups.nodes id).send_queue - 1
queue-write_node id s up =
    ap (λ n. length n.send_queue)
      (nodes-write_node id id s
        ∙ ap (λ b. if b then written (s.groups.nodes id) else s.groups.nodes id) (==_refl id))
    ∙ length-written (s.groups.nodes id).send_queue (s.groups.nodes id) up refl

length-zero : (msgs : List Bytes) → length msgs ≤ 0 → msgs ≡ []
length-zero [] h = refl
length-zero (m ∷ ms) h = absurd (omega arith)

length-map : (f : Bytes → Bytes) (msgs : List Bytes) → length (map f msgs) ≡ length msgs
length-map f [] = refl
length-map f (m ∷ ms) = ap suc (length-map f ms)

module _ (match_string : Bytes → Bytes → Option Bool) where
  length-matching :
      (topics : List Bytes) (steps : List Step)
      → length (matching match_string topics steps) ≤ events steps
  unfolding matching events
  length-matching topics [] = omega arith
  length-matching topics (event table msg ∷ steps) = ground (arith, length-matching topics steps)
  length-matching topics (writes id ∷ steps) = length-matching topics steps

  step_all-append :
      (a b : List Step) (s t : Server)
      → step_all match_string a s ≡ ok t
      → step_all match_string (a ++ b) s ≡ step_all match_string b t
  unfolding step_all
  step_all-append [] b s t e = ap (step_all match_string b) (ok-injective e)
  step_all-append (x ∷ a) b s t e =
      let (u, first, rest) = >>=-eq-ok (step match_string x s) _ t e in
      rw first (step_all-append a b u t rest)

  matching-flush : (topics : List Bytes) (id n : ℕ) → matching match_string topics (flush id n) ≡ []
  unfolding matching flush
  matching-flush topics id zero = refl
  matching-flush topics id (suc n) = matching-flush topics id n

  -- A queue that was empty holds no more than the events.
  queue-bound :
      (steps : List Step) (n m : Node)
      → n.send_queue ≡ []
      → Moved (frames_of match_string n.topics steps) n m
      → length m.send_queue ≤ events steps
  unfolding frames_of
  queue-bound steps n m idle v = omega (
    arith,
    v.grows,
    ap length idle,
    length-map (pack cmd_event) (matching match_string n.topics steps),
    length-matching n.topics steps,
  )

  -- When its queue is empty, a client that started afresh was written what was for it.
  all_written :
      (steps : List Step) (k j : ℕ) (n m o : Node)
      → n.out ≡ []
      → n.send_queue ≡ []
      → o.send_queue ≡ []
      → Moved (frames_of match_string n.topics steps) n m
      → Moved (frames_of match_string m.topics (flush j k)) m o
      → o.out ≡ map (pack cmd_event) (matching match_string n.topics steps)
  unfolding frames_of
  all_written steps k j n m o quiet idle empty v w =
      sym (append-nil o.out)
      ∙ ap (◌++◌ o.out) (sym empty)
      ∙ w.carried
      ∙ ap (λ ms. (m.out ++ m.send_queue) ++ map (pack cmd_event) ms) (matching-flush m.topics j k)
      ∙ append-nil (m.out ++ m.send_queue)
      ∙ v.carried
      ∙ rw (quiet, idle) refl

  -- As many writes as the queue has messages empty it.
  flush-empties :
      (id n : ℕ) (s t : Server)
      → (s.groups.nodes id).online ≡ true
      → length (s.groups.nodes id).send_queue ≤ n
      → step_all match_string (flush id n) s ≡ ok t
      → (t.groups.nodes id).send_queue ≡ []
  unfolding step_all flush step
  flush-empties id zero s t up h e =
      subst (λ r. (r.groups.nodes id).send_queue ≡ []) (ok-injective e)
        (length-zero (s.groups.nodes id).send_queue h)
  flush-empties id (suc n) s t up h e =
      flush-empties id n (write_node id s) t ((write_node-Moved id id s).online ∙ up)
        (omega (arith, queue-write_node id s up)) e

module _ {D : Type 0} (unmarshal : Bytes → D) where
  -- What `k` callbacks hear of some messages.
  pub heard : ℕ → List Bytes → List (ℕ × D)
  heard k [] = []
  heard k (m ∷ ms) = call_each k (unmarshal m) ++ heard k ms

  calls-heard : (k : ℕ) (msgs : List Bytes) → calls unmarshal k (map frame_of msgs) ≡ heard k msgs
  unfolding calls heard
  calls-heard k [] = refl
  calls-heard k (m ∷ ms) = ap (◌++◌ (call_each k (unmarshal m))) (calls-heard k ms)

  hears :
      (msgs : List Bytes) (c : Client D) (ms : List Bytes)
      → All IsShort msgs
      → c.buffer ≡ []
      → concat ms ≡ concat (map (pack cmd_event) msgs)
      → on_messages unmarshal ms c
        ≡ ok (record c {
          buffer = [];
          times = c.times + length msgs;
          delivered = c.delivered ++ heard c.onevent msgs;
        })
  hears msgs c ms short e h =
      on_messages-events unmarshal ms (map frame_of msgs) c (frames-Fits msgs short) e
        (h ∙ frames-stream msgs)
      ∙ rw (event_count-frames msgs, calls-heard c.onevent msgs) refl

module _ {D : Type 0} (match_string : Bytes → Bytes → Option Bool) (unmarshal : Bytes → D) where
  -- Whatever events are broadcast, for whatever tables, and in whatever order the goroutines of the
  -- clients write in between, once the rest of its queue is written an online client of the service
  -- has been called with exactly the events whose tables its topics match, each once and in their
  -- order, however the network cuts the bytes that its connection carried. The service is on, no
  -- client stands twice in its list, every queue has room for the events, the client has nothing
  -- queued, written or buffered at first, and a message fits the header of its frame.
  pub broadcasts-heard :
      (steps : List Step) (s : Server) (j : ℕ) (c : Client D) (cuts : Bytes → List Bytes)
      → ((b : Bytes) → concat (cuts b) ≡ b)
      → CanTake (events steps) s
      → member j s.groups.g.live ≡ true
      → (s.groups.nodes j).online ≡ true
      → (s.groups.nodes j).out ≡ []
      → (s.groups.nodes j).send_queue ≡ []
      → All IsShort (matching match_string (s.groups.nodes j).topics steps)
      → c.buffer ≡ []
      → (t : Server) × (step_all match_string (steps ++ flush j (events steps)) s ≡ ok t)
        × ((t.groups.nodes j).send_queue ≡ [])
        × (let msgs = matching match_string (s.groups.nodes j).topics steps in
            on_messages unmarshal (cuts (concat (t.groups.nodes j).out)) c
            ≡ ok (record c {
              buffer = [];
              times = c.times + length msgs;
              delivered = c.delivered ++ heard unmarshal c.onevent msgs;
            }))
  broadcasts-heard steps s j c cuts whole can m up quiet idle short clean =
      let n = s.groups.nodes j in
      let k = events steps in
      let msgs = matching match_string n.topics steps in
      let (t, ran, x) =
        step_all-Went match_string steps 0 s (take_less (k + 0) k s (omega arith) can) in
      let v = x.moved j m up in
      let there = subst (λ g. member j g.live ≡ true) (sym x.same) m in
      let (u, flushed, y) =
        step_all-Went match_string (flush j k) 0 t
          (take_less _ 0 t (omega (arith, events-flush j k)) x.can) in
      let w = y.moved j there (v.online ∙ up) in
      let empty =
        flush-empties match_string j k t u (v.online ∙ up)
          (queue-bound match_string steps n (t.groups.nodes j) idle v) flushed in
      (
        u,
        step_all-append match_string steps (flush j k) s t ran ∙ flushed,
        empty,
        hears unmarshal msgs c (cuts (concat (u.groups.nodes j).out)) short clean (
            whole _
            ∙ ap concat (
                all_written match_string steps k j n (t.groups.nodes j) (u.groups.nodes j) quiet
                  idle empty v w)),
      )
