-- ===== src/Delivery/Steps.antt =====
-- The service's side: what the steps of the service bring to each client.
use wing_binlog_go.Prelude.{
  ℕ, suc, ◌+◌, ◌≤◌, ◌≡◌, refl, ap, sym, ◌∙◌, subst, Bool, true, false, Option, List, [], ◌∷◌, ◌++◌,
  map, ok, Bytes, Bool-cases, inl, inr, ==_iff, ◌==◌, ◌&&◌, if◌then◌else◌, arith,
}
use wing_binlog_go.Wire.{pack}
use wing_binlog_go.Wire.Filter.{match_filters}
use wing_binlog_go.Subscribe.Node.{Node, cmd_event}
use wing_binlog_go.Subscribe.Groups
use wing_binlog_go.Subscribe.Groups.{Groups, member, update}
use wing_binlog_go.Subscribe.Groups.Send.{IsDistinct, IsReady, send_all-nodes}
use wing_binlog_go.Subscribe.Server.{Server, send_all}
use wing_binlog_go.Delivery.{Step, event, writes, events, write_node, step, step_all, matching}
use wing_binlog_go.Delivery.Queues.{
  HasRoom, Moved, written, written-Moved, same-Moved, Moved-trans, HasRoom-Moved, less_room, one_if,
  one_if-Moved, one_if-HasRoom,
}

-- The service is on, no client stands twice in its list, and each has room for `k` more messages.
pub record CanTake (k : ℕ) (s : Server) : Type 0 where
  pub on : s.enabled ≡ true
  pub distinct : IsDistinct s.groups.g.live
  pub rooms : (j : ℕ) → member j s.groups.g.live ≡ true → HasRoom k (s.groups.nodes j)

pub take_less : (k m : ℕ) (s : Server) → k ≤ m → CanTake m s → CanTake k s
take_less k m s h can = record {
  on = can.on;
  distinct = can.distinct;
  rooms = λ j q. less_room k m (s.groups.nodes j) h (can.rooms j q);
}

pub nodes-write_node :
    (id j : ℕ) (s : Server)
    → (write_node id s).groups.nodes j
      ≡ (if id == j then written (s.groups.nodes j) else s.groups.nodes j)
unfolding write_node written
nodes-write_node id j s = elim (Bool-cases (id == j)) [
  | inl same ↦ rw (same, (==_iff id j).0 same)
  | inr other ↦ rw other
]

if_written-Moved : (b : Bool) (n : Node) → Moved [] n (if b then written n else n)
if_written-Moved true n = written-Moved n
if_written-Moved false n = same-Moved n

pub write_node-Moved :
    (id j : ℕ) (s : Server) → Moved [] (s.groups.nodes j) ((write_node id s).groups.nodes j)
write_node-Moved id j s =
    subst (Moved [] (s.groups.nodes j)) (sym (nodes-write_node id j s))
      (if_written-Moved (id == j) (s.groups.nodes j))

module _ (match_string : Bytes → Bytes → Option Bool) where
  unfoldable pub frames_of : List Bytes → List Step → List Bytes
  frames_of topics steps = map (pack cmd_event) (matching match_string topics steps)

  -- What a step, or some steps, do to the service.
  pub record Went (k : ℕ) (steps : List Step) (s t : Server) : Type 0 where
    pub can : CanTake k t
    pub same : t.groups.g ≡ s.groups.g
    pub moved :
        (j : ℕ)
        → member j s.groups.g.live ≡ true
        → (s.groups.nodes j).online ≡ true
        → Moved (frames_of (s.groups.nodes j).topics steps) (s.groups.nodes j) (t.groups.nodes j)

  takes : Bytes → Groups → ℕ → Bool
  takes table gs j =
      member j gs.g.live
      && (gs.nodes j).online
      && match_filters match_string (gs.nodes j).topics table

  takes-client :
      (table : Bytes) (gs : Groups) (j : ℕ)
      → member j gs.g.live ≡ true
      → (gs.nodes j).online ≡ true
      → takes table gs j ≡ match_filters match_string (gs.nodes j).topics table
  unfolding takes
  takes-client table gs j m up = rw (m, up)

  returns :
      (table msg : Bytes) (s : Server) (hs : Groups)
      → s.enabled ≡ true
      → Groups.send_all match_string table (pack cmd_event msg) s.groups ≡ ok hs
      → step match_string (event table msg) s ≡ ok (record s { groups = hs })
  unfolding step send_all
  returns table msg s hs on sent = ground arith

  ready :
      (k j : ℕ) (s : Server)
      → CanTake (suc k) s
      → member j s.groups.g.live ≡ true
      → IsReady (s.groups.nodes j)
  ready k j s can m =
      let r = can.rooms j m in record { room = omega (arith, r.room); channel = r.channel }

  frames_of-event :
      (topics : List Bytes) (table msg : Bytes)
      → one_if (match_filters match_string topics table) (pack cmd_event msg)
        ≡ frames_of topics (event table msg ∷ [])
  unfolding frames_of matching one_if
  frames_of-event topics table msg = elim (Bool-cases (match_filters match_string topics table)) [
    | inl hit ↦ rw hit
    | inr miss ↦ rw miss
  ]

  broadcast :
      (table msg : Bytes) (k : ℕ) (s : Server)
      → CanTake (suc k) s
      → (t : Server) × (step match_string (event table msg) s ≡ ok t)
        × Went k (event table msg ∷ []) s t
  unfolding takes
  broadcast table msg k s can =
      let gs = s.groups in
      let frame = pack cmd_event msg in
      let (hs, sent, same, each) =
        send_all-nodes match_string table frame gs can.distinct (λ j m. ready k j s can m) in
      let left : (j : ℕ) → Moved (one_if (takes table gs j) frame) (gs.nodes j) (hs.nodes j) = λ j.
        subst (Moved (one_if (takes table gs j) frame) (gs.nodes j)) (sym (each j))
          (one_if-Moved (takes table gs j) frame (gs.nodes j)) in
      (
        record s { groups = hs },
        returns table msg s hs can.on sent,
        record {
          can = record {
            on = can.on;
            distinct = subst IsDistinct (ap (λ g. g.live) (sym same)) can.distinct;
            rooms = λ j m.
                one_if-HasRoom (takes table gs j) frame k (gs.nodes j) (hs.nodes j) (left j)
                  (can.rooms j (subst (λ g. member j g.live ≡ true) same m));
          };
          same = same;
          moved = λ j m up.
              subst (λ sent. Moved sent (gs.nodes j) (hs.nodes j))
                (ap (λ b. one_if b frame) (takes-client table gs j m up)
                  ∙ frames_of-event (gs.nodes j).topics table msg)
                (left j);
        },
      )

  written-Went : (id k : ℕ) (s : Server) → CanTake k s → Went k (writes id ∷ []) s (write_node id s)
  unfolding write_node frames_of matching
  written-Went id k s can = record {
    can = record {
      on = can.on;
      distinct = can.distinct;
      rooms = λ j m.
          HasRoom-Moved [] k (s.groups.nodes j) ((write_node id s).groups.nodes j)
            (write_node-Moved id j s)
            (less_room (0 + k) k (s.groups.nodes j) (omega arith) (can.rooms j m));
    };
    same = refl;
    moved = λ j m up. write_node-Moved id j s;
  }

  one-Went :
      (a : Step) (k : ℕ) (s : Server)
      → CanTake (events (a ∷ []) + k) s
      → (t : Server) × (step match_string a s ≡ ok t) × Went k (a ∷ []) s t
  unfolding events step
  one-Went (event table msg) k s can =
      broadcast table msg k s (take_less (suc k) _ s (omega arith) can)
  one-Went (writes id) k s can =
      (write_node id s, refl, written-Went id k s (take_less k _ s (omega arith) can))

  events-cons : (a : Step) (steps : List Step) → events (a ∷ steps) ≡ events (a ∷ []) + events steps
  unfolding events
  events-cons (event table msg) steps = omega arith
  events-cons (writes id) steps = omega arith

  frames_of-cons :
      (topics : List Bytes) (a : Step) (steps : List Step)
      → frames_of topics (a ∷ steps) ≡ frames_of topics (a ∷ []) ++ frames_of topics steps
  unfolding frames_of matching
  frames_of-cons topics (event table msg) steps =
      elim (Bool-cases (match_filters match_string topics table)) [
        | inl hit ↦ rw hit
        | inr miss ↦ rw miss
      ]
  frames_of-cons topics (writes id) steps = refl

  then-Moved :
      (a : Step) (steps : List Step) (k : ℕ) (s t u : Server)
      → Went (events steps + k) (a ∷ []) s t
      → Went k steps t u
      → (j : ℕ) → member j s.groups.g.live ≡ true
      → (s.groups.nodes j).online ≡ true
      → Moved
          (frames_of (s.groups.nodes j).topics (a ∷ steps))
          (s.groups.nodes j)
          (u.groups.nodes j)
  then-Moved a steps k s t u x y j m up =
      let first = x.moved j m up in
      let topics = (s.groups.nodes j).topics in
      let next =
        y.moved j (subst (λ g. member j g.live ≡ true) (sym x.same) m) (first.online ∙ up) in
      subst (λ sent. Moved sent (s.groups.nodes j) (u.groups.nodes j))
        (ap (λ ts. frames_of topics (a ∷ []) ++ frames_of ts steps) first.topics
          ∙ sym (frames_of-cons topics a steps))
        (Moved-trans (frames_of topics (a ∷ [])) (frames_of (t.groups.nodes j).topics steps)
          (s.groups.nodes j) (t.groups.nodes j) (u.groups.nodes j) first next)

  -- Steps that the queues have room for all return, and move each client by what is for it.
  pub step_all-Went :
      (steps : List Step) (k : ℕ) (s : Server)
      → CanTake (events steps + k) s
      → (t : Server) × (step_all match_string steps s ≡ ok t) × Went k steps s t
  unfolding step_all events
  step_all-Went [] k s can = (
    s,
    refl,
    record {
      can = take_less k _ s (omega arith) can;
      same = refl;
      moved = λ j m up. unfold frames_of matching in same-Moved (s.groups.nodes j);
    },
  )
  step_all-Went (a ∷ steps) k s can =
      let (t, stepped, x) =
        one-Went a (events steps + k) s
          (take_less _ _ s (omega (arith, events-cons a steps)) can) in
      let (u, rest, y) = step_all-Went steps k t x.can in
      (
        u,
        rw stepped rest,
        record {
          can = y.can;
          same = y.same ∙ x.same;
          moved = λ j m up. then-Moved a steps k s t u x y j m up;
        },
      )
