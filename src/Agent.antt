-- ===== src/Agent.antt =====
-- src/library/agent: the cluster. One node holds a lock of consul and is the leader; it broadcasts its
-- events and its binlog position to the others. The consul and TCP packages are known by the calls
-- that they get and make: `broadcasts` are the calls of `server.Broadcast`, `connected` those of
-- `client.Connect`. The callbacks work on a world `W`, which is the rest of the program.
pub mod Members
pub mod Setup
use wing_binlog_go.Prelude.{
  ℕ, Bool, true, false, not, Option, none, some, List, [], ◌∷◌, ◌++◌, Outcome, ok, panic, spins,
  ◌>>=◌, Bytes, text, decimal, ◌==◌, if◌then◌else◌,
}
use wing_binlog_go.Wire.{unpack}

abbrev pub cmd_event : ℕ
cmd_event = 4

abbrev pub cmd_pos : ℕ
cmd_pos = 9

-- `TcpService`
pub record TcpService (W : Type 0) : Type 0 where
  pub enable : Bool
  pub leader : Bool
  pub on_event : List (Bytes → Bytes → W → Outcome W)
  pub on_pos : List (Bytes → W → Outcome W)
  pub on_leader : List (Bool → W → Outcome W)
  pub broadcasts : List Bytes
  pub connected : List Bytes
  pub is_closed : Bool
  pub world : W

-- `mconsul.ServiceMember`, as far as the agent reads it.
pub record ServiceMember : Type 0 where
  pub service_ip : Bytes
  pub port : ℕ
  pub is_leader : Bool
  pub member_status : Bytes

module _ {W : Type 0} where
  -- `NewAgentServer`, before its options.
  unfoldable pub new_agent_server : Bool → W → TcpService W
  new_agent_server enable world = record {
    enable = enable;
    leader = false;
    on_event = [];
    on_pos = [];
    on_leader = [];
    broadcasts = [];
    connected = [];
    is_closed = false;
    world = world;
  }

  -- The options `OnEvent` and `OnPos`.
  unfoldable pub add_on_event : (Bytes → Bytes → W → Outcome W) → TcpService W → TcpService W
  add_on_event f s = if not s.enable then s else record s { on_event = s.on_event ++ f ∷ [] }

  unfoldable pub add_on_pos : (Bytes → W → Outcome W) → TcpService W → TcpService W
  add_on_pos f s = if not s.enable then s else record s { on_pos = s.on_pos ++ f ∷ [] }

  -- The option `OnLeader`: without a cluster the node is the leader at once.
  unfoldable pub add_on_leader : (Bool → W → Outcome W) → TcpService W → Outcome (TcpService W)
  add_on_leader f s =
      if not s.enable
      then (f true s.world >>= λ w. ok (record s { world = w }))
      else ok (record s { on_leader = s.on_leader ++ f ∷ [] })

  -- `for _, f := range …`
  unfoldable pub fire {ℓ} : {F : Type ℓ} → (F → W → Outcome W) → List F → W → Outcome W
  fire call [] w = ok w
  fire call (f ∷ fs) w = call f w >>= λ v. fire call fs v

  -- The case CMD_EVENT of `onClientMessage`, by the two fields of the decoded message: `none` is the error
  -- of `json.Unmarshal`, and a field that is not a text is `none`.
  unfoldable pub on_event_message :
      Option (Option Bytes × Option Bytes) → Bytes → TcpService W → Outcome (TcpService W)
  unfolding fire
  on_event_message none msg s = ok s
  on_event_message (some (none, table)) msg s = panic
  on_event_message (some (some database, none)) msg s = panic
  on_event_message (some (some database, some table)) msg s =
      fire (λ f. f (database ++ (text "." ++ table)) msg) s.on_event s.world >>= λ w.
      ok (record s { world = w })

  -- `onClientMessage`: what the leader broadcasts. `unmarshal` is `json.Unmarshal` and the look at the
  -- two fields.
  unfoldable pub on_client_message :
      (Bytes → Option (Option Bytes × Option Bytes)) → Bytes → TcpService W → Outcome (TcpService W)
  unfolding on_event_message fire
  on_client_message unmarshal content s = unpack content >>= λ r. elim r [
    | none ↦ ok s
    | some (cmd, msg) ↦
        if cmd == cmd_event
        then on_event_message (unmarshal msg) msg s
        else if cmd == cmd_pos
        then (fire (λ f. f msg) s.on_pos s.world >>= λ w. ok (record s { world = w }))
        else ok s
  ]

  -- The loop that waits for a leader, by the answers of `sService.Get`; with no more answers it waits
  -- on.
  unfoldable pub connect_to_leader :
      List (Option ServiceMember) → TcpService W → Outcome (TcpService W)
  connect_to_leader [] s = spins
  connect_to_leader (none ∷ answers) s = connect_to_leader answers s
  connect_to_leader (some m ∷ answers) s =
      ok (record s {
        connected = s.connected ++ (m.service_ip ++ (text ":" ++ decimal m.port)) ∷ [];
      })

  -- The callback of `Select` in `Start`.
  unfoldable pub selected :
      Bool → List (Option ServiceMember) → TcpService W → Outcome (TcpService W)
  unfolding fire connect_to_leader
  selected is_leader answers s = do
    w ← fire (λ f. f is_leader) s.on_leader s.world
    let told = record s { leader = is_leader; world = w }
    if is_leader then ok told else connect_to_leader answers told

  -- `Sync`
  unfoldable pub sync : Bytes → TcpService W → TcpService W
  sync msg s = if not s.enable then s else record s { broadcasts = s.broadcasts ++ msg ∷ [] }

  -- `Close`
  unfoldable pub close : TcpService W → TcpService W
  close s = if not s.enable then s else record s { is_closed = true }
