-- ===== src/Agent/Setup.antt =====
-- `NewAgentServer` of src/library/agent/server.go, from what `getConfig` answers: the lock of consul that
-- it is a candidate for. `parse_int` is strconv.ParseInt with its error dropped.
use wing_binlog_go.Prelude.{
  ℕ, true, false, not, ◌&&◌, ◌≡◌, refl, sym, Option, none, some, List, [], ◌∷◌, Outcome, ok, panic,
  ◌>>=◌, Bytes, text, index, length, ltb, if◌then◌else◌, Bool-cases, inl, inr, arith,
}
use wing_binlog_go.Agent.{TcpService, new_agent_server}
use wing_binlog_go.Client.Options.{split_colon, has_colon, split_colon-branches}
use wing_binlog_go.Config.{Loaded, loaded, file_not_found, file_parse}
use wing_binlog_go.Config.Services.{AgentConfig}

-- The arguments of `mconsul.NewLeader`.
pub record Candidate : Type 0 where
  pub consul_address : Bytes
  pub lock : Bytes
  pub service_name : Bytes
  pub ip : Bytes
  pub port : ℕ

abbrev pub service_name : Bytes
service_name = text "wing-binlog-go-agent"

module _ (parse_int : Bytes → ℕ) where
  -- The part for a cluster that is enabled.
  unfoldable pub candidate : AgentConfig → Outcome Candidate
  candidate c = do
    ip ← index (split_colon c.agent_listen) 0
    port ← index (split_colon c.agent_listen) 1
    ok (record {
      consul_address = c.agent_consul;
      lock = c.lock;
      service_name = service_name;
      ip = ip;
      port = parse_int port;
    })

  candidate-branches :
      (c : AgentConfig)
      → if has_colon c.agent_listen
        then ((k : Candidate) × (candidate c ≡ ok k))
        else (candidate c ≡ panic)
  unfolding candidate
  candidate-branches c =
      let (host, rest, e, same) = split_colon-branches c.agent_listen in by_rest host rest e same
    where
      by_rest :
          (host : Bytes) (rest : List Bytes)
          → split_colon c.agent_listen ≡ host ∷ rest
          → ltb 0 (length rest) ≡ has_colon c.agent_listen
          → if has_colon c.agent_listen
            then ((k : Candidate) × (candidate c ≡ ok k))
            else (candidate c ≡ panic)
      by_rest host [] e same = rw (sym same) (rw e refl)
      by_rest host (p ∷ ps) e same =
          let there : has_colon c.agent_listen ≡ true = ground (arith, same) in
          rw there (
            record {
              consul_address = c.agent_consul;
              lock = c.lock;
              service_name = service_name;
              ip = host;
              port = parse_int p;
            },
            rw e refl,
          )

module _ {W : Type 0} (parse_int : Bytes → ℕ) where
  -- `NewAgentServer`, before its options.
  unfoldable pub set_up : Loaded AgentConfig → W → Outcome (TcpService W × Option Candidate)
  unfolding candidate
  set_up file_not_found world = panic
  set_up file_parse world = panic
  set_up (loaded c) world =
      if not c.agent_enable
      then ok (new_agent_server false world, none)
      else (candidate parse_int c >>= λ k. ok (new_agent_server true world, some k))

  -- With its config there `NewAgentServer` panics exactly if the cluster is enabled and the address that
  -- it listens on has no colon; else the agent is enabled as the config says.
  pub set_up-branches :
      (c : AgentConfig) (world : W)
      → if c.agent_enable && not (has_colon c.agent_listen)
        then (set_up (loaded c) world ≡ panic)
        else ((k : Option Candidate) × (set_up (loaded c) world
              ≡ ok (new_agent_server c.agent_enable world, k)))
  unfolding set_up
  set_up-branches c world = elim (Bool-cases c.agent_enable) [
    | inr off ↦ rw off (none, refl)
    | inl on ↦ elim (Bool-cases (has_colon c.agent_listen)) [
      | inl colon ↦
          let told = candidate-branches parse_int c in
          let (k, e) = rw colon at told in rw (on, colon, e) (some k, refl)
      | inr bare ↦ let told = candidate-branches parse_int c in rw (on, bare, rw bare at told) refl
    ]
  ]
