-- ===== src/App/Forward.antt =====
-- Events in the cluster: `OnEvent` of `main` broadcasts each event of the leader, and a follower hands it
-- to its own subscribers.
use wing_binlog_go.Prelude.{
  ℕ, ◌+◌, ◌≡◌, ◌<◌, ◌^◌, refl, ap, ◌∙◌, Bool, true, Option, some, [], ◌∷◌, ◌++◌, Outcome, ok, panic,
  spins, no_fuel, ◌>>=◌, Bytes, text, length, arith,
}
use mathlib.Core.List.{append-nil}
use wing_binlog_go.Wire.{pack, unpack}
use wing_binlog_go.Wire.RoundTrip.{unpack-pack}
use wing_binlog_go.Binlog.State.{on_event}
use wing_binlog_go.Agent.{TcpService, cmd_event, fire, on_event_message, on_client_message, sync}
use wing_binlog_go.App.{Parts, send_to_subscribers, broadcast}
use wing_binlog_go.App.Replica.{follow, sync-enabled}

module _ (match_string : Bytes → Bytes → Option Bool)
    (unmarshal : Bytes → Option (Option Bytes × Option Bytes)) where
  sent_on : Outcome Parts → TcpService Parts → Outcome (TcpService Parts)
  sent_on m s = m >>= λ w. ok (record s { world = w })

  fired_once :
      (m : Outcome Parts) (s : TcpService Parts)
      → ((m >>= λ w. ok w) >>= λ w. ok (record s { world = w })) ≡ sent_on m s
  unfolding sent_on
  fired_once (ok w) s = refl
  fired_once panic s = refl
  fired_once spins s = refl
  fired_once no_fuel s = refl

  followed_once : (m : Outcome (TcpService Parts)) → (m >>= λ t. ok t) ≡ m
  followed_once (ok t) = refl
  followed_once panic = refl
  followed_once spins = refl
  followed_once no_fuel = refl

  taken :
      (json : Bytes) (s : TcpService Parts)
      → unpack (pack cmd_event json) ≡ ok (some (cmd_event, json))
      → on_client_message unmarshal (pack cmd_event json) s
        ≡ on_event_message (unmarshal json) json s
  unfolding on_client_message
  taken json s read = rw (read, on_client_message) refl

  -- An event that the leader broadcasts makes a follower send it to its own subscribers, with the same
  -- message and for the same table as the leader's callback was given, and changes nothing else of the
  -- follower. The leader is in a cluster and has nothing else to broadcast, the follower's callback is
  -- the one that main sets, the message fits a frame, and it decodes to the table's two names.
  pub forward-event :
      (k : ℕ) (database table json : Bytes) (leader follower : TcpService Parts)
      → leader.enable ≡ true
      → leader.broadcasts ≡ []
      → follower.on_event ≡ send_to_subscribers match_string ∷ []
      → length json + 2 < 2 ^ 32
      → unmarshal json ≡ some (some database, some table)
      → let name = database ++ (text "." ++ table) in
        follow unmarshal (broadcast (on_event k name json) leader).broadcasts follower ≡ (
          send_to_subscribers match_string name json follower.world >>= λ w.
          ok (record follower { world = w }))
  unfolding follow broadcast on_client_message on_event_message fire sent_on
  forward-event k database table json leader follower on quiet told fits decodes =
      let name = database ++ (text "." ++ table) in
      let m = pack cmd_event json in
      let out : (sync m leader).broadcasts ≡ m ∷ [] =
        ap (λ t. t.broadcasts) (sync-enabled m leader on) ∙ ap (λ bs. bs ++ m ∷ []) quiet in
      let read = rw append-nil at (unpack-pack cmd_event json [] (omega arith) fits) in
      ap (λ bs. follow unmarshal bs follower) out
      ∙ followed_once (on_client_message unmarshal m follower)
      ∙ taken json follower read
      ∙ ap (λ d. on_event_message d json follower) decodes
      ∙ ap
          (λ fs.
            fire (λ f. f name json) fs follower.world >>= λ w. ok (record follower { world = w }))
          told
      ∙ fired_once (send_to_subscribers match_string name json follower.world) follower
