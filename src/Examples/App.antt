-- ===== src/Examples/App.antt =====
-- The whole program: commands, elections, followers, the pid file.
use wing_binlog_go.Prelude.{
  ℕ, ◌≡◌, refl, Bool, true, false, Option, none, some, List, [], ◌∷◌, ◌++◌, ok, ◌>>=◌, Bytes, text,
  bytes_eq, take, drop, arith,
}
use wing_binlog_go.Stream.Chunks.{concat}
use wing_binlog_go.Wire.{pack}
use wing_binlog_go.Subscribe.Server.{new_subscribe_service}
use wing_binlog_go.Binlog.State.{new_binlog}
use wing_binlog_go.Plugins.Redis.{new_redis}
use wing_binlog_go.Plugins.Http.{new_http_service}
use wing_binlog_go.Control.{
  Command, reload_command, show_members_command, client_write, new_node, cmd_reload,
}
use wing_binlog_go.Control.Frames.{stream, on_messages}
use wing_binlog_go.Agent.{TcpService, ServiceMember, new_agent_server}
use wing_binlog_go.App.{
  Parts, Configs, control_callbacks, reload, boot, broadcast_all, save_position, broadcast,
  send_to_subscribers,
}
use wing_binlog_go.App.Commands.{Flags, Run, run_cmd}
use wing_binlog_go.App.Forward.{forward-event}
use wing_binlog_go.Binlog.State.{on_event}
use wing_binlog_go.App.Reload.{run_cmd-reload}
use wing_binlog_go.App.Signals.{Election}
use wing_binlog_go.App.Leader.{elect_all, elections-run}
use wing_binlog_go.App.Replica.{Takes, position, sync_all, follow, follow-sync_all}
use wing_binlog_go.App.Process.{
  Machine, init_tests, init_writes, tests, writes, History, nothing_yet, then_happens, IsSingle,
  empty_machine, History-IsSingle,
}

-- A service at a known position, with its cache open.
unfoldable parts : Parts
parts = record {
  service = record {
    binlog = record (new_binlog [] 1 1) {
      cache_opened = true;
      last_bin_file = text "bin.9";
      last_pos = 4;
      event_index = 7;
    };
    handler = 0;
    runs = [];
    closed = [];
    starts = 0;
    stops = [];
  };
  http = new_http_service false [];
  redis = new_redis none;
  kafka = record {
    has_producer = false;
    enable = false;
    topic = [];
    filter = [];
    is_close = false;
    has_lock = false;
    input = [];
  };
  subscribe = new_subscribe_service true false;
  stopping = false;
}

unfoldable configs : Configs
configs = record {
  http_config = some (false, []);
  redis_config = none;
  kafka_config = none;
  subscribe_config = some (true, true);
}

abbrev no_flags : Flags
no_flags = record {
  version = false;
  v = false;
  stop = false;
  service_reload = [];
  help = false;
  members = false;
}

abbrev two_commands : List Command
two_commands = reload_command (text "http") ∷ show_members_command ∷ []

unfoldable command_bytes : Bytes
command_bytes = stream two_commands

unfoldable command_chunks : List Bytes
unfolding command_bytes
command_chunks = take 7 command_bytes ∷ drop 7 command_bytes ∷ []

command_chunks-concat : concat command_chunks ≡ stream two_commands
unfolding command_chunks command_bytes stream client_write pack concat
command_chunks-concat = refl

abbrev reload_flags : Flags
reload_flags = record no_flags { service_reload = text "http" }

unfoldable reload_run : Run
reload_run = record { answer = true; dialled = true; written = reload_command (text "http") ∷ [] }

unfoldable reload_chunks : List Bytes
unfolding reload_run
reload_chunks = stream reload_run.written ∷ []

reload_chunks-concat : concat reload_chunks ≡ stream reload_run.written
unfolding reload_chunks reload_run stream client_write pack concat
reload_chunks-concat = refl

run_cmd-reload_example :
    on_messages (control_callbacks configs (text "one")) reload_chunks (new_node parts) ≡ (
      reload configs (text "http") parts >>= λ q.
      ok (record (new_node q) { out = pack cmd_reload (text "ok") ∷ [] }))
unfolding run_cmd reload_run
run_cmd-reload_example =
    run_cmd-reload configs (text "one") reload_flags parts reload_run reload_chunks (omega arith)
      refl refl refl refl refl reload_chunks-concat

abbrev exactly : Bytes → Bytes → Option Bool
exactly f table = some (bytes_eq f table)

abbrev member_one : ServiceMember
member_one = record {
  service_ip = text "10.0.0.1";
  port = 9990;
  is_leader = true;
  member_status = text "online";
}

abbrev lost_and_won : List Election
lost_and_won =
    record { is_leader = true; waits = 0; found = member_one; synced = (text "bin.9", 700) }
    ∷ record { is_leader = false; waits = 2; found = member_one; synced = (text "bin.9", 700) }
    ∷ record { is_leader = true; waits = 0; found = member_one; synced = (text "bin.9", 700) }
    ∷ []

elections-run_example :
    (s : TcpService Parts) × (t : TcpService Parts) × (boot exactly true true parts ≡ ok s)
    × (elect_all lost_and_won s ≡ ok t)
    × (t.leader ≡ true)
    × (t.world.service.binlog.is_running ≡ true)
    × (t.world.service.runs ≡ t.world.service.handler ∷ [])
unfolding parts new_binlog
elections-run_example =
    elections-run exactly lost_and_won true parts (refl, (refl, (refl, tt))) refl refl refl refl
      refl

abbrev nothing_known : Bytes → Option (Option Bytes × Option Bytes)
nothing_known msg = none

unfoldable leader_node : TcpService Parts
unfolding parts new_agent_server
leader_node = new_agent_server true parts

unfoldable follower_node : TcpService Parts
unfolding parts new_agent_server
follower_node = record (new_agent_server true parts) { on_pos = save_position ∷ [] }

abbrev two_positions : List (Bytes × ℕ)
two_positions = (text "bin.9", 400) ∷ (text "bin.10", 4) ∷ []

follow-sync_all_example :
    (t : TcpService Parts) × (follow nothing_known
        (broadcast_all (sync_all two_positions parts.service.binlog).effects leader_node).broadcasts
        follower_node
      ≡ ok t)
    × Takes t
    × (position t.world.service.binlog ≡ position (sync_all two_positions parts.service.binlog))
unfolding parts leader_node follower_node new_agent_server new_binlog
follow-sync_all_example =
    follow-sync_all nothing_known two_positions parts.service.binlog leader_node follower_node refl
      refl refl (omega arith) refl refl
      ((omega arith, omega arith), ((omega arith, omega arith), tt)) (refl, refl, refl) refl

abbrev test_user : Bytes → Option (Option Bytes × Option Bytes)
test_user msg = some (some (text "test"), some (text "user"))

unfoldable telling_node : TcpService Parts
unfolding parts new_agent_server
telling_node = record (new_agent_server true parts) { on_event = send_to_subscribers exactly ∷ [] }

forward-event_example :
    follow test_user
      (broadcast
        (on_event 0 (text "test" ++ (text "." ++ text "user")) (text "row"))
        leader_node).broadcasts
      telling_node
    ≡ (send_to_subscribers exactly
          (text "test" ++ (text "." ++ text "user"))
          (text "row")
          telling_node.world
        >>= λ w. ok (record telling_node { world = w }))
unfolding leader_node telling_node new_agent_server parts
forward-event_example =
    forward-event exactly test_user 0 (text "test") (text "user") (text "row") leader_node
      telling_node refl refl refl (omega arith) refl

abbrev running_machine : Machine
running_machine = record { pid_file = some 20; starting = []; running = 20 ∷ [] }

running-History : History running_machine
unfolding init_tests init_writes
running-History =
    then_happens (then_happens nothing_yet (tests 20 refl refl))
      (writes {m = record empty_machine { starting = 20 ∷ [] }} 20 refl)

History-IsSingle_example : IsSingle running_machine
History-IsSingle_example = History-IsSingle running_machine running-History
