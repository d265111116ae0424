-- ===== src/App/Main.antt =====
-- The start of `main` in src/wing-binlog-go/main.go: `Init`, the context, and then a command, the parent
-- of a daemon, or the service. `delete` is the deletion of a file, with which `Release` ends.
use wing_binlog_go.Prelude.{
  ◌≡◌, refl, Bool, true, false, Option, none, some, Outcome, ok, ◌>>=◌, Bytes, if◌then◌else◌,
}
use wing_binlog_go.Config.{System, Globals}
use wing_binlog_go.Config.Services.{Files}
use wing_binlog_go.App.Commands.{Flags, Run, is_cmd, run_cmd}
use wing_binlog_go.App.Start.{
  Started, refused, started, Context, init_app, new_context, Reborn, in_parent, daemon_process,
}

-- How `main` goes on: it exits since the pid file is there, or since the daemon cannot be started; it
-- returns after a command, or as the parent of a daemon; or it makes its services.
pub data Begun (S : Type 0) : Type 0 where
  exits_refused : Begun S
  exits_fatal : Begun S
  commanded : Run → S → Begun S
  in_background : S → Begun S
  serves : Context → Globals → S → Begun S

module _ {S : Type 0} (sys : System S) (delete : Bytes → S → S) (files : Files) where
  -- Past `DaemonProcess`. The parent returns, and its deferred `Release` runs.
  unfoldable pub fork : Context → Globals → S → Option Bool → Begun S
  fork ctx g s none = exits_fatal
  fork ctx g s (some true) = in_background (delete g.pid s)
  fork ctx g s (some false) = serves ctx g s

  -- Past `Init`.
  unfoldable pub go_on : Bool → Flags → Bool → Reborn → Started S → Outcome (Begun S)
  unfolding fork
  go_on dials f daemon r refused = ok exits_refused
  go_on dials f daemon r (started g s) = new_context sys files g s >>= λ (ctx, t).
      if is_cmd f
      then (run_cmd dials f >>= λ run. ok (commanded run (delete g.pid t)))
      else ok (fork ctx g t (daemon_process daemon r))

  -- `main`, by its flags and the text of its process id.
  unfoldable pub begin :
      Bool → Flags → Bool → Reborn → Bytes → Bytes → Globals → S → Outcome (Begun S)
  unfolding go_on
  begin dials f daemon r config_path pid g s =
      init_app sys (is_cmd f) config_path pid g s >>= go_on dials f daemon r

  -- A process that got past `Init` and returns before it makes its services, be it after a command or as
  -- the parent of a daemon, has deleted the pid file that its config names.
  pub begin-releases :
      (dials : Bool) (f : Flags) (config_path pid : Bytes) (g h : Globals) (s t u : S)
      (ctx : Context)
      → init_app sys (is_cmd f) config_path pid g s ≡ ok (started h t)
      → new_context sys files h t ≡ ok (ctx, u)
      → begin dials f true in_parent config_path pid g s ≡ (
          if is_cmd f
          then (run_cmd dials f >>= λ run. ok (commanded run (delete h.pid u)))
          else ok (in_background (delete h.pid u)))
  unfolding begin go_on fork daemon_process
  begin-releases dials f config_path pid g h s t u ctx e made = rw (e, made) refl
