-- ===== src/App/Start.antt =====
-- How the program begins: `Init` and `configPathParse` of src/library/app/app.go, `NewContext` of
-- src/library/app/context.go and `DaemonProcess` of src/library/app/linux.go. The logger, the profiler
-- and the processors are left out.
pub mod Ready
use wing_binlog_go.Prelude.{
  ℕ, suc, ◌+◌, Bool, true, false, not, ◌&&◌, Option, none, some, List, [], ◌∷◌, ◌++◌, Outcome, ok,
  panic, ◌>>=◌, Bytes, text, drop, if◌then◌else◌,
}
use wing_binlog_go.System.Path.{forward_slashes, last_index, path_parse}
use wing_binlog_go.Config.{
  System, Globals, AppConfig, Loaded, loaded, file_not_found, file_parse, get_app_config,
}
use wing_binlog_go.Config.Services.{MysqlConfig, Files, get_mysql_config}

-- `os.Exit(1)`, or the program goes on with the variables that the config sets and the file system.
pub data Started (S : Type 0) : Type 0 where
  refused : Started S
  started : Globals → S → Started S

-- `Context`, as far as it is config; a config that cannot be read is nil.
pub record Context : Type 0 where
  pub mysql_config : Option MysqlConfig
  pub app_config : Option AppConfig

-- The variables that `Init` sets from the config.
unfoldable pub set_globals : AppConfig → Globals → Globals
set_globals c g = record g {
  pid = c.pid_file;
  default_cache = c.cache_path;
  default_log = c.log_path;
}

module _ {S : Type 0} (sys : System S) where
  -- `configPathParse`
  unfoldable pub config_path_parse : Bytes → Globals → S → Outcome Globals
  config_path_parse config_path g s =
      path_parse (λ d. sys.stat d s) config_path g.config_path >>= λ out.
      ok (record g { config_path = out })

  -- The pid file of `Init`: it is there and this is no command, or it is written.
  unfoldable pub claim_pid : Bool → Bytes → Globals → S → Started S
  claim_pid has_cmd pid g s =
      if sys.stat g.pid s && not has_cmd then refused else started g (sys.write_file g.pid pid s)

  -- `Init`, with the text of the process id. Without a config it reads a nil pointer.
  unfoldable pub init_app : Bool → Bytes → Bytes → Globals → S → Outcome (Started S)
  unfolding config_path_parse set_globals claim_pid
  init_app has_cmd config_path pid g s = do
    h ← config_path_parse config_path g s
    (answer, t) ← get_app_config sys h s
    elim answer [
      | loaded c ↦ ok (claim_pid has_cmd pid (set_globals c h) t)
      | file_not_found ↦ panic
      | file_parse ↦ panic
    ]

  -- `NewContext`: the errors of both configs are dropped.
  unfoldable pub new_context : Files → Globals → S → Outcome (Context × S)
  new_context files g s = get_app_config sys g s >>= λ (answer, t). ok (
    record {
      mysql_config = elim (get_mysql_config g.config_path files) [ loaded c ↦ some c | _ ↦ none ];
      app_config = elim answer [ loaded c ↦ some c | _ ↦ none ];
    },
    t,
  )

-- What `Reborn` of the daemon library comes to.
pub data Reborn : Type 0 where
  reborn_fails : Reborn
  in_parent : Reborn
  in_child : Reborn

-- The arguments with which the daemon is started: the program's name below the current directory.
unfoldable pub daemon_args : Bytes → Bytes → Bytes → List Bytes
daemon_args argv0 current_path config_path =
    let exe_file = forward_slashes argv0 in
    let file_name : Bytes = elim (last_index exe_file) [
      | none ↦ exe_file
      | some i ↦ drop (suc i) exe_file
    ] in
    (current_path ++ (text "/" ++ file_name))
    ∷ text "-daemon"
    ∷ (text "-config-path=" ++ config_path)
    ∷ []

-- `DaemonProcess`: whether this is the parent, which is to return; `none` is `log.Fatal`.
unfoldable pub daemon_process : Bool → Reborn → Option Bool
daemon_process false r = some false
daemon_process true reborn_fails = none
daemon_process true in_parent = some true
daemon_process true in_child = some false
