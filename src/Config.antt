-- ===== src/Config.antt =====
-- The config files: `getAppConfig`, `getMysqlConfig` and `pathParse` of src/library/app/app.go, and the
-- `getConfig` of each service. The operating system and the TOML decoder are arguments.
pub mod Services
pub mod Settled
pub mod Missing
use wing_binlog_go.Prelude.{
  ℕ, Bool, true, false, not, ◌&&◌, Option, none, some, List, [], ◌∷◌, ◌++◌, Outcome, ok, ◌>>=◌,
  Bytes, text, bytes_eq, if◌then◌else◌,
}
use wing_binlog_go.Subscribe.Node.{trim}
use wing_binlog_go.System.Path.{forward_slashes, get_parent, path_parse}

-- What reading a config file comes to: its content, `ErrorFileNotFound` or `ErrorFileParse`.
pub data Loaded (C : Type 0) : Type 0 where
  loaded : C → Loaded C
  file_not_found : Loaded C
  file_parse : Loaded C

-- `Config`
pub record AppConfig : Type 0 where
  pub log_level : ℕ
  pub pprof_listen : Bytes
  pub control_listen : Bytes
  pub time_zone : Bytes
  pub cache_path : Bytes
  pub log_path : Bytes
  pub pid_file : Bytes

-- The variables of the package.
pub record Globals : Type 0 where
  pub pid : Bytes
  pub config_path : Bytes
  pub default_cache : Bytes
  pub default_log : Bytes

-- The file system `S`: `os.Stat` finds something at a path, `os.MkdirAll` with its being done, a file is
-- written, and a TOML file is decoded.
pub record System (S : Type 0) : Type 0 where
  pub stat : Bytes → S → Bool
  pub mkdir_all : Bytes → S → S × Bool
  pub write_file : Bytes → Bytes → S → S
  pub decode_app : Bytes → S → Option AppConfig

-- The file is there and decodes, or one of the two errors.
unfoldable pub decode_file : {C : Type 0} → Bool → Option C → Loaded C
decode_file exists none = if exists then file_parse else file_not_found
decode_file exists (some c) = if exists then loaded c else file_not_found

-- `configFile` of `getAppConfig`.
abbrev pub app_config_file : Globals → Bytes
app_config_file g = g.config_path ++ text "/wing-binlog-go.toml"

module _ {S : Type 0} (sys : System S) where
  -- `path.Exists`
  unfoldable pub path_exists : Bytes → S → Bool
  path_exists dir s = sys.stat (forward_slashes dir) s

  -- `path.Mkdir`, its answer dropped.
  unfoldable pub mkdir : Bytes → S → S
  unfolding path_exists
  mkdir dir s = if path_exists dir s then s else (sys.mkdir_all dir s).0

  -- `if dir != "" && !path.Exists(dir) { path.Mkdir(dir) }`
  unfoldable pub ensure : Bytes → S → S
  unfolding mkdir path_exists
  ensure dir s = if not (bytes_eq dir []) && not (path_exists dir s) then mkdir dir s else s

  -- A directory of the config is trimmed and made, parsed against its default, and made again.
  unfoldable pub settle : Bytes → Bytes → S → Outcome (Bytes × S)
  unfolding ensure path_exists
  settle default_value dir s =
      let made = ensure (trim dir) s in
      path_parse (λ d. sys.stat d made) (trim dir) default_value >>= λ out.
      ok (out, ensure out made)

  -- The pid file of the config: its directory is made. A path without a directory is a panic.
  unfoldable pub settle_pid : Bytes → Bytes → S → Outcome (Bytes × S)
  unfolding mkdir
  settle_pid default_value file s =
      if bytes_eq file []
      then ok (default_value, s)
      else (get_parent (forward_slashes file) >>= λ dir. ok (forward_slashes file, mkdir dir s))

  -- `getAppConfig` past the decoding.
  unfoldable pub finish_config : Globals → AppConfig → S → Outcome (AppConfig × S)
  unfolding settle settle_pid
  finish_config g c s = do
    (once, a) ← settle g.default_cache c.cache_path s
    (cache, b) ← settle g.default_cache once a
    (log, d) ← settle g.default_log c.log_path b
    (file, e) ← settle_pid g.pid c.pid_file d
    ok (
      record c {
        time_zone = if bytes_eq c.time_zone [] then text "Local" else c.time_zone;
        cache_path = cache;
        log_path = log;
        pid_file = file;
      },
      e,
    )

  -- What `getAppConfig` makes of the file.
  unfoldable pub finish_loaded : Globals → S → Loaded AppConfig → Outcome (Loaded AppConfig × S)
  finish_loaded g s file_not_found = ok (file_not_found, s)
  finish_loaded g s file_parse = ok (file_parse, s)
  finish_loaded g s (loaded c) = finish_config g c s >>= λ (d, t). ok (loaded d, t)

  -- `getAppConfig`
  unfoldable pub get_app_config : Globals → S → Outcome (Loaded AppConfig × S)
  unfolding decode_file finish_loaded
  get_app_config g s =
      let file = app_config_file g in
      finish_loaded g s (decode_file (sys.stat file s) (sys.decode_app file s))
