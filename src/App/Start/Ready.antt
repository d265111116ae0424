-- ===== src/App/Start/Ready.antt =====
-- What holds when the program has begun.
use wing_binlog_go.Prelude.{
  ◌≡◌, refl, Bool, true, false, not, ◌&&◌, none, some, ok, panic, Bytes, if◌then◌else◌, ◌⊎◌, inl,
  inr,
}
use wing_binlog_go.System.Path.{path_parse}
use wing_binlog_go.Config.{System, Globals, AppConfig, app_config_file}
use wing_binlog_go.Config.Settled.{
  IsLawful, CanBeMade, IsThere, IsFinished, HasDirectory, get_app_config-loaded,
  get_app_config-unread, finish_config-IsThere,
}
use wing_binlog_go.App.Start.{refused, started, init_app}

module _ {S : Type 0} (sys : System S) where
  -- The program begins with its cache and log directories there, or named by no byte at all. They and the
  -- pid file are those of the config file, or the defaults where it names none or its directory could not
  -- be made. The program exits if the pid file is there and it was not run for a command, and else has
  -- written its pid to it. The config file is there and decodes, its pid file is in a directory, and the
  -- default directories can be made.
  pub init_app-ready :
      IsLawful sys
      → (has_cmd : Bool) (config_path pid path : Bytes) (g : Globals) (s : S) (c : AppConfig)
      → path_parse (λ d. sys.stat d s) config_path g.config_path ≡ ok path
      → sys.stat (app_config_file (record g { config_path = path })) s ≡ true
      → sys.decode_app (app_config_file (record g { config_path = path })) s ≡ some c
      → CanBeMade sys g.default_cache
      → CanBeMade sys g.default_log
      → HasDirectory c.pid_file
      → (d : AppConfig) × (t : S) × IsThere sys d.cache_path t
        × IsThere sys d.log_path t
        × IsFinished sys (record g { config_path = path }) c d
        × (init_app sys has_cmd config_path pid g s
            ≡ ok (
                if sys.stat d.pid_file t && not has_cmd
                then refused
                else started
                    (record {
                      pid = d.pid_file;
                      config_path = path;
                      default_cache = d.cache_path;
                      default_log = d.log_path;
                    })
                    (sys.write_file d.pid_file pid t)))
  unfolding init_app
  init_app-ready law has_cmd config_path pid path g s c parsed there decodes can_cache can_log has =
      let h = record g { config_path = path } in
      let (d, t, e, cache, log, made) = finish_config-IsThere sys law h c s can_cache can_log has in
      (
        d,
        t,
        cache,
        log,
        made,
        rw (parsed, get_app_config-loaded sys h s c d t there decodes e) refl,
      )

  -- Without a config file that decodes the program panics, whatever it was run for.
  pub init_app-panics :
      (has_cmd : Bool) (config_path pid path : Bytes) (g : Globals) (s : S)
      → path_parse (λ d. sys.stat d s) config_path g.config_path ≡ ok path
      → (sys.stat (app_config_file (record g { config_path = path })) s ≡ false)
        ⊎ (sys.decode_app (app_config_file (record g { config_path = path })) s ≡ none)
      → init_app sys has_cmd config_path pid g s ≡ panic
  unfolding init_app
  init_app-panics has_cmd config_path pid path g s parsed wrong =
      elim (get_app_config-unread sys (record g { config_path = path }) s wrong) [
        | inl e ↦ rw (parsed, e) refl
        | inr e ↦ rw (parsed, e) refl
      ]
