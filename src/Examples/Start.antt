-- ===== src/Examples/Start.antt =====
-- The program from its start to its commands, and texts of runes.
use wing_binlog_go.Prelude.{
  ℕ, ◌≡◌, refl, ap, Bool, true, false, not, ◌&&◌, some, List, [], ◌∷◌, ◌++◌, length, take, drop,
  leb, ok, panic, ◌>>=◌, ltb, ◌+◌, ◌^◌, Bytes, text, bytes_eq, bytes_eq_refl, if◌then◌else◌, arith,
  inr, ◌==◌,
}
use wing_binlog_go.Stream.Chunks.{concat}
use wing_binlog_go.Wire.{pack}
use wing_binlog_go.Control.{
  Callbacks, Command, reload_command, show_members_command, client_write, new_node,
}
use wing_binlog_go.Control.Frames.{stream, on_messages, serve_all, on_messages-commands}
use wing_binlog_go.System.Numbers.{pos}
use wing_binlog_go.System.Path.{
  slash, forward_slashes, last_index, drop_last, cut_at, get_parent, path_parse,
}
use wing_binlog_go.System.Runes.{string_of, encode_rune, rune_count, substr}
use wing_binlog_go.System.Runes.RoundTrip.{substr-string_of}
use wing_binlog_go.Config.{System, Globals, AppConfig}
use wing_binlog_go.Config.Settled.{IsLawful, IsThere, IsFinished}
use wing_binlog_go.App.Start.{refused, started, init_app}
use wing_binlog_go.App.Start.Ready.{init_app-ready}

-- A file system that is the list of its paths, in which slashes do not matter.
bare : Bytes → Bytes
bare [] = []
bare (b ∷ s) = if b == slash then bare s else b ∷ bare s

bare-slash : (d : Bytes) → bare (d ++ slash ∷ []) ≡ bare d
unfolding bare
bare-slash [] = refl
bare-slash (b ∷ d) = ap (λ s. if b == slash then s else b ∷ s) (bare-slash d)

found : Bytes → List Bytes → Bool
found d [] = false
found d (e ∷ es) = if bytes_eq (bare e) d then true else found d es

abbrev app_config : AppConfig
app_config = record {
  log_level = 4;
  pprof_listen = [];
  control_listen = text "127.0.0.1:6061";
  time_zone = [];
  cache_path = text " /var/wing/";
  log_path = [];
  pid_file = text "/run/wing.pid";
}

abbrev disk : System (List Bytes)
disk = record {
  stat = λ d s. found (bare d) s;
  mkdir_all = λ d s. (d ∷ s, true);
  write_file = λ path content s. path ∷ s;
  decode_app = λ file s. some app_config;
}

disk-IsLawful : IsLawful disk
unfolding found
disk-IsLawful = record {
  made = λ d s. λ _. rw (bytes_eq_refl (bare d)) refl;
  kept = λ d e s h. keeps (bytes_eq (bare d) (bare e)) (found (bare e) s) h;
  slashed = λ d s named h. rw bare-slash at h;
}
  where
    keeps : (b c : Bool) → c ≡ true → (if b then true else c) ≡ true
    keeps true c h = refl
    keeps false c h = h

abbrev defaults : Globals
defaults = record {
  pid = text "/opt/wing.pid";
  config_path = text "/opt/config";
  default_cache = text "/opt/cache";
  default_log = text "/opt/logs";
}

abbrev first_state : List Bytes
first_state = text "/opt/config/wing-binlog-go.toml" ∷ []

init_app-ready_example :
    (d : AppConfig) × (t : List Bytes) × IsThere disk d.cache_path t
    × IsThere disk d.log_path t
    × IsFinished disk (record defaults { config_path = text "/opt/config" }) app_config d
    × (init_app disk false [] (text "20") defaults first_state
        ≡ ok (
            if disk.stat d.pid_file t && not false
            then refused
            else started
                (record {
                  pid = d.pid_file;
                  config_path = text "/opt/config";
                  default_cache = d.cache_path;
                  default_log = d.log_path;
                })
                (disk.write_file d.pid_file (text "20") t)))
unfolding found bare forward_slashes last_index drop_last cut_at get_parent path_parse
init_app-ready_example =
    init_app-ready disk disk-IsLawful false [] (text "20") (text "/opt/config") defaults first_state
      app_config refl refl refl (record { forward = refl; succeeds = λ s. refl })
      (record { forward = refl; succeeds = λ s. refl }) (inr (text "/run", refl))

-- A world that keeps the names of the services that were reloaded.
abbrev noting : Callbacks (List Bytes)
noting = record {
  stop_all = λ w. ok w;
  reload = λ name w. ok (w ++ name ∷ []);
  show_member = λ w. text "members";
}

abbrev line : List Command
line = reload_command (text "redis") ∷ show_members_command ∷ []

unfoldable line_bytes : Bytes
line_bytes = stream line

line-concat : concat (take 3 line_bytes ∷ drop 3 line_bytes ∷ []) ≡ stream line
unfolding line_bytes stream client_write pack concat
line-concat = refl

on_messages-commands_example :
    on_messages noting (take 3 line_bytes ∷ drop 3 line_bytes ∷ []) (new_node [])
    ≡ (serve_all noting line (new_node []) >>= λ m. ok (record m { recv_buf = [] }))
unfolding new_node
on_messages-commands_example =
    on_messages-commands noting (take 3 line_bytes ∷ drop 3 line_bytes ∷ []) line (new_node [])
      (omega arith, (tt, tt)) refl line-concat

abbrev four_runes : List ℕ
four_runes = 0x61 ∷ 0xe9 ∷ 0x20ac ∷ 0x1f600 ∷ []

substr-string_of_example :
    (rune_count (string_of four_runes) ≡ length four_runes)
    × (substr (pos 1) (pos 2) (string_of four_runes) ≡ (
        if ltb (1 + 2) (2 ^ 63) && leb 1 (length four_runes)
        then ok (string_of (take 2 (drop 1 four_runes)))
        else panic))
substr-string_of_example =
    substr-string_of 1 2 four_runes
      ((omega arith, refl), ((omega arith, refl), ((omega arith, refl), ((omega arith, refl), tt))))

three_bytes_test : string_of (0x20ac ∷ []) ≡ 0xe2 ∷ 0x82 ∷ 0xac ∷ []
unfolding string_of encode_rune
three_bytes_test = refl
