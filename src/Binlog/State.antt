-- ===== src/Binlog/State.antt =====
-- The state of `Binlog` in src/library/binlog/config.go, and what it does to the outside.
use wing_binlog_go.Prelude.{ℕ, zero, suc, Bool, true, false, List, [], ◌∷◌, ◌++◌, Bytes, bytes_eq}

-- A call out of the service: a position callback, a service plugin, an event callback. A callback is
-- known by its place in its list, a plugin by its name.
pub data Effect : Type 0 where
  pos_changed : ℕ → Bytes → Effect
  send_all : Bytes → Bytes → Bytes → Effect
  on_event : ℕ → Bytes → Bytes → Effect

-- `Binlog`: the three bits of `status`, the position, the content of the cache file, the registered
-- plugins, the number of callbacks, and what was called, oldest first.
pub record Binlog : Type 0 where
  pub is_running : Bool
  pub is_exit : Bool
  pub cache_opened : Bool
  pub event_index : ℕ
  pub last_bin_file : Bytes
  pub last_pos : ℕ
  pub cache_file : Bytes
  pub services : List Bytes
  pub on_pos_changes : ℕ
  pub on_events : ℕ
  pub effects : List Effect

-- `NewBinlog` before `handlerInit`: nothing registered, and a file on disk.
unfoldable pub new_binlog : Bytes → ℕ → ℕ → Binlog
new_binlog disk on_pos_changes on_events = record {
  is_running = false;
  is_exit = false;
  cache_opened = false;
  event_index = 0;
  last_bin_file = [];
  last_pos = 0;
  cache_file = disk;
  services = [];
  on_pos_changes = on_pos_changes;
  on_events = on_events;
  effects = [];
}

has_name : Bytes → List Bytes → Bool
has_name name [] = false
has_name name (n ∷ names) = elim (bytes_eq n name) [ true ↦ true | false ↦ has_name name names ]

-- `RegisterService`: a map from names, so that a name is registered once.
unfoldable pub register_service : Bytes → Binlog → Binlog
unfolding has_name
register_service name h = elim (has_name name h.services) [
  | true ↦ h
  | false ↦ record h { services = h.services ++ name ∷ [] }
]

-- The calls of the first `k` callbacks of a list, in order.
unfoldable pub call_each : ℕ → (ℕ → Effect) → List Effect
call_each zero f = []
call_each (suc k) f = call_each k f ++ f k ∷ []
