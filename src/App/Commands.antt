-- ===== src/App/Commands.antt =====
-- The command line of src/wing-binlog-go/main.go: `runCmd` and the start of `main`.
use wing_binlog_go.Prelude.{
  ◌≤◌, ◌⊎◌, length, ◌≡◌, Bool, true, false, not, ◌||◌, List, [], ◌∷◌, Outcome, ok, panic, Bytes,
  bytes_eq, if◌then◌else◌, arith,
}
use wing_binlog_go.Control.{Command, stop_command, reload_command, show_members_command}

-- The flags that `main` reads; `-reload` is empty when it is not given.
pub record Flags : Type 0 where
  pub version : Bool
  pub v : Bool
  pub stop : Bool
  pub service_reload : Bytes
  pub help : Bool
  pub members : Bool

-- `isCmd`
unfoldable pub is_cmd : Flags → Bool
is_cmd f =
    f.version || (f.stop || (not (bytes_eq f.service_reload []) || (f.help || (f.members || f.v))))

-- What a run of `runCmd` does: its answer, whether it asked for a control connection, and the
-- commands that it wrote.
pub record Run : Type 0 where
  pub answer : Bool
  pub dialled : Bool
  pub written : List Command

-- `runCmd`. `dials` says whether a service listens: `control.NewClient` panics otherwise.
unfoldable pub run_cmd : Bool → Flags → Outcome Run
run_cmd dials f =
    if f.version || f.v
    then ok (record { answer = true; dialled = false; written = [] })
    else if not dials
    then panic
    else if f.stop
    then ok (record { answer = true; dialled = true; written = stop_command ∷ [] })
    else if not (bytes_eq f.service_reload [])
    then ok
        (record { answer = true; dialled = true; written = reload_command f.service_reload ∷ [] })
    else if f.help
    then ok (record { answer = true; dialled = true; written = [] })
    else if f.members
    then ok (record { answer = true; dialled = true; written = show_members_command ∷ [] })
    else ok (record { answer = false; dialled = true; written = [] })

-- A run of the command line either panics, which happens exactly if a control connection is asked for
-- and no service listens, or returns, and then its answer is that one of the command flags was given,
-- it has written at most one command, and it asked for a connection unless the version was asked for.
pub run_cmd-is_cmd :
    (dials : Bool) (f : Flags)
    → ((run_cmd dials f ≡ panic) × (dials ≡ false) × ((f.version || f.v) ≡ false))
      ⊎ ((r : Run) × (run_cmd dials f ≡ ok r)
          × (r.answer ≡ is_cmd f)
          × (length r.written ≤ 1)
          × (r.dialled ≡ not (f.version || f.v))
          × ((dials || (f.version || f.v)) ≡ true))
unfolding run_cmd is_cmd
run_cmd-is_cmd dials f = ground arith
