-- ===== src/App/Process.antt =====
-- The pid file of src/library/app/app.go and src/library/app/linux.go, which is to keep a second
-- service from starting, and the three ways in which a process of src/wing-binlog-go/main.go uses it.
use wing_binlog_go.Prelude.{
  ℕ, ◌≡◌, refl, sym, ◌∙◌, Bool, true, false, not, ◌&&◌, ◌⊎◌, inl, inr, Option, none, some, List, [],
  ◌∷◌, ◌++◌, if◌then◌else◌, arith,
}

-- The pid in the file, if there is one, the processes that stand in `Init` between its test of the file
-- and its write, and the services that run.
pub record Machine : Type 0 where
  pub pid_file : Option ℕ
  pub starting : List ℕ
  pub running : List ℕ

abbrev pub empty_machine : Machine
empty_machine = record { pid_file = none; starting = []; running = [] }

abbrev file_exists : Option ℕ → Bool
file_exists none = false
file_exists (some pid) = true

-- The test of `Init` with `hasCmd`: false is `os.Exit(1)`.
unfoldable pub init_tests : Bool → Machine → Bool
init_tests has_cmd m = not (file_exists m.pid_file && not has_cmd)

-- The write of `Init`, later than the test.
unfoldable pub init_writes : ℕ → Machine → Machine
init_writes pid m = record m { pid_file = some pid }

-- `Init` with no other process between the test and the write, as far as it is about the pid file.
unfoldable pub init : Bool → ℕ → Machine → Option Machine
unfolding init_tests init_writes
init has_cmd pid m = if init_tests has_cmd m then some (init_writes pid m) else none

-- `Release`
unfoldable pub release : Machine → Machine
release m = record m { pid_file = none }

-- A command of the command line, from `Init` to the deferred `Release`.
unfoldable pub command : ℕ → Machine → Option Machine
unfolding init release
command pid m = elim (init true pid m) [ none ↦ none | some n ↦ some (release n) ]

-- What happens to the services of a machine on which no command is run: one that starts passes the test,
-- and later writes the file and runs; one is refused; one ends by itself (`main` returns, and its
-- deferred `Release` runs), one is killed. No service tests while another has yet to write.
pub data Happens : Machine → Machine → Type 0 where
  tests :
      {m : Machine} (pid : ℕ)
      → m.starting ≡ []
      → init_tests false m ≡ true
      → Happens m (record m { starting = pid ∷ [] })
  writes :
      {m : Machine} (pid : ℕ)
      → m.starting ≡ pid ∷ []
      → Happens m (record (init_writes pid m) { starting = []; running = m.running ++ pid ∷ [] })
  refused : {m : Machine} (pid : ℕ) → init_tests false m ≡ false → Happens m m
  ends :
      {m : Machine} (pid : ℕ) (before after : List ℕ)
      → m.running ≡ before ++ pid ∷ after
      → Happens m (release (record m { running = before ++ after }))
  killed :
      {m : Machine} (pid : ℕ) (before after : List ℕ)
      → m.running ≡ before ++ pid ∷ after
      → Happens m (record m { running = before ++ after })

pub data History : Machine → Type 0 where
  nothing_yet : History empty_machine
  then_happens : {m n : Machine} → History m → Happens m n → History n

-- No service runs, or one does and its pid is in the file.
unfoldable pub IsSingle : Machine → Type 0
IsSingle m = (m.running ≡ []) ⊎ ((pid : ℕ) × (m.running ≡ pid ∷ []) × (m.pid_file ≡ some pid))

-- And while one starts, none runs.
abbrev IsGuarded : Machine → Type 0
IsGuarded m = IsSingle m × ((m.starting ≡ []) ⊎ (m.running ≡ []))

alone : (before after : List ℕ) (pid p : ℕ) → p ∷ [] ≡ before ++ pid ∷ after → before ++ after ≡ []
alone [] [] pid p e = refl
alone [] (x ∷ after) pid p e = cc
alone (x ∷ []) after pid p e = cc
alone (x ∷ y ∷ before) after pid p e = cc

left-empty :
    (before after rs : List ℕ) (pid : ℕ)
    → rs ≡ before ++ pid ∷ after
    → (rs ≡ []) ⊎ ((p : ℕ) × (rs ≡ p ∷ []))
    → before ++ after ≡ []
left-empty [] after rs pid e (inl none_run) = cc
left-empty (x ∷ before) after rs pid e (inl none_run) = cc
left-empty before after rs pid e (inr (p, one)) = alone before after pid p (sym one ∙ e)

init_tests-free : (m : Machine) → init_tests false m ≡ true → m.pid_file ≡ none
unfolding init_tests
init_tests-free m e = ground arith

started : (pid : ℕ) (rs : List ℕ) → rs ≡ [] → rs ++ pid ∷ [] ≡ pid ∷ []
started pid rs e = rw e refl

-- While there is no pid file no service runs.
none_runs : (m : Machine) → IsSingle m → m.pid_file ≡ none → m.running ≡ []
unfolding IsSingle
none_runs m (inl e) free = e
none_runs m (inr (p, one, held)) free = cc

forget : (m : Machine) → IsSingle m → (m.running ≡ []) ⊎ ((p : ℕ) × (m.running ≡ p ∷ []))
unfolding IsSingle
forget m (inl e) = inl e
forget m (inr (p, one, held)) = inr (p, one)

ended :
    (m : Machine) (pid : ℕ) (before after : List ℕ)
    → m.running ≡ before ++ pid ∷ after
    → IsSingle m
    → before ++ after ≡ []
ended m pid before after e h = left-empty before after m.running pid e (forget m h)

Happens-IsGuarded : (m n : Machine) → Happens m n → IsGuarded m → IsGuarded n
unfolding IsSingle release init_writes
Happens-IsGuarded m n (tests pid quiet e) (h, g) =
    let none_run = none_runs m h (init_tests-free m e) in (inl none_run, inr none_run)
Happens-IsGuarded m n (writes pid e) (h, inl quiet) = cc
Happens-IsGuarded m n (writes pid e) (h, inr none_run) =
    (inr (pid, started pid m.running none_run, refl), inl refl)
Happens-IsGuarded m n (refused pid e) g = g
Happens-IsGuarded m n (ends pid before after e) (h, g) =
    let none_left = ended m pid before after e h in (inl none_left, inr none_left)
Happens-IsGuarded m n (killed pid before after e) (h, g) =
    let none_left = ended m pid before after e h in (inl none_left, inr none_left)

History-IsGuarded : (m : Machine) → History m → IsGuarded m
unfolding IsSingle
History-IsGuarded m nothing_yet = (inl refl, inl refl)
History-IsGuarded n (then_happens {m = m} before h) =
    Happens-IsGuarded m n h (History-IsGuarded m before)

-- On a machine on which only services are started, ended and killed, and no service tests the pid file
-- while another stands between its test and its write, at most one service runs at a time, and the pid
-- file holds its pid.
pub History-IsSingle : (m : Machine) → History m → IsSingle m
History-IsSingle m before = (History-IsGuarded m before).0

-- Any command that is run while a service runs, be it `-version`, takes the pid file away, and a second
-- service then starts beside the first.
pub command-second :
    (pid second p : ℕ) (m : Machine)
    → m.running ≡ p ∷ []
    → (freed : Machine) × (n : Machine) × (command pid m ≡ some freed)
      × (init false second freed ≡ some n)
      × (n.running ≡ p ∷ [])
      × (n.pid_file ≡ some second)
unfolding command init release init_tests init_writes
command-second pid second p m one = (
  release (record m { pid_file = some pid }),
  record m { pid_file = some second },
  ground arith,
  refl,
  one,
  refl,
)
