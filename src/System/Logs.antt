-- ===== src/System/Logs.antt =====
-- `getHandler` of src/library/log/log.go: the open log file of a day and a level, whose key is an
-- argument, as is the answer to the open. A file is a number; a nil file is `none`.
use wing_binlog_go.Prelude.{
  ℕ, ◌≡◌, refl, ap, ◌∙◌, Option, none, some, List, [], ◌∷◌, ◌++◌, Bytes, bytes_eq, bytes_eq_refl,
  bytes_eq→eq, if◌then◌else◌, All, Bool-cases, inl, inr,
}

-- `logHandler`, a map, and the files that were closed.
pub record Logs : Type 0 where
  pub handlers : List (Bytes × Option ℕ)
  pub closed : List (Option ℕ)

unfoldable pub lookup : Bytes → List (Bytes × Option ℕ) → Option (Option ℕ)
lookup key [] = none
lookup key ((k, file) ∷ rest) =
    let later = lookup key rest in if bytes_eq k key then some file else later

-- The entries that the loop keeps, and the files that it closes.
unfoldable pub keep : Bytes → List (Bytes × Option ℕ) → List (Bytes × Option ℕ)
keep key [] = []
keep key ((k, file) ∷ rest) =
    let kept = keep key rest in if bytes_eq k key then (k, file) ∷ kept else kept

unfoldable pub others : Bytes → List (Bytes × Option ℕ) → List (Option ℕ)
others key [] = []
others key ((k, file) ∷ rest) =
    let more = others key rest in if bytes_eq k key then more else file ∷ more

-- The loop over the map, and the file that is returned.
unfoldable pub retain : Bytes → Option ℕ → Logs → Option (Option ℕ) × Logs
unfolding keep others
retain key file l = (
  some file,
  record { handlers = keep key l.handlers; closed = l.closed ++ others key l.handlers },
)

-- An open: its answer goes into the map also when it is an error, which is returned at once.
unfoldable pub open_file : Bytes → Option ℕ → Logs → Option (Option ℕ) × Logs
unfolding retain
open_file key none l = (none, record l { handlers = (key, none) ∷ l.handlers })
open_file key (some file) l =
    retain key (some file) (record l { handlers = (key, some file) ∷ l.handlers })

unfoldable pub handler_of : Bytes → Option ℕ → Option (Option ℕ) → Logs → Option (Option ℕ) × Logs
unfolding open_file retain
handler_of key answer none l = open_file key answer l
handler_of key answer (some file) l = retain key file l

-- `getHandler`; `none` is an error.
unfoldable pub get_handler : Bytes → Option ℕ → Logs → Option (Option ℕ) × Logs
unfolding handler_of lookup
get_handler key answer l = handler_of key answer (lookup key l.handlers) l

keep-All :
    (key : Bytes) (entries : List (Bytes × Option ℕ)) → All (λ e. e.0 ≡ key) (keep key entries)
unfolding keep
keep-All key [] = tt
keep-All key ((k, file) ∷ rest) = elim (Bool-cases (bytes_eq k key)) [
  | inl same ↦ rw same (bytes_eq→eq k key same, keep-All key rest)
  | inr other ↦ rw other (keep-All key rest)
]

lookup-head :
    (key : Bytes) (file : Option ℕ) (rest : List (Bytes × Option ℕ))
    → lookup key ((key, file) ∷ rest) ≡ some file
unfolding lookup
lookup-head key file rest = rw (bytes_eq_refl key)

others-head :
    (key : Bytes) (file : Option ℕ) (rest : List (Bytes × Option ℕ))
    → others key ((key, file) ∷ rest) ≡ others key rest
unfolding others
others-head key file rest = rw (bytes_eq_refl key)

-- Only the key's files are left, and the others are closed.
Retained : Bytes → Logs → Logs → Type 0
Retained key l m = All (λ e. e.0 ≡ key) m.handlers × (m.closed ≡ l.closed ++ others key l.handlers)

handler_of-Retained :
    (key : Bytes) (answer file : Option ℕ) (held : Option (Option ℕ)) (l : Logs)
    → (handler_of key answer held l).0 ≡ some file
    → Retained key l (handler_of key answer held l).1
unfolding handler_of open_file retain Retained
handler_of-Retained key none file none l e = cc
handler_of-Retained key (some opened) file none l e = (
  keep-All key ((key, some opened) ∷ l.handlers),
  ap (λ (c : List (Option ℕ)). l.closed ++ c) (others-head key (some opened) l.handlers),
)
handler_of-Retained key answer file (some held) l e = (keep-All key l.handlers, refl)

-- When `getHandler` returns a file, only files of that day and level are left in the map, and every
-- other file that was in it is closed.
pub get_handler-retains :
    (key : Bytes) (answer file : Option ℕ) (l : Logs)
    → (get_handler key answer l).0 ≡ some file
    → All (λ e. e.0 ≡ key) (get_handler key answer l).1.handlers
      × ((get_handler key answer l).1.closed ≡ l.closed ++ others key l.handlers)
unfolding get_handler Retained
get_handler-retains key answer file l e =
    handler_of-Retained key answer file (lookup key l.handlers) l e

-- When the open of a new file fails, the nil file stays in the map: the next call for that day and
-- level, whatever an open would answer then, returns the nil file without an error.
pub get_handler-nil :
    (key : Bytes) (later : Option ℕ) (l : Logs)
    → lookup key l.handlers ≡ none
    → ((get_handler key none l).0 ≡ none)
      × ((get_handler key later (get_handler key none l).1).0 ≡ some none)
unfolding get_handler handler_of open_file retain
get_handler-nil key later l new =
    let failing = ap (λ held. handler_of key none held l) new in
    let after = ap (λ r. r.1) failing in
    (
      ap (λ r. r.0) failing,
      ap (λ t. (handler_of key later (lookup key t.handlers) t).0) after
          ∙ ap
              (λ held.
                (handler_of key later held (record l { handlers = (key, none) ∷ l.handlers })).0)
              (lookup-head key none l.handlers),
    )
