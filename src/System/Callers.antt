-- ===== src/System/Callers.antt =====
-- `getCallerInfo` and `Fire` of src/library/log/log.go: a log line names the place that wrote it. What
-- `runtime.Caller` answers at the depths 3 to 14 is a list; strings.ToLower is a parameter.
use wing_binlog_go.Prelude.{
  ℕ, zero, suc, ◌≡◌, refl, Bool, true, false, not, ◌&&◌, Option, none, some, List, [], ◌∷◌, ◌++◌,
  All, Bytes, text, bytes_eq, drop, length, decimal, ltb, ◌==◌, if◌then◌else◌,
}
use wing_binlog_go.System.Path.{slash}
use wing_binlog_go.System.Logs.{Logs, get_handler}

-- A frame of the stack: the file, the function and the line.
pub record Frame : Type 0 where
  pub full_path : Bytes
  pub function : Bytes
  pub line : ℕ

-- `strings.LastIndex` of one byte; `none` is -1.
unfoldable pub last_of : ℕ → Bytes → Option ℕ
last_of c [] = none
last_of c (b ∷ s) = elim (last_of c s) [
  | some i ↦ some (suc i)
  | none ↦ if b == c then some zero else none
]

-- `fullPath[lastS+1:]`, with the last slash, or the last backslash where there is no slash.
unfoldable pub short_path : Bytes → Bytes
unfolding last_of
short_path s = elim (last_of slash s) [
  | some i ↦ drop (suc i) s
  | none ↦ elim (last_of 92 s) [ some i ↦ drop (suc i) s | none ↦ s ]
]

-- `strings.HasPrefix`
unfoldable pub has_prefix : Bytes → Bytes → Bool
has_prefix [] s = true
has_prefix (a ∷ p) [] = false
has_prefix (a ∷ p) (b ∷ s) = (a == b) && has_prefix p s

-- `strings.Contains`
unfoldable pub contains : Bytes → Bytes → Bool
unfolding has_prefix
contains p [] = has_prefix p []
contains p (b ∷ s) = if has_prefix p (b ∷ s) then true else contains p s

-- The name of the function without the working directory and the package: a dot at the front is none.
unfoldable pub short_function : Bytes → Bytes → Bytes
unfolding has_prefix last_of
short_function working_dir name =
    let rest = if has_prefix working_dir name then drop (length working_dir) name else name in
    elim (last_of b'.' rest) [ none ↦ rest | some i ↦ if ltb 0 i then drop (suc i) rest else rest ]

abbrev pub logger_path : Bytes
logger_path = text "github.com/sirupsen/logrus"

module _ (to_lower : Bytes → Bytes) (working_dir : Bytes) where
  abbrev pub is_logger : Frame → Bool
  is_logger f = contains logger_path (to_lower f.full_path)

  -- What is said of a frame.
  unfoldable pub caller : Frame → Bytes × Bytes × ℕ
  unfolding short_path short_function
  caller f = (short_path f.full_path, short_function working_dir f.function, f.line)

  -- `getCallerInfo`: the loop over the depths.
  unfoldable pub get_caller_info : List (Option Frame) → Bytes × Bytes × ℕ
  unfolding caller
  get_caller_info [] = ([], [], 0)
  get_caller_info (none ∷ fs) = get_caller_info fs
  get_caller_info (some f ∷ fs) =
      let later = get_caller_info fs in if not (is_logger f) then caller f else later

  -- The entry's field "caller", if there is one.
  unfoldable pub caller_field : List (Option Frame) → Option Bytes
  unfolding get_caller_info
  caller_field fs =
      let (path, function, line) = get_caller_info fs in
      if not (bytes_eq path []) && not (line == 0)
      then some (
          text "["
          ++ (path ++ (text "(" ++ (function ++ (text "):" ++ (decimal line ++ text "]"))))))
      else none

  -- `Fire`: `show` is `entry.String()` with the field set, `none` its error, which is returned; an error
  -- of `getHandler` is not. The lines that were written, by the file, which may be nil.
  unfoldable pub fire :
      (Option Bytes → Option Bytes)
      → List (Option Frame)
      → Bytes
      → Option ℕ
      → Logs
      → Bool × List (Option ℕ × Bytes) × Logs
  unfolding caller_field
  fire show fs key answer l = elim (show (caller_field fs)) [
    | none ↦ (false, [], l)
    | some line ↦
        let (found, k) = get_handler key answer l in
        elim found [ none ↦ (true, [], k) | some file ↦ (true, (file, line) ∷ [], k) ]
  ]

  -- A depth that has no frame, or one of the logger.
  abbrev pub IsSkipped : Option Frame → Type 0
  IsSkipped none = Unit {0}
  IsSkipped (some f) = is_logger f ≡ true

  -- A log line is said to come from the first frame of the stack that is not the logger's, and from
  -- nowhere if every frame is the logger's or missing.
  pub get_caller_info-first :
      (before after : List (Option Frame)) (f : Frame)
      → All IsSkipped before
      → is_logger f ≡ false
      → (get_caller_info (before ++ some f ∷ after) ≡ caller f)
        × (get_caller_info before ≡ ([], [], 0))
  unfolding get_caller_info
  get_caller_info-first [] after f h other = (rw other refl, refl)
  get_caller_info-first (none ∷ before) after f h other =
      get_caller_info-first before after f h.1 other
  get_caller_info-first (some g ∷ before) after f h other =
      let (x, y) = get_caller_info-first before after f h.1 other in (rw h.0 x, rw h.0 y)
