-- ===== src/System/Path.antt =====
-- src/library/path/util.go, and `pathParse` of src/library/app/app.go. Whether a directory exists is an
-- argument.
pub mod Parent
pub mod Strip
use wing_binlog_go.Prelude.{
  ℕ, zero, suc, ◌-◌, Bool, true, false, not, ◌||◌, Option, none, some, List, [], ◌∷◌, map, Outcome,
  ok, panic, ◌>>=◌, Bytes, length, take, drop, slice, leb, bytes_eq, ◌==◌, if◌then◌else◌,
}
use mathlib.Core.Option

abbrev pub slash : ℕ
slash = b'/'

-- `strings.Replace(dir, "\\", "/", -1)`
unfoldable pub forward_slashes : Bytes → Bytes
forward_slashes dir = map (λ b. if b == 92 then slash else b) dir

-- `strings.LastIndex(s, "/")`; `none` is -1.
unfoldable pub last_index : Bytes → Option ℕ
last_index [] = none
last_index (b ∷ s) = elim (last_index s) [
  | some i ↦ some (suc i)
  | none ↦ if b == slash then some zero else none
]

-- `dir[:len(dir)-1]`
unfoldable pub drop_last : Bytes → Outcome Bytes
drop_last [] = panic
drop_last (b ∷ s) = ok (take (length s) (b ∷ s))

-- `dir[:lastIndex]`, where an index of -1 is a panic.
unfoldable pub cut_at : Bytes → Option ℕ → Outcome Bytes
cut_at dir none = panic
cut_at dir (some i) = ok (take i dir)

-- `GetParent`
unfoldable pub get_parent : Bytes → Outcome Bytes
unfolding forward_slashes last_index drop_last cut_at
get_parent dir = do
  front ← drop_last (forward_slashes dir)
  cut_at (forward_slashes dir) (last_index front)

-- Whether the last byte is a slash; of no bytes at all it is a panic.
unfoldable pub ends_with_slash : Bytes → Outcome Bool
ends_with_slash [] = panic
ends_with_slash (b ∷ []) = ok (b == slash)
ends_with_slash (b ∷ c ∷ s) = ends_with_slash (c ∷ s)

-- `GetPath`
unfoldable pub get_path : Bytes → Outcome Bytes
unfolding forward_slashes drop_last ends_with_slash
get_path dir = do
  slashed ← ends_with_slash (forward_slashes dir)
  if slashed then drop_last (forward_slashes dir) else ok (forward_slashes dir)

module _ (exists : Bytes → Bool) where
  -- `pathParse`
  unfoldable pub path_parse : Bytes → Bytes → Outcome Bytes
  unfolding forward_slashes drop_last ends_with_slash
  path_parse dir default_value =
      if bytes_eq dir [] || not (exists (forward_slashes dir)) then ok default_value else do
        slashed ← ends_with_slash (forward_slashes dir)
        if slashed then drop_last (forward_slashes dir) else ok (forward_slashes dir)
