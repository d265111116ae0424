-- ===== src/System/Files.antt =====
-- src/library/file/file.go, and `GetKey` of src/library/app/app.go. A disk gives the content of the
-- files that exist; what the operating system answers to an open or a write is an argument.
pub mod Windows
pub mod Keys
use wing_binlog_go.Prelude.{
  ℕ, zero, suc, ◌+◌, ◌-◌, Bool, true, false, not, Option, none, some, List, [], ◌∷◌, ◌++◌, Outcome,
  ok, panic, ◌>>=◌, Bytes, text, decimal, length, take, drop, ltb, bytes_eq, ◌==◌, if◌then◌else◌,
}
use wing_binlog_go.System.Numbers.{ℤ, pos, negsuc}
use wing_binlog_go.System.Path.{get_parent}

abbrev pub Disk : Type 0
Disk = Bytes → Option Bytes

-- `Exists`
unfoldable pub exists : Bytes → Disk → Bool
exists path d = elim (d path) [ none ↦ false | some content ↦ true ]

unfoldable pub read_file : Bool → Option Bytes → Bytes
read_file readable none = []
read_file readable (some content) = if readable then content else []

-- `Read`
unfoldable pub read : Bool → Bytes → Disk → Bytes
unfolding read_file
read readable path d = read_file readable (d path)

unfoldable pub nuls : ℕ → Bytes
nuls zero = []
nuls (suc n) = 0 ∷ nuls n

abbrev pub at_most : ℕ → ℕ → ℕ
at_most a b = if ltb b a then b else a

-- Where the two `Seek` calls of `ReadAt` leave the file, which has `size` bytes.
unfoldable pub seek : ℤ → ℕ → ℕ
seek (pos offset) size = at_most offset size
seek (negsuc offset) size = size - at_most (suc offset) size

-- `Read` of `size` bytes into a buffer of NULs, and what `ReadAt` makes of it: no byte is an error.
unfoldable pub fill : ℕ → Bytes → Bytes
unfolding nuls
fill size rest =
    let chunk = take size rest in
    if length chunk == 0 then [] else chunk ++ nuls (size - length chunk)

-- `ReadAt` of an open file. A buffer of a negative length is a panic.
unfoldable pub read_open : ℤ → ℤ → Bytes → Outcome Bytes
unfolding seek fill
read_open offset (pos size) content =
    ok (fill (at_most size (length content)) (drop (seek offset (length content)) content))
read_open offset (negsuc size) content = panic

unfoldable pub read_at_file : Bool → ℤ → ℤ → Option Bytes → Outcome Bytes
unfolding read_open
read_at_file opens offset size none = ok []
read_at_file opens offset size (some content) =
    if opens then read_open offset size content else ok []

-- `ReadAt`
unfoldable pub read_at : Bool → Bytes → ℤ → ℤ → Disk → Outcome Bytes
unfolding read_at_file
read_at opens path offset size d = read_at_file opens offset size (d path)

-- What a write meets: the file is not opened, the write fails after some bytes, or it writes all. A
-- write that reports no error wrote all, so that the loop of `Write` ends in its first round.
pub data Answer : Type 0 where
  not_opened : Answer
  fails : ℕ → Answer
  writes : Answer

unfoldable pub put : Bytes → Bytes → Disk → Disk
put path content d other = if bytes_eq path other then some content else d other

-- What an open for writing leaves of the file.
unfoldable pub opened : Bool → Option Bytes → Bytes
opened append none = []
opened append (some content) = if append then content else []

-- `Write`, with its answer.
unfoldable pub write : Answer → Bytes → Bytes → Bool → Disk → Outcome (ℕ × Disk)
unfolding put opened
write answer path contents append d = get_parent path >>= λ dir. elim answer [
  | not_opened ↦ ok (0, d)
  | fails n ↦ ok (0, put path (opened append (d path) ++ take n contents) d)
  | writes ↦ ok (length contents, put path (opened append (d path) ++ contents) d)
]

-- `Delete`
unfoldable pub delete : Bool → Bytes → Disk → Bool × Disk
delete removes path d =
    if removes then (true, λ other. if bytes_eq path other then none else d other) else (false, d)

unfoldable pub length_of : Bool → Option Bytes → ℕ
length_of opens none = 0
length_of opens (some content) = if opens then length content else 0

-- `Length`
unfoldable pub file_length : Bool → Bytes → Disk → ℕ
unfolding length_of
file_length opens path d = length_of opens (d path)

-- The second half of `GetKey`: a new key of the clock and 64 random letters.
unfoldable pub new_key : Answer → ℕ → Bytes → Bytes → Disk → Outcome (Bytes × Disk)
unfolding write
new_key answer now letters session_file d = do
  let key = decimal now ++ (text "-" ++ letters)
  dir ← get_parent session_file
  (n, written) ← write answer session_file key false d
  ok (if n == length key then (key, written) else ([], written))

-- What `GetKey` makes of the content of an existing file.
unfoldable pub key_of :
    Bool → Answer → ℕ → Bytes → Bytes → Disk → Option Bytes → Outcome (Bytes × Disk)
unfolding new_key read_file
key_of readable answer now letters session_file d none = new_key answer now letters session_file d
key_of readable answer now letters session_file d (some content) =
    let found = read_file readable (some content) in
    if bytes_eq found [] then new_key answer now letters session_file d else ok (found, d)

-- `GetKey`
unfoldable pub get_key : Bool → Answer → ℕ → Bytes → Bytes → Disk → Outcome (Bytes × Disk)
unfolding key_of
get_key readable answer now letters session_file d =
    key_of readable answer now letters session_file d (d session_file)
