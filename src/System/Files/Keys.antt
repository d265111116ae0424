-- ===== src/System/Files/Keys.antt =====
-- What is written is read, and a key that was made stays.
use wing_binlog_go.Prelude.{
  ℕ, ◌≡◌, refl, ap, sym, ◌∙◌, Bool, true, false, Option, none, some, [], ◌∷◌, ◌++◌, ok, ◌>>=◌,
  Bytes, text, decimal, bytes_eq, bytes_eq_refl, length, ==_refl, if◌then◌else◌, Option-cases,
  Bool-cases, inl, inr,
}
use wing_binlog_go.System.Path.{get_parent}
use wing_binlog_go.System.Files.{
  Disk, Answer, writes, put, opened, write, opened, read, read_file, length_of, file_length,
  new_key, key_of, get_key,
}

held_of :
    (append : Bool) (old : Option Bytes) (contents : Bytes)
    → opened append old ++ contents ≡ (if append then read_file true old ++ contents else contents)
unfolding opened read_file
held_of true none contents = refl
held_of true (some content) contents = refl
held_of false none contents = refl
held_of false (some content) contents = refl

-- A file that was written is read back, its length is that of what was read, and another file is as
-- it was: written over, it holds the text; appended to, what it held and the text. The path names a
-- directory, and the system writes and reads.
pub read-write :
    (path dir contents other : Bytes) (append : Bool) (d : Disk)
    → get_parent path ≡ ok dir
    → bytes_eq path other ≡ false
    → (after : Disk) × (write writes path contents append d ≡ ok (length contents, after))
      × (read true path after ≡ (if append then read true path d ++ contents else contents))
      × (file_length true path after ≡ length (read true path after))
      × (after other ≡ d other)
unfolding write read read_file file_length length_of put
read-write path dir contents other append d parent away =
    let held = opened append (d path) ++ contents in
    let here = ap (λ (t : Bool). if t then some held else d path) (bytes_eq_refl path) in
    (
      put path held d,
      ap (λ m. m >>= λ p. ok (length contents, put path held d)) parent,
      ap (read_file true) here ∙ held_of append (d path) contents,
      ap (length_of true) here ∙ sym (ap (λ f. length (read_file true f)) here),
      ap (λ (t : Bool). if t then some held else d other) away,
    )

append-not_empty : (s t : Bytes) (b : ℕ) → bytes_eq (s ++ b ∷ t) [] ≡ false
append-not_empty [] t b = refl
append-not_empty (c ∷ s) t b = refl

opened-over : (old : Option Bytes) → opened false old ≡ []
unfolding opened
opened-over none = refl
opened-over (some content) = refl

key_text : ℕ → Bytes → Bytes
key_text now letters = decimal now ++ (text "-" ++ letters)

-- A key that stands in the file is found again.
found_again :
    (answer : Answer) (now : ℕ) (letters path key : Bytes) (d : Disk)
    → d path ≡ some key
    → bytes_eq key [] ≡ false
    → get_key true answer now letters path d ≡ ok (key, d)
unfolding get_key key_of read_file
found_again answer now letters path key d e full =
    ap (key_of true answer now letters path d) e ∙ rw full refl

made :
    (now : ℕ) (letters path dir : Bytes) (d : Disk)
    → get_parent path ≡ ok dir
    → let key = key_text now letters in new_key writes now letters path d ≡ ok (key, put path key d)
unfolding new_key write key_text
made now letters path dir d parent =
    let key = key_text now letters in rw (parent, opened-over (d path), ==_refl (length key)) refl

Kept : ℕ → Bytes → Bytes → Disk → Type 0
Kept now letters path d =
    (key : Bytes) × (after : Disk) × (get_key true writes now letters path d ≡ ok (key, after))
    × (after path ≡ some key)
    × (bytes_eq key [] ≡ false)

made-Kept :
    (now : ℕ) (letters path dir : Bytes) (d : Disk)
    → get_parent path ≡ ok dir
    → get_key true writes now letters path d ≡ new_key writes now letters path d
    → Kept now letters path d
unfolding Kept put key_text
made-Kept now letters path dir d parent new = (
  key_text now letters,
  put path (key_text now letters) d,
  new ∙ made now letters path dir d parent,
  ap (λ (t : Bool). if t then some (key_text now letters) else d path) (bytes_eq_refl path),
  append-not_empty (decimal now) letters b'-',
)

get_key-Kept :
    (now : ℕ) (letters path dir : Bytes) (d : Disk)
    → get_parent path ≡ ok dir
    → Kept now letters path d
unfolding get_key key_of read_file Kept
get_key-Kept now letters path dir d parent = elim (Option-cases (d path)) [
  | inl missing ↦
      made-Kept now letters path dir d parent (ap (key_of true writes now letters path d) missing)
  | inr (content, there) ↦ elim (Bool-cases (bytes_eq content [])) [
    | inl empty ↦
        made-Kept now letters path dir d parent
          (ap (key_of true writes now letters path d) there ∙ rw empty refl)
    | inr full ↦ (content, d, found_again writes now letters path content d there full, there, full)
  ]
]

-- The first call of `GetKey` that can write answers a key that is not empty and stands in the file,
-- and every later call answers the same key and changes nothing, whatever the clock, the random
-- letters and the answers to a write are then. The path names a directory, and the system reads.
pub get_key-stable :
    (now later : ℕ) (letters others path dir : Bytes) (answer : Answer) (d : Disk)
    → get_parent path ≡ ok dir
    → (key : Bytes) × (after : Disk) × (get_key true writes now letters path d ≡ ok (key, after))
      × (after path ≡ some key)
      × (bytes_eq key [] ≡ false)
      × (get_key true answer later others path after ≡ ok (key, after))
unfolding Kept
get_key-stable now later letters others path dir answer d parent =
    let (key, after, first, there, full) = get_key-Kept now letters path dir d parent in
    (key, after, first, there, full, found_again answer later others path key after there full)
