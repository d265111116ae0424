-- ===== src/System/Path/Parent.antt =====
-- The parent of a path.
use wing_binlog_go.Prelude.{
  ℕ, ◌≡◌, refl, ap, ◌∙◌, Bool, false, none, some, [], ◌∷◌, ◌++◌, ok, panic, ◌>>=◌, Bytes, length,
  take, take-append, take-append_eq, length-append, subst, All, ◌==◌, if◌then◌else◌, arith,
}
use mathlib.Core.List.{append_assoc, map-append}
use wing_binlog_go.System.Path.{slash, forward_slashes, last_index, drop_last, cut_at, get_parent}

-- Bytes without a slash of either kind.
abbrev pub IsName : Bytes → Type 0
IsName = All (λ b. ((b == slash) ≡ false) × ((b == 92) ≡ false))

-- Bytes without a backslash.
abbrev pub IsForward : Bytes → Type 0
IsForward = All (λ b. (b == 92) ≡ false)

forward_slashes-IsForward : (s : Bytes) → IsForward s → forward_slashes s ≡ s
unfolding forward_slashes
forward_slashes-IsForward [] h = refl
forward_slashes-IsForward (b ∷ s) (hb, hs) = rw hb (ap (◌∷◌ b) (forward_slashes-IsForward s hs))

last_index-IsName : (name : Bytes) → IsName name → last_index name ≡ none
unfolding last_index
last_index-IsName [] h = refl
last_index-IsName (b ∷ s) ((hb, _), hs) = rw (last_index-IsName s hs, hb)

last_index-join :
    (dir name : Bytes) → IsName name → last_index (dir ++ slash ∷ name) ≡ some (length dir)
unfolding last_index
last_index-join [] name h = rw (last_index-IsName name h)
last_index-join (b ∷ dir) name h = rw (last_index-join dir name h)

name-IsForward : (s : Bytes) → IsName s → IsForward s
name-IsForward [] h = tt
name-IsForward (b ∷ s) ((_, hb), hs) = (hb, name-IsForward s hs)

forward_slashes-join :
    (dir name : Bytes)
    → IsForward dir
    → IsName name
    → forward_slashes (dir ++ slash ∷ name) ≡ dir ++ slash ∷ name
unfolding forward_slashes
forward_slashes-join [] name hd hn =
    ap (◌∷◌ slash) (forward_slashes-IsForward name (name-IsForward name hn))
forward_slashes-join (b ∷ dir) name (hb, hs) hn =
    rw hb (ap (◌∷◌ b) (forward_slashes-join dir name hs hn))

-- All but the last byte.
drop_last-snoc : (s : Bytes) (b : ℕ) → drop_last (s ++ b ∷ []) ≡ ok s
unfolding drop_last
drop_last-snoc [] b = refl
drop_last-snoc (c ∷ s) b = ap ok (
    take-append_eq (length (s ++ b ∷ [])) (c ∷ s) (b ∷ [])
      (omega (arith, length-append s (b ∷ []))))

get_parent-snoc :
    (front : Bytes) (b : ℕ)
    → forward_slashes (front ++ b ∷ []) ≡ front ++ b ∷ []
    → get_parent (front ++ b ∷ []) ≡ cut_at (front ++ b ∷ []) (last_index front)
unfolding get_parent
get_parent-snoc front b same =
    ap (λ dir. drop_last dir >>= λ f. cut_at dir (last_index f)) same
    ∙ ap (λ m. m >>= λ f. cut_at (front ++ b ∷ []) (last_index f)) (drop_last-snoc front b)

forward_slashes-snoc :
    (front : Bytes) (b : ℕ)
    → forward_slashes front ≡ front
    → (b == 92) ≡ false
    → forward_slashes (front ++ b ∷ []) ≡ front ++ b ∷ []
unfolding forward_slashes
forward_slashes-snoc front b same hb =
    map-append (λ (c : ℕ). if c == 92 then slash else c) front (b ∷ [])
    ∙ ap (λ f. f ++ (if b == 92 then slash else b) ∷ []) same
    ∙ ap (λ (t : Bool). front ++ (if t then slash else b) ∷ []) hb

-- The parent of a path is what stands before the last slash, a slash at its very end not counted: of
-- `dir/name` and of `dir/name/` it is `dir`. A path without another slash, such as a mere file name,
-- and the empty path are a panic. There are no backslashes here.
pub get_parent-branches :
    (dir name : Bytes) (b : ℕ)
    → IsForward dir
    → IsName name
    → (b == 92) ≡ false
    → (get_parent (dir ++ slash ∷ (name ++ b ∷ [])) ≡ ok dir)
      × (get_parent (name ++ b ∷ []) ≡ panic)
      × (get_parent [] ≡ panic)
unfolding cut_at
get_parent-branches dir name b hd hn hb = (
  subst (λ p. get_parent p ≡ ok dir) (append_assoc dir (slash ∷ name) (b ∷ []))
      (get_parent-snoc (dir ++ slash ∷ name) b
          (forward_slashes-snoc (dir ++ slash ∷ name) b (forward_slashes-join dir name hd hn) hb)
        ∙ ap (cut_at ((dir ++ slash ∷ name) ++ b ∷ [])) (last_index-join dir name hn)
        ∙ ap ok (
            ap (take (length dir)) (append_assoc dir (slash ∷ name) (b ∷ []))
            ∙ take-append dir (slash ∷ (name ++ b ∷ [])))),
  get_parent-snoc name b
        (forward_slashes-snoc name b (forward_slashes-IsForward name (name-IsForward name hn)) hb)
      ∙ ap (cut_at (name ++ b ∷ [])) (last_index-IsName name hn),
  unfold get_parent forward_slashes drop_last in refl,
)
