-- ===== src/Stream/Chunks.antt =====
-- However the network cuts a stream of frames, the reader handles the same requests in order.
use wing_binlog_go.Prelude.{
  ℕ, zero, suc, ◌<◌, ◌≡◌, ◌⊎◌, inl, inr, refl, sym, ap, subst, ◌∙◌, arith, List, [], ◌∷◌, ◌++◌,
  Outcome, ok, panic, spins, no_fuel, ◌>>=◌, Bytes, length, length-append, All,
}
use mathlib.Core.List.{append_assoc, append-nil}
use wing_binlog_go.Stream.{stop, again, drain, Framing}

pub >>=-ok {ℓ} : {A : Type ℓ} (m : Outcome A) → (m >>= λ a. ok a) ≡ m
>>=-ok (ok a) = refl
>>=-ok panic = refl
>>=-ok spins = refl
>>=-ok no_fuel = refl

pub >>=-assoc {ℓ κ ι} :
    {A : Type ℓ} {B : Type κ} {C : Type ι} (m : Outcome A) (f : A → Outcome B) (g : B → Outcome C)
    → (m >>= f >>= g) ≡ (m >>= λ a. f a >>= g)
>>=-assoc (ok a) f g = refl
>>=-assoc panic f g = refl
>>=-assoc spins f g = refl
>>=-assoc no_fuel f g = refl

-- A text that two cuts share: the first cut ends within the second, or beyond it.
append-split :
    (xs ys us vs : Bytes)
    → xs ++ ys ≡ us ++ vs
    → ((x : ℕ) × (q : Bytes) × (xs ++ (x ∷ q) ≡ us) × (ys ≡ (x ∷ q) ++ vs))
      ⊎ ((ws : Bytes) × (xs ≡ us ++ ws) × (vs ≡ ws ++ ys))
append-split xs ys [] vs e = inr (xs, refl, sym e)
append-split [] ys (u ∷ us) vs e = inl (u, us, refl, e)
append-split (x ∷ xs) ys (u ∷ us) vs e = elim (append-split xs ys us vs (ground arith)) [
  | inl (y, q, a, b) ↦ inl (y, q, ground arith, b)
  | inr (ws, a, b) ↦ inr (ws, ground arith, b)
]

unfoldable pub concat : List Bytes → Bytes
concat [] = []
concat (c ∷ cs) = c ++ concat cs

module _ {S R : Type 0} (F : Framing S R) where
  open F use {round, buf, put, frame, Fits, handle}

  unfoldable pub frames : List R → Bytes
  frames [] = []
  frames (r ∷ rs) = frame r ++ frames rs

  unfoldable pub handle_all : S → List R → Outcome S
  handle_all s [] = ok s
  handle_all s (r ∷ rs) = handle s r >>= λ t. handle_all t rs

  -- One read of the connection: `buf = append(buf, msg...)`, then the loop, with a round of fuel for
  -- each byte and one more.
  unfoldable pub read : S → Bytes → Outcome S
  read s msg = drain round (suc (length (buf s ++ msg))) (put s (buf s ++ msg))

  unfoldable pub read_all : S → List Bytes → Outcome S
  read_all s [] = ok s
  read_all s (c ∷ cs) = read s c >>= λ t. read_all t cs

  -- What the reader leaves in the buffer before `rs`: nothing, or a part of the first frame.
  data Waits (p : Bytes) : List R → Type 0 where
    nothing : {rs : List R} → p ≡ [] → Waits p rs
    partly : {r : R} {rs : List R} (x : ℕ) (q : Bytes) → p ++ (x ∷ q) ≡ frame r → Waits p (r ∷ rs)

  Waits-stop :
      (s : S) (p : Bytes) (rs : List R)
      → All Fits rs
      → Waits p rs
      → round (put s p) ≡ ok (stop (put s p))
  Waits-stop s p rs fit (nothing e) = rw e (F.wait_empty s)
  Waits-stop s p (r ∷ rs) fit (partly x q e) = F.wait_partial s r p q x fit.0 e

  -- The frames that lie whole in the buffer are handled, and the part that is left stays.
  drain-frames :
      (rs : List R) (s : S) (p : Bytes) (later : List R) (fuel : ℕ)
      → All Fits rs
      → All Fits later
      → Waits p later
      → length (frames rs) < fuel
      → drain round fuel (put s (frames rs ++ p)) ≡ (handle_all s rs >>= λ t. ok (put t p))
  unfolding drain frames handle_all
  drain-frames rs s p later zero fit fit' w h = absurd (omega arith)
  drain-frames [] s p later (suc fuel) fit fit' w h = rw (Waits-stop s p later fit' w)
  drain-frames (r ∷ rs) s p later (suc fuel) (fr, frs) fit' w h =
      rw (append_assoc (frame r) (frames rs) p, F.consume s r (frames rs ++ p) fr)
        (rest (handle s r) (λ t. drain-frames rs t p later fuel frs fit' w fueled))
    where
      fueled : length (frames rs) < fuel
      fueled = omega (arith, length-append (frame r) (frames rs), F.frame-pos r)

      rest :
          (m : Outcome S)
          → ((t : S)
              → drain round fuel (put t (frames rs ++ p)) ≡ (handle_all t rs >>= λ u. ok (put u p)))
          → (m >>= (λ t. ok (again (put t (frames rs ++ p)))) >>= λ r. elim r [
            | stop t ↦ ok t
            | again t ↦ drain round fuel t
          ])
            ≡ (m >>= (λ t. handle_all t rs) >>= λ t. ok (put t p))
      rest (ok t) ih = ih t
      rest panic ih = refl
      rest spins ih = refl
      rest no_fuel ih = refl

  frames-append : (qs rs : List R) → frames (qs ++ rs) ≡ frames qs ++ frames rs
  unfolding frames
  frames-append [] rs = refl
  frames-append (q ∷ qs) rs =
      rw (frames-append qs rs) (sym (append_assoc (frame q) (frames qs) (frames rs)))

  handle_all-append :
      (qs rs : List R) (s : S)
      → handle_all s (qs ++ rs) ≡ (handle_all s qs >>= λ t. handle_all t rs)
  unfolding handle_all
  handle_all-append [] rs s = refl
  handle_all-append (q ∷ qs) rs s = step (handle s q) (λ t. handle_all-append qs rs t)
    where
      step :
          (m : Outcome S)
          → ((t : S) → handle_all t (qs ++ rs) ≡ (handle_all t qs >>= λ u. handle_all u rs))
          → (m >>= λ t. handle_all t (qs ++ rs))
            ≡ (m >>= (λ t. handle_all t qs) >>= λ u. handle_all u rs)
      step (ok t) ih = ih t
      step panic ih = refl
      step spins ih = refl
      step no_fuel ih = refl

  -- Where a prefix of the stream ends: behind some whole frames and a part of the next.
  record Cut (xs ys : Bytes) (rs : List R) : Type 0 where
    before : List R
    after : List R
    left : Bytes
    whole : rs ≡ before ++ after
    front : xs ≡ frames before ++ left
    back : left ++ ys ≡ frames after
    waits : Waits left after

  cut : (xs ys : Bytes) (rs : List R) → xs ++ ys ≡ frames rs → Cut xs ys rs
  unfolding frames
  cut [] ys [] e = record {
    before = [];
    after = [];
    left = [];
    whole = refl;
    front = refl;
    back = e;
    waits = nothing refl;
  }
  cut (x ∷ xs) ys [] e = absurd (cc)
  cut xs ys (r ∷ rs) e = elim (append-split xs ys (frame r) (frames rs) e) [
    | inl (x, q, a, b) ↦ record {
      before = [];
      after = r ∷ rs;
      left = xs;
      whole = refl;
      front = refl;
      back = e;
      waits = partly x q a;
    }
    | inr (ws, a, b) ↦ extend ws a (cut ws ys rs (sym b))
  ]
    where
      extend : (ws : Bytes) → xs ≡ frame r ++ ws → Cut ws ys rs → Cut xs ys (r ∷ rs)
      extend ws a c = record {
        before = r ∷ c.before;
        after = c.after;
        left = c.left;
        whole = ap (◌∷◌ r) c.whole;
        front =
            a ∙ ap (◌++◌ (frame r)) c.front ∙ sym (append_assoc (frame r) (frames c.before) c.left);
        back = c.back;
        waits = c.waits;
      }

  All-prefix : (qs rs : List R) → All Fits (qs ++ rs) → All Fits qs × All Fits rs
  All-prefix [] rs h = (tt, h)
  All-prefix (q ∷ qs) rs h = let (a, b) = All-prefix qs rs h.1 in ((h.0, a), b)

  -- At the end of the stream nothing is left over.
  Waits-end : (p : Bytes) (rs : List R) → Waits p rs → p ++ [] ≡ frames rs → (p ≡ []) × (rs ≡ [])
  unfolding frames
  Waits-end p [] w e = (sym (append-nil p) ∙ e, refl)
  Waits-end p (r ∷ rs) (nothing e') e = absurd (
      omega (
        arith,
        ap length e',
        ap length e,
        length-append p [],
        length-append (frame r) (frames rs),
        F.frame-pos r,
      ))
  Waits-end p (r ∷ rs) (partly x q e') e = absurd (
      omega (
        arith,
        ap length e',
        ap length e,
        length-append p [],
        length-append p (x ∷ q),
        length-append (frame r) (frames rs),
      ))

  -- One read handles the frames that it completes.
  read-Cut :
      (s : S) (p c ys : Bytes) (rs : List R) (k : Cut (p ++ c) ys rs)
      → All Fits rs
      → read (put s p) c ≡ (handle_all s k.before >>= λ t. ok (put t k.left))
  unfolding read
  read-Cut s p c ys rs k fit =
      let fits = All-prefix k.before k.after (subst (All Fits) k.whole fit) in
      rw (F.buf-put s p, F.put-put s p (p ++ c), k.front)
        (drain-frames k.before s k.left k.after (suc (length (frames k.before ++ k.left))) fits.0
          fits.1 k.waits (omega (arith, length-append (frames k.before) k.left)))

  read_all-waiting :
      (cs : List Bytes) (s : S) (p : Bytes) (rs : List R)
      → All Fits rs
      → Waits p rs
      → p ++ concat cs ≡ frames rs
      → read_all (put s p) cs ≡ (handle_all s rs >>= λ t. ok (put t []))
  unfolding read_all concat
  read_all-waiting [] s p rs fit w e =
      let (a, b) = Waits-end p rs w e in rw (a, b) (unfold handle_all in refl)
  read_all-waiting (c ∷ cs) s p rs fit w e =
      join (cut (p ++ c) (concat cs) rs (append_assoc p c (concat cs) ∙ e))
        (λ t q later. read_all-waiting cs t q later)
    where
      join :
          Cut (p ++ c) (concat cs) rs
          → ((t : S) (q : Bytes) (later : List R)
              → All Fits later
              → Waits q later
              → q ++ concat cs ≡ frames later
              → read_all (put t q) cs ≡ (handle_all t later >>= λ u. ok (put u [])))
          → (read (put s p) c >>= λ t. read_all t cs) ≡ (handle_all s rs >>= λ t. ok (put t []))
      join k ih =
          let fits = All-prefix k.before k.after (subst (All Fits) k.whole fit) in
          rw (read-Cut s p c (concat cs) rs k fit, k.whole, handle_all-append k.before k.after s)
            (next (handle_all s k.before) (λ t. ih t k.left k.after fits.1 k.waits k.back))
        where
          next :
              (m : Outcome S)
              → ((t : S)
                  → read_all (put t k.left) cs ≡ (handle_all t k.after >>= λ u. ok (put u [])))
              → (m >>= (λ t. ok (put t k.left)) >>= λ t. read_all t cs)
                ≡ (m >>= (λ t. handle_all t k.after) >>= λ u. ok (put u []))
          next (ok t) h = h t
          next panic h = refl
          next spins h = refl
          next no_fuel h = refl

  -- A reader with an empty buffer handles the requests of a stream in order, and ends with an empty
  -- buffer, however the stream of their frames is cut into reads.
  pub read_all-frames :
      (cs : List Bytes) (s : S) (rs : List R)
      → All Fits rs
      → buf s ≡ []
      → concat cs ≡ frames rs
      → read_all s cs ≡ (handle_all s rs >>= λ t. ok (put t []))
  read_all-frames cs s rs fit e h =
      sym (ap (λ t. read_all t cs) start) ∙ read_all-waiting cs s [] rs fit (nothing refl) h
    where
      start : put s [] ≡ s
      start = rw (← e) (F.put-buf s)
