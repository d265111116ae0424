-- ===== src/Plugins/Http/Workers/Held.antt =====
-- No message is lost or doubled between the queue and the posts of src/services/http.
use wing_binlog_go.Prelude.{
  ℕ, zero, suc, ◌+◌, ◌≡◌, some, List, [], ◌∷◌, ◌++◌, Bytes, bytes_eq, if◌then◌else◌, refl, arith,
  ap, ◌∙◌, inl, inr, Option-cases,
}
use wing_binlog_go.Plugins.Http.Workers.{Pool, takes, pick, posts, leaves}

-- How often a message stands in a list.
unfoldable pub count : Bytes → List Bytes → ℕ
count m [] = 0
count m (x ∷ xs) = let rest = count m xs in if bytes_eq x m then suc rest else rest

pub count-append : (m : Bytes) (xs ys : List Bytes) → count m (xs ++ ys) ≡ count m xs + count m ys
unfolding count
count-append m [] ys = omega arith
count-append m (x ∷ xs) ys = ground (arith, count-append m xs ys)

count-pick :
    (m x : Bytes) (i : ℕ) (xs others : List Bytes)
    → pick i xs ≡ some (x, others)
    → count m xs ≡ count m (x ∷ others)
unfolding count pick
count-pick m x zero [] others e = cc
count-pick m x (suc i) [] others e = cc
count-pick m x zero (y ∷ xs) others e = ground (arith, e)
count-pick m x (suc i) (y ∷ xs) others e = elim (Option-cases (pick i xs)) [
  | inl stop ↦ ground (arith, e, stop)
  | inr ((z, zs), more) ↦ ground (arith, e, more, count-pick m z i xs zs more)
]

-- How often a message was posted, is being posted or waits.
unfoldable pub held : Bytes → Pool → ℕ
held m p = count m p.node.posted + (count m p.busy + count m p.node.send_queue)

-- What the goroutines do by themselves, once all have begun.
pub data Works : Pool → Pool → Type 0 where
  rests : {p : Pool} → Works p p
  then_takes : {p q r : Pool} → takes p ≡ some q → Works q r → Works p r
  then_posts : {p q r : Pool} (i : ℕ) → posts i p ≡ some q → Works q r → Works p r
  then_leaves : {p q r : Pool} → leaves p ≡ some q → Works q r → Works p r

pub takes-held : (m : Bytes) (p q : Pool) → takes p ≡ some q → held m p ≡ held m q
unfolding takes held count
takes-held m p q e = ground (arith, e)

pub leaves-held : (m : Bytes) (p q : Pool) → leaves p ≡ some q → held m p ≡ held m q
unfolding leaves held
leaves-held m p q e = ground (arith, e)

moved :
    (m x : Bytes) (xs : List Bytes) (p q : Pool)
    → some (record p {
      node = record p.node { posted = p.node.posted ++ x ∷ [] };
      idle = suc p.idle;
      busy = xs;
    })
      ≡ some q
    → count m p.node.posted + (count m (x ∷ xs) + count m p.node.send_queue) ≡ held m q
unfolding held count
moved m x xs p q e = ground (arith, e, count-append m p.node.posted (x ∷ []))

pub posts-held : (m : Bytes) (i : ℕ) (p q : Pool) → posts i p ≡ some q → held m p ≡ held m q
unfolding posts held
posts-held m i p q e = elim (Option-cases (pick i p.busy)) [
  | inl stop ↦ let f = rw stop at e in cc
  | inr ((x, xs), more) ↦
      let f = rw more at e in
      let same = count-pick m x i p.busy xs more in
      ap (λ k. count m p.node.posted + (k + count m p.node.send_queue)) same ∙ moved m x xs p q f
]

pub Works-held : (m : Bytes) {p q : Pool} → Works p q → held m p ≡ held m q
Works-held m rests = refl
Works-held m (then_takes {p} {q} e w) = takes-held m p q e ∙ Works-held m w
Works-held m (then_posts {p} {q} i e w) = posts-held m i p q e ∙ Works-held m w
Works-held m (then_leaves {p} {q} e w) = leaves-held m p q e ∙ Works-held m w
