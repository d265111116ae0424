-- ===== src/Plugins/Http/Workers/Wait.antt =====
-- What `wait` of src/services/http waits for.
use wing_binlog_go.Prelude.{
  ℕ, zero, suc, ◌+◌, ◌*◌, ◌≤◌, ◌<◌, true, ◌≡◌, some, List, [], ◌∷◌, ◌++◌, Bytes, length, refl,
  arith, sym, ◌∙◌, ◌⊎◌, inl, inr, Option-cases,
}
use wing_binlog_go.Plugins.Http.Workers.{Pool, takes, pick, posts, leaves, wait_returns}
use wing_binlog_go.Plugins.Http.Workers.Held.{
  count, held, Works, rests, then_takes, then_posts, then_leaves, Works-held,
}

-- Once a goroutine has left, nothing waits.
unfoldable pub IsDrained : Pool → Type 0
IsDrained p = (p.left ≡ 0) ⊎ (p.node.send_queue ≡ [])

pub takes-IsDrained : (p q : Pool) → takes p ≡ some q → IsDrained p → IsDrained q
unfolding takes IsDrained
takes-IsDrained p q e (inl d) = inl (ground (arith, e, d))
takes-IsDrained p q e (inr d) = ground (arith, e, d)

pub posts-IsDrained : (i : ℕ) (p q : Pool) → posts i p ≡ some q → IsDrained p → IsDrained q
unfolding posts IsDrained
posts-IsDrained i p q e d = elim (Option-cases (pick i p.busy)) [
  | inl stop ↦ let f = rw stop at e in cc
  | inr ((x, xs), more) ↦ let f = rw more at e in ground (arith, f, d)
]

pub leaves-IsDrained : (p q : Pool) → leaves p ≡ some q → IsDrained q
unfolding leaves IsDrained
leaves-IsDrained p q e = ground (arith, e)

pub Works-IsDrained : {p q : Pool} → Works p q → IsDrained p → IsDrained q
Works-IsDrained rests d = d
Works-IsDrained (then_takes {p} {q} e w) d = Works-IsDrained w (takes-IsDrained p q e d)
Works-IsDrained (then_posts {p} {q} i e w) d = Works-IsDrained w (posts-IsDrained i p q e d)
Works-IsDrained (then_leaves {p} {q} e w) d = Works-IsDrained w (leaves-IsDrained p q e)

-- The goroutines that have begun, and the work that is left: a message has to be taken and posted, and
-- each goroutine has to leave.
unfoldable pub begun : Pool → ℕ
begun p = p.idle + length p.busy + p.left

unfoldable pub work : Pool → ℕ
work p = 3 * length p.node.send_queue + 2 * length p.busy + p.idle

-- What each step keeps: whether the context is done, and the number of goroutines; and it takes from the
-- work that is left.
abbrev pub Goes : Pool → Pool → Type 0
Goes p q = (p.is_done ≡ q.is_done) × (begun p ≡ begun q) × (work q < work p)

length-pick :
    (x : Bytes) (i : ℕ) (xs others : List Bytes)
    → pick i xs ≡ some (x, others)
    → length xs ≡ suc (length others)
unfolding pick
length-pick x zero [] others e = cc
length-pick x (suc i) [] others e = cc
length-pick x zero (y ∷ xs) others e = ground (arith, e)
length-pick x (suc i) (y ∷ xs) others e = elim (Option-cases (pick i xs)) [
  | inl stop ↦ ground (arith, e, stop)
  | inr ((z, zs), more) ↦ ground (arith, e, more, length-pick z i xs zs more)
]

pub takes-Goes : (p q : Pool) → takes p ≡ some q → Goes p q
unfolding takes begun work
takes-Goes p q e = ground (arith, e)

pub leaves-Goes : (p q : Pool) → leaves p ≡ some q → Goes p q
unfolding leaves begun work
leaves-Goes p q e = ground (arith, e)

pub posts-Goes : (i : ℕ) (p q : Pool) → posts i p ≡ some q → Goes p q
unfolding posts begun work
posts-Goes i p q e = elim (Option-cases (pick i p.busy)) [
  | inl stop ↦ let f = rw stop at e in absurd (ground (arith, f))
  | inr ((x, xs), more) ↦ let f = rw more at e in ground (arith, f, length-pick x i p.busy xs more)
]

pub steps : {p q : Pool} → Works p q → ℕ
steps rests = 0
steps (then_takes e w) = suc (steps w)
steps (then_posts i e w) = suc (steps w)
steps (then_leaves e w) = suc (steps w)

Works-Goes :
    {p q : Pool} (w : Works p q)
    → (p.is_done ≡ q.is_done) × (begun p ≡ begun q) × (steps w + work q ≤ work p)
unfolding steps
Works-Goes rests = (refl, refl, omega arith)
Works-Goes (then_takes {p} {q} e w) =
    let (a, b, c) = takes-Goes p q e in let (x, y, z) = Works-Goes w in (a ∙ x, b ∙ y, omega arith)
Works-Goes (then_posts {p} {q} i e w) =
    let (a, b, c) = posts-Goes i p q e in
    let (x, y, z) = Works-Goes w in (a ∙ x, b ∙ y, omega arith)
Works-Goes (then_leaves {p} {q} e w) =
    let (a, b, c) = leaves-Goes p q e in let (x, y, z) = Works-Goes w in (a ∙ x, b ∙ y, omega arith)

pub returned : (q : Pool) → wait_returns q ≡ true → (q.idle ≡ 0) × (q.busy ≡ [])
unfolding wait_returns
returned q done = ground arith

pub empty_queue : (q : Pool) → IsDrained q → 0 < q.left → q.node.send_queue ≡ []
unfolding IsDrained
empty_queue q (inl none_left) some_left = absurd (omega arith)
empty_queue q (inr e) some_left = e

-- When `wait` returns after the cancel and nothing was queued since, nothing waits and every message
-- that was in a queue or in the hands of a goroutine has been posted, each as often as it was there. At
-- least one goroutine of the node had begun, and none had left.
pub wait-posted :
    (m : Bytes) {p q : Pool}
    → Works p q
    → p.left ≡ 0
    → 0 < p.idle + length p.busy
    → wait_returns q ≡ true
    → (q.node.send_queue ≡ [])
      × (count m q.node.posted
          ≡ count m p.node.posted + (count m p.busy + count m p.node.send_queue))
unfolding held begun count IsDrained
wait-posted m {p} {q} w none_left some_begun done =
    let (same, kept, less) = Works-Goes w in
    let (idle, busy) = returned q done in
    let queue =
      empty_queue q (Works-IsDrained w (inl none_left)) (ground (arith, kept, idle, busy)) in
    (queue, ground (arith, Works-held m w, queue, busy))

abbrev Advances : Pool → Type 0
Advances p =
    (wait_returns p ≡ true)
    ⊎ ((q : Pool) × ((takes p ≡ some q) ⊎ ((posts 0 p ≡ some q) ⊎ (leaves p ≡ some q))))

-- After the cancel a goroutine that has begun and not left can always do something.
advances :
    (p : Pool) (busy queue : List Bytes) (idle : ℕ)
    → p.is_done ≡ true
    → p.busy ≡ busy
    → p.node.send_queue ≡ queue
    → p.idle ≡ idle
    → Advances p
unfolding wait_returns takes posts leaves pick
advances p [] queue zero done b s i = inl (rw (b, i) refl)
advances p (m ∷ ms) queue idle done b s i = inr (
  record p {
    node = record p.node { posted = p.node.posted ++ m ∷ [] };
    idle = suc p.idle;
    busy = ms;
  },
  inr (inl (ground (arith, b))),
)
advances p [] [] (suc k) done b s i =
    inr (record p { idle = k; left = suc p.left }, inr (inr (ground (arith, i, s, done))))
advances p [] (m ∷ ms) (suc k) done b s i = inr (
  record p { node = record p.node { send_queue = ms }; idle = k; busy = m ∷ p.busy },
  inl (ground (arith, i, s)),
)

go_on :
    (k : ℕ) (p : Pool)
    → work p < k
    → p.is_done ≡ true
    → (q : Pool) × Works p q × (wait_returns q ≡ true)
go_on zero p few done = absurd (omega arith)
go_on (suc k) p few done = elim (advances p p.busy p.node.send_queue p.idle done refl refl refl) [
  | inl quiet ↦ (p, rests, quiet)
  | inr (q, inl e) ↦
      let (same, kept, less) = takes-Goes p q e in
      let (r, w, quiet) = go_on k q (omega arith) (sym same ∙ done) in (r, then_takes e w, quiet)
  | inr (q, inr (inl e)) ↦
      let (same, kept, less) = posts-Goes 0 p q e in
      let (r, w, quiet) = go_on k q (omega arith) (sym same ∙ done) in (r, then_posts 0 e w, quiet)
  | inr (q, inr (inr e)) ↦
      let (same, kept, less) = leaves-Goes p q e in
      let (r, w, quiet) = go_on k q (omega arith) (sym same ∙ done) in (r, then_leaves e w, quiet)
]

-- After the cancel `wait` can return: the goroutines that have begun can do no more steps than there is
-- work, whatever their order, and from wherever they have got they can go on until the counter is zero.
-- Nothing is queued after the cancel, no further goroutine begins, and every post returns.
pub wait-ends :
    {p q : Pool} (w : Works p q)
    → p.is_done ≡ true
    → (steps w ≤ work p) × ((r : Pool) × Works q r × (wait_returns r ≡ true))
wait-ends {p} {q} w done =
    let (same, kept, less) = Works-Goes w in
    (omega arith, go_on (suc (work q)) q (omega arith) (sym same ∙ done))
