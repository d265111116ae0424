-- ===== src/Plugins/Http/Workers/Life.antt =====
-- The life of the posting goroutines of src/services/http from `Start` to the end of `Close`.
use wing_binlog_go.Prelude.{
  ℕ, ◌+◌, ◌<◌, true, false, ◌≡◌, some, List, [], ◌∷◌, ◌++◌, ok, Bytes, refl, arith, ◌⊎◌, inl, inr,
  Option-cases, Bool-cases, ltb,
}
use wing_binlog_go.Plugins.Http.{HttpNode, node_send}
use wing_binlog_go.Plugins.Http.Workers.{
  Pool, send_service, joins, takes, pick, posts, leaves, wait_returns,
}
use wing_binlog_go.Plugins.Http.Workers.Held.{
  count, count-append, held, takes-held, posts-held, leaves-held,
}
use wing_binlog_go.Plugins.Http.Workers.Wait.{
  IsDrained, begun, posts-Goes, takes-IsDrained, posts-IsDrained, leaves-IsDrained, returned,
  empty_queue,
}

-- One step of a node, with the messages that it queues: a goroutine begins, a message is queued, the
-- goroutines work, or the context is cancelled. Nothing is queued after the cancel.
pub data Turn : Pool → List Bytes → Pool → Type 0 where
  turn_joins : {p q : Pool} → joins p ≡ some q → Turn p [] q
  turn_queues :
      {p : Pool} (m : Bytes) {n : HttpNode}
      → p.is_done ≡ false
      → node_send m p.node ≡ ok n
      → Turn p (m ∷ []) (record p { node = n })
  turn_takes : {p q : Pool} → takes p ≡ some q → Turn p [] q
  turn_posts : {p q : Pool} (i : ℕ) → posts i p ≡ some q → Turn p [] q
  turn_leaves : {p q : Pool} → leaves p ≡ some q → Turn p [] q
  turn_cancels : {p : Pool} → Turn p [] (record p { is_done = true })

pub data Lives : Pool → List Bytes → Pool → Type 0 where
  stays : {p : Pool} → Lives p [] p
  then : {p q r : Pool} {ms ns : List Bytes} → Turn p ms q → Lives q ns r → Lives p (ms ++ ns) r

joins-held : (m : Bytes) (p q : Pool) → joins p ≡ some q → held m p ≡ held m q
unfolding joins held
joins-held m p q e = ground (arith, e)

queued-held :
    (m x : Bytes) (p : Pool) (n : HttpNode)
    → node_send x p.node ≡ ok n
    → held m (record p { node = n }) ≡ held m p + count m (x ∷ [])
unfolding node_send held
queued-held m x p n e = ground (arith, e, count-append m p.node.send_queue (x ∷ []))

cancelled-held :
    (m : Bytes) (p : Pool) → held m (record p { is_done = true }) ≡ held m p + count m []
unfolding held count
cancelled-held m p = omega arith

Turn-held :
    (m : Bytes) {p q : Pool} {ms : List Bytes} → Turn p ms q → held m q ≡ held m p + count m ms
unfolding count
Turn-held m (turn_joins {p} {q} e) = ground (arith, joins-held m p q e)
Turn-held m (turn_queues {p} x {n} o e) = queued-held m x p n e
Turn-held m (turn_takes {p} {q} e) = ground (arith, takes-held m p q e)
Turn-held m (turn_posts {p} {q} i e) = ground (arith, posts-held m i p q e)
Turn-held m (turn_leaves {p} {q} e) = ground (arith, leaves-held m p q e)
Turn-held m (turn_cancels {p}) = cancelled-held m p

Lives-held :
    (m : Bytes) {p q : Pool} {ms : List Bytes} → Lives p ms q → held m q ≡ held m p + count m ms
unfolding count
Lives-held m stays = omega arith
Lives-held m (then {p} {q} {r} {ms} {ns} t l) =
    ground (arith, Turn-held m t, Lives-held m l, count-append m ms ns)

-- What holds of a node's goroutines at any time: how many there are in all, that nothing is posted before
-- one has begun, and that nothing waits once one has left, which is after the cancel.
pub data IsSound (total : ℕ) (posted : List Bytes) (q : Pool) : Type 0 where
  sound :
      q.spawned + begun q ≡ total
      → (0 < begun q) ⊎ (q.node.posted ≡ posted)
      → IsDrained q
      → (q.left ≡ 0) ⊎ (q.is_done ≡ true)
      → IsSound total posted q

module _ {total : ℕ} {posted : List Bytes} where
  joins-IsSound : (p q : Pool) → joins p ≡ some q → IsSound total posted p → IsSound total posted q
  unfolding joins begun IsDrained
  joins-IsSound p q e (sound all some_begun drained late) =
      sound (ground (arith, e, all)) (inl (ground (arith, e))) (ground (arith, e, drained))
        (ground (arith, e, late))

  takes-IsSound : (p q : Pool) → takes p ≡ some q → IsSound total posted p → IsSound total posted q
  unfolding takes begun IsDrained
  takes-IsSound p q e (sound all some_begun drained late) =
      sound (ground (arith, e, all)) (ground (arith, e, some_begun)) (takes-IsDrained p q e drained)
        (ground (arith, e, late))

  leaves-IsSound :
      (p q : Pool) → leaves p ≡ some q → IsSound total posted p → IsSound total posted q
  unfolding leaves begun
  leaves-IsSound p q e (sound all some_begun drained late) =
      sound (ground (arith, e, all)) (ground (arith, e, some_begun)) (leaves-IsDrained p q e)
        (inr (ground (arith, e)))

  posts-IsSound :
      (i : ℕ) (p q : Pool) → posts i p ≡ some q → IsSound total posted p → IsSound total posted q
  unfolding posts begun
  posts-IsSound i p q e (sound all some_begun drained late) = elim (Option-cases (pick i p.busy)) [
    | inl stop ↦ let f = rw stop at e in cc
    | inr ((x, xs), more) ↦
        let f = rw more at e in
        let (same, kept, less) = posts-Goes i p q e in
        sound (ground (arith, f, all, kept)) (inl (ground (arith, f)))
          (posts-IsDrained i p q e drained) (ground (arith, f, late))
  ]

  queues-IsSound :
      (m : Bytes) (p : Pool) (n : HttpNode)
      → p.is_done ≡ false
      → node_send m p.node ≡ ok n
      → IsSound total posted p
      → IsSound total posted (record p { node = n })
  unfolding node_send begun IsDrained
  queues-IsSound m p n o e (sound all some_begun drained late) =
      sound all (ground (arith, e, some_begun)) (inl (ground (arith, o, late))) late

  cancels-IsSound :
      (p : Pool) → IsSound total posted p → IsSound total posted (record p { is_done = true })
  unfolding begun IsDrained
  cancels-IsSound p (sound all some_begun drained late) = sound all some_begun drained (inr refl)

  Turn-IsSound :
      {p q : Pool} {ms : List Bytes} → Turn p ms q → IsSound total posted p → IsSound total posted q
  Turn-IsSound (turn_joins {p} {q} e) s = joins-IsSound p q e s
  Turn-IsSound (turn_queues {p} m {n} o e) s = queues-IsSound m p n o e s
  Turn-IsSound (turn_takes {p} {q} e) s = takes-IsSound p q e s
  Turn-IsSound (turn_posts {p} {q} i e) s = posts-IsSound i p q e s
  Turn-IsSound (turn_leaves {p} {q} e) s = leaves-IsSound p q e s
  Turn-IsSound (turn_cancels {p}) s = cancels-IsSound p s

  Lives-IsSound :
      {p q : Pool} {ms : List Bytes}
      → Lives p ms q
      → IsSound total posted p
      → IsSound total posted q
  Lives-IsSound stays s = s
  Lives-IsSound (then t l) s = Lives-IsSound l (Turn-IsSound t s)

-- Of a node whose `Wait` has returned: no goroutine had begun, and nothing is posted; or the context is
-- done, nothing waits and nothing is being posted, and every message that waited at `Start` or was queued
-- since is posted, as often as it was queued.
pub data IsServed (m : Bytes) (p : Pool) (ms : List Bytes) (q : Pool) : Type 0 where
  unserved : q.spawned ≡ p.spawned → q.node.posted ≡ p.node.posted → IsServed m p ms q
  served :
      q.is_done ≡ true
      → q.node.send_queue ≡ []
      → q.busy ≡ []
      → count m q.node.posted ≡ count m p.node.posted + (count m p.node.send_queue + count m ms)
      → IsServed m p ms q

start-IsSound : (cpu : ℕ) (n : HttpNode) → IsSound (cpu + 2) n.posted (send_service cpu n)
unfolding send_service begun IsDrained
start-IsSound cpu n = sound (omega arith) (inr refl) (inl refl) (inl refl)

by_end :
    (m : Bytes) (cpu : ℕ) (n : HttpNode) (ms : List Bytes) (q : Pool)
    → IsSound (cpu + 2) n.posted q
    → held m q ≡ held m (send_service cpu n) + count m ms
    → wait_returns q ≡ true
    → IsServed m (send_service cpu n) ms q
unfolding send_service begun IsDrained held count
by_end m cpu n ms q (sound all started drained late) h done =
    let (idle, busy) = returned q done in
    elim (Bool-cases (ltb 0 q.left)) [
      | inl some_left ↦
          let queue = empty_queue q drained (ground (arith, some_left)) in
          served (ground (arith, late, some_left)) queue busy (ground (arith, h, queue, busy))
      | inr none_left ↦
          unserved (ground (arith, all, idle, busy, none_left))
            (ground (arith, started, idle, busy, none_left))
    ]

pub wait-serves :
    (m : Bytes) (cpu : ℕ) (n : HttpNode) (ms : List Bytes) (q : Pool)
    → Lives (send_service cpu n) ms q
    → wait_returns q ≡ true
    → IsServed m (send_service cpu n) ms q
wait-serves m cpu n ms q l done =
    by_end m cpu n ms q (Lives-IsSound l (start-IsSound cpu n)) (Lives-held m l) done
