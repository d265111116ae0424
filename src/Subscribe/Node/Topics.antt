-- ===== src/Subscribe/Node/Topics.antt =====
-- The topics of a node: no duplicates, and a topic that was added is there.
use wing_binlog_go.Prelude.{
  ◌≡◌, refl, true, false, List, [], ◌∷◌, ◌++◌, Bytes, bytes_eq, bytes_eq_refl, bytes_eq→eq,
  if◌then◌else◌, arith,
}
use wing_binlog_go.Subscribe.Node.{Node, contains, trim, add_topic}

-- No topic stands twice in the list.
abbrev pub IsDistinct : List Bytes → Type 0
IsDistinct [] = Unit {0}
IsDistinct (t ∷ ts) = (contains t ts ≡ false) × IsDistinct ts

contains-append :
    (t u : Bytes) (ts : List Bytes)
    → contains t (ts ++ u ∷ []) ≡ (if contains t ts then true else bytes_eq u t)
unfolding contains
contains-append t u [] = ground arith
contains-append t u (v ∷ ts) = ground (arith, contains-append t u ts)

IsDistinct-append :
    (u : Bytes) (ts : List Bytes)
    → IsDistinct ts
    → contains u ts ≡ false
    → IsDistinct (ts ++ u ∷ [])
unfolding contains
IsDistinct-append u [] d h = (refl, tt)
IsDistinct-append u (v ∷ ts) d h = (
  ground (arith, contains-append v u ts, bytes_eq→eq u v, bytes_eq→eq v u, bytes_eq_refl u),
  ground (arith, IsDistinct-append u ts d.1),
)

module _ (to_lower : Bytes → Bytes) where
  -- Subscribing to a topic keeps the topics of a node distinct.
  pub add_topic-IsDistinct :
      (raw : Bytes) (n : Node) → IsDistinct n.topics → IsDistinct (add_topic to_lower raw n).topics
  unfolding add_topic
  add_topic-IsDistinct raw n d = ground (arith, IsDistinct-append (to_lower (trim raw)) n.topics d)

  -- After a subscription exactly the old topics and the new one, trimmed and in lower case, are
  -- there.
  pub contains-add_topic :
      (raw t : Bytes) (n : Node)
      → contains t (add_topic to_lower raw n).topics
        ≡ (if contains t n.topics then true else bytes_eq (to_lower (trim raw)) t)
  unfolding add_topic
  contains-add_topic raw t n =
      ground (
        arith,
        contains-append t (to_lower (trim raw)) n.topics,
        bytes_eq→eq (to_lower (trim raw)) t,
      )

  -- Subscribing twice to the same topic changes nothing the second time.
  pub add_topic_idem :
      (raw : Bytes) (n : Node)
      → add_topic to_lower raw (add_topic to_lower raw n) ≡ add_topic to_lower raw n
  unfolding add_topic
  add_topic_idem raw n = ground (
    arith,
    contains-append (to_lower (trim raw)) (to_lower (trim raw)) n.topics,
    bytes_eq_refl (to_lower (trim raw)),
  )
