-- ===== src/Subscribe/Groups/Close.antt =====
-- Closing all connections: the loop reads an array that its own body shifts.
use wing_binlog_go.Prelude.{
  ℕ, zero, suc, ◌≡◌, ◌≢◌, refl, ap, ◌∙◌, inl, inr, true, false, Option, none, some, List, [], ◌∷◌,
  ◌++◌, length, Bool-cases, get_elem?, if◌then◌else◌, arith,
}
use wing_binlog_go.Subscribe.Node.{Node}
use wing_binlog_go.Subscribe.Groups.{
  Slice, Groups, member, erase, last_or, remove_entry, remove, close_node, close_range, close_all,
}

module _ (b : ℕ) where
  member-erase : (id : ℕ) (xs : List ℕ) → member b xs ≡ false → member b (erase id xs) ≡ false
  unfolding member erase
  member-erase id [] h = refl
  member-erase id (x ∷ xs) h = ground (arith, member-erase id xs)

  member-append :
      (xs ys : List ℕ) → member b xs ≡ false → member b ys ≡ false → member b (xs ++ ys) ≡ false
  unfolding member
  member-append [] ys h k = k
  member-append (x ∷ xs) ys h k = ground (arith, member-append xs ys)

  member-get_elem? :
      (xs : List ℕ) (i id : ℕ) → member b xs ≡ false → get_elem? xs i ≡ some id → id ≢ b
  unfolding member
  member-get_elem? [] i id h e = λ q. cc
  member-get_elem? (x ∷ xs) zero id h e = λ q. ground arith
  member-get_elem? (x ∷ xs) (suc i) id h e = member-get_elem? xs i id (ground arith) e

  last_or-ne : (d : ℕ) (xs : List ℕ) → d ≢ b → member b xs ≡ false → last_or d xs ≢ b
  unfolding member last_or
  last_or-ne d [] h k = h
  last_or-ne d (x ∷ xs) h k = last_or-ne x xs (λ e. ground arith) (ground arith)

  -- The node `b` is open and first in the slice, and no other cell holds it.
  record LeadsAt (n : Node) (gs : Groups) : Type 0 where
    others : List ℕ
    first : gs.g.live ≡ b ∷ others
    alone : member b others ≡ false
    nowhere : member b gs.g.spare ≡ false
    kept : gs.nodes b ≡ n

  last_or-first :
      (id : ℕ) (others : List ℕ)
      → member id (b ∷ others) ≡ true
      → id ≢ b
      → member b others ≡ false
      → last_or id (b ∷ others) ≢ b
  unfolding last_or member
  last_or-first id [] h k m = λ e. ground arith
  last_or-first id (x ∷ xs) h k m = last_or-ne x xs (λ e. ground arith) (ground arith)

  module _ (id : ℕ) (others : List ℕ) (s : Slice) (h : id ≢ b) (e : s.live ≡ b ∷ others) where
    remove_entry-spare :
        member b others ≡ false
        → member b s.spare ≡ false
        → member b (remove_entry id s).spare ≡ false
    unfolding remove_entry
    remove_entry-spare alone k = rw e (elim (Bool-cases (member id (b ∷ others))) [
      | inl found ↦ rw found (added (last_or-first id others found h alone))
      | inr missing ↦ rw missing k
    ])
      where
        added : last_or id (b ∷ others) ≢ b → member b (last_or id (b ∷ others) ∷ s.spare) ≡ false
        added ne = unfold member in ground arith

    remove_entry-live :
        (remove_entry id s).live ≡ b ∷ (if member id others then erase id others else others)
    unfolding remove_entry member erase
    remove_entry-live = rw e (ground (arith, e))

  close_node-LeadsAt :
      (id : ℕ) (n : Node) (gs : Groups) → id ≢ b → LeadsAt n gs → LeadsAt n (close_node id gs)
  unfolding close_node remove
  close_node-LeadsAt id n gs h l = elim (Bool-cases (gs.nodes id).online) [
    | inl up ↦ rw up (record {
      others = if member id l.others then erase id l.others else l.others;
      first = remove_entry-live id l.others gs.g h l.first;
      alone = ground (arith, member-erase id l.others l.alone);
      nowhere = remove_entry-spare id l.others gs.g h l.first l.alone l.nowhere;
      kept = ground (arith, l.kept);
    })
    | inr down ↦ rw down l
  ]

  close_range-LeadsAt :
      (left i : ℕ) (n : Node) (gs : Groups) → LeadsAt n gs → LeadsAt n (close_range left (suc i) gs)
  unfolding close_range
  close_range-LeadsAt zero i n gs l = l
  close_range-LeadsAt (suc left) i n gs l =
      step (get_elem? (gs.g.live ++ gs.g.spare) (suc i)) refl
        (λ id hs. close_range-LeadsAt left (suc i) n hs)
    where
      step :
          (o : Option ℕ)
          → get_elem? (gs.g.live ++ gs.g.spare) (suc i) ≡ o
          → ((id : ℕ) (hs : Groups) → LeadsAt n hs → LeadsAt n (close_range left (suc (suc i)) hs))
          → LeadsAt n
              (elim o [ none ↦ gs | some id ↦ close_range left (suc (suc i)) (close_node id gs) ])
      step none e ih = l
      step (some id) e ih = ih id (close_node id gs) (close_node-LeadsAt id n gs other l)
        where
          other : id ≢ b
          other =
              member-get_elem? (l.others ++ gs.g.spare) i id
                (member-append l.others gs.g.spare l.alone l.nowhere) (rw l.first at e)

-- What closing the first of three or more connections leaves.
module _ (gs : Groups) (a b c : ℕ) (rest : List ℕ) (e : gs.g.live ≡ a ∷ b ∷ c ∷ rest)
    (alone : member b (a ∷ c ∷ rest) ≡ false) (stale : member b gs.g.spare ≡ false)
    (up : (gs.nodes a).online ≡ true) where
  close_range-first :
      close_range (length gs.g.live) 0 gs ≡ close_range (length (b ∷ c ∷ rest)) 1 (close_node a gs)
  unfolding close_range
  close_range-first =
      ap (λ (k : ℕ). close_range k 0 gs) (ap length e)
      ∙ ap
          (λ (o : Option ℕ). elim o [
            | none ↦ gs
            | some id ↦ close_range (length (b ∷ c ∷ rest)) 1 (close_node id gs)
          ])
          (ap (λ (l : List ℕ). get_elem? (l ++ gs.g.spare) 0) e)

  remove_entry-first :
      ((remove_entry a gs.g).live ≡ b ∷ c ∷ rest)
      × ((remove_entry a gs.g).spare ≡ last_or c rest ∷ gs.g.spare)
  unfolding remove_entry member erase last_or
  remove_entry-first = rw e (ground arith)

  first_closed : LeadsAt b (gs.nodes b) (close_node a gs)
  unfolding close_node remove member
  first_closed = rw up (record {
    others = c ∷ rest;
    first = remove_entry-first.0;
    alone = ground arith;
    nowhere =
        rw remove_entry-first.1
          (ground (arith, last_or-ne b c rest (λ q. ground arith) (ground arith)));
    kept = ground arith;
  })

  -- With three or more clients connected, closing all of them leaves the second one as it was,
  -- whatever the others are, and takes it out of the slice. This asks that the first one is online
  -- and that no other cell of the array holds the second.
  pub close_all-skips_second : ((close_all gs).nodes b ≡ gs.nodes b) × ((close_all gs).g.live ≡ [])
  unfolding close_all
  close_all-skips_second = (
    rw close_range-first
        (close_range-LeadsAt b (length (b ∷ c ∷ rest)) 0 (gs.nodes b) (close_node a gs)
          first_closed).kept,
    refl,
  )
