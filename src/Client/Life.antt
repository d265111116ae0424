-- ===== src/Client/Life.antt =====
-- The status bits of the client and of its node, and what reaches the server.
use wing_binlog_go.Prelude.{
  ◌≡◌, refl, sym, ap, ◌∙◌, true, false, not, Option, none, some, List, [], ◌∷◌, ◌++◌, map, Outcome,
  ok, ◌>>=◌, Bytes, if◌then◌else◌, arith, Bool-cases, Option-cases, inl, inr,
}
use mathlib.Core.List.{append_assoc, append-nil}
use wing_binlog_go.Client.{
  Client, Node, dialled, write, write_all, connect, connect_to, disconnect, set_pro, is_online,
  close_conn, set_offline, close, Conn,
}

-- A node is either online, with a connection that is open, or offline; a client is either online or
-- offline, not both.
unfoldable pub IsSound : Node → Type 0
IsSound n = elim n.conn [
  | none ↦ (n.node_online ≡ false) × (n.node_offline ≡ true)
  | some c ↦ (n.node_online ≡ not c.is_closed) × (n.node_offline ≡ c.is_closed)
]

abbrev open_node : List Bytes → Node
open_node sent = record {
  conn = some (record { is_closed = false; sent = sent });
  node_offline = false;
  node_online = true;
}

-- The registrations of an open connection go out in the order of the topics.
write_all-open :
    (ts : List Bytes) (sent : List Bytes)
    → write_all ts (open_node sent) ≡ ok (open_node (sent ++ map set_pro ts))
unfolding write_all write
write_all-open [] sent = ap (λ b. ok (open_node b)) (sym (append-nil sent))
write_all-open (t ∷ ts) sent =
    write_all-open ts (sent ++ set_pro t ∷ [])
    ∙ ap (λ b. ok (open_node b)) (append_assoc sent (set_pro t ∷ []) (map set_pro ts))

-- Taking a connection off line closes it.
set_offline-IsSound :
    (n : Node) (k : Conn)
    → n.conn ≡ some k
    → n.node_offline ≡ false
    → IsSound n
    → IsSound (set_offline (record n { conn = some (record k { is_closed = true }) }))
unfolding set_offline IsSound
set_offline-IsSound n k conn on v = let (x, y) = rw conn at v in ground (arith, x, y, on)

module _ {D : Type 0} where
  unfoldable pub IsWell : Client D → Type 0
  unfolding IsSound
  IsWell c =
      (c.client_online ≡ not c.client_offline)
      × elim c.node [ none ↦ true ≡ true | some n ↦ IsSound n ]

  connect_to-dialled :
      (c : Client D)
      → c.client_online ≡ not c.client_offline
      → connect_to dialled c
        ≡ ok (record c {
          node = some (open_node (map set_pro c.topics));
          client_offline = false;
          client_online = true;
        })
  unfolding connect_to
  connect_to-dialled c w =
      ap
        (λ m. m >>= λ n.
          ok
            (record (if c.client_offline
              then record c { client_offline = false; client_online = true }
              else c) { node = some n }))
        (write_all-open c.topics [])
      ∙ ground (arith, w)

  disconnect-some :
      (c : Client D) (n : Node)
      → c.node ≡ some n
      → IsSound n
      → (m : Node) × (disconnect c ≡ ok (record c { node = some m })) × IsSound m
  unfolding disconnect close_conn IsSound
  disconnect-some c n e v = elim (Bool-cases n.node_offline) [
    | inl off ↦ (n, rw (e, off) refl, v)
    | inr on ↦ elim (Option-cases n.conn) [
      | inl nil ↦ let u = rw nil at v in absurd (ground (arith, u.1, on))
      | inr (k, conn) ↦ (
        set_offline (record n { conn = some (record k { is_closed = true }) }),
        rw (e, on, conn) refl,
        set_offline-IsSound n k conn on v,
      )
    ]
  ]

  disconnect-node :
      (c : Client D)
      → IsWell c
      → (m : Option Node) × (disconnect c ≡ ok (record c { node = m }))
        × IsWell (record c { node = m })
  unfolding disconnect IsWell
  disconnect-node c (w, v) = elim (Option-cases c.node) [
    | inl e ↦ (none, rw e refl, (w, refl))
    | inr (n, e) ↦ let (m, q, sound) = disconnect-some c n e (rw e at v) in (some m, q, (w, sound))
  ]

  -- Closing a sound client does not panic. It leaves the client offline and sound, and but for its
  -- node and its status as it was.
  pub close-IsWell :
      (c : Client D)
      → IsWell c
      → (m : Option Node) × (close c
          ≡ ok (record c { node = m; client_online = false; client_offline = true }))
        × IsWell (record c { node = m; client_online = false; client_offline = true })
  unfolding close IsWell
  close-IsWell c w = elim (Bool-cases c.client_offline) [
    | inl off ↦ (c.node, rw (off, w.0 ∙ ap not off) refl, (refl, w.1))
    | inr on ↦
        let (m, e, sound) = disconnect-node c w in
        (
          m,
          ap (λ b. if b then ok c else (disconnect c >>= after)) on
              ∙ ap (λ x. x >>= after) e
              ∙ ap
                  (λ b. ok (
                    if b
                    then record c { node = m; client_online = false; client_offline = true }
                    else record c { node = m }))
                  (w.0 ∙ ap not on),
          (refl, sound.1),
        )
  ]
    where
      after : Client D → Outcome (Client D)
      after d =
          ok (
            if d.client_online
            then record d { client_online = false; client_offline = true }
            else d)

  -- A sound client that dials a server ends with a fresh connection on which exactly its topics are
  -- registered again, in order, and is online.
  pub connect-registers :
      (c : Client D)
      → IsWell c
      → connect dialled c
        ≡ ok (record c {
          node = some (record {
            conn = some (record { is_closed = false; sent = map set_pro c.topics });
            node_offline = false;
            node_online = true;
          });
          client_offline = false;
          client_online = true;
        })
  unfolding connect IsWell
  connect-registers c w = elim (Bool-cases (is_online c)) [
    | inl on ↦
        let (m, e, sound) = disconnect-node c w in
        rw (on, e) (connect_to-dialled (record c { node = m }) w.0)
    | inr off ↦ rw off (connect_to-dialled c w.0)
  ]
