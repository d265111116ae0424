-- ===== src/Client/Servers.antt =====
-- `getServer` of src/library/client/tcp.go. The map of servers is given in the order in which each of the
-- two loops visits it; `first_connects` is what the counter answers in the first loop, `get_connects`
-- what it answers in the second. A server is known by its host and its port.
use wing_binlog_go.Prelude.{
  ℕ, ◌≤◌, ◌≡◌, refl, sym, ◌∙◌, Bool, true, false, Option, none, some, List, [], ◌∷◌, map, Bytes,
  bytes_eq, bytes_eq→eq, bytes_eq_refl, ltb, ◌==◌, ==_refl, ◌&&◌, if◌then◌else◌, arith, Bool-cases,
  inl, inr, All, ap, subst, ◌⊎◌,
}
use mathlib.Core.List.{Memᴰ}

pub record ServerNode : Type 0 where
  pub offline : Bool
  pub host : Bytes
  pub port : ℕ
  pub connects : ℕ

least_trans : (a b c : ℕ) → a ≤ b → b ≤ c → a ≤ c
least_trans a b c h k = omega (arith, h, k)

-- Whether two entries are one server of the map.
unfoldable same_server : ServerNode → ServerNode → Bool
same_server s t = bytes_eq s.host t.host && s.port == t.port

same_server_refl : (s : ServerNode) → same_server s s ≡ true
unfolding same_server
same_server_refl s = rw (bytes_eq_refl s.host, ==_refl s.port) refl

-- `server.connects = client.getConnects(server.host, server.port)`, unless it is offline.
unfoldable pub refresh : (Bytes → ℕ → ℕ) → ServerNode → ServerNode
refresh connects s = if s.offline then s else record s { connects = connects s.host s.port }

module _ (first_connects get_connects : Bytes → ℕ → ℕ) where
  -- The first loop: a server that is not offline.
  unfoldable pub first_server : List ServerNode → Option ServerNode
  unfolding refresh
  first_server [] = none
  first_server (s ∷ ss) =
      let rest = first_server ss in if s.offline then rest else some (refresh first_connects s)

  -- One round of the second loop. `currentNode` points into the map, so that it changes with its server.
  unfoldable pub better : ServerNode → ServerNode → ServerNode
  unfolding refresh same_server
  better current s =
      if s.offline
      then current
      else if same_server s current
      then refresh get_connects s
      else if ltb (refresh get_connects s).connects current.connects
      then refresh get_connects s
      else current

  -- The second loop, with the best server so far.
  unfoldable pub least_server : ServerNode → List ServerNode → ServerNode
  unfolding better
  least_server current [] = current
  least_server current (s ∷ ss) = least_server (better current s) ss

  -- `getServer`: the server, and the servers with their new counters.
  unfoldable pub get_server :
      List ServerNode → List ServerNode → Option ServerNode × List ServerNode
  unfolding first_server least_server
  get_server first second = (
    elim (first_server first) [ none ↦ none | some s ↦ some (least_server s second) ],
    map (refresh get_connects) second,
  )

  -- Every server of `ss` is offline, or has `n` connections at least.
  abbrev pub AtLeast : ℕ → ServerNode → Type 0
  AtLeast n s = (s.offline ≡ true) ⊎ (n ≤ get_connects s.host s.port)

  -- The counter of a server has not risen since it was stored.
  abbrev IsUnrisen : ServerNode → Type 0
  IsUnrisen c = get_connects c.host c.port ≤ c.connects

  better-IsUnrisen :
      (current s : ServerNode)
      → IsUnrisen current
      → IsUnrisen (better current s) × ((better current s).connects ≤ current.connects)
  unfolding better refresh same_server
  better-IsUnrisen current s h = elim (Bool-cases s.offline) [
    | inl off ↦ rw off (h, omega arith)
    | inr on ↦ elim (Bool-cases (bytes_eq s.host current.host && s.port == current.port)) [
      | inl same ↦
          let host = bytes_eq→eq s.host current.host (ground (arith, same)) in
          let port : s.port ≡ current.port = ground (arith, same) in
          rw (on, same) (omega arith, rw (host, port) h)
      | inr other ↦ elim (Bool-cases (ltb (get_connects s.host s.port) current.connects)) [
        | inl less ↦ rw (on, other, less) (omega arith, ground (arith, less))
        | inr more ↦ rw (on, other, more) (h, omega arith)
      ]
    ]
  ]

  least-bound :
      (current : ServerNode) (ss : List ServerNode)
      → IsUnrisen current
      → (least_server current ss).connects ≤ current.connects
  unfolding least_server
  least-bound current [] h = omega arith
  least-bound current (s ∷ ss) h =
      let (unrisen, less) = better-IsUnrisen current s h in
      least_trans _ _ _ (least-bound (better current s) ss unrisen) less

  better-bound :
      (current s : ServerNode)
      → s.offline ≡ false
      → (better current s).connects ≤ get_connects s.host s.port
  unfolding better refresh
  better-bound current s on = ground (arith, on)

  least-AtLeast :
      (current : ServerNode) (ss : List ServerNode)
      → IsUnrisen current
      → All (AtLeast (least_server current ss).connects) ss
  unfolding least_server
  least-AtLeast current [] h = tt
  least-AtLeast current (s ∷ ss) h =
      let (unrisen, less) = better-IsUnrisen current s h in
      (
        elim (Bool-cases s.offline) [
          | inl off ↦ inl off
          | inr on ↦ inr (
              least_trans _ _ _ (least-bound (better current s) ss unrisen)
                (better-bound current s on))
        ],
        least-AtLeast (better current s) ss unrisen,
      )

  -- A server that is not offline, with the counter of the second loop.
  unfoldable IsChoice : List ServerNode → ServerNode → Type 0
  IsChoice ss c = (s : ServerNode) × Memᴰ s ss × (s.offline ≡ false) × (c ≡ refresh get_connects s)

  -- The server of the first loop, which the second loop has yet to visit.
  unfoldable IsFirst : List ServerNode → ServerNode → Type 0
  IsFirst ss c = (s : ServerNode) × Memᴰ s ss × (s.offline ≡ false) × (c ≡ refresh first_connects s)

  by_tests :
      (off same less : Bool) (current next : ServerNode)
      → let r = if off then current else if same then next else if less then next else current in
        (r ≡ current) ⊎ ((off ≡ false) × (r ≡ next))
  by_tests true same less current next = inl refl
  by_tests false true less current next = inr (refl, refl)
  by_tests false false true current next = inr (refl, refl)
  by_tests false false false current next = inl refl

  better-cases :
      (current s : ServerNode)
      → (better current s ≡ current)
        ⊎ ((s.offline ≡ false) × (better current s ≡ refresh get_connects s))
  unfolding better
  better-cases current s =
      by_tests s.offline (same_server s current)
        (ltb (refresh get_connects s).connects current.connects) current (refresh get_connects s)

  -- The second loop meets the server of the first.
  better-first :
      (s : ServerNode)
      → s.offline ≡ false
      → better (refresh first_connects s) s ≡ refresh get_connects s
  unfolding better refresh
  better-first s on = rw (on, bytes_eq_refl s.host, ==_refl s.port) refl

  still :
      (current s : ServerNode) (ss all : List ServerNode)
      → Memᴰ s all
      → IsChoice all current ⊎ IsFirst (s ∷ ss) current
      → IsChoice all (better current s) ⊎ IsFirst ss (better current s)
  unfolding IsChoice IsFirst
  still current s ss all here (inl c) = elim (better-cases current s) [
    | inl same ↦ inl (subst (IsChoice all) (sym same) c)
    | inr (on, e) ↦ inl (s, here, on, e)
  ]
  still current s ss all here (inr (t, Memᴰ.head q, on, e)) =
      let there : s.offline ≡ false = ap (λ x. x.offline) (sym q) ∙ on in
      inl (
        s,
        here,
        there,
        ap (λ x. better x s) (e ∙ ap (refresh first_connects) q) ∙ better-first s there,
      )
  still current s ss all here (inr (t, Memᴰ.tail m, on, e)) = elim (better-cases current s) [
    | inl same ↦ inr (t, m, on, same ∙ e)
    | inr (online, chosen) ↦ inl (s, here, online, chosen)
  ]

  least-IsChoice :
      (current : ServerNode) (ss all : List ServerNode)
      → ((s : ServerNode) → Memᴰ s ss → Memᴰ s all)
      → IsChoice all current ⊎ IsFirst ss current
      → IsChoice all (least_server current ss)
  unfolding least_server IsChoice IsFirst
  least-IsChoice current [] all sub (inl c) = c
  least-IsChoice current [] all sub (inr (s, m, on, e)) = elim m [ ]
  least-IsChoice current (s ∷ ss) all sub h =
      least-IsChoice (better current s) ss all (λ t m. sub t (Memᴰ.tail m))
        (still current s ss all (sub s (Memᴰ.head refl)) h)

  first_server-cases :
      (ss : List ServerNode)
      → ((first_server ss ≡ none) × All (λ s. s.offline ≡ true) ss)
        ⊎ ((c : ServerNode) × IsFirst ss c × (first_server ss ≡ some c))
  unfolding first_server IsFirst
  first_server-cases [] = inl (refl, tt)
  first_server-cases (s ∷ ss) = elim (Bool-cases s.offline) [
    | inl off ↦ elim (first_server-cases ss) [
      | inl (e, a) ↦ inl (rw (off, e), (off, a))
      | inr (c, (t, m, on, e), q) ↦ inr (c, (t, Memᴰ.tail m, on, e), rw (off, q))
    ]
    | inr on ↦ inr (refresh first_connects s, (s, Memᴰ.head refl, on, refl), rw on)
  ]

  refresh-IsUnrisen :
      (t : ServerNode)
      → t.offline ≡ false
      → get_connects t.host t.port ≤ first_connects t.host t.port
      → IsUnrisen (refresh first_connects t)
  unfolding refresh
  refresh-IsUnrisen t up h = rw up h

  -- `getServer` answers nothing only if all servers are offline, and else a server that is not offline
  -- and whose new counter is the least among those, whatever the orders in which its two loops visit the
  -- map, if no counter rises between the question of the first loop and that of the second.
  pub get_server-least :
      (first second : List ServerNode)
      → ((s : ServerNode) → Memᴰ s first → Memᴰ s second)
      → ((host : Bytes) (port : ℕ) → get_connects host port ≤ first_connects host port)
      → (((get_server first second).0 ≡ none) × All (λ s. s.offline ≡ true) first)
        ⊎ ((s : ServerNode) × Memᴰ s second
            × (s.offline ≡ false)
            × ((get_server first second).0 ≡ some (refresh get_connects s))
            × All (AtLeast (refresh get_connects s).connects) second)
  unfolding get_server IsChoice IsFirst
  get_server-least first second sub falls = elim (first_server-cases first) [
    | inl (e, a) ↦ inl (rw (get_server, e), a)
    | inr (c, (t, at, up, same), e) ↦
        let unrisen : get_connects c.host c.port ≤ c.connects =
          subst IsUnrisen (sym same) (refresh-IsUnrisen t up (falls t.host t.port)) in
        let (s, m, on, q) =
          least-IsChoice c second second (λ x y. y) (inr (t, sub t at, up, same)) in
        inr (
          s,
          m,
          on,
          rw (get_server, e, q),
          subst (λ x. All (AtLeast x.connects) second) q (least-AtLeast c second unrisen),
        )
  ]
