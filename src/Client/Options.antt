-- ===== src/Client/Options.antt =====
-- `NewClient` of src/library/client/tcp.go with its options. `parse_int` is strconv.ParseInt with its
-- error dropped.
use wing_binlog_go.Prelude.{
  ℕ, ◌+◌, ◌≡◌, refl, ◌∙◌, Bool, true, false, not, ◌&&◌, ◌||◌, Option, none, some, List, [], ◌∷◌,
  Outcome, ok, panic, ◌>>=◌, Bytes, bytes_eq, bytes_eq→eq, index, length, ltb, ◌==◌, if◌then◌else◌,
  arith, Bool-cases, inl, inr,
}
use wing_binlog_go.Client.Servers.{ServerNode}
use wing_binlog_go.Client.Watch.{Services, has_server}
use wing_binlog_go.Client.Watch.Mirror.{ConsulWatcher, Answer, new_watch, get_members}

-- `ClientOption`
pub data ClientOption : Type 0 where
  on_event_option : ClientOption
  set_services : List Bytes → ClientOption
  set_consul_address : Bytes → ClientOption

-- What the options set: the servers, the number of callbacks and the address of consul.
pub record Settings : Type 0 where
  pub services : Services
  pub onevent : ℕ
  pub consul_address : Bytes

abbrev pub no_settings : Settings
no_settings = record { services = []; onevent = 0; consul_address = [] }

-- `strings.Split(s, ":")`
unfoldable pub split_colon : Bytes → List Bytes
split_colon [] = [] ∷ []
split_colon (b ∷ s) = elim (split_colon s) [
  | [] ↦ []
  | part ∷ parts ↦ if b == b':' then [] ∷ part ∷ parts else (b ∷ part) ∷ parts
]

-- `client.Services[s] = …`
unfoldable pub enter : Bytes → ServerNode → Services → Services
enter k n [] = (k, n) ∷ []
enter k n ((j, m) ∷ ss) = if bytes_eq j k then (k, n) ∷ ss else (j, m) ∷ enter k n ss

module _ (parse_int : Bytes → ℕ) where
  -- One round of the loop of `SetServices`.
  unfoldable pub set_service : Bytes → Services → Outcome Services
  unfolding split_colon enter
  set_service s ss = do
    host ← index (split_colon s) 0
    port ← index (split_colon s) 1
    ok (enter s (record { offline = false; host = host; port = parse_int port; connects = 0 }) ss)

  unfoldable pub set_all : List Bytes → Services → Outcome Services
  unfolding set_service
  set_all [] ss = ok ss
  set_all (s ∷ rest) ss = set_service s ss >>= λ t. set_all rest t

  -- An option, applied.
  unfoldable pub apply_option : ClientOption → Settings → Outcome Settings
  unfolding set_all
  apply_option on_event_option t = ok (record t { onevent = t.onevent + 1 })
  apply_option (set_services ss) t = set_all ss t.services >>= λ s. ok (record t { services = s })
  apply_option (set_consul_address a) t = ok (record t { consul_address = a })

  apply_options : List ClientOption → Settings → Outcome Settings
  unfolding apply_option
  apply_options [] t = ok t
  apply_options (o ∷ os) t = apply_option o t >>= λ u. apply_options os u

  -- `NewClient` up to `start`: with servers the client starts on them; else it asks consul, whose
  -- answer about the members is `q`; without both it panics.
  unfoldable pub set_up : List ClientOption → Answer → Outcome (Settings × Option ConsulWatcher)
  unfolding apply_options
  set_up opts q = apply_options opts no_settings >>= λ t.
      if ltb 0 (length t.services)
      then ok (t, none)
      else if not (bytes_eq t.consul_address [])
      then (let (w, ss) = get_members q (new_watch, t.services) in
          ok (record t { services = ss }, some w))
      else panic

-- Whether an entry is in a list.
unfoldable pub listed : Bytes → List Bytes → Bool
listed k [] = false
listed k (s ∷ ss) = if bytes_eq s k then true else listed k ss

-- Whether an address names a port.
unfoldable pub has_colon : Bytes → Bool
has_colon [] = false
has_colon (b ∷ s) = if b == b':' then true else has_colon s

has_server-enter :
    (k j : Bytes) (n : ServerNode) (ss : Services)
    → has_server k (enter j n ss) ≡ (bytes_eq j k || has_server k ss)
unfolding has_server enter
has_server-enter k j n [] = ground arith
has_server-enter k j n ((i, m) ∷ ss) = elim (Bool-cases (bytes_eq i j)) [
  | inl same ↦ rw same (rw (bytes_eq→eq i j same) (ground arith))
  | inr other ↦ ground (arith, other, has_server-enter k j n ss)
]

pub split_colon-branches :
    (s : Bytes)
    → (host : Bytes) × (rest : List Bytes) × (split_colon s ≡ host ∷ rest)
      × (ltb 0 (length rest) ≡ has_colon s)
unfolding split_colon has_colon
split_colon-branches [] = ([], [], refl, refl)
split_colon-branches (b ∷ s) =
    let (host, rest, e, h) = split_colon-branches s in
    elim (Bool-cases (b == b':')) [
      | inl colon ↦ ([], host ∷ rest, rw (e, colon) refl, rw colon (ground arith))
      | inr other ↦ (b ∷ host, rest, rw (e, other) refl, rw other h)
    ]

module _ (parse_int : Bytes → ℕ) where
  set_service-colon :
      (s : Bytes) (ss : Services)
      → has_colon s ≡ true
      → (n : ServerNode) × (set_service parse_int s ss ≡ ok (enter s n ss))
  unfolding set_service
  set_service-colon s ss h =
      let (host, rest, e, same) = split_colon-branches s in by_rest host rest e (same ∙ h)
    where
      by_rest :
          (host : Bytes) (rest : List Bytes)
          → split_colon s ≡ host ∷ rest
          → ltb 0 (length rest) ≡ true
          → (n : ServerNode) × (set_service parse_int s ss ≡ ok (enter s n ss))
      by_rest host [] e some_port = cc
      by_rest host (p ∷ ps) e some_port =
          (record { offline = false; host = host; port = parse_int p; connects = 0 }, rw e refl)

  set_service-no_colon :
      (s : Bytes) (ss : Services) → has_colon s ≡ false → set_service parse_int s ss ≡ panic
  unfolding set_service
  set_service-no_colon s ss h =
      let (host, rest, e, same) = split_colon-branches s in by_rest host rest e (same ∙ h)
    where
      by_rest :
          (host : Bytes) (rest : List Bytes)
          → split_colon s ≡ host ∷ rest
          → ltb 0 (length rest) ≡ false
          → set_service parse_int s ss ≡ panic
      by_rest host [] e no_port = rw e refl
      by_rest host (p ∷ ps) e no_port = absurd (ground (arith, no_port))

  abbrev pub all_colons : List Bytes → Bool
  all_colons [] = true
  all_colons (s ∷ ss) = has_colon s && all_colons ss

  -- `SetServices` knows exactly the servers of its list and those it knew before if every entry has a
  -- colon, and panics if one has none.
  pub set_all-branches :
      (k : Bytes) (ss : List Bytes) (old : Services)
      → if all_colons ss
        then ((t : Services) × (set_all parse_int ss old ≡ ok t)
            × (has_server k t ≡ (listed k ss || has_server k old)))
        else (set_all parse_int ss old ≡ panic)
  unfolding set_all listed
  set_all-branches k [] old = (old, refl, refl)
  set_all-branches k (s ∷ ss) old = elim (Bool-cases (has_colon s)) [
    | inr without ↦ rw (without, set_service-no_colon s old without) refl
    | inl colon ↦
        let (n, e) = set_service-colon s old colon in
        rw (colon, e) (more n (set_all-branches k ss (enter s n old)))
  ]
    where
      more :
          (n : ServerNode)
          → (if all_colons ss
              then ((t : Services) × (set_all parse_int ss (enter s n old) ≡ ok t)
                  × (has_server k t ≡ (listed k ss || has_server k (enter s n old))))
              else (set_all parse_int ss (enter s n old) ≡ panic))
          → if all_colons ss
            then ((t : Services) × (set_all parse_int ss (enter s n old) ≡ ok t)
                × (has_server k t
                    ≡ ((if bytes_eq s k then true else listed k ss) || has_server k old)))
            else (set_all parse_int ss (enter s n old) ≡ panic)
      more n h = elim (Bool-cases (all_colons ss)) [
        | inl yes_all ↦
            let (t, e, q) = rw yes_all at h in
            rw yes_all (t, e, q ∙ ground (arith, has_server-enter k s n old))
        | inr not_all ↦ rw not_all (rw not_all at h)
      ]
