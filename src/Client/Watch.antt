-- ===== src/Client/Watch.antt =====
-- src/library/client/watcher.go, and what `NewClient` of src/library/client/tcp.go does with its
-- events and members. The answers of Consul are arguments. The map `Services` is an association list.
pub mod Mirror
use wing_binlog_go.Prelude.{
  ℕ, ◌≡◌, refl, sym, ap, ◌∙◌, Bool, true, false, not, ◌&&◌, ◌||◌, List, [], ◌∷◌, ◌++◌, Bytes, text,
  decimal, bytes_eq, bytes_eq_refl, bytes_eq→eq, if◌then◌else◌, arith, Bool-cases, inl, inr,
}
use wing_binlog_go.Client.Servers.{ServerNode}

-- What the code reads of a `consul.ServiceEntry`.
pub record ServiceEntry : Type 0 where
  pub id : Bytes
  pub address : Bytes
  pub port : ℕ

abbrev pub Services : Type 0
Services = List (Bytes × ServerNode)

-- `fmt.Sprintf("%v:%v", ip, port)`
unfoldable pub server_key : ServiceEntry → Bytes
server_key e = e.address ++ (text ":" ++ decimal e.port)

pub data EventType : Type 0 where
  ev_add : EventType
  ev_delete : EventType

unfoldable pub has_id : Bytes → List ServiceEntry → Bool
has_id i [] = false
has_id i (e ∷ es) = if bytes_eq i e.id then true else has_id i es

-- `getDelete`
unfoldable pub get_delete : List ServiceEntry → List ServiceEntry → List ServiceEntry
unfolding has_id
get_delete [] b = []
get_delete (e ∷ a) b = if has_id e.id b then get_delete a b else e ∷ get_delete a b

unfoldable pub has_server : Bytes → Services → Bool
has_server k [] = false
has_server k ((j, s) ∷ ss) = if bytes_eq j k then true else has_server k ss

-- `delete(client.Services, s)`
unfoldable pub delete : Bytes → Services → Services
delete k [] = []
delete k ((j, s) ∷ ss) = if bytes_eq j k then delete k ss else (j, s) ∷ delete k ss

-- A server is entered unless its key is there.
unfoldable pub add_server : ServiceEntry → Services → Services
unfolding has_server
add_server e ss =
    if has_server (server_key e) ss
    then ss
    else (ss
        ++ (server_key e, record { offline = false; host = e.address; port = e.port; connects = 0 })
          ∷ [])

-- The callback of `NewClient`.
unfoldable pub on_change : ServiceEntry → EventType → Services → Services
unfolding delete add_server
on_change e ev_delete ss = delete (server_key e) ss
on_change e ev_add ss = add_server e ss

-- The events for a list of entries.
unfoldable pub fire : EventType → List ServiceEntry → Services → Services
fire ev [] ss = ss
fire ev (e ∷ es) ss = fire ev es (on_change e ev ss)

-- One round of `process`, from the entries that it knew to those that Consul answers.
unfoldable pub process_round : List ServiceEntry → List ServiceEntry → Services → Services
unfolding get_delete fire
process_round known addrs ss =
    fire ev_add (get_delete addrs known) (fire ev_delete (get_delete known addrs) ss)

-- The members that `NewClient` enters before it starts.
unfoldable pub add_members : List ServiceEntry → Services → Services
add_members [] ss = ss
add_members (m ∷ ms) ss = add_members ms (add_server m ss)

-- Whether an entry of a list has the key.
unfoldable pub has_key : Bytes → List ServiceEntry → Bool
has_key k [] = false
has_key k (e ∷ es) = if bytes_eq (server_key e) k then true else has_key k es

has_server-delete :
    (k j : Bytes) (ss : Services)
    → has_server k (delete j ss) ≡ (has_server k ss && not (bytes_eq j k))
unfolding has_server delete
has_server-delete k j [] = refl
has_server-delete k j ((i, s) ∷ ss) = elim (Bool-cases (bytes_eq i j)) [
  | inl same ↦ rw same (has_server-delete k j ss ∙ rw (bytes_eq→eq i j same) absorbed)
  | inr other ↦ ground (arith, other, has_server-delete k j ss, clash)
]
  where
    clash : bytes_eq i j ≡ false → bytes_eq i k ≡ true → bytes_eq j k ≡ false
    clash f t = elim (Bool-cases (bytes_eq j k)) [
      | inl both ↦ absurd (
          ground (
            arith,
            f,
            bytes_eq_refl i,
            ap (bytes_eq i) (bytes_eq→eq i k t ∙ sym (bytes_eq→eq j k both)),
          ))
      | inr one ↦ one
    ]

    absorbed :
        (has_server k ss && not (bytes_eq j k))
        ≡ ((if bytes_eq j k then true else has_server k ss) && not (bytes_eq j k))
    absorbed = ground arith

has_server-append :
    (k : Bytes) (ss : Services) (x : Bytes × ServerNode)
    → has_server k (ss ++ x ∷ []) ≡ (has_server k ss || bytes_eq x.0 k)
unfolding has_server
has_server-append k [] x = ground arith
has_server-append k ((j, s) ∷ ss) x = ground (arith, has_server-append k ss x)

has_server-add :
    (k : Bytes) (e : ServiceEntry) (ss : Services)
    → has_server k (add_server e ss) ≡ (bytes_eq (server_key e) k || has_server k ss)
unfolding add_server
has_server-add k e ss = elim (Bool-cases (has_server (server_key e) ss)) [
  | inl there ↦ rw there (present there)
  | inr new ↦ rw new (has_server-append k ss _ ∙ ground arith)
]
  where
    present :
        has_server (server_key e) ss ≡ true
        → has_server k ss ≡ (bytes_eq (server_key e) k || has_server k ss)
    present there = elim (Bool-cases (bytes_eq (server_key e) k)) [
      | inl same ↦
          rw same (ap (λ j. has_server j ss) (sym (bytes_eq→eq (server_key e) k same)) ∙ there)
      | inr other ↦ rw other refl
    ]

has_server-deleted :
    (k : Bytes) (es : List ServiceEntry) (ss : Services)
    → has_server k (fire ev_delete es ss) ≡ (has_server k ss && not (has_key k es))
unfolding fire on_change has_key
has_server-deleted k [] ss = ground arith
has_server-deleted k (e ∷ es) ss =
    has_server-deleted k es (delete (server_key e) ss)
    ∙ ground (arith, has_server-delete k (server_key e) ss)

pub has_server-added :
    (k : Bytes) (es : List ServiceEntry) (ss : Services)
    → has_server k (fire ev_add es ss) ≡ (has_key k es || has_server k ss)
unfolding fire on_change has_key
has_server-added k [] ss = refl
has_server-added k (e ∷ es) ss =
    has_server-added k es (add_server e ss) ∙ ground (arith, has_server-add k e ss)

-- After a round the client knows a server exactly when the round added an entry with its key, or it
-- knew the server and the round deleted no entry with its key.
pub has_server-process_round :
    (k : Bytes) (known addrs : List ServiceEntry) (ss : Services)
    → has_server k (process_round known addrs ss) ≡ (
        has_key k (get_delete addrs known)
        || (has_server k ss && not (has_key k (get_delete known addrs))))
unfolding process_round
has_server-process_round k known addrs ss =
    has_server-added k (get_delete addrs known) _
    ∙ ap (λ b. has_key k (get_delete addrs known) || b)
        (has_server-deleted k (get_delete known addrs) ss)
