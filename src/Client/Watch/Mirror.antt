-- ===== src/Client/Watch/Mirror.antt =====
-- The long poll of `process` in src/library/client/watcher.go, with `getMembers` and the map of servers
-- that `NewClient` keeps by it.
use wing_binlog_go.Prelude.{
  ℕ, ◌≡◌, refl, sym, ap, ◌∙◌, not, ◌&&◌, Option, none, some, List, [], ◌∷◌, All, Bytes, bytes_eq,
  bytes_eq_refl, bytes_eq→eq, arith, Bool-cases, inl, inr,
}
use wing_binlog_go.Client.Watch.{
  ServiceEntry, Services, server_key, has_id, get_delete, has_server, has_key, process_round,
  add_members, has_server-process_round, fire, ev_add, on_change, has_server-added,
}

-- What `queryConsul` answers: an error, or the entries, which may be nil, and the index of the answer.
pub data Answer : Type 0 where
  query_fails : Answer
  entries : Option (List ServiceEntry) → ℕ → Answer

-- `ConsulWatcher`: the entries of the last answer, and its index, with which the next query waits.
pub record ConsulWatcher : Type 0 where
  pub addrs : List ServiceEntry
  pub li : ℕ

-- `newWatch`
abbrev pub new_watch : ConsulWatcher
new_watch = record { addrs = []; li = 0 }

abbrev or_empty : Option (List ServiceEntry) → List ServiceEntry
or_empty none = []
or_empty (some es) = es

-- `getMembers` and the loop over what it answers. On an error the members are nil.
unfoldable pub get_members : Answer → ConsulWatcher × Services → ConsulWatcher × Services
get_members query_fails (w, ss) = (w, ss)
get_members (entries es index) (w, ss) =
    (record { addrs = or_empty es; li = index }, add_members (or_empty es) ss)

-- `process`, by the answers that its queries get.
unfoldable pub process : List Answer → ConsulWatcher × Services → ConsulWatcher × Services
process [] (w, ss) = (w, ss)
process (query_fails ∷ qs) (w, ss) = process qs (w, ss)
process (entries es index ∷ qs) (w, ss) =
    process qs (record { addrs = or_empty es; li = index }, process_round w.addrs (or_empty es) ss)

-- The entries of the last answer that is no error.
unfoldable pub last_entries : List ServiceEntry → List Answer → List ServiceEntry
last_entries known [] = known
last_entries known (query_fails ∷ qs) = last_entries known qs
last_entries known (entries es index ∷ qs) = last_entries (or_empty es) qs

module _ (key_of id_of : Bytes → Bytes) where
  -- An id stands for one address, and an address for one id.
  abbrev pub IsNamed : ServiceEntry → Type 0
  IsNamed e = (key_of e.id ≡ server_key e) × (id_of (server_key e) ≡ e.id)

  abbrev pub AllNamed : Answer → Type 0
  AllNamed query_fails = Unit {0}
  AllNamed (entries es index) = All IsNamed (or_empty es)

  same_id-key :
      (e f : ServiceEntry)
      → IsNamed e
      → IsNamed f
      → bytes_eq e.id f.id ≡ bytes_eq (server_key f) (server_key e)
  same_id-key e f (ek, ei) (fk, fi) = elim (Bool-cases (bytes_eq e.id f.id)) [
    | inl same ↦
        let ids = bytes_eq→eq e.id f.id same in
        same ∙ sym (rw (sym fk ∙ ap key_of (sym ids) ∙ ek) (bytes_eq_refl (server_key e)))
    | inr other ↦ elim (Bool-cases (bytes_eq (server_key f) (server_key e))) [
      | inl keys ↦
          let ids = sym fi ∙ ap id_of (bytes_eq→eq (server_key f) (server_key e) keys) ∙ ei in
          absurd (ground (arith, other, bytes_eq_refl e.id, ap (bytes_eq e.id) ids))
      | inr differ ↦ other ∙ sym differ
    ]
  ]

  has_id-key :
      (e : ServiceEntry) (b : List ServiceEntry)
      → IsNamed e
      → All IsNamed b
      → has_id e.id b ≡ has_key (server_key e) b
  unfolding has_id has_key
  has_id-key e [] n h = refl
  has_id-key e (f ∷ b) n h = rw (same_id-key e f n h.0, has_id-key e b n h.1) refl

  has_key-get_delete :
      (k : Bytes) (a b : List ServiceEntry)
      → All IsNamed a
      → All IsNamed b
      → has_key k (get_delete a b) ≡ (has_key k a && not (has_key k b))
  unfolding has_key get_delete
  has_key-get_delete k [] b ha hb = refl
  has_key-get_delete k (e ∷ a) b ha hb = elim (Bool-cases (bytes_eq (server_key e) k)) [
    | inl same ↦
        let there =
          has_id-key e b ha.0 hb ∙ ap (λ j. has_key j b) (bytes_eq→eq (server_key e) k same) in
        ground (arith, same, there, has_key-get_delete k a b ha.1 hb)
    | inr other ↦ ground (arith, other, has_key-get_delete k a b ha.1 hb)
  ]

  mirrored :
      (k : Bytes) (known addrs : List ServiceEntry) (ss : Services)
      → All IsNamed known
      → All IsNamed addrs
      → has_server k ss ≡ has_key k known
      → has_server k (process_round known addrs ss) ≡ has_key k addrs
  mirrored k known addrs ss hk ha e =
      has_server-process_round k known addrs ss
      ∙ rw (has_key-get_delete k addrs known ha hk, has_key-get_delete k known addrs hk ha, e)
          (ground arith)

  -- Whatever consul answers, errors and nil lists included, the client goes on knowing exactly the
  -- servers of the last answer that was no error, or those it began with if there was none: their keys
  -- and no others are in its map. It began with those of the watcher's entries, and an id stands for one
  -- address and an address for one id.
  pub has_server-process :
      (k : Bytes) (qs : List Answer) (w : ConsulWatcher) (ss : Services)
      → All IsNamed w.addrs
      → All AllNamed qs
      → has_server k ss ≡ has_key k w.addrs
      → has_server k (process qs (w, ss)).1 ≡ has_key k (last_entries w.addrs qs)
  unfolding process last_entries
  has_server-process k [] w ss hw h e = e
  has_server-process k (query_fails ∷ qs) w ss hw h e = has_server-process k qs w ss hw h.1 e
  has_server-process k (entries es index ∷ qs) w ss hw h e =
      has_server-process k qs _ _ h.0 h.1 (mirrored k w.addrs (or_empty es) ss hw h.0 e)

add_members-fire : (es : List ServiceEntry) (ss : Services) → add_members es ss ≡ fire ev_add es ss
unfolding add_members fire on_change
add_members-fire [] ss = refl
add_members-fire (e ∷ es) ss = add_members-fire es _

-- A new client that has asked for the members knows exactly their keys, be there an answer or not.
get_members-mirrors :
    (k : Bytes) (q : Answer)
    → let (w, ss) = get_members q (new_watch, []) in has_server k ss ≡ has_key k w.addrs
unfolding get_members has_server has_key
get_members-mirrors k query_fails = refl
get_members-mirrors k (entries es index) =
    ap (has_server k) (add_members-fire (or_empty es) [])
    ∙ has_server-added k (or_empty es) []
    ∙ ground arith
