-- ===== src/Examples/System.antt =====
-- The count of connections in consul, and the key file.
use wing_binlog_go.Prelude.{
  ◌≡◌, refl, ap, ◌∙◌, Bool, true, false, none, some, List, [], ◌∷◌, ◌++◌, ok, Bytes, text, bytes_eq,
  bytes_eq_refl, arith, if◌then◌else◌,
}
use wing_binlog_go.Subscribe.Registry.{
  Call, create_session, renew, put, update_ttl, service_register, check_register,
  service_deregister, check_deregister, Answer, missing, pair, Service, initial, registration,
  update_round, get_connects,
}
use wing_binlog_go.Subscribe.Registry.Published.{Store, no_put, is_put, get_connects-update_round}
use wing_binlog_go.System.Path.{forward_slashes, last_index, drop_last, cut_at, get_parent}
use wing_binlog_go.System.Files.{Disk, not_opened, writes, get_key}
use wing_binlog_go.System.Files.Keys.{get_key-stable}

-- A store that keeps what was put.
latest_of : List Call → Bytes → Answer → Answer
latest_of [] key held = held
latest_of (put k value ∷ cs) key held =
    latest_of cs key (if bytes_eq k key then pair value else held)
latest_of (create_session t ∷ cs) key held = latest_of cs key held
latest_of (renew ∷ cs) key held = latest_of cs key held
latest_of (update_ttl i ∷ cs) key held = latest_of cs key held
latest_of (service_register r ∷ cs) key held = latest_of cs key held
latest_of (check_register i t ∷ cs) key held = latest_of cs key held
latest_of (service_deregister i ∷ cs) key held = latest_of cs key held
latest_of (check_deregister i ∷ cs) key held = latest_of cs key held

latest_of-no_put :
    (cs : List Call) (key : Bytes) (held : Answer) → no_put cs ≡ true → latest_of cs key held ≡ held
unfolding latest_of no_put is_put
latest_of-no_put [] key held h = refl
latest_of-no_put (put k value ∷ cs) key held h = cc
latest_of-no_put (create_session t ∷ cs) key held h = latest_of-no_put cs key held h
latest_of-no_put (renew ∷ cs) key held h = latest_of-no_put cs key held h
latest_of-no_put (update_ttl i ∷ cs) key held h = latest_of-no_put cs key held h
latest_of-no_put (service_register r ∷ cs) key held h = latest_of-no_put cs key held h
latest_of-no_put (check_register i t ∷ cs) key held h = latest_of-no_put cs key held h
latest_of-no_put (service_deregister i ∷ cs) key held h = latest_of-no_put cs key held h
latest_of-no_put (check_deregister i ∷ cs) key held h = latest_of-no_put cs key held h

latest_of-put :
    (before after : List Call) (key value : Bytes) (held : Answer)
    → no_put after ≡ true
    → latest_of (before ++ put key value ∷ after) key held ≡ pair value
unfolding latest_of
latest_of-put [] after key value held h =
    latest_of-no_put after key _ h
    ∙ ap (λ (t : Bool). if t then pair value else held) (bytes_eq_refl key)
latest_of-put (put k v ∷ before) after key value held h = latest_of-put before after key value _ h
latest_of-put (create_session t ∷ before) after key value held h =
    latest_of-put before after key value held h
latest_of-put (renew ∷ before) after key value held h = latest_of-put before after key value held h
latest_of-put (update_ttl i ∷ before) after key value held h =
    latest_of-put before after key value held h
latest_of-put (service_register r ∷ before) after key value held h =
    latest_of-put before after key value held h
latest_of-put (check_register i t ∷ before) after key value held h =
    latest_of-put before after key value held h
latest_of-put (service_deregister i ∷ before) after key value held h =
    latest_of-put before after key value held h
latest_of-put (check_deregister i ∷ before) after key value held h =
    latest_of-put before after key value held h

unfoldable latest_store : Store
latest_store = record {
  get = λ calls key. latest_of calls key missing;
  get-put = λ before after key value h. latest_of-put before after key value missing h;
}

unfoldable counting : Service
unfolding initial
counting = record (initial (text "10.0.0.2") 9996) { registered = true; connects = 300 }

get_connects-update_round_example :
    get_connects
      (latest_store.get (update_round counting).calls)
      (registration (text "db") counting).address
      (registration (text "db") counting).port
    ≡ ok 300
unfolding counting initial
get_connects-update_round_example =
    get_connects-update_round latest_store (text "db") counting (omega arith)

abbrev no_files : Disk
no_files path = none

token_parent : get_parent (text "/cache/token") ≡ ok (text "/cache")
unfolding get_parent forward_slashes last_index drop_last cut_at
token_parent = refl

get_key-stable_example :
    (key : Bytes) × (after : Disk) × (get_key true writes 1500
        (text "xyz")
        (text "/cache/token")
        no_files
      ≡ ok (key, after))
    × (after (text "/cache/token") ≡ some key)
    × (bytes_eq key [] ≡ false)
    × (get_key true not_opened 1600 (text "abc") (text "/cache/token") after ≡ ok (key, after))
get_key-stable_example =
    get_key-stable 1500 1600 (text "xyz") (text "abc") (text "/cache/token") (text "/cache")
      not_opened no_files token_parent
