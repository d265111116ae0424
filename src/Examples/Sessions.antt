-- ===== src/Examples/Sessions.antt =====
-- Connections of the client, one after the other, and what consul tells it.
use wing_binlog_go.Prelude.{
  ◌≡◌, refl, true, false, none, some, List, [], ◌∷◌, ◌++◌, map, ok, ◌>>=◌, Bytes, text, decimal,
  take, drop,
}
use wing_binlog_go.Wire.{pack}
use wing_binlog_go.Client.{Client, cmd_event, new_client, set_pro, dialled}
use wing_binlog_go.Client.Frames.{on_messages}
use wing_binlog_go.Client.Life.{IsWell}
use wing_binlog_go.Client.Run.{arrives, closed_waiting, waits, start}
use wing_binlog_go.Client.Run.Sessions.{session, flat, cut_node, open_node, start-one_connection}
use wing_binlog_go.Client.Run.Closed.{start-closed_waiting}
use wing_binlog_go.Client.Watch.{ServiceEntry, server_key, has_server, has_key}
use wing_binlog_go.Client.Watch.Mirror.{
  Answer, query_fails, entries, new_watch, process, last_entries, has_server-process,
}

unfoldable fresh : Client Bytes
unfolding new_client
fresh = record (new_client 1) { topics = text "test.user" ∷ [] }

unfoldable frame : Bytes
frame = pack cmd_event (text "row")

abbrev front : Bytes
front = take 7 frame

abbrev back : Bytes
back = drop 7 frame

start-one_connection_example :
    start (λ b. b) (map session ((front ∷ []) ∷ (back ∷ frame ∷ []) ∷ [])) fresh ≡ (
      on_messages (λ b. b) (flat ((front ∷ []) ∷ (back ∷ frame ∷ []) ∷ [])) fresh >>= λ d. ok (
        waits,
        record d {
          node = some (cut_node (map set_pro fresh.topics));
          client_offline = false;
          client_online = true;
          topics = fresh.topics;
        },
      ))
unfolding IsWell fresh new_client
start-one_connection_example =
    start-one_connection (λ b. b) (front ∷ []) ((back ∷ frame ∷ []) ∷ []) fresh (refl, refl)

start-closed_waiting_example :
    start
      (λ b. b)
      ((dialled, map arrives (frame ∷ []) ++ closed_waiting ∷ [])
        ∷ (dialled, map arrives (frame ∷ []) ++ [])
        ∷ [])
      fresh
    ≡ (on_messages (λ b. b) (frame ∷ frame ∷ []) fresh >>= λ d. ok (
      waits,
      record d {
        node = some (open_node (map set_pro fresh.topics));
        client_offline = false;
        client_online = true;
        topics = fresh.topics;
      },
    ))
unfolding IsWell fresh new_client
start-closed_waiting_example =
    start-closed_waiting (λ b. b) (frame ∷ []) (frame ∷ []) [] fresh (refl, refl)

abbrev entry : Bytes → Bytes → ServiceEntry
entry id address = record { id = id; address = address; port = 9998 }

-- An id and the key of its entry, and back.
abbrev key_of : Bytes → Bytes
key_of id = id ++ text ":9998"

abbrev id_of : Bytes → Bytes
id_of key = take 1 key

abbrev answers : List Answer
answers =
    entries (some (entry (text "a") (text "a") ∷ entry (text "b") (text "b") ∷ [])) 1
    ∷ query_fails
    ∷ entries (some (entry (text "b") (text "b") ∷ entry (text "c") (text "c") ∷ [])) 2
    ∷ entries none 3
    ∷ entries (some (entry (text "c") (text "c") ∷ [])) 4
    ∷ []

has_server-process_example :
    has_server (text "c:9998") (process answers (new_watch, [])).1
    ≡ has_key (text "c:9998") (last_entries [] answers)
unfolding server_key has_server has_key decimal
has_server-process_example =
    has_server-process key_of id_of (text "c:9998") answers new_watch [] tt
      (
        ((refl, refl), ((refl, refl), tt)),
        (tt, (((refl, refl), ((refl, refl), tt)), (tt, (((refl, refl), tt), tt)))),
      )
      refl
