-- ===== src/Examples/Client.antt =====
-- The client of src/library/client.
use wing_binlog_go.Prelude.{
  ◌⊎◌, ℕ, ◌+◌, ◌%◌, ◌^◌, ◌≡◌, refl, Bool, true, false, none, some, List, [], ◌∷◌, ◌++◌, All, ok,
  Bytes, text, length, take, drop, arith,
}
use mathlib.Core.List.{Memᴰ}
use wing_binlog_go.Wire.{pack, read_length}
use wing_binlog_go.Stream.Chunks.{concat}
use wing_binlog_go.Client
use wing_binlog_go.Client.{
  Client, set_pro, cmd_set_pro, cmd_event, new_client, connect, dialled, Conn, Node, subscribe,
  has_cmd,
}
use wing_binlog_go.Client.Messages.{call_each}
use wing_binlog_go.Client.Pack.{read_length-client_pack}
use wing_binlog_go.Client.Frames.{
  Frame, stream, event_count, calls, on_messages, on_messages-events,
}
use wing_binlog_go.Client.Life.{IsSound, IsWell, connect-registers}
use wing_binlog_go.Client.Servers.{ServerNode, refresh, get_server, AtLeast, get_server-least}
use wing_binlog_go.Client.Watch.{ServiceEntry, Services}

read_length-client_pack_example :
    read_length (Client.pack 3 [] ++ text "next") ≡ ok ((length (text "") + 2) % 2 ^ 24)
read_length-client_pack_example = read_length-client_pack 3 [] (text "next") (omega arith)

abbrev event_and_tick : List Frame
event_and_tick =
    record { cmd = cmd_event; content = text "row" } ∷ record { cmd = 3; content = text "ok" } ∷ []

unfoldable two_frames : Bytes
two_frames = stream event_and_tick

unfoldable two_chunks : List Bytes
two_chunks = take 7 two_frames ∷ drop 7 two_frames ∷ []

two_chunks-concat : concat two_chunks ≡ stream event_and_tick
unfolding two_chunks two_frames stream concat pack
two_chunks-concat = refl

on_messages-events_example :
    on_messages (λ b. b) two_chunks (new_client 1)
    ≡ ok (record (new_client 1) { buffer = []; times = 1; delivered = (0, text "row") ∷ [] })
unfolding new_client has_cmd event_count calls call_each
on_messages-events_example =
    on_messages-events (λ b. b) two_chunks event_and_tick (new_client 1)
      ((refl, omega arith), ((refl, omega arith), tt)) refl two_chunks-concat

unfoldable online_client : Client Bytes
unfolding new_client
online_client = record (new_client 1) {
  node = some (record {
    conn = some (record { is_closed = false; sent = [] });
    node_offline = false;
    node_online = true;
  });
  client_offline = false;
  client_online = true;
  topics = text "test.user" ∷ text "test.order" ∷ [];
}

connect-registers_example :
    connect dialled online_client
    ≡ ok (record online_client {
      node = some (record {
        conn = some (record {
          is_closed = false;
          sent = set_pro (text "test.user") ∷ set_pro (text "test.order") ∷ [];
        });
        node_offline = false;
        node_online = true;
      });
    })
unfolding online_client IsWell IsSound new_client
connect-registers_example = connect-registers online_client (refl, (refl, refl))

abbrev server : Bool → Bytes → ServerNode
server offline host = record { offline = offline; host = host; port = 9998; connects = 0 }

abbrev three_servers : List ServerNode
three_servers = server true (text "a") ∷ server false (text "bcd") ∷ server false (text "ef") ∷ []

abbrev by_length : Bytes → ℕ → ℕ
by_length host port = length host

-- The servers in another order, and what the counter answered before.
abbrev servers_again : List ServerNode
servers_again = server false (text "ef") ∷ server true (text "a") ∷ server false (text "bcd") ∷ []

abbrev once_more : Bytes → ℕ → ℕ
once_more host port = length host + 1

same_servers : (s : ServerNode) → Memᴰ s three_servers → Memᴰ s servers_again
same_servers s (Memᴰ.head e) = Memᴰ.tail (Memᴰ.head e)
same_servers s (Memᴰ.tail (Memᴰ.head e)) = Memᴰ.tail (Memᴰ.tail (Memᴰ.head e))
same_servers s (Memᴰ.tail (Memᴰ.tail (Memᴰ.head e))) = Memᴰ.head e
same_servers s (Memᴰ.tail (Memᴰ.tail (Memᴰ.tail m))) = elim m [ ]

get_server-least_example :
    (((get_server once_more by_length three_servers servers_again).0 ≡ none)
      × All (λ s. s.offline ≡ true) three_servers)
    ⊎ ((s : ServerNode) × Memᴰ s servers_again
        × (s.offline ≡ false)
        × ((get_server once_more by_length three_servers servers_again).0
            ≡ some (refresh by_length s))
        × All (AtLeast once_more by_length (refresh by_length s).connects) servers_again)
get_server-least_example =
    get_server-least once_more by_length three_servers servers_again same_servers
      (λ host port. omega arith)

least_test :
    (get_server once_more by_length three_servers servers_again).0
    ≡ some (record (server false (text "ef")) { connects = 2 })
unfolding get_server
least_test = refl

abbrev entry : Bytes → Bytes → ServiceEntry
entry id address = record { id = id; address = address; port = 9998 }

abbrev known_entries : List ServiceEntry
known_entries = entry (text "1") (text "a") ∷ entry (text "2") (text "b") ∷ []

abbrev new_entries : List ServiceEntry
new_entries = entry (text "2") (text "b") ∷ entry (text "3") (text "c") ∷ []

abbrev known_services : Services
known_services =
    (text "a:9998", server false (text "a")) ∷ (text "b:9998", server false (text "b")) ∷ []
