-- ===== src/Examples/Workers.antt =====
-- The HTTP service from `Start` to the end of `Close`, with one node and one processor: one of the
-- three goroutines posts the row, the others never begin.
use wing_binlog_go.Prelude.{◌≡◌, refl, true, false, [], ◌∷◌, Bytes, text}
use wing_binlog_go.Plugins.Http.{HttpService, new_http_node}
use wing_binlog_go.Plugins.Http.Workers.{Pool, send_service, start, start_groups, start_nodes}

abbrev row : Bytes
row = text "row"

abbrev url : Bytes
url = text "http://a"

abbrev one_node : HttpService
one_node = record {
  enabled = true;
  has_lock = true;
  groups = record { name = text "all"; filter = []; nodes = new_http_node url ∷ [] } ∷ [];
}

abbrev fresh : Pool
fresh = record {
  node = record { url = url; send_queue = []; posted = [] };
  spawned = 3;
  idle = 0;
  busy = [];
  left = 0;
  is_done = false;
}

abbrev posted_row : Pool
posted_row = record {
  node = record { url = url; send_queue = []; posted = row ∷ [] };
  spawned = 2;
  idle = 0;
  busy = [];
  left = 1;
  is_done = true;
}

started : start 1 one_node ≡ fresh ∷ []
unfolding start start_groups start_nodes send_service new_http_node
started = refl
