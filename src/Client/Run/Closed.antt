-- ===== src/Client/Run/Closed.antt =====
-- What a `Close` of the caller does to the goroutine of `start`.
use wing_binlog_go.Prelude.{
  ◌≡◌, refl, ap, sym, ◌∙◌, true, false, some, List, [], ◌∷◌, ◌++◌, map, ok, ◌>>=◌, Bytes,
}
use wing_binlog_go.Client.{Client, dialled, disconnect, close, set_pro}
use wing_binlog_go.Client.Frames.{on_messages}
use wing_binlog_go.Client.Life.{IsWell, IsSound}
use wing_binlog_go.Client.Run.{Read, arrives, closed_waiting, waits, read_loop, start, goes_on}
use wing_binlog_go.Client.Run.Sessions.{
  cut_node, open_node, relink, carry_on, bind_assoc, bind_ext, on_messages-append, visit-arrives,
  visit-relinked,
}

module _ {D : Type 0} (unmarshal : Bytes → D) where
  -- A `Close` that comes while the client waits in a read, and that has set the status before the
  -- goroutine of the client goes on, does not end it: the read fails, the client dials the next server,
  -- registers its topics again, is online, and goes on calling its callbacks with what that server
  -- sends. The client is sound and the server answers the dial.
  pub start-closed_waiting :
      (ms ks : List Bytes) (rs : List Read) (c : Client D)
      → IsWell c
      → start unmarshal
          ((dialled, map arrives ms ++ closed_waiting ∷ rs) ∷ (dialled, map arrives ks ++ []) ∷ [])
          c
        ≡ (on_messages unmarshal (ms ++ ks) c >>= λ d. ok (
          waits,
          record d {
            node = some (open_node (map set_pro c.topics));
            client_offline = false;
            client_online = true;
            topics = c.topics;
          },
        ))
  unfolding start goes_on IsWell IsSound read_loop disconnect close
  start-closed_waiting ms ks rs c w =
      let sent = map set_pro c.topics in
      ap (λ o. o >>= carry_on unmarshal ((dialled, map arrives ks ++ []) ∷ []))
        (visit-arrives unmarshal ms (closed_waiting ∷ rs) c w)
      ∙ bind_assoc (on_messages unmarshal ms c) _ _
      ∙ bind_ext (on_messages unmarshal ms c) _ _ (λ d.
        ap (λ o. o >>= carry_on unmarshal [])
          (visit-relinked unmarshal ks [] (some (cut_node sent)) true false c.topics d
            (refl, (refl, refl)))
        ∙ bind_assoc (on_messages unmarshal ks d) _ _)
      ∙ sym (bind_assoc (on_messages unmarshal ms c) (on_messages unmarshal ks) _)
      ∙ ap (λ o. o >>= λ d. ok (waits, relink (some (open_node sent)) false true c.topics d))
          (sym (on_messages-append unmarshal ms ks c))
