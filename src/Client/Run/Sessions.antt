-- ===== src/Client/Run/Sessions.antt =====
-- What a client reads over several connections.
use wing_binlog_go.Prelude.{
  ◌≡◌, refl, ap, sym, ◌∙◌, Bool, true, false, Option, some, List, [], ◌∷◌, ◌++◌, map, Outcome, ok,
  panic, spins, no_fuel, ◌>>=◌, Bytes, ℕ, zero, suc, if◌then◌else◌, arith, length,
}
use mathlib.Core.List.{append-nil}
use wing_binlog_go.Stream.{Round, stop, again, drain}
use wing_binlog_go.Client.{Client, Node, Dial, dialled, disconnect, set_pro}
use wing_binlog_go.Client.Messages.{on_message, round}
use wing_binlog_go.Client.Frames.{on_messages}
use wing_binlog_go.Client.Life.{IsWell, IsSound, connect-registers}
use wing_binlog_go.Client.Run.{
  Read, arrives, fails, Left, returned, unconnected, waits, read_loop, visit, start, is_unconnected,
  goes_on,
}

-- A node after its connection broke, with what was written to it.
abbrev pub cut_node : List Bytes → Node
cut_node sent = record {
  conn = some (record { is_closed = true; sent = sent });
  node_offline = true;
  node_online = false;
}

abbrev pub open_node : List Bytes → Node
open_node sent = record {
  conn = some (record { is_closed = false; sent = sent });
  node_offline = false;
  node_online = true;
}

-- A connection that brings the chunks and then breaks.
abbrev pub session : List Bytes → Dial × List Read
session ms = (dialled, map arrives ms ++ fails ∷ [])

abbrev pub flat : List (List Bytes) → List Bytes
flat [] = []
flat (ms ∷ ss) = ms ++ flat ss

pub bind_assoc :
    {A B C : Type 0} (o : Outcome A) (f : A → Outcome B) (g : B → Outcome C)
    → ((o >>= f) >>= g) ≡ (o >>= λ a. f a >>= g)
bind_assoc (ok a) f g = refl
bind_assoc panic f g = refl
bind_assoc spins f g = refl
bind_assoc no_fuel f g = refl

pub bind_ext :
    {A B : Type 0} (o : Outcome A) (f g : A → Outcome B)
    → ((a : A) → f a ≡ g a)
    → (o >>= f) ≡ (o >>= g)
bind_ext (ok a) f g h = h a
bind_ext panic f g h = refl
bind_ext spins f g h = refl
bind_ext no_fuel f g h = refl

module _ {D : Type 0} where
  -- The client with another node, status and list of topics.
  abbrev pub relink : Option Node → Bool → Bool → List Bytes → Client D → Client D
  relink n off on ts c = record c {
    node = n;
    client_offline = off;
    client_online = on;
    topics = ts;
  }

  abbrev relinked : Option Node → Bool → Bool → List Bytes → Round (Client D) → Round (Client D)
  relinked n off on ts (stop d) = stop (relink n off on ts d)
  relinked n off on ts (again d) = again (relink n off on ts d)

module _ {D : Type 0} (unmarshal : Bytes → D) (n : Option Node) (off on : Bool)
    (ts : List Bytes) where
  round-relink :
      (c : Client D)
      → round unmarshal (relink n off on ts c)
        ≡ (round unmarshal c >>= λ r. ok (relinked n off on ts r))
  unfolding round
  round-relink c = ground arith

  go_on : ℕ → Round (Client D) → Outcome (Client D)
  go_on fuel r = elim r [ stop t ↦ ok t | again t ↦ drain (round unmarshal) fuel t ]

  go_on-relinked :
      (fuel : ℕ)
      → ((t : Client D)
          → drain (round unmarshal) fuel (relink n off on ts t)
            ≡ (drain (round unmarshal) fuel t >>= λ d. ok (relink n off on ts d)))
      → (r : Round (Client D))
      → go_on fuel (relinked n off on ts r) ≡ (go_on fuel r >>= λ d. ok (relink n off on ts d))
  unfolding go_on
  go_on-relinked fuel rec (stop t) = refl
  go_on-relinked fuel rec (again t) = rec t

  drain-relink :
      (fuel : ℕ) (c : Client D)
      → drain (round unmarshal) fuel (relink n off on ts c)
        ≡ (drain (round unmarshal) fuel c >>= λ d. ok (relink n off on ts d))
  unfolding drain go_on
  drain-relink zero c = refl
  drain-relink (suc fuel) c =
      ap (λ o. o >>= go_on fuel) (round-relink c)
      ∙ bind_assoc (round unmarshal c) (λ r. ok (relinked n off on ts r)) (go_on fuel)
      ∙ bind_ext (round unmarshal c) _ _ (go_on-relinked fuel (drain-relink fuel))
      ∙ sym (bind_assoc (round unmarshal c) (go_on fuel) (λ d. ok (relink n off on ts d)))

  pub on_message-relink :
      (m : Bytes) (c : Client D)
      → on_message unmarshal m (relink n off on ts c)
        ≡ (on_message unmarshal m c >>= λ d. ok (relink n off on ts d))
  unfolding on_message
  on_message-relink m c =
      drain-relink (suc (length (c.buffer ++ m))) (record c { buffer = c.buffer ++ m })

module _ {D : Type 0} (unmarshal : Bytes → D) where
  pub on_messages-append :
      (xs ys : List Bytes) (c : Client D)
      → on_messages unmarshal (xs ++ ys) c
        ≡ (on_messages unmarshal xs c >>= on_messages unmarshal ys)
  unfolding on_messages
  on_messages-append [] ys c = refl
  on_messages-append (x ∷ xs) ys c =
      bind_ext (on_message unmarshal x c) _ _ (on_messages-append xs ys)
      ∙ sym (
          bind_assoc (on_message unmarshal x c) (on_messages unmarshal xs)
            (on_messages unmarshal ys))

  -- The reads of an online connection that brings the chunks first.
  read_loop-arrives :
      (ms : List Bytes) (rs : List Read) (sent ts : List Bytes) (c : Client D)
      → read_loop unmarshal (map arrives ms ++ rs) (relink (some (open_node sent)) false true ts c)
        ≡ (on_messages unmarshal ms c >>= λ d.
            read_loop unmarshal rs (relink (some (open_node sent)) false true ts d))
  unfolding read_loop on_messages
  read_loop-arrives [] rs sent ts c = refl
  read_loop-arrives (m ∷ ms) rs sent ts c =
      ap (λ o. o >>= read_loop unmarshal (map arrives ms ++ rs))
        (on_message-relink unmarshal (some (open_node sent)) false true ts m c)
      ∙ bind_assoc (on_message unmarshal m c) _ _
      ∙ bind_ext (on_message unmarshal m c) _ _ (read_loop-arrives ms rs sent ts)
      ∙ sym (bind_assoc (on_message unmarshal m c) (on_messages unmarshal ms) _)

  pub visit-arrives :
      (ms : List Bytes) (rs : List Read) (c : Client D)
      → IsWell c
      → visit unmarshal (dialled, map arrives ms ++ rs) c ≡ (
          on_messages unmarshal ms c >>= λ d.
          read_loop unmarshal rs
            (relink (some (open_node (map set_pro c.topics))) false true c.topics d))
  unfolding visit
  visit-arrives ms rs c w =
      ap
        (λ o. o >>= λ d.
          if is_unconnected d
          then ok (unconnected, d)
          else if d.client_offline
          then ok (returned, d)
          else read_loop unmarshal (map arrives ms ++ rs) d)
        (connect-registers c w)
      ∙ read_loop-arrives ms rs (map set_pro c.topics) c.topics c

  on_messages-relink :
      (n : Option Node) (off on : Bool) (ts : List Bytes) (ms : List Bytes) (c : Client D)
      → on_messages unmarshal ms (relink n off on ts c)
        ≡ (on_messages unmarshal ms c >>= λ d. ok (relink n off on ts d))
  unfolding on_messages
  on_messages-relink n off on ts [] c = refl
  on_messages-relink n off on ts (m ∷ ms) c =
      ap (λ o. o >>= on_messages unmarshal ms) (on_message-relink unmarshal n off on ts m c)
      ∙ bind_assoc (on_message unmarshal m c) _ _
      ∙ bind_ext (on_message unmarshal m c) _ _ (on_messages-relink n off on ts ms)
      ∙ sym (bind_assoc (on_message unmarshal m c) (on_messages unmarshal ms) _)

  -- The same, from any node and status that is sound.
  pub visit-relinked :
      (ms : List Bytes) (rs : List Read) (n : Option Node) (off on : Bool) (ts : List Bytes)
      (c : Client D)
      → IsWell (relink n off on ts c)
      → visit unmarshal (dialled, map arrives ms ++ rs) (relink n off on ts c) ≡ (
          on_messages unmarshal ms c >>= λ d.
          read_loop unmarshal rs (relink (some (open_node (map set_pro ts))) false true ts d))
  visit-relinked ms rs n off on ts c w =
      visit-arrives ms rs (relink n off on ts c) w
      ∙ ap
          (λ o. o >>= λ d.
            read_loop unmarshal rs (relink (some (open_node (map set_pro ts))) false true ts d))
          (on_messages-relink n off on ts ms c)
      ∙ bind_assoc (on_messages unmarshal ms c) _ _

  abbrev pub carry_on : List (Dial × List Read) → Left × Client D → Outcome (Left × Client D)
  carry_on vs (l, d) = if goes_on l then start unmarshal vs d else ok (l, d)

  -- The connections one after the other, from any node and status that is sound.
  start-relinked :
      (ms : List Bytes) (ss : List (List Bytes)) (n : Option Node) (off on : Bool) (ts : List Bytes)
      (c : Client D)
      → IsWell (relink n off on ts c)
      → start unmarshal (map session (ms ∷ ss)) (relink n off on ts c) ≡ (
          on_messages unmarshal (flat (ms ∷ ss)) c >>= λ d.
          ok (waits, relink (some (cut_node (map set_pro ts))) false true ts d))
  unfolding start goes_on IsWell IsSound read_loop disconnect
  start-relinked ms [] n off on ts c w =
      ap (λ o. o >>= carry_on []) (visit-relinked ms (fails ∷ []) n off on ts c w)
      ∙ bind_assoc (on_messages unmarshal ms c) _ _
      ∙ ap
          (λ xs. on_messages unmarshal xs c >>= λ d.
            ok (waits, relink (some (cut_node (map set_pro ts))) false true ts d))
          (sym (append-nil ms))
  start-relinked ms (k ∷ ss) n off on ts c w =
      ap (λ o. o >>= carry_on (map session (k ∷ ss)))
        (visit-relinked ms (fails ∷ []) n off on ts c w)
      ∙ bind_assoc (on_messages unmarshal ms c) _ _
      ∙ bind_ext (on_messages unmarshal ms c) _ _ (λ d.
        start-relinked k ss (some (cut_node (map set_pro ts))) false true ts d (refl, (refl, refl)))
      ∙ sym (bind_assoc (on_messages unmarshal ms c) (on_messages unmarshal (flat (k ∷ ss))) _)
      ∙ ap (λ o. o >>= λ d. ok (waits, relink (some (cut_node (map set_pro ts))) false true ts d))
          (sym (on_messages-append ms (flat (k ∷ ss)) c))

  -- A client whose connections break one after the other reads their bytes as if one connection had
  -- brought them all: what a broken one left in the buffer is the start of what the next one brings. It
  -- registers its topics on each, panics only if that one connection makes it panic, and then asks for
  -- a server again. The client is sound, and each server answers the dial.
  pub start-one_connection :
      (ms : List Bytes) (ss : List (List Bytes)) (c : Client D)
      → IsWell c
      → start unmarshal (map session (ms ∷ ss)) c ≡ (
          on_messages unmarshal (flat (ms ∷ ss)) c >>= λ d. ok (
            waits,
            record d {
              node = some (cut_node (map set_pro c.topics));
              client_offline = false;
              client_online = true;
              topics = c.topics;
            },
          ))
  start-one_connection ms ss c w =
      start-relinked ms ss c.node c.client_offline c.client_online c.topics c w
