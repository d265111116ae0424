-- ===== src/App/Replica.antt =====
-- A follower repeats the position of its leader: `PosChange` of `main` broadcasts each position that
-- the leader notes, and `OnPos` of `main` saves what is broadcast.
use wing_binlog_go.Prelude.{
  ℕ, ◌≤◌, ◌<◌, ◌^◌, ◌≡◌, refl, ap, sym, ◌∙◌, true, false, Option, List, [], ◌∷◌, ◌++◌, map, Outcome,
  ok, ◌>>=◌, >>=-eq-ok, ok-injective, Bytes, length, arith, All,
}
use mathlib.Core.List.{append_assoc, append-nil}
use wing_binlog_go.Wire.{pack}
use wing_binlog_go.Wire.RoundTrip.{unpack-pack}
use wing_binlog_go.Binlog.Position.{pack_pos, unpack_pos}
use wing_binlog_go.Binlog.Position.RoundTrip.{length-pack_pos}
use wing_binlog_go.Binlog.State.{Binlog, pos_changed, call_each}
use wing_binlog_go.Binlog.Cache.{
  on_pos_synced, save_binlog_position, save_binlog_position_cache, get_binlog_position_cache,
}
use wing_binlog_go.Binlog.Cache.Restart.{save_binlog_position-pack_pos}
use wing_binlog_go.Agent.{TcpService, cmd_pos, fire, on_client_message, sync}
use wing_binlog_go.App.{Parts, save_position, broadcast, broadcast_all}

-- What a node knows of the master's log: the file, the place in it and the number of the last event.
abbrev pub position : Binlog → Bytes × ℕ × ℕ
position h = (h.last_bin_file, h.last_pos, h.event_index)

-- A position that the canal reports: a uint32 in a file whose name fits the cache.
abbrev pub Reported : Bytes × ℕ → Type 0
Reported (file, pos) = (length file ≤ 494) × (pos < 2 ^ 32)

unfoldable pub sync_all : List (Bytes × ℕ) → Binlog → Binlog
sync_all [] h = h
sync_all ((file, pos) ∷ ps) h = sync_all ps (on_pos_synced file pos h)

-- A node that takes positions: not exiting, its cache open, and `blog.SaveBinlogPosition` set.
abbrev pub Takes : TcpService Parts → Type 0
Takes s =
    (s.on_pos ≡ save_position ∷ [])
    × (s.world.service.binlog.is_exit ≡ false)
    × (s.world.service.binlog.cache_opened ≡ true)

packet : ℕ → Bytes × ℕ → Bytes
packet index (file, pos) = pack_pos file pos index

save-kept :
    (r : Bytes) (h k : Binlog)
    → save_binlog_position r h ≡ ok k
    → (k.is_exit ≡ h.is_exit) × (k.cache_opened ≡ h.cache_opened)
unfolding save_binlog_position save_binlog_position_cache
save-kept r h k e =
    let ((file, pos, index), _, f) = >>=-eq-ok (unpack_pos r) _ k e in
    rw (sym (ok-injective f)) (ground arith)

position-on_pos_synced :
    (file : Bytes) (pos : ℕ) (h : Binlog)
    → position (on_pos_synced file pos h) ≡ (file, pos, h.event_index)
unfolding on_pos_synced save_binlog_position_cache
position-on_pos_synced file pos h = ground arith

event_index-on_pos_synced :
    (file : Bytes) (pos : ℕ) (h : Binlog) → (on_pos_synced file pos h).event_index ≡ h.event_index
event_index-on_pos_synced file pos h = ap (λ p. p.2) (position-on_pos_synced file pos h)

-- The position callback of `main` is called once for each position.
effects-on_pos_synced :
    (file : Bytes) (pos : ℕ) (h : Binlog)
    → h.is_exit ≡ false
    → h.on_pos_changes ≡ 1
    → ((on_pos_synced file pos h).effects
        ≡ h.effects ++ pos_changed 0 (pack_pos file pos h.event_index) ∷ [])
      × ((on_pos_synced file pos h).is_exit ≡ false)
      × ((on_pos_synced file pos h).on_pos_changes ≡ 1)
unfolding on_pos_synced save_binlog_position_cache call_each
effects-on_pos_synced file pos h live one = rw (live, one) (refl, refl, refl)

effects-sync_all :
    (ps : List (Bytes × ℕ)) (h : Binlog)
    → h.is_exit ≡ false
    → h.on_pos_changes ≡ 1
    → (sync_all ps h).effects ≡ h.effects ++ map (λ p. pos_changed 0 (packet h.event_index p)) ps
unfolding sync_all packet
effects-sync_all [] h live one = sym (append-nil h.effects)
effects-sync_all ((file, pos) ∷ ps) h live one =
    let (e, live', one') = effects-on_pos_synced file pos h live one in
    effects-sync_all ps (on_pos_synced file pos h) live' one'
    ∙ rw (e, event_index-on_pos_synced file pos h) (append_assoc h.effects _ _)

pub sync-enabled :
    (m : Bytes) (s : TcpService Parts)
    → s.enable ≡ true
    → sync m s ≡ record s { broadcasts = s.broadcasts ++ m ∷ [] }
unfolding sync
sync-enabled m s on = ground arith

broadcasts-positions :
    (index : ℕ) (ps : List (Bytes × ℕ)) (s : TcpService Parts)
    → s.enable ≡ true
    → (broadcast_all (map (λ p. pos_changed 0 (packet index p)) ps) s).broadcasts
      ≡ s.broadcasts ++ map (λ p. pack cmd_pos (packet index p)) ps
unfolding broadcast_all broadcast
broadcasts-positions index [] s on = sym (append-nil s.broadcasts)
broadcasts-positions index (p ∷ ps) s on =
    let m = pack cmd_pos (packet index p) in
    ap (λ t. (broadcast_all (map (λ p. pos_changed 0 (packet index p)) ps) t).broadcasts)
      (sync-enabled m s on)
    ∙ broadcasts-positions index ps (record s { broadcasts = s.broadcasts ++ m ∷ [] }) on
    ∙ append_assoc s.broadcasts (m ∷ []) _

module _ (unmarshal : Bytes → Option (Option Bytes × Option Bytes)) where
  -- What a follower does with the packets of its leader, in their order; the TCP package hands each
  -- broadcast over whole.
  unfoldable pub follow : List Bytes → TcpService Parts → Outcome (TcpService Parts)
  unfolding on_client_message
  follow [] s = ok s
  follow (m ∷ ms) s = on_client_message unmarshal m s >>= λ t. follow ms t

  follow-one :
      (file : Bytes) (pos index : ℕ) (s : TcpService Parts)
      → Takes s
      → length file ≤ 494
      → pos < 2 ^ 32
      → index < 2 ^ 64
      → (t : TcpService Parts) × (on_client_message unmarshal
            (pack cmd_pos (pack_pos file pos index))
            s
          ≡ ok t)
        × Takes t
        × (position t.world.service.binlog ≡ (file, pos, index))
        × (get_binlog_position_cache t.world.service.binlog ≡ ok (file, pos, index))
  unfolding on_client_message fire save_position
  follow-one file pos index s (told, live, opened) hf hp hi =
      let h = s.world.service.binlog in
      let r = pack_pos file pos index in
      let (k, saved, kf, kp, ki, cached) =
        save_binlog_position-pack_pos file pos index h live opened hf hp hi in
      let (ke, ko) = save-kept r h k saved in
      let read =
        rw append-nil at (
          unpack-pack cmd_pos r [] (omega arith) (omega (arith, length-pack_pos file pos index))) in
      (
        record s { world = record s.world { service = record s.world.service { binlog = k } } },
        rw (read, told, saved) refl,
        (told, ke ∙ live, ko ∙ opened),
        rw (kf, kp, ki) refl,
        cached,
      )

  follow-packets :
      (ps : List (Bytes × ℕ)) (h : Binlog) (s : TcpService Parts)
      → All Reported ps
      → h.event_index < 2 ^ 64
      → Takes s
      → position s.world.service.binlog ≡ position h
      → (t : TcpService Parts) × (follow (map (λ p. pack cmd_pos (packet h.event_index p)) ps) s
          ≡ ok t)
        × Takes t
        × (position t.world.service.binlog ≡ position (sync_all ps h))
  unfolding follow packet sync_all
  follow-packets [] h s fit hi takes same = (s, refl, takes, same)
  follow-packets ((file, pos) ∷ ps) h s ((hf, hp), fit) hi takes same =
      let (t, taken, takes', there, _) = follow-one file pos h.event_index s takes hf hp hi in
      let next = on_pos_synced file pos h in
      let (u, rest, takes'', end) =
        follow-packets ps next t fit (rw (event_index-on_pos_synced file pos h) hi) takes'
          (there ∙ sym (position-on_pos_synced file pos h)) in
      let kept = event_index-on_pos_synced file pos h in
      let sent = ap (λ index. follow (map (λ p. pack cmd_pos (packet index p)) ps) t) (sym kept) in
      (u, rw taken (sent ∙ rest), takes'', end)

  -- A follower that starts at its leader's position and takes each packet of it, in their order, never
  -- panics and is at the leader's position again, file, place and event index, whatever positions the
  -- leader has noted since. Both nodes are in a cluster, the leader is not exiting and calls back
  -- once, and the positions are uint32s in files of at most 494 bytes.
  pub follow-sync_all :
      (ps : List (Bytes × ℕ)) (h : Binlog) (leader follower : TcpService Parts)
      → h.is_exit ≡ false
      → h.on_pos_changes ≡ 1
      → h.effects ≡ []
      → h.event_index < 2 ^ 64
      → leader.enable ≡ true
      → leader.broadcasts ≡ []
      → All Reported ps
      → Takes follower
      → position follower.world.service.binlog ≡ position h
      → (t : TcpService Parts) × (follow
            (broadcast_all (sync_all ps h).effects leader).broadcasts
            follower
          ≡ ok t)
        × Takes t
        × (position t.world.service.binlog ≡ position (sync_all ps h))
  follow-sync_all ps h leader follower live one fresh hi on quiet fit takes same =
      let called =
        effects-sync_all ps h live one
        ∙ ap (λ es. es ++ map (λ p. pos_changed 0 (packet h.event_index p)) ps) fresh in
      let sent =
        broadcasts-positions h.event_index ps leader on
        ∙ ap (λ bs. bs ++ map (λ p. pack cmd_pos (packet h.event_index p)) ps) quiet in
      rw (called, sent) (follow-packets ps h follower fit hi takes same)
