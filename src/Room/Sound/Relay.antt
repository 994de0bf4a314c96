-- ===== src/Room/Sound/Relay.antt =====
-- Relayed frames, and the liveness probe, keep the invariant.
use pairfob.Prelude.{
  ℕ, ◌+◌, ◌-◌, ◌≡◌, refl, String, not, ◌&&◌, ◌||◌, some, List, arith, ◌==◌, if_rule, option_rule,
  length, take, drop,
}
use pairfob.Attachment.{Attachment, is_pairing}
use pairfob.Hex.{bytes_to_hex}
use pairfob.Store.{pair_confirm_30s}
use pairfob.Envelope.{Frame, header_size}
use pairfob.Constants.{pair_confirm_ms}
use pairfob.Room.{Room, Env, att, write_att, is_daemon_socket}
use pairfob.Room.Traffic.{note_fwd, find_by_route, route_bytes}
use pairfob.Room.Alarms.{advance_pair_frames, schedule}
use pairfob.Room.Fwd.{
  same_daemon, still_pairing, forward_wire, advance_and_forward, is_bound, relay_client,
  fwd_wire_from_client, send_throws, relay_daemon, fwd_wire_from_daemon, hello_overdue,
  resume_overdue, answer_ping, handle_ping, handle_pong,
}
use pairfob.Room.Sound.Steps.{
  IsSafe, sockets-IsSafe, send-IsSafe, write_same-IsSafe, note_fwd-IsSafe, safe_rules,
}
use pairfob.Room.Sound.Upkeep.{schedule-IsSafe}
use pairfob.Room.Sound.Upkeep.{Others}

forward_wire-IsSafe :
    (d : ℕ) (rid bytes : List ℕ) (r : Room) → IsSafe r → IsSafe (forward_wire d rid bytes r)
unfolding forward_wire
forward_wire-IsSafe d rid bytes r v = send-IsSafe d _ r v

relay_daemon-IsSafe :
    (client : ℕ) (bytes : List ℕ) (r : Room) → IsSafe r → IsSafe (relay_daemon client bytes r)
relay_daemon-IsSafe client bytes r v =
    let noted = note_fwd (length bytes - header_size) r in
    let safe_noted : IsSafe noted = note_fwd-IsSafe (length bytes - header_size) r v in
    if_rule IsSafe (send_throws noted client) _ _ (λ _. search (safe_rules, safe_noted))
      λ _. send-IsSafe client _ noted safe_noted

pub fwd_wire_from_daemon-IsSafe :
    (ws : ℕ) (bytes : List ℕ) (r : Room) → IsSafe r → IsSafe (fwd_wire_from_daemon ws bytes r)
unfolding fwd_wire_from_daemon
fwd_wire_from_daemon-IsSafe ws bytes r v =
    if_rule IsSafe (not (is_daemon_socket r ws)) _ _ (λ _. v)
      λ _.
        option_rule IsSafe (find_by_route r (bytes_to_hex (take 16 (drop 8 bytes)))) _ _ (λ _. v)
          λ client _. relay_daemon-IsSafe client bytes r v

answer_ping-IsSafe :
    (ws : ℕ) (frame : Frame) (r : Room) → IsSafe r → IsSafe (answer_ping ws frame r)
answer_ping-IsSafe ws frame r v =
    if_rule IsSafe (length frame.payload == 8) _ _ (λ _. search safe_rules) λ _. search safe_rules

pub handle_ping-IsSafe :
    (ws : ℕ) (frame : Frame) (r : Room) → IsSafe r → IsSafe (handle_ping ws frame r)
unfolding handle_ping
handle_ping-IsSafe ws frame r v =
    option_rule IsSafe (att r ws) _ _ (λ _. answer_ping-IsSafe ws frame r v)
      λ a _.
        if_rule IsSafe (hello_overdue r.clock a) _ _ (λ _. search safe_rules)
          λ _.
            if_rule IsSafe (resume_overdue r.clock a) _ _ (λ _. search safe_rules)
              λ _. answer_ping-IsSafe ws frame r v

pub handle_pong-IsSafe :
    (ws : ℕ) (frame : Frame) (r : Room) → IsSafe r → IsSafe (handle_pong ws frame r)
unfolding handle_pong
handle_pong-IsSafe ws frame r v =
    if_rule IsSafe (length frame.payload == 8) _ _ (λ _. v) λ _. search safe_rules

module _ (env : Env) (keeps : Others env) where
  advance_pair_frames-IsSafe :
      (rid : String) (frames deadline : ℕ) (r : Room)
      → IsSafe r
      → IsSafe (advance_pair_frames env rid frames deadline r)
  unfolding advance_pair_frames schedule
  advance_pair_frames-IsSafe rid frames deadline r v =
      let armed = schedule pair_confirm_30s rid (r.clock + pair_confirm_ms) r in
      let safe_armed : IsSafe (env.others armed) =
        keeps armed (schedule-IsSafe pair_confirm_30s rid _ r v) in
      if_rule IsSafe (frames == 1) _ _ (λ _. sockets-IsSafe refl safe_armed)
        λ _. if_rule IsSafe (frames == 2) _ _ (λ _. sockets-IsSafe refl v) λ _. v

  advance_and_forward-IsSafe :
      (ws daemon : ℕ) (rid : String) (frames deadline : ℕ) (route bytes : List ℕ) (r : Room)
      → IsSafe r
      → IsSafe (advance_and_forward env ws daemon rid frames deadline route bytes r)
  unfolding advance_and_forward
  advance_and_forward-IsSafe ws daemon rid frames deadline route bytes r v =
      let advanced = env.others (advance_pair_frames env rid frames deadline r) in
      let w : IsSafe advanced =
        keeps (advance_pair_frames env rid frames deadline r)
          (advance_pair_frames-IsSafe rid frames deadline r v) in
      if_rule IsSafe (same_daemon daemon advanced.daemon && still_pairing rid (att advanced ws)) _ _
        (λ _. forward_wire-IsSafe daemon route bytes advanced w) λ _. w

  relay_client-IsSafe :
      (ws : ℕ) (a : Attachment) (daemon : ℕ) (bytes : List ℕ) (r : Room)
      → att r ws ≡ some a
      → IsSafe r
      → IsSafe (relay_client env ws a daemon bytes r)
  unfolding note_fwd att
  relay_client-IsSafe ws a daemon bytes r e v =
      let rid = route_bytes r a.route_id in
      let noted = note_fwd (length bytes - header_size) r in
      let safe_noted : IsSafe noted = note_fwd-IsSafe (length bytes - header_size) r v in
      let frames = a.pair_frames + 1 in
      let b = record a { pair_frames = frames } in
      let same : att noted ws ≡ some a = ground arith in
      let counted : IsSafe (write_att ws b noted) =
        write_same-IsSafe ws a b noted same refl refl refl refl safe_noted in
      if_rule IsSafe (is_pairing a.kind) _ _
        (λ _.
          if_rule IsSafe (frames == 1 || frames == 2) _ _
            (λ _.
              advance_and_forward-IsSafe ws daemon a.route_id frames _ rid bytes
                (write_att ws b noted) counted)
            λ _. forward_wire-IsSafe daemon rid bytes (write_att ws b noted) counted)
        λ _. forward_wire-IsSafe daemon rid bytes noted safe_noted

  pub fwd_wire_from_client-IsSafe :
      (ws : ℕ) (a : Attachment) (bytes : List ℕ) (r : Room)
      → att r ws ≡ some a
      → IsSafe r
      → IsSafe (fwd_wire_from_client env ws a bytes r)
  unfolding fwd_wire_from_client
  fwd_wire_from_client-IsSafe ws a bytes r e v =
      if_rule IsSafe (not (is_bound a)) _ _ (λ _. search safe_rules)
        λ _.
          option_rule IsSafe r.daemon _ _ (λ _. search safe_rules)
            λ daemon _. relay_client-IsSafe ws a daemon bytes r e v
