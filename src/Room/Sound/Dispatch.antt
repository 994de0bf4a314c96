-- ===== src/Room/Sound/Dispatch.antt =====
-- The hello of a computer and the dispatch of a message keep the invariant.
use pairfob.Prelude.{
  ℕ, ◌≡◌, refl, String, not, ◌&&◌, Option, none, some, List, ◌==◌, ◌===◌, if_rule, option_rule,
}
use pairfob.Attachment
use pairfob.Attachment.{Attachment, is_pairing, new_attachment}
use pairfob.Hex.{is_zero_route}
use pairfob.Json.{parse_json_object, text_field}
use pairfob.Envelope.{
  Frame, Message, decode_message, decode_fwd_message, FwdMessage, not_fwd, malformed, fwd_wire,
  layout,
}
use pairfob.Envelope.Typ
use pairfob.Room.{Room, Env, att, reject, is_daemon_socket}
use pairfob.Room.Traffic.{load_reconnect_hash}
use pairfob.Room.Enrollment.{timing_safe_equal}
use pairfob.Room.DaemonHello.{
  bad_register, is_daemon_att, replace_old, register, handle_daemon_hello,
}
use pairfob.Room.Ws.{
  on_daemon, from_phone, on_fwd_wire, on_daemon_frame, no_hello, on_client_frame, on_frame,
  on_decoded, on_message,
}
use pairfob.Room.Sound.Steps.{
  IsSafe, sockets-IsSafe, send-IsSafe, write_unbound-IsSafe, load_reconnect_hash-IsSafe, safe_rules,
}
use pairfob.Room.Sound.Upkeep.{Others}
use pairfob.Room.Sound.Session.{handle_client_hello-IsSafe, handle_session_attach-IsSafe}
use pairfob.Room.Sound.Established.{
  handle_session_established-IsSafe, handle_fake_established-IsSafe, handle_daemon_error-IsSafe,
}
use pairfob.Room.Sound.Pairing.{handle_pair_open-IsSafe, handle_pair_close-IsSafe}
use pairfob.Room.Sound.PairAttach.{handle_pair_attach-IsSafe}
use pairfob.Room.Sound.Relay.{
  fwd_wire_from_daemon-IsSafe, fwd_wire_from_client-IsSafe, handle_ping-IsSafe, handle_pong-IsSafe,
}

replace_old-IsSafe : (r : Room) → IsSafe r → IsSafe (replace_old r)
replace_old-IsSafe r v = option_rule IsSafe r.daemon _ _ (λ _. v) λ old _. search safe_rules

register-IsSafe :
    (ws : ℕ) (frame : Frame) (token : String) (r : Room)
    → IsSafe r
    → IsSafe (register ws frame token r)
unfolding new_attachment
register-IsSafe ws frame token r v = send-IsSafe ws _ _ (
    write_unbound-IsSafe ws (new_attachment Attachment.daemon r.clock "" "" r.clock)
      (record r { daemon = some ws }) refl (sockets-IsSafe refl v))

module _ (env : Env) (keeps : Others env) where
  handle_daemon_hello-IsSafe :
      (ws : ℕ) (frame : Frame) (r : Room) → IsSafe r → IsSafe (handle_daemon_hello env ws frame r)
  unfolding handle_daemon_hello
  handle_daemon_hello-IsSafe ws frame r v =
      let req = parse_json_object env.parse frame.payload in
      let token = text_field "reconnect_token" req in
      let loaded = load_reconnect_hash r in
      let safe_loaded : IsSafe loaded = load_reconnect_hash-IsSafe r v in
      let awaited : IsSafe (env.others loaded) = keeps loaded safe_loaded in
      if_rule IsSafe (not (is_zero_route frame.route_id)) _ _ (λ _. search safe_rules)
        λ _.
          if_rule IsSafe (bad_register r req) _ _ (λ _. search safe_rules)
            λ _.
              if_rule IsSafe (not (is_daemon_att (att r ws))) _ _ (λ _. search safe_rules)
                λ _.
                  if_rule IsSafe (is_daemon_socket r ws) _ _ (λ _. search safe_rules)
                    λ _.
                      if_rule IsSafe (loaded.reconnect_hash === "") _ _ (λ _. search safe_rules)
                        λ _.
                          if_rule IsSafe
                            (not (
                              timing_safe_equal env.utf8 (env.sha256_hex token)
                                loaded.reconnect_hash))
                            _ _ (λ _. search safe_rules)
                            λ _.
                              if_rule IsSafe (is_daemon_socket (env.others loaded) ws) _ _
                                (λ _. register-IsSafe ws frame token (env.others loaded) awaited)
                                λ _.
                                  register-IsSafe ws frame token (replace_old (env.others loaded))
                                    (replace_old-IsSafe (env.others loaded) awaited)

  from_phone-IsSafe :
      (ws : ℕ) (bytes : List ℕ) (a : Option Attachment) (r : Room)
      → att r ws ≡ a
      → IsSafe r
      → IsSafe (from_phone env ws bytes a r)
  from_phone-IsSafe ws bytes none r e v = search safe_rules
  from_phone-IsSafe ws bytes (some a) r e v =
      if_rule IsSafe (a.hello_at_ms == 0) _ _ (λ _. search safe_rules)
        λ _. fwd_wire_from_client-IsSafe env keeps ws a bytes r e v

  on_fwd_wire-IsSafe :
      (ws : ℕ) (bytes : List ℕ) (r : Room) → IsSafe r → IsSafe (on_fwd_wire env ws bytes r)
  unfolding on_fwd_wire
  on_fwd_wire-IsSafe ws bytes r v =
      if_rule IsSafe (on_daemon (att r ws)) _ _
        (λ _.
          if_rule IsSafe (not (is_daemon_socket r ws)) _ _ (λ _. search safe_rules)
            λ _. fwd_wire_from_daemon-IsSafe ws bytes r v)
        λ _. from_phone-IsSafe ws bytes (att r ws) r refl v

  on_daemon_frame-IsSafe :
      (ws : ℕ) (frame : Frame) (r : Room) → IsSafe r → IsSafe (on_daemon_frame env ws frame r)
  unfolding on_daemon_frame
  on_daemon_frame-IsSafe ws frame r v =
      if_rule IsSafe (not (is_daemon_socket r ws) && not (frame.typ == Typ.hello_daemon)) _ _
        (λ _. search safe_rules)
        λ _.
          if_rule IsSafe (frame.typ == Typ.hello_daemon) _ _
            (λ _. handle_daemon_hello-IsSafe ws frame r v)
            λ _.
              if_rule IsSafe (frame.typ == Typ.pair_open) _ _
                (λ _. handle_pair_open-IsSafe env keeps ws frame r v)
                λ _.
                  if_rule IsSafe (frame.typ == Typ.pair_close) _ _
                    (λ _. handle_pair_close-IsSafe env keeps ws frame r v)
                    λ _.
                      if_rule IsSafe (frame.typ == Typ.fwd) _ _
                        (λ _. on_fwd_wire-IsSafe ws (layout frame) r v)
                        λ _.
                          if_rule IsSafe (frame.typ == Typ.error) _ _
                            (λ _. handle_daemon_error-IsSafe env ws frame r v)
                            λ _.
                              if_rule IsSafe (frame.typ == Typ.session_established) _ _
                                (λ _. handle_session_established-IsSafe env keeps ws frame r v)
                                λ _. search safe_rules

  on_client_frame-IsSafe :
      (ws : ℕ) (frame : Frame) (r : Room) → IsSafe r → IsSafe (on_client_frame env ws frame r)
  unfolding on_client_frame
  on_client_frame-IsSafe ws frame r v =
      if_rule IsSafe (no_hello (att r ws) && not (frame.typ == Typ.hello_client)) _ _
        (λ _. search safe_rules)
        λ _.
          if_rule IsSafe (frame.typ == Typ.hello_client) _ _
            (λ _. handle_client_hello-IsSafe env ws frame r v)
            λ _.
              if_rule IsSafe (frame.typ == Typ.pair_attach) _ _
                (λ _. handle_pair_attach-IsSafe env keeps ws frame r v)
                λ _.
                  if_rule IsSafe (frame.typ == Typ.session_attach) _ _
                    (λ _. handle_session_attach-IsSafe env keeps ws frame r v)
                    λ _.
                      if_rule IsSafe (frame.typ == Typ.fwd) _ _
                        (λ _. on_fwd_wire-IsSafe ws (layout frame) r v)
                        λ _.
                          if_rule IsSafe (frame.typ == Typ.session_established) _ _
                            (λ _. handle_fake_established-IsSafe ws r v) λ _. search safe_rules

  on_frame-IsSafe :
      (ws : ℕ) (frame : Frame) (r : Room) → IsSafe r → IsSafe (on_frame env ws frame r)
  unfolding on_frame
  on_frame-IsSafe ws frame r v =
      if_rule IsSafe (frame.typ == Typ.ping) _ _ (λ _. handle_ping-IsSafe ws frame r v)
        λ _.
          if_rule IsSafe (frame.typ == Typ.pong) _ _ (λ _. handle_pong-IsSafe ws frame r v)
            λ _.
              if_rule IsSafe (on_daemon (att r ws)) _ _ (λ _. on_daemon_frame-IsSafe ws frame r v)
                λ _. on_client_frame-IsSafe ws frame r v

  on_decoded-IsSafe :
      (ws : ℕ) (frame : Option Frame) (r : Room) → IsSafe r → IsSafe (on_decoded env ws frame r)
  on_decoded-IsSafe ws none r v = search safe_rules
  on_decoded-IsSafe ws (some frame) r v = on_frame-IsSafe ws frame r v

  on_decoded_fwd-IsSafe :
      (ws : ℕ) (m : FwdMessage) (frame : Option Frame) (r : Room)
      → IsSafe r
      → IsSafe (elim m [
        | not_fwd ↦ on_decoded env ws frame r
        | malformed ↦ reject ws "bad_frame" "invalid envelope" r
        | fwd_wire bytes ↦ on_fwd_wire env ws bytes r
      ])
  on_decoded_fwd-IsSafe ws not_fwd frame r v = on_decoded-IsSafe ws frame r v
  on_decoded_fwd-IsSafe ws malformed frame r v = search safe_rules
  on_decoded_fwd-IsSafe ws (fwd_wire bytes) frame r v = on_fwd_wire-IsSafe ws bytes r v

  pub on_message-IsSafe :
      (ws : ℕ) (message : Message) (r : Room) → IsSafe r → IsSafe (on_message env ws message r)
  unfolding on_message
  on_message-IsSafe ws message r v =
      on_decoded_fwd-IsSafe ws (decode_fwd_message message) (decode_message message) r v
