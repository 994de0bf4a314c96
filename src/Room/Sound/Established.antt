-- ===== src/Room/Sound/Established.antt =====
-- SESSION_ESTABLISHED and the errors of a computer keep the invariant.
use pairfob.Prelude.{
  ℕ, ◌<◌, ◌≡◌, refl, String, true, not, ◌||◌, some, arith, ◌===◌, if_rule, option_rule, leb,
}
use pairfob.Store.{BindRow, upsert_bind, resume_15s}
use pairfob.Attachment
use pairfob.Attachment.{
  Attachment, is_phone, is_none, is_pairing, is_resumehello, is_established, is_hello_mode,
  is_pairing_mode, is_session_mode, owner_mismatch,
}
use pairfob.Hex.{is_zero_route, route_hex}
use pairfob.Json.{parse_json_object, text_field}
use pairfob.Envelope.{Frame, layout}
use pairfob.Constants.{max_established}
use pairfob.Room.{
  Room, Env, att, wire, send, write_att, log_call, claim_confirm, is_daemon_socket, ids,
}
use pairfob.Room.Traffic.{note_bind, find_by_route}
use pairfob.Room.Counts.{count_kinds}
use pairfob.Room.Written.{att-All}
use pairfob.Room.Session.{bad_version}
use pairfob.Room.Verdict.{
  establish, establish_client, witness, handle_session_established, handle_fake_established,
  refuse_client, tell_phone, handle_daemon_error, unbind_told,
}
use pairfob.Room.Alarms.{clear_kind_ref}
use pairfob.Room.Sound.{IsOwned, IsSound-write_att}
use pairfob.Room.Sound.Steps.{
  IsSafe, sockets-IsSafe, send-IsSafe, close-IsSafe, delete_bind_if-IsSafe, for_sockets-IsSafe,
  safe_rules,
}
use pairfob.Room.Sound.Upkeep.{Others}

module _ (env : Env) (keeps : Others env) where
  witness-IsSafe : (a : Attachment) (r : Room) → IsSafe r → IsSafe (witness env a r)
  witness-IsSafe a r v =
      if_rule IsSafe (a.account === "") _ _ (λ _. v)
        λ _. keeps (log_call (claim_confirm a.account a.route_id) r) (sockets-IsSafe refl v)

  -- The guard of the cap is read just before the write.
  establish-IsSafe :
      (client : ℕ) (a : Attachment) (frame : Frame) (r : Room)
      → att r client ≡ some a
      → is_resumehello a.kind ≡ true
      → (count_kinds r).est < max_established
      → IsSafe r
      → IsSafe (establish env client a frame r)
  unfolding clear_kind_ref owner_mismatch att count_kinds
  establish-IsSafe client a frame r e k room v =
      let b = record a { kind = Attachment.established } in
      let owned : IsOwned a = att-All IsOwned client a r e v.sound.owned in
      let bound : IsSafe (write_att client b r) = record {
        sound =
            IsSound-write_att client a b r e (ground arith) (ground arith)
              (ground (arith, v.sound.pairing)) v.sound;
      } in
      let w = write_att client b r in
      let row : BindRow = record {
        route_id = a.route_id;
        kind = "established";
        created_at = a.created_ms;
        pair_ref = "";
      } in
      let stored = note_bind "established" (record w { store = upsert_bind w.store row }) in
      let cleared : IsSafe (env.others (clear_kind_ref resume_15s a.route_id stored)) =
        keeps (clear_kind_ref resume_15s a.route_id stored) (sockets-IsSafe refl bound) in
      send-IsSafe client _ _
        (witness-IsSafe a (env.others (clear_kind_ref resume_15s a.route_id stored)) cleared)

  establish_client-IsSafe :
      (ws client : ℕ) (frame : Frame) (r : Room)
      → IsSafe r
      → IsSafe (establish_client env ws client frame r)
  establish_client-IsSafe ws client frame r v =
      option_rule IsSafe (att r client) _ _ (λ _. search safe_rules)
        λ a e.
          if_rule IsSafe (not (is_resumehello a.kind)) _ _ (λ _. search safe_rules)
            λ k.
              if_rule IsSafe (leb max_established (count_kinds r).est) _ _ (λ _. search safe_rules)
                λ room. establish-IsSafe client a frame r e (ground arith) (ground arith) v

  pub handle_session_established-IsSafe :
      (ws : ℕ) (frame : Frame) (r : Room)
      → IsSafe r
      → IsSafe (handle_session_established env ws frame r)
  unfolding handle_session_established
  handle_session_established-IsSafe ws frame r v =
      let req = parse_json_object env.parse frame.payload in
      let want = route_hex frame.route_id in
      if_rule IsSafe (not (is_daemon_socket r ws)) _ _ (λ _. v)
        λ _.
          if_rule IsSafe
            (is_zero_route frame.route_id
              || bad_version req
              || not (text_field "route_id" req === want))
            _ _ (λ _. search safe_rules)
            λ _.
              option_rule IsSafe (find_by_route r want) _ _ (λ _. search safe_rules)
                λ client _. establish_client-IsSafe ws client frame r v

pub handle_fake_established-IsSafe :
    (ws : ℕ) (r : Room) → IsSafe r → IsSafe (handle_fake_established ws r)
unfolding handle_fake_established
handle_fake_established-IsSafe ws r v = search safe_rules

refuse_client-IsSafe :
    (client : ℕ) (code : String) (frame : Frame) (r : Room)
    → IsSafe r
    → IsSafe (refuse_client client code frame r)
refuse_client-IsSafe client code frame r v =
    let told = send client (wire (layout frame)) r in
    let sent : IsSafe told = send-IsSafe client _ r v in
    close-IsSafe client code (unbind_told client told) (
      option_rule IsSafe (att told client) _ _ (λ _. sent)
        λ a _. delete_bind_if-IsSafe a.route_id told sent)

tell_phone-IsSafe : (frame : Frame) (ws : ℕ) (r : Room) → IsSafe r → IsSafe (tell_phone frame ws r)
tell_phone-IsSafe frame ws r v =
    option_rule IsSafe (att r ws) _ _ (λ _. v)
      λ a _. if_rule IsSafe (is_phone a.role) _ _ (λ _. search safe_rules) λ _. v

pub handle_daemon_error-IsSafe :
    (env : Env) (ws : ℕ) (frame : Frame) (r : Room)
    → IsSafe r
    → IsSafe (handle_daemon_error env ws frame r)
unfolding handle_daemon_error
handle_daemon_error-IsSafe env ws frame r v =
    let req = parse_json_object env.parse frame.payload in
    let code = text_field "code" req in
    let body_rid = text_field "route_id" req in
    let want = route_hex frame.route_id in
    if_rule IsSafe (code === "") _ _ (λ _. search safe_rules)
      λ _.
        if_rule IsSafe (not (is_daemon_socket r ws)) _ _ (λ _. v)
          λ _.
            if_rule IsSafe (not (body_rid === "")) _ _
              (λ _.
                if_rule IsSafe (not (body_rid === want)) _ _ (λ _. search safe_rules)
                  λ _.
                    option_rule IsSafe (find_by_route r want) _ _ (λ _. v)
                      λ client _. refuse_client-IsSafe client code frame r v)
              λ _.
                if_rule IsSafe (not (is_zero_route frame.route_id)) _ _ (λ _. search safe_rules)
                  λ _.
                    for_sockets-IsSafe (ids r.sockets) (tell_phone frame) r
                      (tell_phone-IsSafe frame) v
