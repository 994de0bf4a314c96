-- ===== src/Room/Sound/Session.antt =====
-- The hello of a phone, and its SESSION_ATTACH, keep the invariant.
use pairfob.Prelude.{
  ℕ, ◌≡◌, refl, ◌∙◌, String, true, false, not, ◌&&◌, ◌||◌, some, List, arith, ◌===◌, if_rule,
  option_rule, leb, ltb,
}
use pairfob.Store.{BindRow, upsert_bind}
use pairfob.Attachment
use pairfob.Attachment.{
  Attachment, is_phone, is_none, is_pairing, is_resumehello, is_established, is_hello_mode,
  is_pairing_mode, is_session_mode, owner_mismatch,
}
use pairfob.Hex.{Drawn, is_zero_route, route_hex, new_route_id}
use pairfob.Json.{Fields, parse_json_object, text_field}
use pairfob.Envelope.{Frame}
use pairfob.Envelope.Typ
use pairfob.Constants.{max_resume, is_daemon_id}
use pairfob.Room.{Room, Env, att, write_att}
use pairfob.Room.Traffic.{note_bind}
use pairfob.Room.Counts.{count_kinds, lru_resume}
use pairfob.Room.Session.{
  with_phone, greet, handle_client_hello, evict_resume, send_daemon, bind_session, attach_session,
  handle_session_attach, late_hello, is_attached, bad_client_hello, bad_version,
}
use pairfob.Room.Alarms.{arm_hello, arm_resume}
use pairfob.Room.Sound.{IsSound-write_att}
use pairfob.Room.Sound.Steps.{
  IsSafe, sockets-IsSafe, send-IsSafe, reject-IsSafe, write_same-IsSafe, safe_rules, att-close_bind,
}
use pairfob.Room.Sound.Upkeep.{Others}

pub with_phone-IsSafe :
    (ws : ℕ) (message : String) (body : Attachment → Room → Room) (r : Room)
    → ((a : Attachment) → att r ws ≡ some a → is_phone a.role ≡ true → IsSafe r → IsSafe (body a r))
    → IsSafe r
    → IsSafe (with_phone ws message body r)
with_phone-IsSafe ws message body r h v =
    option_rule IsSafe (att r ws) _ _ (λ _. reject-IsSafe ws "unbound" message r v)
      λ a e.
        if_rule IsSafe (is_phone a.role) _ _ (λ p. h a e p v)
          λ _. reject-IsSafe ws "unbound" message r v

greet-IsSafe :
    (ws : ℕ) (a : Attachment) (r : Room) → att r ws ≡ some a → IsSafe r → IsSafe (greet ws a r)
unfolding arm_hello
greet-IsSafe ws a r e v =
    if_rule IsSafe (ltb 0 a.hello_at_ms && is_hello_mode a.mode && is_none a.kind) _ _
      (λ _. search safe_rules)
      λ _. sockets-IsSafe refl (
        write_same-IsSafe ws a (record a { hello_at_ms = r.clock; mode = Attachment.hello }) r e
          refl refl refl refl v)

pub handle_client_hello-IsSafe :
    (env : Env) (ws : ℕ) (frame : Frame) (r : Room)
    → IsSafe r
    → IsSafe (handle_client_hello env ws frame r)
unfolding handle_client_hello
handle_client_hello-IsSafe env ws frame r v =
    if_rule IsSafe (not (is_zero_route frame.route_id)) _ _ (λ _. search safe_rules)
      λ _.
        if_rule IsSafe (bad_client_hello (parse_json_object env.parse frame.payload)) _ _
          (λ _. search safe_rules)
          λ _.
            with_phone-IsSafe ws "HELLO_CLIENT on non-phone websocket" (greet ws) r
              (λ a e _ w. greet-IsSafe ws a r e w) v

evict_resume-IsSafe : (r : Room) → IsSafe r → IsSafe (evict_resume r)
evict_resume-IsSafe r v =
    if_rule IsSafe (leb max_resume (count_kinds r).resume) _ _
      (λ _. option_rule IsSafe (lru_resume r) _ _ (λ _. v) λ lru _. search safe_rules) λ _. v

att-evict_resume : (ws : ℕ) (r : Room) → att (evict_resume r) ws ≡ att r ws
att-evict_resume ws r =
    if_rule (λ s. att s ws ≡ att r ws) (leb max_resume (count_kinds r).resume) _ _
      (λ _.
        option_rule (λ s. att s ws ≡ att r ws) (lru_resume r) _ _ (λ _. refl)
          λ lru _. att-close_bind lru ws "kicked" "replaced LRU ResumeHello" true r)
      λ _. refl

pub send_daemon-IsSafe :
    (rid : List ℕ) (typ : ℕ) (body : Fields) (r : Room)
    → IsSafe r
    → IsSafe (send_daemon rid typ body r)
send_daemon-IsSafe rid typ body r v =
    option_rule IsSafe r.daemon _ _ (λ _. v) λ d _. search safe_rules

module _ (env : Env) (keeps : Others env) where
  bind_session-IsSafe :
      (ws : ℕ) (a : Attachment) (d : Drawn) (r : Room)
      → att r ws ≡ some a
      → owner_mismatch a ≡ false
      → is_none a.kind ≡ true
      → IsSafe r
      → IsSafe (bind_session env ws a d r)
  unfolding arm_resume owner_mismatch att
  bind_session-IsSafe ws a d r e o k v =
      let hex = route_hex d.route in
      let b = record a {
        mode = Attachment.session;
        kind = Attachment.resumehello;
        route_id = hex;
        created_ms = r.clock;
      } in
      let bound : IsSafe (write_att ws b (record r { draw = d.draw })) = record {
        sound =
            IsSound-write_att ws a b (record r { draw = d.draw }) e (ground arith)
              (ground (arith, v.sound.established)) (ground (arith, v.sound.pairing)) v.sound;
      } in
      let row : BindRow = record {
        route_id = hex;
        kind = "resumehello";
        created_at = r.clock;
        pair_ref = "";
      } in
      let w = write_att ws b (record r { draw = d.draw }) in
      let stored = note_bind "resumehello" (record w { store = upsert_bind w.store row }) in
      let armed : IsSafe (env.others (arm_resume hex r.clock stored)) =
        keeps (arm_resume hex r.clock stored) (sockets-IsSafe refl bound) in
      send_daemon-IsSafe d.route Typ.session_bound _ _ (send-IsSafe ws _ _ armed)

  attach_session-IsSafe :
      (ws : ℕ) (daemon_id : String) (a : Attachment) (r : Room)
      → att r ws ≡ some a
      → is_phone a.role ≡ true
      → IsSafe r
      → IsSafe (attach_session env ws daemon_id a r)
  attach_session-IsSafe ws daemon_id a r e p v =
      if_rule IsSafe (owner_mismatch a) _ _ (λ _. search safe_rules)
        λ o.
          if_rule IsSafe (late_hello r.clock a) _ _ (λ _. search safe_rules)
            λ _.
              if_rule IsSafe (is_pairing_mode a.mode || is_pairing a.kind) _ _
                (λ _. search safe_rules)
                λ np.
                  if_rule IsSafe (is_attached a) _ _ (λ _. search safe_rules)
                    λ na.
                      if_rule IsSafe (not (daemon_id === r.daemon_id)) _ _ (λ _. search safe_rules)
                        λ _.
                          option_rule IsSafe r.daemon _ _ (λ _. search safe_rules)
                            λ _ _.
                              let evicted : IsSafe (evict_resume r) = evict_resume-IsSafe r v in
                              option_rule IsSafe
                                (new_route_id env.random_bytes (evict_resume r).draw) _ _
                                (λ _. evicted)
                                λ d _.
                                  bind_session-IsSafe ws a d (evict_resume r)
                                    (att-evict_resume ws r ∙ e) o (ground arith) evicted

  pub handle_session_attach-IsSafe :
      (ws : ℕ) (frame : Frame) (r : Room) → IsSafe r → IsSafe (handle_session_attach env ws frame r)
  unfolding handle_session_attach
  handle_session_attach-IsSafe ws frame r v =
      let req = parse_json_object env.parse frame.payload in
      let daemon_id = text_field "daemon_id" req in
      if_rule IsSafe (not (is_zero_route frame.route_id)) _ _ (λ _. search safe_rules)
        λ _.
          if_rule IsSafe (bad_version req || not (is_daemon_id daemon_id)) _ _
            (λ _. search safe_rules)
            λ _.
              with_phone-IsSafe ws "SESSION_ATTACH on non-phone websocket"
                (attach_session env ws daemon_id) r
                (λ a e p w. attach_session-IsSafe ws daemon_id a r e p w) v
