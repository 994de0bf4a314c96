-- ===== src/Room/Sound/PairAttach.antt =====
-- A phone that attaches to the pairing slot keeps the invariant.
use pairfob.Prelude.{
  ℕ, ◌<◌, ◌≡◌, refl, String, false, not, ◌||◌, some, arith, if_rule, option_rule, leb,
}
use pairfob.Store.{BindRow, upsert_bind}
use pairfob.Attachment
use pairfob.Attachment.{
  Attachment, is_phone, is_pairing, is_resumehello, is_established, is_pairing_mode,
  is_session_mode, owner_mismatch,
}
use pairfob.Hex.{Drawn, is_zero_route, route_hex, new_route_id}
use pairfob.Json.{parse_json_object, text_field}
use pairfob.Envelope.{Frame}
use pairfob.Envelope.Typ
use pairfob.Constants.{is_pair_ref, max_pairing}
use pairfob.Room.{Room, Env, att, write_att}
use pairfob.Room.Traffic.{note_bind}
use pairfob.Room.Counts.{count_kinds, counts_as}
use pairfob.Room.Gates.{gate_check, note_gate_attempt}
use pairfob.Room.Alarms.{arm_pair_first}
use pairfob.Room.Session.{bad_version, late_hello}
use pairfob.Room.PairAttach.{
  bind_pairing, charge_and_bind, slot_open, enter_slot, attach_pairing, handle_pair_attach,
}
use pairfob.Room.Sound.{IsSound-write_att}
use pairfob.Room.Sound.Steps.{IsSafe, sockets-IsSafe, send-IsSafe, safe_rules}
use pairfob.Room.Sound.Upkeep.{note_gate_attempt-IsSafe}
use pairfob.Room.Sound.Upkeep.{Others}
use pairfob.Room.Sound.Session.{with_phone-IsSafe, send_daemon-IsSafe}

module _ (env : Env) (keeps : Others env) where
  -- The guard of the cap is read before the attempt is charged, which touches no socket.
  bind_pairing-IsSafe :
      (ws : ℕ) (pair_ref : String) (a : Attachment) (d : Drawn) (r : Room)
      → att r ws ≡ some a
      → owner_mismatch a ≡ false
      → counts_as is_established a ≡ false
      → (count_kinds r).pairing < max_pairing
      → IsSafe r
      → IsSafe (bind_pairing env ws pair_ref a d r)
  unfolding arm_pair_first owner_mismatch att count_kinds
  bind_pairing-IsSafe ws pair_ref a d r e o k room v =
      let hex = route_hex d.route in
      let b = record a {
        mode = Attachment.pairing;
        kind = Attachment.pairing;
        route_id = hex;
        pair_ref = pair_ref;
        pair_frames = 0;
        created_ms = r.clock;
      } in
      let drawn = record r { draw = d.draw } in
      let bound : IsSafe (write_att ws b drawn) = record {
        sound =
            IsSound-write_att ws a b drawn e (ground arith) (ground (arith, v.sound.established))
              (ground arith) v.sound;
      } in
      let w = write_att ws b drawn in
      let row : BindRow = record {
        route_id = hex;
        kind = "pairing";
        created_at = r.clock;
        pair_ref = pair_ref;
      } in
      let stored = note_bind "pairing" (record w { store = upsert_bind w.store row }) in
      let armed : IsSafe (env.others (arm_pair_first hex r.clock stored)) =
        keeps (arm_pair_first hex r.clock stored) (sockets-IsSafe refl bound) in
      send_daemon-IsSafe d.route Typ.pair_attached _ _
        (send-IsSafe ws _ _ (sockets-IsSafe refl armed))

  charge_and_bind-IsSafe :
      (ws : ℕ) (pair_ref : String) (a : Attachment) (r : Room)
      → att r ws ≡ some a
      → owner_mismatch a ≡ false
      → counts_as is_established a ≡ false
      → (count_kinds r).pairing < max_pairing
      → IsSafe r
      → IsSafe (charge_and_bind env ws pair_ref a r)
  unfolding note_gate_attempt att count_kinds
  charge_and_bind-IsSafe ws pair_ref a r e o k room v =
      let charged = note_gate_attempt false r in
      let safe_charged : IsSafe charged = note_gate_attempt-IsSafe false r v in
      option_rule IsSafe (new_route_id env.random_bytes charged.draw) _ _ (λ _. safe_charged)
        λ d _. bind_pairing-IsSafe ws pair_ref a d charged e o k room safe_charged

  enter_slot-IsSafe :
      (ws : ℕ) (pair_ref : String) (a : Attachment) (r : Room)
      → att r ws ≡ some a
      → owner_mismatch a ≡ false
      → counts_as is_established a ≡ false
      → IsSafe r
      → IsSafe (enter_slot env ws pair_ref a r)
  enter_slot-IsSafe ws pair_ref a r e o k v =
      if_rule IsSafe (not (slot_open r pair_ref)) _ _ (λ _. search safe_rules)
        λ _.
          if_rule IsSafe (leb max_pairing (count_kinds r).pairing) _ _ (λ _. search safe_rules)
            λ room.
              if_rule IsSafe (not (gate_check r).allowed) _ _ (λ _. search safe_rules)
                λ _. charge_and_bind-IsSafe ws pair_ref a r e o k (ground arith) v

  attach_pairing-IsSafe :
      (ws : ℕ) (pair_ref : String) (a : Attachment) (r : Room)
      → att r ws ≡ some a
      → IsSafe r
      → IsSafe (attach_pairing env ws pair_ref a r)
  attach_pairing-IsSafe ws pair_ref a r e v =
      if_rule IsSafe (owner_mismatch a) _ _ (λ _. search safe_rules)
        λ o.
          if_rule IsSafe (late_hello r.clock a) _ _ (λ _. search safe_rules)
            λ _.
              if_rule IsSafe
                (is_session_mode a.mode || is_resumehello a.kind || is_established a.kind) _ _
                (λ _. search safe_rules)
                λ k.
                  if_rule IsSafe (is_pairing a.kind || is_pairing_mode a.mode) _ _
                    (λ _. search safe_rules)
                    λ _.
                      option_rule IsSafe r.daemon _ _ (λ _. search safe_rules)
                        λ _ _. enter_slot-IsSafe ws pair_ref a r e o (ground arith) v

  pub handle_pair_attach-IsSafe :
      (ws : ℕ) (frame : Frame) (r : Room) → IsSafe r → IsSafe (handle_pair_attach env ws frame r)
  unfolding handle_pair_attach
  handle_pair_attach-IsSafe ws frame r v =
      let req = parse_json_object env.parse frame.payload in
      let pair_ref = text_field "pair_ref" req in
      if_rule IsSafe (not (is_zero_route frame.route_id)) _ _ (λ _. search safe_rules)
        λ _.
          if_rule IsSafe (bad_version req) _ _ (λ _. search safe_rules)
            λ _.
              if_rule IsSafe (not (is_pair_ref pair_ref)) _ _ (λ _. search safe_rules)
                λ _.
                  with_phone-IsSafe ws "PAIR_ATTACH on non-phone websocket"
                    (attach_pairing env ws pair_ref) r
                    (λ a e p w. attach_pairing-IsSafe ws pair_ref a r e w) v
