-- ===== src/Room/PairAttach.antt =====
-- workers/pairfob-origin/src/room/pairing.ts: a phone attaches to the pairing slot.
pub mod Guards
use Prim.Native.String
use pairfob.Prelude.{
  ℕ, zero, suc, ◌+◌, ◌*◌, ◌/◌, String, Bool, true, false, not, ◌&&◌, ◌||◌, Option, none, some, List,
  [], ◌∷◌, ◌==◌, ◌===◌, leb, if◌then◌else◌,
}
use pairfob.Store.{
  Store, PairSlot, BindRow, load_slot, put_slot, delete_slot, upsert_bind, upsert_alarm, pair_ttl,
}
use pairfob.Attachment
use pairfob.Attachment.{
  Attachment, is_phone, is_pairing, is_resumehello, is_established, is_pairing_mode,
  is_session_mode, owner_mismatch,
}
use pairfob.Hex.{Drawn, is_zero_route, route_hex, new_route_id, bytes_to_hex}
use pairfob.Crockford.{mint_loc}
use pairfob.Json.{
  Fields, text, number, boolean, parse_json_object, text_field, number_field, field_is,
  field_absent_or,
}
use pairfob.Envelope.Typ
use pairfob.Envelope.{Frame}
use pairfob.Constants.{
  protocol, is_pair_ref, min_ttl_s, max_ttl_s, default_ttl_ms, loc_mint_tries, max_pairing,
}
use pairfob.Room.{
  Room, Env, json_frame, send, send_err, reject, close, att, write_att, no_extra, with_pair_ref,
  is_daemon_socket, for_sockets, ids, log_call, index_insert, index_remove, InsertResult, inserted,
  conflict, failed,
}
use pairfob.Room.Core.{index_forget}
use pairfob.Room.Traffic.{close_bind, note_bind}
use pairfob.Room.Counts.{count_kinds}
use pairfob.Room.Gates.{gate_check, note_gate_attempt}
use pairfob.Room.Alarms.{schedule, clear_kind_ref, arm_pair_first, close_pairing}
use pairfob.Room.Session.{bad_version, with_phone, late_hello, send_daemon}

-- The fields of PAIR_ATTACHED, for the phone and for the daemon.
abbrev pub attached_body : (attempt route_id daemon_id pair_ref : String) → Fields
attached_body attempt route_id daemon_id pair_ref =
    ("v", number protocol)
    ∷ ("attempt_id", text attempt)
    ∷ ("route_id", text route_id)
    ∷ ("daemon_id", text daemon_id)
    ∷ ("pair_ref", text pair_ref)
    ∷ []

abbrev pub attempt_id : List ℕ → String
attempt_id bytes = String.◌++◌ "at_" (bytes_to_hex bytes)

abbrev pub bind_pairing : Env → ℕ → (pair_ref : String) → Attachment → Drawn → Room → Room
bind_pairing env ws pair_ref a d r =
    let hex = route_hex d.route in
    let now = r.clock in
    let bound =
      write_att ws
        (record a {
          mode = Attachment.pairing;
          kind = Attachment.pairing;
          route_id = hex;
          pair_ref = pair_ref;
          pair_frames = 0;
          created_ms = now;
        })
        (record r { draw = d.draw }) in
    let row : BindRow = record {
      route_id = hex;
      kind = "pairing";
      created_at = now;
      pair_ref = pair_ref;
    } in
    let stored = note_bind "pairing" (record bound { store = upsert_bind bound.store row }) in
    let armed = env.others (arm_pair_first hex now stored) in
    let body =
      attached_body (attempt_id (env.random_bytes armed.draw 8)) hex armed.daemon_id pair_ref in
    send_daemon d.route Typ.pair_attached body
      (send ws (json_frame Typ.pair_attached d.route body) (record armed { draw = armed.draw + 1 }))

-- The attempt is charged before the route is drawn.
abbrev pub charge_and_bind : Env → ℕ → (pair_ref : String) → Attachment → Room → Room
charge_and_bind env ws pair_ref a r =
    let charged = note_gate_attempt false r in
    elim (new_route_id env.random_bytes charged.draw) [
      | none ↦ charged
      | some d ↦ bind_pairing env ws pair_ref a d charged
    ]

abbrev pub slot_open : Room → (pair_ref : String) → Bool
slot_open r pair_ref = elim (load_slot r.store) [
  | none ↦ false
  | some slot ↦ not (leb slot.deadline r.clock) && slot.pair_ref === pair_ref
]

abbrev pub enter_slot : Env → ℕ → (pair_ref : String) → Attachment → Room → Room
enter_slot env ws pair_ref a r =
    if not (slot_open r pair_ref)
    then send_err ws "unpaired" "no slot" no_extra r
    else if leb max_pairing (count_kinds r).pairing
    then send_err ws "pair_busy" "pairing slot already attached" no_extra r
    else if not (gate_check r).allowed
    then send_err ws "rate_limited" "too many failed pairing attempts"
        (record {
          route_id = none;
          pair_ref = "";
          retry_after_ms = some (gate_check r).retry_after_ms;
        })
        r
    else charge_and_bind env ws pair_ref a r

abbrev pub attach_pairing : Env → ℕ → (pair_ref : String) → Attachment → Room → Room
attach_pairing env ws pair_ref a r =
    if owner_mismatch a
    then close ws "forbidden"
        (send_err ws "forbidden" "device belongs to another account" no_extra r)
    else if late_hello r.clock a
    then close ws "unbound" (send_err ws "unbound" "PAIR_ATTACH after HELLO timeout" no_extra r)
    else if is_session_mode a.mode || is_resumehello a.kind || is_established a.kind
    then send_err ws "wrong_ws" "PAIR_ATTACH on SessionWS" no_extra r
    else if is_pairing a.kind || is_pairing_mode a.mode
    then send_err ws "wrong_ws" "PairingWS already attached" no_extra r
    else elim r.daemon [
      | none ↦ send_err ws "daemon_offline" "no daemon" no_extra r
      | some _ ↦ enter_slot env ws pair_ref a r
    ]

unfoldable pub handle_pair_attach : Env → ℕ → Frame → Room → Room
unfolding is_zero_route reject parse_json_object text_field field_is is_pair_ref send_err att
    owner_mismatch close load_slot count_kinds gate_check note_gate_attempt new_route_id route_hex
    write_att upsert_bind arm_pair_first bytes_to_hex send
handle_pair_attach env ws frame r =
    let req = parse_json_object env.parse frame.payload in
    let pair_ref = text_field "pair_ref" req in
    if not (is_zero_route frame.route_id)
    then reject ws "bad_token" "invalid PAIR_ATTACH payload" r
    else if bad_version req
    then reject ws "bad_token" "invalid PAIR_ATTACH payload" r
    else if not (is_pair_ref pair_ref)
    then send_err ws "bad_token" "invalid pair_ref" no_extra r
    else with_phone ws "PAIR_ATTACH on non-phone websocket" (attach_pairing env ws pair_ref) r
