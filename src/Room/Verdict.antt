-- ===== src/Room/Verdict.antt =====
-- workers/pairfob-origin/src/room/session.ts: a phone is established or refused by its computer.
use pairfob.Prelude.{ℕ, String, true, not, ◌||◌, none, some, ◌===◌, leb, if◌then◌else◌}
use pairfob.Store.{BindRow, upsert_bind, resume_15s}
use pairfob.Attachment
use pairfob.Attachment.{
  Attachment, is_phone, is_none, is_pairing, is_resumehello, is_established, is_hello_mode,
  is_pairing_mode, is_session_mode, owner_mismatch,
}
use pairfob.Hex.{is_zero_route, route_hex}
use pairfob.Json.{parse_json_object, text_field, field_is}
use pairfob.Envelope.{Frame, layout}
use pairfob.Constants.{max_established}
use pairfob.Room.{
  Room, Env, wire, send, send_err, close, att, write_att, delete_bind, log_call, claim_confirm,
  no_extra, with_route, is_daemon_socket, for_sockets, ids,
}
use pairfob.Room.Core.{delete_bind_if}
use pairfob.Room.Traffic.{close_bind, note_bind, find_by_route}
use pairfob.Room.Counts.{count_kinds}
use pairfob.Room.Alarms.{clear_kind_ref}
use pairfob.Room.Session.{bad_version}

-- The witness of a claim is asked for a signed-in phone; whatever it does, the session stands.
abbrev pub witness : Env → Attachment → Room → Room
witness env a r =
    if a.account === "" then r else env.others (log_call (claim_confirm a.account a.route_id) r)

abbrev pub establish : Env → ℕ → Attachment → Frame → Room → Room
establish env client a frame r =
    let now_est = write_att client (record a { kind = Attachment.established }) r in
    let row : BindRow = record {
      route_id = a.route_id;
      kind = "established";
      created_at = a.created_ms;
      pair_ref = "";
    } in
    let stored =
      note_bind "established" (record now_est { store = upsert_bind now_est.store row }) in
    let cleared = env.others (clear_kind_ref resume_15s a.route_id stored) in
    send client (wire (layout frame)) (witness env a cleared)

abbrev pub not_resuming : ℕ → Frame → Room → Room
not_resuming ws frame r =
    send_err ws "unbound" "route is not ResumeHello" (with_route frame.route_id) r

abbrev pub establish_client : Env → (ws client : ℕ) → Frame → Room → Room
establish_client env ws client frame r = elim (att r client) [
  | none ↦ not_resuming ws frame r
  | some a ↦
      if not (is_resumehello a.kind)
      then not_resuming ws frame r
      else if leb max_established (count_kinds r).est
      then close_bind client "too_many_devices" "established cap 10" true r
      else establish env client a frame r
]

unfoldable pub handle_session_established : Env → ℕ → Frame → Room → Room
unfolding is_zero_route parse_json_object text_field field_is route_hex send_err find_by_route att
    count_kinds close_bind write_att upsert_bind clear_kind_ref send
handle_session_established env ws frame r =
    let req = parse_json_object env.parse frame.payload in
    let want = route_hex frame.route_id in
    if not (is_daemon_socket r ws)
    then r
    else if is_zero_route frame.route_id
        || bad_version req
        || not (text_field "route_id" req === want)
    then send_err ws "unbound" "SESSION_ESTABLISHED route mismatch" (with_route frame.route_id) r
    else elim (find_by_route r want) [
      | none ↦ not_resuming ws frame r
      | some client ↦ establish_client env ws client frame r
    ]

unfoldable pub handle_fake_established : ℕ → Room → Room
unfolding send_err
handle_fake_established ws r =
    send_err ws "unbound" "clients must not send SESSION_ESTABLISHED" no_extra r

abbrev pub unbind_told : ℕ → Room → Room
unbind_told client r = elim (att r client) [ none ↦ r | some a ↦ delete_bind_if a.route_id r ]

-- The error goes to the phone of its route, whose bind ends.
abbrev pub refuse_client : ℕ → (code : String) → Frame → Room → Room
refuse_client client code frame r =
    let told = send client (wire (layout frame)) r in close client code (unbind_told client told)

abbrev pub tell_phone : Frame → ℕ → Room → Room
tell_phone frame ws r = elim (att r ws) [
  | none ↦ r
  | some a ↦ if is_phone a.role then send ws (wire (layout frame)) r else r
]

unfoldable pub handle_daemon_error : Env → ℕ → Frame → Room → Room
unfolding is_zero_route parse_json_object text_field route_hex send_err find_by_route send att
    delete_bind close
handle_daemon_error env ws frame r =
    let req = parse_json_object env.parse frame.payload in
    let code = text_field "code" req in
    let body_rid = text_field "route_id" req in
    let want = route_hex frame.route_id in
    if code === ""
    then send_err ws "bad_token" "invalid ERROR payload" no_extra r
    else if not (is_daemon_socket r ws)
    then r
    else if not (body_rid === "")
    then (if not (body_rid === want)
        then send_err ws "bad_token" "ERROR route mismatch" no_extra r
        else elim (find_by_route r want) [
          | none ↦ r
          | some client ↦ refuse_client client code frame r
        ])
    else if not (is_zero_route frame.route_id)
    then send_err ws "bad_token" "ERROR missing route_id payload" no_extra r
    else for_sockets (ids r.sockets) (tell_phone frame) r
