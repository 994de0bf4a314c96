-- ===== src/Room/DaemonHello.antt =====
-- workers/pairfob-origin/src/room/daemon-hello.ts: a computer registers, and replaces the one before.
pub mod Secret
pub mod Stale
use pairfob.Prelude.{
  ℕ, ◌/◌, String, Bool, true, false, not, ◌&&◌, ◌||◌, Option, none, some, List, [], ◌∷◌, ◌==◌,
  ◌===◌, if◌then◌else◌,
}
use pairfob.Attachment
use pairfob.Attachment.{Attachment, is_daemon, new_attachment}
use pairfob.Hex.{is_zero_route}
use pairfob.Json.{Fields, text, number, boolean, parse_json_object, text_field, field_is}
use pairfob.Envelope.Typ
use pairfob.Envelope.{Frame}
use pairfob.Constants.{protocol, is_daemon_id, is_reconnect_token}
use pairfob.Room.{
  Room, Env, json_frame, send, send_err, reject, close, att, write_att, no_extra, is_daemon_socket,
}
use pairfob.Room.Core.{notify_replaced}
use pairfob.Room.Traffic.{load_reconnect_hash}
use pairfob.Room.Enrollment.{timing_safe_equal}

-- The payload of RegisterDaemon is refused.
abbrev pub bad_register : Room → Option Fields → Bool
bad_register r none = true
bad_register r (some req) =
    not (field_is "v" protocol req)
    || not (text_field "op" (some req) === "RegisterDaemon")
    || not (text_field "join_token" (some req) === "")
    || not (is_daemon_id (text_field "daemon_id" (some req)))
    || not (text_field "daemon_id" (some req) === r.daemon_id)
    || not (is_reconnect_token (text_field "reconnect_token" (some req)))

abbrev pub is_daemon_att : Option Attachment → Bool
is_daemon_att none = false
is_daemon_att (some a) = is_daemon a.role

abbrev pub replace_old : Room → Room
replace_old r = elim r.daemon [ none ↦ r | some old ↦ close old "replaced" (notify_replaced r) ]

-- The socket takes the room.
abbrev pub register : ℕ → Frame → (token : String) → Room → Room
register ws frame token r =
    let taken = record r { daemon = some ws } in
    let registered = write_att ws (new_attachment Attachment.daemon r.clock "" "" r.clock) taken in
    send ws
      (json_frame Typ.hello_daemon frame.route_id (
        ("v", number protocol)
        ∷ ("op", text "RegisterDaemon")
        ∷ ("ok", boolean true)
        ∷ ("daemon_id", text r.daemon_id)
        ∷ ("reconnect_token", text token)
        ∷ ("relay_time", number (r.clock / 1000))
        ∷ []))
      registered

-- The digest of the token is awaited before it is compared.
unfoldable pub handle_daemon_hello : Env → ℕ → Frame → Room → Room
unfolding is_zero_route reject parse_json_object text_field field_is is_daemon_id is_reconnect_token
    att send_err close load_reconnect_hash timing_safe_equal notify_replaced write_att
    new_attachment send
handle_daemon_hello env ws frame r =
    let req = parse_json_object env.parse frame.payload in
    let token = text_field "reconnect_token" req in
    let loaded = load_reconnect_hash r in
    let awaited = env.others loaded in
    if not (is_zero_route frame.route_id)
    then reject ws "bad_token" "HELLO_DAEMON route_id must be zero" r
    else if bad_register r req
    then reject ws "bad_token" "invalid RegisterDaemon payload" r
    else if not (is_daemon_att (att r ws))
    then reject ws "unbound" "HELLO_DAEMON on non-daemon websocket" r
    else if is_daemon_socket r ws
    then close ws "unbound" (send_err ws "unbound" "daemon websocket already registered" no_extra r)
    else if loaded.reconnect_hash === ""
    then reject ws "enroll_required" "room has no reconnect hash" loaded
    else if not (timing_safe_equal env.utf8 (env.sha256_hex token) loaded.reconnect_hash)
    then reject ws "bad_token" "reconnect" awaited
    else if is_daemon_socket awaited ws
    then register ws frame token awaited
    else register ws frame token (replace_old awaited)
