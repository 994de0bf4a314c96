-- ===== src/Room/Fwd.antt =====
-- workers/pairfob-origin/src/room/fwd.ts and ping.ts: relayed frames and the liveness probe.
pub mod Forwarding
pub mod Isolation
pub mod Delivered
use pairfob.Prelude.{
  ℕ, ◌+◌, ◌-◌, String, Bool, true, false, not, ◌&&◌, ◌||◌, Option, none, some, List, [], ◌∷◌, ◌++◌,
  ◌==◌, ◌===◌, ltb, if◌then◌else◌, length, take, drop,
}
use pairfob.Store.{load_slot, PairSlot}
use pairfob.Attachment.{
  Attachment, is_phone, is_none, is_pairing, is_resumehello, is_established, is_hello_mode,
}
use pairfob.Hex.{bytes_to_hex, hex_to_bytes}
use pairfob.Envelope.Typ
use pairfob.Envelope.{Frame, header_size}
use pairfob.Constants.{hello_grace_ms, resume_ms}
use pairfob.Room.{
  Room, Socket, Env, Sent, wire, raw_frame, send, close, att, write_att, send_err, reject, no_extra,
  with_route, find_socket, Extra, is_daemon_socket,
}
use pairfob.Room.Traffic.{note_fwd, find_by_route, route_bytes, close_bind}
use pairfob.Room.Alarms.{advance_pair_frames}

-- wire.set(routeId, 8)
abbrev pub stamp : List ℕ → List ℕ → List ℕ
stamp route_id bytes = take 8 bytes ++ (route_id ++ drop (8 + length route_id) bytes)

unfoldable pub forward_wire : (destination : ℕ) → (route_id bytes : List ℕ) → Room → Room
unfolding send
forward_wire destination route_id bytes r = send destination (wire (stamp route_id bytes)) r

abbrev pub same_daemon : ℕ → Option ℕ → Bool
same_daemon d none = false
same_daemon d (some e) = e == d

abbrev pub still_pairing : String → Option Attachment → Bool
still_pairing route_id none = false
still_pairing route_id (some a) = is_pairing a.kind && a.route_id === route_id

unfoldable pub advance_and_forward :
    Env
    → (ws daemon : ℕ) → (route_id : String) → (pair_frames deadline : ℕ) → (route bytes : List ℕ)
    → Room
    → Room
unfolding advance_pair_frames att forward_wire
advance_and_forward env ws daemon route_id pair_frames deadline route bytes r =
    let advanced = env.others (advance_pair_frames env route_id pair_frames deadline r) in
    if same_daemon daemon advanced.daemon && still_pairing route_id (att advanced ws)
    then forward_wire daemon route bytes advanced
    else advanced

abbrev pub is_bound : Attachment → Bool
is_bound a = not (a.route_id === "") && not (is_none a.kind)

abbrev pub slot_deadline : Room → ℕ
slot_deadline r = elim (load_slot r.store) [ none ↦ r.clock + 180000 | some s ↦ s.deadline ]

-- One frame of a bound phone, with a daemon there.
abbrev pub relay_client : Env → ℕ → Attachment → ℕ → List ℕ → Room → Room
relay_client env ws a daemon bytes r =
    let rid = route_bytes r a.route_id in
    let noted = note_fwd (length bytes - header_size) r in
    let frames = a.pair_frames + 1 in
    let counted = write_att ws (record a { pair_frames = frames }) noted in
    if is_pairing a.kind
    then (if frames == 1 || frames == 2
        then advance_and_forward env ws daemon a.route_id frames (slot_deadline counted) rid bytes
            counted
        else forward_wire daemon rid bytes counted)
    else forward_wire daemon rid bytes noted

unfoldable pub fwd_wire_from_client : Env → ℕ → Attachment → List ℕ → Room → Room
unfolding send_err close route_bytes note_fwd write_att load_slot advance_and_forward forward_wire
fwd_wire_from_client env ws a bytes r =
    if not (is_bound a)
    then close ws "unbound" (send_err ws "unbound" "FWD before bind" no_extra r)
    else elim r.daemon [
      | none ↦ close ws "daemon_offline" (send_err ws "daemon_offline" "no daemon" no_extra r)
      | some daemon ↦ relay_client env ws a daemon bytes r
    ]

abbrev pub send_throws : Room → ℕ → Bool
send_throws r ws = elim (find_socket ws r.sockets) [ none ↦ false | some s ↦ s.broken ]

abbrev pub relay_daemon : ℕ → List ℕ → Room → Room
relay_daemon client bytes r =
    let noted = note_fwd (length bytes - header_size) r in
    if send_throws noted client
    then close_bind client "unbound" "client send failed" true noted
    else send client (wire bytes) noted

unfoldable pub fwd_wire_from_daemon : ℕ → List ℕ → Room → Room
unfolding find_by_route note_fwd send close_bind bytes_to_hex
fwd_wire_from_daemon ws bytes r =
    if not (is_daemon_socket r ws)
    then r
    else elim (find_by_route r (bytes_to_hex (take 16 (drop 8 bytes)))) [
      | none ↦ r
      | some client ↦ relay_daemon client bytes r
    ]

abbrev pub hello_overdue : ℕ → Attachment → Bool
hello_overdue now a =
    is_phone a.role
    && is_hello_mode a.mode
    && is_none a.kind
    && ltb 0 a.hello_at_ms
    && ltb (a.hello_at_ms + hello_grace_ms) now

abbrev pub resume_overdue : ℕ → Attachment → Bool
resume_overdue now a = is_resumehello a.kind && ltb (a.created_ms + resume_ms) now

-- The route of an attachment, where it has one; a text that is no hex would throw.
abbrev pub route_extra : Attachment → Extra
route_extra a =
    if a.route_id === ""
    then no_extra
    else elim (hex_to_bytes a.route_id) [ none ↦ no_extra | some rid ↦ with_route rid ]

abbrev pub answer_ping : ℕ → Frame → Room → Room
answer_ping ws frame r =
    if length frame.payload == 8
    then send ws (raw_frame Typ.pong frame.route_id frame.payload) r
    else reject ws "unbound" "PING payload must be exactly 8 bytes" r

unfoldable pub handle_ping : ℕ → Frame → Room → Room
unfolding att send_err close send reject hex_to_bytes
handle_ping ws frame r = elim (att r ws) [
  | none ↦ answer_ping ws frame r
  | some a ↦
      if hello_overdue r.clock a
      then close ws "unbound" (send_err ws "unbound" "5s attach timeout" no_extra r)
      else if resume_overdue r.clock a
      then close ws "unpaired" (send_err ws "unpaired" "15s DeviceHello timeout" (route_extra a) r)
      else answer_ping ws frame r
]

unfoldable pub handle_pong : ℕ → Frame → Room → Room
unfolding reject
handle_pong ws frame r =
    if length frame.payload == 8
    then r
    else reject ws "unbound" "PONG payload must be exactly 8 bytes" r
