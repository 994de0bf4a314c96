-- ===== src/Room/Ws.antt =====
-- workers/pairfob-origin/src/room/ws.ts: the dispatch of a websocket message.
use pairfob.Prelude.{ℕ, Bool, true, false, not, ◌&&◌, Option, none, some, List, ◌==◌, if◌then◌else◌}
use pairfob.Attachment.{Attachment, is_daemon}
use pairfob.Envelope.Typ
use pairfob.Envelope.{
  Frame, not_fwd, malformed, fwd_wire, Message, decode_fwd_message, decode_message, layout,
}
use pairfob.Room.{Room, Env, att, reject, is_daemon_socket}
use pairfob.Room.DaemonHello.{handle_daemon_hello}
use pairfob.Room.Fwd.{fwd_wire_from_client, fwd_wire_from_daemon, handle_ping, handle_pong}
use pairfob.Room.PairAttach.{handle_pair_attach}
use pairfob.Room.Pairing.{handle_pair_open, handle_pair_close}
use pairfob.Room.Session.{handle_client_hello, handle_session_attach}
use pairfob.Room.Verdict.{handle_session_established, handle_fake_established, handle_daemon_error}

-- att?.role === "daemon"; a socket without an attachment counts as a phone
abbrev pub on_daemon : Option Attachment → Bool
on_daemon none = false
on_daemon (some a) = is_daemon a.role

abbrev pub from_phone : Env → ℕ → List ℕ → Option Attachment → Room → Room
from_phone env ws bytes none r = reject ws "unbound" "HELLO_CLIENT must be the first frame" r
from_phone env ws bytes (some a) r =
    if a.hello_at_ms == 0
    then reject ws "unbound" "HELLO_CLIENT must be the first frame" r
    else fwd_wire_from_client env ws a bytes r

unfoldable pub on_fwd_wire : Env → ℕ → List ℕ → Room → Room
unfolding att reject fwd_wire_from_daemon fwd_wire_from_client
on_fwd_wire env ws bytes r =
    if on_daemon (att r ws)
    then (if not (is_daemon_socket r ws)
        then reject ws "unbound" "HELLO_DAEMON must be the first frame" r
        else fwd_wire_from_daemon ws bytes r)
    else from_phone env ws bytes (att r ws) r

unfoldable pub on_daemon_frame : Env → ℕ → Frame → Room → Room
unfolding reject handle_daemon_hello handle_pair_open handle_pair_close on_fwd_wire
    handle_daemon_error handle_session_established
on_daemon_frame env ws frame r =
    if not (is_daemon_socket r ws) && not (frame.typ == Typ.hello_daemon)
    then reject ws "unbound" "HELLO_DAEMON must be the first frame" r
    else if frame.typ == Typ.hello_daemon
    then handle_daemon_hello env ws frame r
    else if frame.typ == Typ.pair_open
    then handle_pair_open env ws frame r
    else if frame.typ == Typ.pair_close
    then handle_pair_close env ws frame r
    else if frame.typ == Typ.fwd
    then on_fwd_wire env ws (layout frame) r
    else if frame.typ == Typ.error
    then handle_daemon_error env ws frame r
    else if frame.typ == Typ.session_established
    then handle_session_established env ws frame r
    else reject ws "unbound" "frame type is not valid on daemon websocket" r

abbrev pub no_hello : Option Attachment → Bool
no_hello none = true
no_hello (some a) = a.hello_at_ms == 0

unfoldable pub on_client_frame : Env → ℕ → Frame → Room → Room
unfolding att reject handle_client_hello handle_pair_attach handle_session_attach on_fwd_wire
    handle_fake_established
on_client_frame env ws frame r =
    if no_hello (att r ws) && not (frame.typ == Typ.hello_client)
    then reject ws "unbound" "HELLO_CLIENT must be the first frame" r
    else if frame.typ == Typ.hello_client
    then handle_client_hello env ws frame r
    else if frame.typ == Typ.pair_attach
    then handle_pair_attach env ws frame r
    else if frame.typ == Typ.session_attach
    then handle_session_attach env ws frame r
    else if frame.typ == Typ.fwd
    then on_fwd_wire env ws (layout frame) r
    else if frame.typ == Typ.session_established
    then handle_fake_established ws r
    else reject ws "unbound" "frame type is not valid on client websocket" r

unfoldable pub on_frame : Env → ℕ → Frame → Room → Room
unfolding handle_ping handle_pong att on_daemon_frame on_client_frame
on_frame env ws frame r =
    if frame.typ == Typ.ping
    then handle_ping ws frame r
    else if frame.typ == Typ.pong
    then handle_pong ws frame r
    else if on_daemon (att r ws)
    then on_daemon_frame env ws frame r
    else on_client_frame env ws frame r

abbrev pub on_decoded : Env → ℕ → Option Frame → Room → Room
on_decoded env ws none r = reject ws "bad_frame" "invalid envelope" r
on_decoded env ws (some frame) r = on_frame env ws frame r

unfoldable pub on_message : Env → ℕ → Message → Room → Room
unfolding decode_fwd_message reject on_fwd_wire decode_message on_frame
on_message env ws message r = elim (decode_fwd_message message) [
  | not_fwd ↦ on_decoded env ws (decode_message message) r
  | malformed ↦ reject ws "bad_frame" "invalid envelope" r
  | fwd_wire bytes ↦ on_fwd_wire env ws bytes r
]
