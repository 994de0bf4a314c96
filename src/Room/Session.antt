-- ===== src/Room/Session.antt =====
-- workers/pairfob-origin/src/room/session.ts: a phone says hello and attaches a session.
use pairfob.Prelude.{
  ℕ, zero, suc, ◌+◌, ◌/◌, ◌%◌, String, Bool, true, false, not, ◌&&◌, ◌||◌, Option, none, some, List,
  [], ◌∷◌, ◌==◌, ◌===◌, leb, ltb, if◌then◌else◌,
}
use pairfob.Store.{BindRow, upsert_bind}
use pairfob.Attachment
use pairfob.Attachment.{
  Attachment, is_phone, is_none, is_pairing, is_resumehello, is_established, is_hello_mode,
  is_pairing_mode, is_session_mode, owner_mismatch,
}
use pairfob.Hex.{Drawn, hex_digit, is_zero_route, route_hex, new_route_id}
use pairfob.Json.{Fields, text, number, parse_json_object, text_field, field_is}
use pairfob.Envelope.Typ
use pairfob.Envelope.{Frame}
use pairfob.Constants.{protocol, is_daemon_id, hello_grace_ms, max_resume}
use pairfob.Room.{Room, Env, json_frame, send, send_err, reject, close, att, write_att, no_extra}
use pairfob.Room.Traffic.{close_bind, note_bind}
use pairfob.Room.Counts.{count_kinds, lru_resume}
use pairfob.Room.Alarms.{arm_hello, arm_resume}

-- !req || req.v !== PROTOCOL
abbrev pub bad_version : Option Fields → Bool
bad_version none = true
bad_version (some req) = not (field_is "v" protocol req)

abbrev pub bad_client_hello : Option Fields → Bool
bad_client_hello none = true
bad_client_hello (some req) =
    not (field_is "v" protocol req) || not (field_is "protocol" protocol req)

-- String(n), with more rounds than `n` has digits
unfoldable pub decimal_from : ℕ → ℕ → String → String
unfolding hex_digit
decimal_from zero n rest = rest
decimal_from (suc f) n rest =
    let text = String.◌∷◌ (hex_digit (n % 10)) rest in
    elim (ltb n 10) [ true ↦ text | false ↦ decimal_from f (n / 10) text ]

unfoldable pub decimal : ℕ → String
unfolding decimal_from
decimal n = decimal_from (suc n) n String.[]

abbrev pub greet : ℕ → Attachment → Room → Room
greet ws a r =
    if ltb 0 a.hello_at_ms && is_hello_mode a.mode && is_none a.kind
    then close ws "unbound" (send_err ws "unbound" "duplicate HELLO_CLIENT" no_extra r)
    else arm_hello (decimal r.clock) r.clock
        (write_att ws (record a { hello_at_ms = r.clock; mode = Attachment.hello }) r)

abbrev pub with_phone : ℕ → (message : String) → (Attachment → Room → Room) → Room → Room
with_phone ws message body r = elim (att r ws) [
  | none ↦ reject ws "unbound" message r
  | some a ↦ if is_phone a.role then body a r else reject ws "unbound" message r
]

unfoldable pub handle_client_hello : Env → ℕ → Frame → Room → Room
unfolding is_zero_route reject parse_json_object field_is att send_err close write_att arm_hello
    decimal
handle_client_hello env ws frame r =
    if not (is_zero_route frame.route_id)
    then reject ws "bad_token" "HELLO_CLIENT route_id must be zero" r
    else if bad_client_hello (parse_json_object env.parse frame.payload)
    then reject ws "bad_token" "invalid HELLO_CLIENT payload" r
    else with_phone ws "HELLO_CLIENT on non-phone websocket" (greet ws) r

abbrev pub late_hello : ℕ → Attachment → Bool
late_hello now a = a.hello_at_ms == 0 || ltb (a.hello_at_ms + hello_grace_ms) now

-- A third waiting resume closes the oldest one.
abbrev pub evict_resume : Room → Room
evict_resume r =
    if leb max_resume (count_kinds r).resume
    then (elim (lru_resume r) [
      | none ↦ r
      | some lru ↦ close_bind lru "kicked" "replaced LRU ResumeHello" true r
    ])
    else r

abbrev pub send_daemon : List ℕ → (typ : ℕ) → Fields → Room → Room
send_daemon rid typ body r = elim r.daemon [
  | none ↦ r
  | some d ↦ send d (json_frame typ rid body) r
]

abbrev pub bind_session : Env → ℕ → Attachment → Drawn → Room → Room
bind_session env ws a d r =
    let hex = route_hex d.route in
    let now = r.clock in
    let bound =
      write_att ws
        (record a {
          mode = Attachment.session;
          kind = Attachment.resumehello;
          route_id = hex;
          created_ms = now;
        })
        (record r { draw = d.draw }) in
    let row : BindRow = record {
      route_id = hex;
      kind = "resumehello";
      created_at = now;
      pair_ref = "";
    } in
    let stored = note_bind "resumehello" (record bound { store = upsert_bind bound.store row }) in
    let armed = env.others (arm_resume hex now stored) in
    let body = ("v", number protocol) ∷ ("route_id", text hex) ∷ [] in
    send_daemon d.route Typ.session_bound body
      (send ws (json_frame Typ.session_bound d.route body) armed)

-- Without entropy the draw throws, after the eviction.
abbrev pub draw_session : Env → ℕ → Attachment → Room → Room
draw_session env ws a r = elim (new_route_id env.random_bytes r.draw) [
  | none ↦ r
  | some d ↦ bind_session env ws a d r
]

abbrev pub is_attached : Attachment → Bool
is_attached a = is_resumehello a.kind || is_established a.kind || is_session_mode a.mode

abbrev pub attach_session : Env → ℕ → (daemon_id : String) → Attachment → Room → Room
attach_session env ws daemon_id a r =
    if owner_mismatch a
    then close ws "forbidden"
        (send_err ws "forbidden" "device belongs to another account" no_extra r)
    else if late_hello r.clock a
    then close ws "unbound" (send_err ws "unbound" "SESSION_ATTACH after HELLO timeout" no_extra r)
    else if is_pairing_mode a.mode || is_pairing a.kind
    then send_err ws "wrong_ws" "SESSION_ATTACH on PairingWS" no_extra r
    else if is_attached a
    then send_err ws "wrong_ws" "SessionWS already attached" no_extra r
    else if not (daemon_id === r.daemon_id)
    then reject ws "bad_frame" "SESSION_ATTACH daemon_id mismatch" r
    else elim r.daemon [
      | none ↦ send_err ws "daemon_offline" "no daemon" no_extra r
      | some _ ↦ draw_session env ws a (evict_resume r)
    ]

unfoldable pub handle_session_attach : Env → ℕ → Frame → Room → Room
unfolding is_zero_route reject parse_json_object text_field field_is is_daemon_id att owner_mismatch
    close send_err count_kinds lru_resume close_bind new_route_id route_hex write_att upsert_bind
    arm_resume send
handle_session_attach env ws frame r =
    let req = parse_json_object env.parse frame.payload in
    let daemon_id = text_field "daemon_id" req in
    if not (is_zero_route frame.route_id)
    then reject ws "bad_token" "invalid SESSION_ATTACH payload" r
    else if bad_version req || not (is_daemon_id daemon_id)
    then reject ws "bad_token" "invalid SESSION_ATTACH payload" r
    else with_phone ws "SESSION_ATTACH on non-phone websocket" (attach_session env ws daemon_id) r
