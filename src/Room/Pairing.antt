-- ===== src/Room/Pairing.antt =====
-- workers/pairfob-origin/src/room/pairing.ts: the daemon opens and closes the pairing slot. The
-- lock makes each of the two a whole step among themselves.
pub mod Slot
use Prim.Native.String
use pairfob.Prelude.{
  ℕ, zero, suc, ◌+◌, ◌*◌, ◌/◌, String, Bool, true, false, not, ◌&&◌, ◌||◌, Option, none, some, List,
  [], ◌∷◌, ◌==◌, ◌===◌, leb, if◌then◌else◌,
}
use pairfob.Store.{
  Store, PairSlot, BindRow, load_slot, put_slot, delete_slot, upsert_bind, upsert_alarm, pair_ttl,
}
use pairfob.Attachment
use pairfob.Attachment.{
  Attachment, is_phone, is_pairing, is_resumehello, is_established, is_pairing_mode,
  is_session_mode, owner_mismatch,
}
use pairfob.Hex.{Drawn, is_zero_route, route_hex, new_route_id, bytes_to_hex}
use pairfob.Crockford.{mint_loc}
use pairfob.Json.{
  Fields, text, number, boolean, parse_json_object, text_field, number_field, field_is,
  field_absent_or,
}
use pairfob.Envelope.Typ
use pairfob.Envelope.{Frame}
use pairfob.Constants.{
  protocol, is_pair_ref, min_ttl_s, max_ttl_s, default_ttl_ms, loc_mint_tries, max_pairing,
}
use pairfob.Room.{
  Room, Env, json_frame, send, send_err, reject, close, att, write_att, no_extra, with_pair_ref,
  is_daemon_socket, for_sockets, ids, log_call, index_insert, index_remove, InsertResult, inserted,
  conflict, failed,
}
use pairfob.Room.Core.{index_forget}
use pairfob.Room.Traffic.{close_bind, note_bind}
use pairfob.Room.Counts.{count_kinds}
use pairfob.Room.Gates.{gate_check, note_gate_attempt}
use pairfob.Room.Alarms.{schedule, clear_kind_ref, arm_pair_first, close_pairing}
use pairfob.Room.Session.{bad_version, with_phone, late_hello, send_daemon}

-- What a PAIR_OPEN asks for.
pub record Request : Type 0 where
  pub ws : ℕ
  pub frame : Frame
  pub pair_ref : String
  pub ttl_ms : ℕ
  pub deadline : ℕ

abbrev pub unavailable : Request → (message : String) → Room → Room
unavailable q message r = send_err q.ws "index_unavailable" message (with_pair_ref q.pair_ref) r

-- The slot is written; the platform alarm follows, unless its write throws.
abbrev pub commit_slot : Request → PairSlot → Room → Room
commit_slot q slot r =
    schedule pair_ttl q.pair_ref q.deadline (record r { store = put_slot r.store slot })

abbrev pub commit_thrown : Request → PairSlot → Room → Room
commit_thrown q slot r = record r {
  store = upsert_alarm (put_slot r.store slot) pair_ttl q.pair_ref q.deadline;
}

abbrev pub restore : Option PairSlot → Room → Room
restore none r = record r { store = delete_slot r.store }
restore (some slot) r = record r { store = put_slot r.store slot }

abbrev pub opened : Request → (pair_loc : String) → Room → Room
opened q pair_loc r =
    send q.ws
      (json_frame Typ.pair_open q.frame.route_id (
        ("v", number protocol)
        ∷ ("op", text "CreatePairing")
        ∷ ("ok", boolean true)
        ∷ ("pair_ref", text q.pair_ref)
        ∷ ("pair_loc", text pair_loc)
        ∷ ("ttl_s", number ((q.ttl_ms + 500) / 1000))
        ∷ []))
      r

-- What the index answers once others have run; the call is noted.
abbrev pub insert_call : Env → Request → (pair_loc : String) → Room → Room
insert_call env q pair_loc r = env.others (log_call (index_insert pair_loc q.pair_ref q.deadline) r)

abbrev pub is_inserted : InsertResult → Bool
is_inserted inserted = true
is_inserted _ = false

-- The slot is there already: its deadline moves.
unfoldable pub refresh : Env → Request → PairSlot → Room → Room
refresh env q slot r =
    let moved = record slot { deadline = q.deadline } in
    let committed = env.others (commit_slot q moved r) in
    let asked = insert_call env q slot.pair_loc committed in
    if env.alarm_throws r
    then unavailable q "pairing slot refresh failed" (restore (some slot) (commit_thrown q moved r))
    else if not (is_inserted (env.index_answer committed slot.pair_loc))
    then unavailable q "pairing index refresh failed" (restore (some slot) asked)
    else if not (is_daemon_socket asked q.ws)
    then log_call (index_remove slot.pair_loc q.pair_ref) asked
    else opened q slot.pair_loc asked

abbrev pub replace_pairing : ℕ → Room → Room
replace_pairing ws r = elim (att r ws) [
  | none ↦ r
  | some a ↦
      if is_pairing a.kind
      then close_bind ws "pairing_replaced" "another computer opened pairing" true r
      else r
]

-- The slot before is taken down.
abbrev pub replace_slot : Env → Request → Option PairSlot → Room → Room
replace_slot env q none r = r
replace_slot env q (some old) r = env.others (
    log_call (index_remove old.pair_loc old.pair_ref) (
      send_err q.ws "pairing_replaced" "another computer opened pairing"
        (with_pair_ref old.pair_ref) (for_sockets (ids r.sockets) replace_pairing r)))

abbrev pub settle : Env → Request → Option PairSlot → (pair_loc : String) → Room → Room
settle env q existing pair_loc r =
    if is_daemon_socket r q.ws
    then opened q pair_loc (replace_slot env q existing r)
    else restore existing (env.others (log_call (index_remove pair_loc q.pair_ref) r))

-- One round of the loop that mints a location; `retry` is the rest of it.
abbrev pub open_round : Env → Request → Option PairSlot → (Room → Room) → Room → Room
open_round env q existing retry r =
    let pair_loc = mint_loc (env.random_bytes r.draw 6) in
    let drawn = record r { draw = r.draw + 1 } in
    let slot : PairSlot = record {
      pair_ref = q.pair_ref;
      pair_loc = pair_loc;
      deadline = q.deadline;
    } in
    let committed = env.others (commit_slot q slot drawn) in
    let asked = insert_call env q pair_loc committed in
    if env.alarm_throws drawn
    then unavailable q "pairing slot commit failed" (restore existing (commit_thrown q slot drawn))
    else elim (env.index_answer committed pair_loc) [
      | inserted ↦ settle env q existing pair_loc asked
      | failed ↦ unavailable q "pairing index insert failed" (restore existing asked)
      | conflict ↦ retry (restore existing asked)
    ]

unfoldable pub open_loop : ℕ → Env → Request → Option PairSlot → Room → Room
open_loop zero env q existing r = unavailable q "pairing index insert failed" r
open_loop (suc tries) env q existing r =
    open_round env q existing (open_loop tries env q existing) r

abbrev pub open_slot : Env → Request → Room → Room
open_slot env q r =
    let existing = load_slot r.store in
    let fresh = open_loop loc_mint_tries env q existing r in
    if not r.has_index
    then send_err q.ws "index_unavailable" "pairing index missing" (with_pair_ref q.pair_ref) r
    else elim existing [
      | none ↦ fresh
      | some slot ↦ if slot.pair_ref === q.pair_ref then refresh env q slot r else fresh
    ]

abbrev pub bad_open : Option Fields → Bool
bad_open none = true
bad_open (some req) =
    not (field_is "v" protocol req) || not (field_absent_or "op" "CreatePairing" req)

-- A lifetime out of bounds is the default one.
abbrev pub ttl_ms_of : ℕ → ℕ
ttl_ms_of ttl_s =
    if leb min_ttl_s ttl_s && leb ttl_s max_ttl_s then ttl_s * 1000 else default_ttl_ms

unfoldable pub handle_pair_open : Env → ℕ → Frame → Room → Room
unfolding is_zero_route reject parse_json_object text_field number_field field_is field_absent_or
    is_pair_ref send_err load_slot put_slot delete_slot schedule upsert_alarm mint_loc refresh
    open_loop att close_bind send
handle_pair_open env ws frame r =
    let req = parse_json_object env.parse frame.payload in
    let pair_ref = text_field "pair_ref" req in
    let ttl_ms = ttl_ms_of (number_field "ttl_s" 180 req) in
    let q : Request = record {
      ws = ws;
      frame = frame;
      pair_ref = pair_ref;
      ttl_ms = ttl_ms;
      deadline = r.clock + ttl_ms;
    } in
    if not (is_zero_route frame.route_id)
    then reject ws "bad_token" "PAIR_OPEN route_id must be zero" r
    else if bad_open req
    then send_err ws "bad_token" "invalid pairing slot" no_extra r
    else if not (is_pair_ref pair_ref)
    then send_err ws "bad_token" "invalid pair_ref" no_extra r
    else if not (is_daemon_socket r ws)
    then send_err ws "unbound" "no daemon" no_extra r
    else if not (text_field "daemon_id" req === r.daemon_id)
    then send_err ws "unbound" "daemon_id does not match websocket" no_extra r
    else open_slot env q r

-- The index is awaited before the slot goes.
abbrev pub close_slot : Env → (pair_ref : String) → PairSlot → Room → Room
close_slot env pair_ref slot r =
    if slot.pair_ref === pair_ref
    then (let closed =
          for_sockets (ids r.sockets) (close_pairing pair_ref "unpaired" "pairing closed") r in
        let removed = env.others (index_forget slot.pair_loc slot.pair_ref closed) in
        clear_kind_ref pair_ttl pair_ref (record removed { store = delete_slot removed.store }))
    else r

unfoldable pub handle_pair_close : Env → ℕ → Frame → Room → Room
unfolding is_zero_route send_err parse_json_object text_field field_is is_pair_ref load_slot att
    close_bind delete_slot clear_kind_ref
handle_pair_close env ws frame r =
    let req = parse_json_object env.parse frame.payload in
    let pair_ref = text_field "pair_ref" req in
    if not (is_zero_route frame.route_id)
    then send_err ws "bad_token" "invalid pair_ref" no_extra r
    else if bad_version req || not (is_pair_ref pair_ref)
    then send_err ws "bad_token" "invalid pair_ref" no_extra r
    else if not (is_daemon_socket r ws)
    then send_err ws "unbound" "no daemon" no_extra r
    else elim (load_slot r.store) [ none ↦ r | some slot ↦ close_slot env pair_ref slot r ]
