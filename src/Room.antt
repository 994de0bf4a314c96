-- ===== src/Room.antt =====
-- workers/pairfob-origin/src/room/core.ts and room/types.ts: the state of a room, its sockets, and
-- the frames that leave it. The handlers and their proofs are in the modules below.
pub mod Core
pub mod Traffic
pub mod Counts
pub mod Attached
pub mod Written
pub mod Sound
pub mod Enrollment
pub mod Gates
pub mod Alarms
pub mod Session
pub mod Verdict
pub mod Pairing
pub mod PairAttach
pub mod DaemonHello
pub mod Fwd
pub mod Ws
pub mod System
use pairfob.Prelude.{
  ℕ, ◌+◌, String, Bool, true, false, ◌||◌, Option, none, some, List, [], ◌∷◌, ◌++◌, ◌==◌, ◌===◌,
  if◌then◌else◌, length, lookup, insert, delete,
}
use pairfob.Store.{Store, delete_bind_row}
use pairfob.Attachment.{Attachment}
use pairfob.Json.{Json, text, number, Fields, Parsed}
use pairfob.Hex.{zero_route, bytes_to_hex, hex_to_route}
use pairfob.Envelope.Typ
use pairfob.Envelope.{Frame}

-- What `ws.send` was given: a body that `JSON.stringify` writes, a raw payload, or a whole wire.
pub data Sent : Type 0 where
  json_frame : (typ : ℕ) → (route_id : List ℕ) → Fields → Sent
  raw_frame : (typ : ℕ) → (route_id payload : List ℕ) → Sent
  wire : List ℕ → Sent

-- A websocket object. `sent` has the newest frame first; a closed or broken socket takes no frame;
-- `closed` is the reason of the first close, after which the runtime may still list the socket.
pub record Socket : Type 0 where
  pub id : ℕ
  pub attachment : Option Attachment
  pub sent : List Sent
  pub closed : Option String
  pub broken : Bool

-- The entry of a route in the hot-path index.
pub record RouteTarget : Type 0 where
  pub socket : ℕ
  pub route_id : List ℕ

-- The calls of the metrics sink, of the pairing index and of the claim witness, newest first.
pub data Call : Type 0 where
  metric_bind : (kind : String) → Call
  metric_close : (code kind : String) → Call
  metric_fwd : (bytes : ℕ) → Call
  metric_alarm_late : (ms : ℕ) → Call
  index_insert : (pair_loc pair_ref : String) → (exp : ℕ) → Call
  index_remove : (pair_loc pair_ref : String) → Call
  claim_confirm : (account route_id : String) → Call

-- `clock` is what `now()` answers, `draw` the number of the next request for random bytes.
pub record Room : Type 0 where
  pub daemon_id : String
  pub has_index : Bool
  pub clock : ℕ
  pub draw : ℕ
  pub store : Store
  pub last_prune_at : ℕ
  pub sockets : List Socket
  pub routes : List (String × RouteTarget)
  pub daemon : Option ℕ
  pub reconnect_hash : String
  pub grant_id : String
  pub enrolled : Bool
  pub fwd_bytes : ℕ
  pub fwd_since_write : ℕ
  pub close_count : ℕ
  pub alarm_late_max_ms : ℕ
  pub alarm_late_count : ℕ
  pub calls : List Call

pub data InsertResult : Type 0 where
  inserted conflict failed : InsertResult

-- What the platform and the other services answer. `others` is all that runs while a handler awaits;
-- `alarm_throws` tells whether the write of the platform alarm throws there.
pub record Env : Type 0 where
  pub random_bytes : (draw size : ℕ) → List ℕ
  pub parse : List ℕ → Parsed
  pub utf8 : String → List ℕ
  pub sha256_hex : String → String
  pub index_answer : Room → String → InsertResult
  pub alarm_throws : Room → Bool
  pub others : Room → Room

-- The first socket with the id is changed.
abbrev pub modify : ℕ → (Socket → Socket) → List Socket → List Socket
modify i f [] = []
modify i f (s ∷ ss) = if s.id == i then f s ∷ ss else s ∷ modify i f ss

abbrev pub find_socket : ℕ → List Socket → Option Socket
find_socket i [] = none
find_socket i (s ∷ ss) = if s.id == i then some s else find_socket i ss

abbrev pub is_some {ℓ} : {A : Type ℓ} → Option A → Bool
is_some none = false
is_some (some _) = true

abbrev pub is_daemon_socket : Room → ℕ → Bool
is_daemon_socket r ws = elim r.daemon [ none ↦ false | some d ↦ d == ws ]

abbrev pub push_sent : Sent → Socket → Socket
push_sent f s = if is_some s.closed || s.broken then s else record s { sent = f ∷ s.sent }

abbrev pub mark_closed : String → Socket → Socket
mark_closed reason s = elim s.closed [ none ↦ record s { closed = some reason } | some _ ↦ s ]

unfoldable pub send : ℕ → Sent → Room → Room
send ws f r = record r { sockets = modify ws (push_sent f) r.sockets }

unfoldable pub close : ℕ → String → Room → Room
close ws reason r = record r { sockets = modify ws (mark_closed reason) r.sockets }

abbrev attachment_of : Option Socket → Option Attachment
attachment_of none = none
attachment_of (some s) = s.attachment

unfoldable pub att : Room → ℕ → Option Attachment
att r ws = attachment_of (find_socket ws r.sockets)

unfoldable pub remember_route : String → ℕ → Room → Room
remember_route hex ws r = record r {
  routes = insert hex (record { socket = ws; route_id = hex_to_route hex }) r.routes;
}

abbrev pub forget_route : String → Room → Room
forget_route hex r = if hex === "" then r else record r { routes = delete hex r.routes }

abbrev pub remember_if : String → ℕ → Room → Room
remember_if hex ws r = if hex === "" then r else remember_route hex ws r

abbrev pub old_route : Option Attachment → String
old_route none = ""
old_route (some a) = a.route_id

abbrev pub set_attachment : Attachment → Socket → Socket
set_attachment a s = record s { attachment = some a }

unfoldable pub write_att : ℕ → Attachment → Room → Room
unfolding remember_route
write_att ws a r =
    let forgot = forget_route (old_route (att r ws)) r in
    remember_if a.route_id ws (record forgot { sockets = modify ws (set_attachment a) r.sockets })

unfoldable pub delete_bind : String → Room → Room
delete_bind route_id r = record r {
  routes = delete route_id r.routes;
  store = delete_bind_row r.store route_id;
}

-- `extra` of sendErr; an absent text is empty, which the source leaves out too.
pub record Extra : Type 0 where
  pub route_id : Option (List ℕ)
  pub pair_ref : String
  pub retry_after_ms : Option ℕ

abbrev pub no_extra : Extra
no_extra = record { route_id = none; pair_ref = ""; retry_after_ms = none }

abbrev pub with_pair_ref : String → Extra
with_pair_ref pair_ref = record { route_id = none; pair_ref = pair_ref; retry_after_ms = none }

abbrev pub with_route : List ℕ → Extra
with_route rid = record { route_id = some rid; pair_ref = ""; retry_after_ms = none }

abbrev route_field : Option (List ℕ) → Fields
route_field none = []
route_field (some rid) = if length rid == 16 then ("route_id", text (bytes_to_hex rid)) ∷ [] else []

abbrev pair_ref_field : String → Fields
pair_ref_field s = if s === "" then [] else ("pair_ref", text s) ∷ []

abbrev retry_field : Option ℕ → Fields
retry_field none = []
retry_field (some ms) = ("retry_after_ms", number ms) ∷ []

abbrev route_or_zero : Option (List ℕ) → List ℕ
route_or_zero none = zero_route
route_or_zero (some rid) = rid

unfoldable pub error_frame : (code message : String) → Extra → Sent
error_frame code message extra = json_frame Typ.error (route_or_zero extra.route_id) (
    ("v", number 2)
    ∷ ("code", text code)
    ∷ ("message", text message)
    ∷ (route_field extra.route_id
        ++ pair_ref_field extra.pair_ref
        ++ retry_field extra.retry_after_ms))

unfoldable pub send_err : ℕ → (code message : String) → Extra → Room → Room
unfolding send
send_err ws code message extra r = send ws (error_frame code message extra) r

-- An error, and then the close of the socket with the same code.
unfoldable pub reject : ℕ → (code message : String) → Room → Room
unfolding send_err close
reject ws code message r = close ws code (send_err ws code message no_extra r)

abbrev pub log_call : Call → Room → Room
log_call c r = record r { calls = c ∷ r.calls }

-- The ids of the sockets that the runtime lists, in its order.
abbrev pub ids : List Socket → List ℕ
ids [] = []
ids (s ∷ ss) = s.id ∷ ids ss

-- for (const ws of this.sockets()) r = body(ws, r)
abbrev pub for_sockets : List ℕ → (ℕ → Room → Room) → Room → Room
for_sockets [] body r = r
for_sockets (ws ∷ rest) body r = for_sockets rest body (body ws r)
