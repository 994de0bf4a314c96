-- ===== src/Room/Gates.antt =====
-- workers/pairfob-origin/src/room/core.ts: the gate of a room, pairing tickets and the upgrade, with
-- the websocket upgrade of room/http.ts. The room's store has the ledger, so the throttle is there.
pub mod Admission
pub mod Tickets
use pairfob.Prelude.{
  ℕ, suc, ◌+◌, ◌≤◌, String, Bool, true, false, not, ◌&&◌, ◌||◌, Option, none, some, List, [], ◌∷◌,
  ◌++◌, ◌==◌, ◌===◌, leb, if◌then◌else◌, max,
}
use pairfob.Store.{load_slot, insert_ticket, consume_ticket, upsert_alarm, hello_5s, ticket_15s}
use pairfob.Attachment.{Attachment, SocketRole, new_attachment}
use pairfob.Attachment
use pairfob.Gate.{GateDecision, check, record_attempt}
use pairfob.Hex.{bytes_to_hex}
use pairfob.Constants.{ticket_ms, is_ticket, is_daemon_id, max_pending_hello, hello_grace_ms}
use pairfob.Room.{Room, Socket, Env, ids}
use pairfob.Room.Core.{attach_socket}
use pairfob.Room.Traffic.{sync_heap_alarm}
use pairfob.Room.Counts.{count_pending_hellos}

unfoldable pub gate_check : Room → GateDecision
unfolding check
gate_check r = check r.store r.clock

unfoldable pub gate_allowed : Room → Bool
unfolding check
gate_allowed r = (check r.store r.clock).allowed

unfoldable pub note_gate_attempt : (ok : Bool) → Room → Room
unfolding record_attempt
note_gate_attempt ok r =
    let t =
      record_attempt (record { store = r.store; last_prune_at = r.last_prune_at }) r.clock ok in
    record r { store = t.store; last_prune_at = t.last_prune_at }

pub data Issued : Type 0 where
  refused : Issued
  issued : (pair_ticket pair_ref : String) → Issued

pub record TicketAnswer : Type 0 where
  pub room : Room
  pub answer : Issued

-- A text from the entropy source: its bytes in hex, and the next draw.
abbrev pub random_hex : Env → ℕ → Room → String
random_hex env size r = bytes_to_hex (env.random_bytes r.draw size)

-- The await of the platform alarm lets other work run before the attempt is noted.
unfoldable pub issue_ticket : Env → (pair_loc : String) → Room → TicketAnswer
unfolding gate_allowed load_slot note_gate_attempt insert_ticket upsert_alarm sync_heap_alarm
issue_ticket env pair_loc r =
    let miss : TicketAnswer = record { room = note_gate_attempt false r; answer = refused } in
    if not (gate_allowed r)
    then record { room = r; answer = refused }
    else elim (load_slot r.store) [
      | none ↦ miss
      | some slot ↦
          if not (slot.pair_loc === pair_loc) || leb slot.deadline r.clock
          then miss
          else (let ticket = random_hex env 16 r in
              let deadline = r.clock + ticket_ms in
              let row =
                insert_ticket r.store
                  (record { ticket = ticket; pair_ref = slot.pair_ref; deadline = deadline }) in
              let armed = upsert_alarm row ticket_15s ticket deadline in
              let synced =
                env.others (sync_heap_alarm (record r { store = armed; draw = r.draw + 1 })) in
              record { room = note_gate_attempt true synced; answer = issued ticket slot.pair_ref })
    ]

pub record Upgrade : Type 0 where
  pub room : Room
  pub attachment : Option Attachment

abbrev pub role_of : String → SocketRole
role_of role = if role === "daemon" then Attachment.daemon else Attachment.phone

abbrev pub admitted : (role account owner : String) → Room → Upgrade
admitted role account owner r = record {
  room = r;
  attachment = some (new_attachment (role_of role) r.clock account owner 0);
}

abbrev pub turned_away : Room → Upgrade
turned_away r = record { room = note_gate_attempt false r; attachment = none }

-- `params.get("pair_ticket")`, and the account and owner behind the request.
unfoldable pub consume_upgrade :
    (ticket : Option String) → (role account owner : String) → Room → Upgrade
unfolding gate_allowed note_gate_attempt consume_ticket is_ticket new_attachment
consume_upgrade none role account owner r = admitted role account owner r
consume_upgrade (some ticket) role account owner r =
    if ticket === ""
    then admitted role account owner r
    else if not (gate_allowed r)
    then record { room = r; attachment = none }
    else if not (is_ticket ticket) || not (role === "client")
    then turned_away r
    else (let (store, row) = consume_ticket r.store ticket r.clock in
        elim row [
          | none ↦ turned_away r
          | some _ ↦
              admitted role account owner (note_gate_attempt true (record r { store = store }))
        ])

-- The id of a new websocket object: one that no other has.
abbrev pub fresh_id : List ℕ → ℕ
fresh_id [] = 0
fresh_id (i ∷ is') = max (i + 1) (fresh_id is')

-- acceptWebSocket, serializeAttachment and attachSocket
unfoldable pub accept : Attachment → Room → Room
unfolding attach_socket
accept a r =
    let s : Socket = record {
      id = fresh_id (ids r.sockets);
      attachment = some a;
      sent = [];
      closed = none;
      broken = false;
    } in
    attach_socket (record r { sockets = r.sockets ++ s ∷ [] })

pub data UpgradeStatus : Type 0 where
  switching bad_token rate_limited unpaired : UpgradeStatus

pub record UpgradeAnswer : Type 0 where
  pub room : Room
  pub status : UpgradeStatus

-- The upgrade branch of handleRoomFetch; `has_loc` is whether the query names a pairing location.
unfoldable pub upgrade :
    Env
    → (has_loc : Bool) → (role daemon_id : String) → (ticket : Option String)
    → (account owner : String) → Room
    → UpgradeAnswer
unfolding is_daemon_id count_pending_hellos consume_upgrade upsert_alarm sync_heap_alarm accept
upgrade env has_loc role daemon_id ticket account owner r =
    if has_loc
    then record { room = r; status = unpaired }
    else if not (role === "daemon") && not (role === "client")
    then record { room = r; status = bad_token }
    else if not (is_daemon_id daemon_id) || not (daemon_id === r.daemon_id)
    then record { room = r; status = bad_token }
    else if leb max_pending_hello (count_pending_hellos r)
    then record { room = r; status = rate_limited }
    else (let consumed = consume_upgrade ticket role account owner r in
        elim consumed.attachment [
          | none ↦ record { room = consumed.room; status = unpaired }
          | some a ↦
              let c = consumed.room in
              let armed =
                upsert_alarm c.store hello_5s (random_hex env 8 c)
                  (a.created_ms + hello_grace_ms) in
              let synced =
                env.others (sync_heap_alarm (record c { store = armed; draw = c.draw + 1 })) in
              record { room = accept a synced; status = switching }
        ])
