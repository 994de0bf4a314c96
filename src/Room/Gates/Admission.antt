-- ===== src/Room/Gates/Admission.antt =====
-- From a ticket of Room.issueTicket to the upgrade that presents it.
use pairfob.Prelude.{
  ℕ, ◌+◌, ◌≡◌, refl, ◌∙◌, String, Option-cases, inl, inr, true, false, some, arith, ltb, ◌===◌,
  length,
}
use pairfob.Hex.RoundTrip.{AreBytes}
use pairfob.Constants.{ticket_ms, is_ticket}
use pairfob.Constants.Tokens.{is_ticket_nonempty, bytes_to_hex-IsTicket}
use pairfob.Store.{
  load_slot, ticket_15s, consume_ticket, insert_ticket, upsert_alarm, TicketRow,
  set_alarm_if_changed,
}
use pairfob.Store.Tickets.{consume-insert}
use pairfob.Attachment
use pairfob.Attachment.{Attachment, new_attachment}
use pairfob.Room.{Room, Env}
use pairfob.Room.Traffic.{sync_heap_alarm}
use pairfob.Room.Gates.{
  gate_allowed, issue_ticket, consume_upgrade, issued, random_hex, note_gate_attempt,
}
use pairfob.Room.Gates.Tickets.{tickets-note, consume_tickets}

tickets-sync : (r : Room) → (sync_heap_alarm r).store.tickets ≡ r.store.tickets
unfolding sync_heap_alarm set_alarm_if_changed
tickets-sync r = ground arith

admitted_from :
    (ticket account owner : String) (row : TicketRow) (r : Room)
    → (ticket === "") ≡ false
    → is_ticket ticket ≡ true
    → gate_allowed r ≡ true
    → (consume_ticket r.store ticket r.clock).1 ≡ some row
    → (consume_upgrade (some ticket) "client" account owner r).attachment
      ≡ some (new_attachment Attachment.phone r.clock account owner 0)
unfolding consume_upgrade
admitted_from ticket account owner row r full shape opens hit = ground arith

abbrev KeepTickets : Env → Type 0
KeepTickets env = (s : Room) → (env.others s).store.tickets ≡ s.store.tickets

abbrev row_of : (ticket pair_ref : String) → Room → TicketRow
row_of ticket pair_ref r = record {
  ticket = ticket;
  pair_ref = pair_ref;
  deadline = r.clock + ticket_ms;
}

-- The room that the await of issueTicket starts in.
abbrev stored : Env → (pair_ref : String) → Room → Room
stored env pair_ref r =
    let ticket = random_hex env 16 r in
    let row = insert_ticket r.store (row_of ticket pair_ref r) in
    record r { store = upsert_alarm row ticket_15s ticket (r.clock + ticket_ms); draw = r.draw + 1 }

tickets-stored :
    (env : Env) (pair_ref : String) (r : Room)
    → KeepTickets env
    → (note_gate_attempt true (env.others (sync_heap_alarm (stored env pair_ref r)))).store.tickets
      ≡ (insert_ticket r.store (row_of (random_hex env 16 r) pair_ref r)).tickets
unfolding insert_ticket upsert_alarm
tickets-stored env pair_ref r keeps =
    tickets-note true (env.others (sync_heap_alarm (stored env pair_ref r)))
    ∙ keeps (sync_heap_alarm (stored env pair_ref r))
    ∙ tickets-sync (stored env pair_ref r)

issued_row :
    (env : Env) (pair_loc ticket pair_ref : String) (r : Room)
    → KeepTickets env
    → (issue_ticket env pair_loc r).answer ≡ issued ticket pair_ref
    → (ticket ≡ random_hex env 16 r)
      × ((issue_ticket env pair_loc r).room.store.tickets
          ≡ (insert_ticket r.store (row_of ticket pair_ref r)).tickets)
unfolding issue_ticket load_slot
issued_row env pair_loc ticket pair_ref r keeps h = elim (Option-cases r.store.slot) [
  | inl e ↦ absurd (ground arith)
  | inr (slot, e) ↦ ground (arith, tickets-stored env slot.pair_ref r keeps)
]

-- A ticket that is issued admits whoever presents it as a client before fifteen seconds are over and
-- outside cooldown, where the work at the await leaves the tickets alone and sixteen bytes are drawn.
pub issued_ticket_admits :
    (env : Env) (pair_loc ticket pair_ref account owner : String) (later : ℕ) (r : Room)
    → KeepTickets env
    → AreBytes (env.random_bytes r.draw 16)
    → length (env.random_bytes r.draw 16) ≡ 16
    → (issue_ticket env pair_loc r).answer ≡ issued ticket pair_ref
    → ltb later (r.clock + ticket_ms) ≡ true
    → gate_allowed (record (issue_ticket env pair_loc r).room { clock = later }) ≡ true
    → (consume_upgrade
        (some ticket)
        "client"
        account
        owner
        (record (issue_ticket env pair_loc r).room { clock = later })).attachment
      ≡ some (new_attachment Attachment.phone later account owner 0)
issued_ticket_admits env pair_loc ticket pair_ref account owner later r keeps bytes size h early
      opens =
    let (drawn, left) = issued_row env pair_loc ticket pair_ref r keeps h in
    let next = record (issue_ticket env pair_loc r).room { clock = later } in
    let row = row_of ticket pair_ref r in
    let shape : is_ticket ticket ≡ true =
      rw drawn (bytes_to_hex-IsTicket (env.random_bytes r.draw 16) bytes size) in
    let hit : (consume_ticket next.store ticket later).1 ≡ some row =
      consume_tickets next.store (insert_ticket r.store row) ticket later left
      ∙ consume-insert r.store row later
      ∙ rw early refl in
    admitted_from ticket account owner row next (is_ticket_nonempty ticket shape) shape opens hit
