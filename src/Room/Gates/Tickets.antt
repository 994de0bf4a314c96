-- ===== src/Room/Gates/Tickets.antt =====
-- Pairing tickets at the upgrade.
use pairfob.Prelude.{
  ℕ, ◌≡◌, ◌∙◌, String, Bool, true, false, none, some, arith, ◌===◌, Option-cases, inl, inr,
}
use pairfob.Store.{Store, TicketRow, consume_ticket, record_gate_attempt, prune_gate_attempts}
use pairfob.Store.Tickets.{consume_twice}
use pairfob.Gate.{maybe_prune, record_attempt}
use pairfob.Attachment.{Attachment}
use pairfob.Room.{Room}
use pairfob.Room.Gates.{note_gate_attempt, consume_upgrade}

pub tickets-note : (ok : Bool) (r : Room) → (note_gate_attempt ok r).store.tickets ≡ r.store.tickets
unfolding note_gate_attempt record_attempt maybe_prune record_gate_attempt prune_gate_attempts
tickets-note ok r = ground arith

-- A ticket is looked up in the table and nowhere else.
pub consume_tickets :
    (s t : Store) (ticket : String) (now : ℕ)
    → s.tickets ≡ t.tickets
    → (consume_ticket s ticket now).1 ≡ (consume_ticket t ticket now).1
unfolding consume_ticket
consume_tickets s t ticket now e = ground (arith, e)

refused_without :
    (ticket role account owner : String) (r : Room)
    → (ticket === "") ≡ false
    → (consume_ticket r.store ticket r.clock).1 ≡ none
    → (consume_upgrade (some ticket) role account owner r).attachment ≡ none
unfolding consume_upgrade
refused_without ticket role account owner r full h = ground (arith, h)

admitted_consumed :
    (ticket role account owner : String) (r : Room) (a : Attachment)
    → (ticket === "") ≡ false
    → (consume_upgrade (some ticket) role account owner r).attachment ≡ some a
    → ((row : TicketRow) × ((consume_ticket r.store ticket r.clock).1 ≡ some row))
      × ((consume_upgrade (some ticket) role account owner r).room.store.tickets
          ≡ (consume_ticket r.store ticket r.clock).0.tickets)
unfolding consume_upgrade
admitted_consumed ticket role account owner r a full h =
    elim (Option-cases (consume_ticket r.store ticket r.clock).1) [
      | inl miss ↦ absurd (ground (arith, refused_without ticket role account owner r full miss))
      | inr (row, hit) ↦ (
        (row, hit),
        ground (
          arith,
          tickets-note true (record r { store = (consume_ticket r.store ticket r.clock).0 }),
          hit,
        ),
      )
    ]

-- A ticket admits one websocket: whoever presents it again, at any later time, is turned away.
pub ticket_admits_once :
    (ticket role account owner role' account' owner' : String) (later : ℕ) (r : Room)
    (a : Attachment)
    → (ticket === "") ≡ false
    → (consume_upgrade (some ticket) role account owner r).attachment ≡ some a
    → (consume_upgrade
        (some ticket)
        role'
        account'
        owner'
        (record (consume_upgrade (some ticket) role account owner r).room {
          clock = later;
        })).attachment
      ≡ none
ticket_admits_once ticket role account owner role' account' owner' later r a full h =
    let ((row, hit), left) = admitted_consumed ticket role account owner r a full h in
    let next = record (consume_upgrade (some ticket) role account owner r).room { clock = later } in
    refused_without ticket role' account' owner' next full (
      consume_tickets next.store (consume_ticket r.store ticket r.clock).0 ticket later left
      ∙ consume_twice r.store ticket r.clock later row hit)
