-- ===== src/Store/Tickets.antt =====
-- Pairing tickets (memory-store.ts): single use and expiry.
use pairfob.Prelude.{
  ℕ, ◌≡◌, String, false, none, some, arith, ltb, ◌===◌, if◌then◌else◌, lookup-insert, lookup-delete,
  eq_refl, eq_iff,
}
use pairfob.Store.{Store, TicketRow, insert_ticket, consume_ticket}

-- A ticket is good once: whatever the outcome, what was just consumed is refused at any time.
pub consume_twice :
    (s : Store) (ticket : String) (now later : ℕ) (row : TicketRow)
    → (consume_ticket s ticket now).1 ≡ some row
    → (consume_ticket (consume_ticket s ticket now).0 ticket later).1 ≡ none
unfolding consume_ticket
consume_twice s ticket now later row h =
    ground (arith, lookup-delete ticket ticket s.tickets, eq_refl ticket)

-- A fresh ticket is accepted exactly before its deadline.
pub consume-insert :
    (s : Store) (row : TicketRow) (now : ℕ)
    → (consume_ticket (insert_ticket s row) row.ticket now).1
      ≡ (if ltb now row.deadline then some row else none)
unfolding consume_ticket insert_ticket
consume-insert s row now =
    ground (arith, lookup-insert row.ticket row.ticket row s.tickets, eq_refl row.ticket)

-- Consuming one ticket leaves every other as it was.
pub consume_other :
    (s : Store) (ticket other : String) (now later : ℕ)
    → (other === ticket) ≡ false
    → (consume_ticket (consume_ticket s ticket now).0 other later).1
      ≡ (consume_ticket s other later).1
unfolding consume_ticket
consume_other s ticket other now later h =
    ground (arith, lookup-delete ticket other s.tickets, eq_iff ticket other, eq_iff other ticket)
