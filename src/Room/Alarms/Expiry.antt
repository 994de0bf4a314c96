-- ===== src/Room/Alarms/Expiry.antt =====
-- The pairing slot at its deadline (the pair_ttl row of the platform alarm).
use pairfob.Prelude.{
  ℕ, ◌-◌, ◌≤◌, ◌≡◌, inl, inr, ◌∙◌, true, false, none, some, List, [], ◌∷◌, arith, All, Bool-cases,
}
use pairfob.Store.{
  PairSlot, AlarmRow, pair_ttl, is_alarm, delete_alarm_ids, set_alarm_if_changed, has_id,
  due_alarms, expire_tickets,
}
use pairfob.Store.Alarms.{ids_of}
use pairfob.Room.{Room, Env}
use pairfob.Room.Traffic.{note_alarm_late, sync_heap_alarm, flush_fwd}
use pairfob.Room.Alarms.{apply_alarm, apply_due, harvest_due, alarm}
use pairfob.Room.Alarms.Heap.{IsArmed, alarm_rearms}
use pairfob.Room.Alarms.Slot.{
  IsOver, left-IsOver, left-gone, has_deadline, applied_deadline, apply_alarm-IsLeft,
}

module _ (env : Env) (slot : PairSlot)
    (over : (r : Room) → IsOver slot r → IsOver slot (env.others r))
    (closed : (r : Room) → r.store.slot ≡ none → (env.others r).store.slot ≡ none) where
  gone-apply_due :
      (now : ℕ) (rows : List AlarmRow) (r : Room)
      → r.store.slot ≡ none
      → (apply_due env now rows r).store.slot ≡ none
  unfolding apply_due note_alarm_late
  gone-apply_due now [] r e = e
  gone-apply_due now (row ∷ rest) r e =
      let noted = note_alarm_late (now - row.at) r in
      let applied = apply_alarm row.kind row.ref now noted in
      gone-apply_due now rest (env.others applied)
        (closed applied (left-gone applied noted (apply_alarm-IsLeft row.kind row.ref now noted) e))

  apply_due-expires :
      (now : ℕ) (rows : List AlarmRow) (r : Room)
      → has_deadline slot.pair_ref rows ≡ true
      → IsOver slot r
      → (apply_due env now rows r).store.slot ≡ none
  unfolding apply_due note_alarm_late
  apply_due-expires now [] r h v = absurd (ground arith)
  apply_due-expires now (row ∷ rest) r h v =
      let noted = note_alarm_late (now - row.at) r in
      let applied = apply_alarm row.kind row.ref now noted in
      elim (Bool-cases (is_alarm pair_ttl slot.pair_ref row)) [
        | inl hit ↦
            gone-apply_due now rest (env.others applied)
              (closed applied (applied_deadline slot row now noted hit v))
        | inr miss ↦ apply_due-expires now rest (env.others applied) (ground (arith, miss, h)) (
            over applied
              (left-IsOver slot applied noted (apply_alarm-IsLeft row.kind row.ref now noted) v))
      ]

slot-alarm :
    (env : Env) (r : Room)
    → (alarm env r).store.slot ≡ (apply_due env r.clock (due_alarms r.store r.clock) r).store.slot
unfolding alarm harvest_due sync_heap_alarm delete_alarm_ids expire_tickets flush_fwd
    set_alarm_if_changed
slot-alarm env r = ground arith

-- When the platform alarm fires and the deadline of the open slot is among the rows that are due,
-- the slot is gone afterwards; every row that was due is gone too, and the alarm is set anew for
-- the least deadline of the rest. What runs while the rows are awaited opens no other slot, opens
-- none where there is none, and does not turn the clock back before the deadline.
pub alarm_expires_slot :
    (env : Env) (slot : PairSlot) (r : Room)
    → ((s : Room) → IsOver slot s → IsOver slot (env.others s))
    → ((s : Room) → s.store.slot ≡ none → (env.others s).store.slot ≡ none)
    → r.store.slot ≡ some slot
    → slot.deadline ≤ r.clock
    → has_deadline slot.pair_ref (due_alarms r.store r.clock) ≡ true
    → ((alarm env r).store.slot ≡ none)
      × All
          (λ a. has_id (ids_of (due_alarms r.store r.clock)) a.id ≡ false)
          (alarm env r).store.alarms
      × IsArmed (alarm env r)
alarm_expires_slot env slot r over closed e late due =
    let gone : (alarm env r).store.slot ≡ none =
      slot-alarm env r
      ∙ apply_due-expires env slot over closed r.clock (due_alarms r.store r.clock) r due
          (inl e, late) in
    let (cleared, armed) = alarm_rearms env r in (gone, cleared, armed)
