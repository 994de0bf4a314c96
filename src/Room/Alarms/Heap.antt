-- ===== src/Room/Alarms/Heap.antt =====
-- The platform alarm against the table of deadlines (syncHeapAlarm, schedule, clearKindRef, alarm).
use pairfob.Prelude.{
  ℕ, ◌≤◌, ◌≡◌, refl, ap, ◌∙◌, String, false, not, some, List, [], ◌∷◌, ◌++◌, arith, keep, All,
}
use pairfob.Store.{
  AlarmKind, AlarmRow, upsert_alarm, min_at, min_alarm_at, due_alarms, has_id, delete_alarm_ids,
  expire_tickets, delete_alarms_by_kind_ref, is_alarm,
}
use pairfob.Store.Alarms.{
  IsLeast, min_at-IsLeast, alarm-set_alarm_if_changed, alarms-set_alarm_if_changed, ids_of,
}
use pairfob.Room.{Room, Env}
use pairfob.Room.Traffic.{sync_heap_alarm, flush_fwd}
use pairfob.Room.Alarms.{schedule, clear_kind_ref, apply_due, harvest_due, alarm}

-- The platform alarm is the least deadline of the table, and there is none for an empty table.
abbrev pub IsArmed : Room → Type 0
IsArmed r = (r.store.alarm ≡ min_at r.store.alarms) × IsLeast r.store.alarm r.store.alarms

sync_heap_alarm-IsArmed : (r : Room) → IsArmed (sync_heap_alarm r)
unfolding sync_heap_alarm min_alarm_at
sync_heap_alarm-IsArmed r =
    let next = min_at r.store.alarms in
    rw (alarm-set_alarm_if_changed r.store next, alarms-set_alarm_if_changed r.store next)
      (refl, min_at-IsLeast r.store.alarms)

least_of_snoc :
    (xs : List AlarmRow) (a : AlarmRow) → (m : ℕ) × (min_at (xs ++ a ∷ []) ≡ some m) × (m ≤ a.at)
least_of_snoc [] a = (a.at, refl, omega arith)
least_of_snoc (x ∷ xs) a = let (m, e, h) = least_of_snoc xs a in rw e (_, refl, omega arith)

-- A deadline that is scheduled is never missed: the platform alarm is set, no later than it, and no
-- later than any other deadline of the table.
pub schedule-IsArmed :
    (kind : AlarmKind) (ref : String) (at : ℕ) (r : Room)
    → ((m : ℕ) × ((schedule kind ref at r).store.alarm ≡ some m) × (m ≤ at))
      × IsArmed (schedule kind ref at r)
unfolding schedule upsert_alarm
schedule-IsArmed kind ref at r =
    let s = record r { store = upsert_alarm r.store kind ref at } in
    let armed = sync_heap_alarm-IsArmed s in
    let (m, e, h) =
      least_of_snoc (keep (λ a. not (is_alarm kind ref a)) r.store.alarms)
        (record { id = r.store.next_alarm_id; at = at; kind = kind; ref = ref }) in
    ((m, alarm-set_alarm_if_changed s.store (min_at s.store.alarms) ∙ e, h), armed)

-- Taking a deadline back leaves the platform alarm at the least of the others.
pub clear_kind_ref-IsArmed :
    (kind : AlarmKind) (ref : String) (r : Room) → IsArmed (clear_kind_ref kind ref r)
unfolding clear_kind_ref
clear_kind_ref-IsArmed kind ref r =
    sync_heap_alarm-IsArmed (record r { store = delete_alarms_by_kind_ref r.store kind ref })

All-kept_ids :
    (is' : List ℕ) (xs : List AlarmRow)
    → All (λ a. has_id is' a.id ≡ false) (keep (λ a. not (has_id is' a.id)) xs)
All-kept_ids is' [] = tt
All-kept_ids is' (a ∷ xs) = ground (arith, All-kept_ids is' xs)

store-flush_fwd : (r : Room) → (flush_fwd r).store ≡ r.store
unfolding flush_fwd
store-flush_fwd r = ground arith

alarms-alarm :
    (env : Env) (r : Room)
    → (alarm env r).store.alarms
      ≡ keep
          (λ a. not (has_id (ids_of (due_alarms r.store r.clock)) a.id))
          (apply_due env r.clock (due_alarms r.store r.clock) r).store.alarms
unfolding alarm harvest_due sync_heap_alarm delete_alarm_ids expire_tickets
alarms-alarm env r =
    alarms-set_alarm_if_changed (flush_fwd (harvest_due env r)).store _
    ∙ ap (λ s. s.alarms) (store-flush_fwd (harvest_due env r))

pub alarm_rearms :
    (env : Env) (r : Room)
    → All
        (λ a. has_id (ids_of (due_alarms r.store r.clock)) a.id ≡ false)
        (alarm env r).store.alarms
      × IsArmed (alarm env r)
alarm_rearms env r = (
  rw (alarms-alarm env r) (All-kept_ids (ids_of (due_alarms r.store r.clock)) _),
  unfold alarm in sync_heap_alarm-IsArmed (flush_fwd (harvest_due env r)),
)
