-- ===== src/Room/Alarms.antt =====
-- workers/pairfob-origin/src/room/alarms.ts and RoomCore.alarm: deadlines, and what happens at them.
-- `others` of the environment stands for the work that runs while one of them is awaited.
pub mod Heap
pub mod Slot
pub mod Expiry
use pairfob.Prelude.{
  ℕ, suc, ◌+◌, ◌-◌, String, Bool, true, false, not, ◌&&◌, ◌||◌, Option, none, some, List, [], ◌∷◌,
  ◌==◌, ◌===◌, leb, ltb, if◌then◌else◌, max, keep,
}
use pairfob.Store.{
  AlarmKind, AlarmRow, hello_5s, resume_15s, pair_first_15s, pair_confirm_30s, pair_ttl, ticket_15s,
  upsert_alarm, delete_alarms_by_kind_ref, delete_alarm_ids, due_alarms, expire_tickets, load_slot,
  delete_slot,
}
use pairfob.Store.Alarms.{ids_of}
use pairfob.Attachment.{
  Attachment, is_hello_mode, is_none, is_pairing, is_resumehello, is_registered_daemon,
}
use pairfob.Constants.{hello_grace_ms, resume_ms, pair_first_ms, pair_confirm_ms}
use pairfob.Room.{Room, Env, att, send_err, close, for_sockets, ids, no_extra, with_pair_ref}
use pairfob.Room.Core.{index_forget}
use pairfob.Room.Traffic.{close_bind, note_alarm_late, find_by_route, flush_fwd, sync_heap_alarm}

unfoldable pub schedule : AlarmKind → String → ℕ → Room → Room
unfolding upsert_alarm sync_heap_alarm
schedule kind ref at r = sync_heap_alarm (record r { store = upsert_alarm r.store kind ref at })

unfoldable pub clear_kind_ref : AlarmKind → String → Room → Room
unfolding delete_alarms_by_kind_ref sync_heap_alarm
clear_kind_ref kind ref r =
    sync_heap_alarm (record r { store = delete_alarms_by_kind_ref r.store kind ref })

-- att.hello_at_ms || att.created_ms
abbrev started_at : Attachment → ℕ
started_at a = if a.hello_at_ms == 0 then a.created_ms else a.hello_at_ms

abbrev pub hello_expired : ℕ → Attachment → Bool
hello_expired now a =
    is_hello_mode a.mode
    && is_none a.kind
    && not (is_registered_daemon a)
    && ltb 0 (started_at a)
    && leb (started_at a + hello_grace_ms) now

abbrev pub close_hello : ℕ → ℕ → Room → Room
close_hello now ws r = elim (att r ws) [
  | none ↦ r
  | some a ↦
      if hello_expired now a
      then close ws "unbound" (send_err ws "unbound" "5s attach timeout" no_extra r)
      else r
]

unfoldable pub close_expired_hellos : ℕ → Room → Room
unfolding att close send_err is_registered_daemon
close_expired_hellos now r = for_sockets (ids r.sockets) (close_hello now) r

abbrev pub close_resume : ℕ → ℕ → Room → Room
close_resume now ws r = elim (att r ws) [
  | none ↦ r
  | some a ↦
      if is_resumehello a.kind && ltb (a.created_ms + resume_ms) now
      then close_bind ws "unpaired" "15s DeviceHello timeout" true r
      else r
]

unfoldable pub close_expired_resumes : ℕ → Room → Room
unfolding att close_bind
close_expired_resumes now r = for_sockets (ids r.sockets) (close_resume now) r

abbrev pub timeout_socket : ℕ → (code message : String) → Room → Room
timeout_socket ws code message r = elim (att r ws) [
  | none ↦ r
  | some a ↦ if is_pairing a.kind then close_bind ws code message true r else r
]

unfoldable pub timeout_pairing : String → (code message : String) → Room → Room
unfolding find_by_route att close_bind
timeout_pairing route_hex code message r = elim (find_by_route r route_hex) [
  | none ↦ r
  | some ws ↦ timeout_socket ws code message r
]

abbrev pub close_pairing : (pair_ref code message : String) → ℕ → Room → Room
close_pairing pair_ref code message ws r = elim (att r ws) [
  | none ↦ r
  | some a ↦
      if is_pairing a.kind && a.pair_ref === pair_ref then close_bind ws code message true r else r
]

abbrev pub tell_expired : String → Room → Room
tell_expired pair_ref r = elim r.daemon [
  | none ↦ r
  | some d ↦ send_err d "pairing_expired" "pairing slot expired" (with_pair_ref pair_ref) r
]

unfoldable pub expire_slot : String → Room → Room
unfolding load_slot delete_slot att close_bind send_err
expire_slot pair_ref r = elim (load_slot r.store) [
  | none ↦ r
  | some slot ↦
      if not (slot.pair_ref === pair_ref) || ltb r.clock slot.deadline
      then r
      else (let closed =
            for_sockets (ids r.sockets) (close_pairing pair_ref "unpaired" "pairing slot expired")
              r in
          let told = tell_expired pair_ref closed in
          index_forget slot.pair_loc slot.pair_ref (record told { store = delete_slot told.store }))
]

-- The lock around `expireSlot` waits for a running PAIR_OPEN or PAIR_CLOSE; here each of
-- them is whole but for the work that `others` stands for.
unfoldable pub apply_alarm : AlarmKind → String → ℕ → Room → Room
unfolding close_expired_hellos close_expired_resumes timeout_pairing expire_slot expire_tickets
apply_alarm hello_5s ref now r = close_expired_hellos now r
apply_alarm resume_15s ref now r = close_expired_resumes now r
apply_alarm pair_first_15s ref now r =
    timeout_pairing ref "pair_timeout" "pairing handshake did not start" r
apply_alarm pair_confirm_30s ref now r =
    timeout_pairing ref "pair_timeout" "pairing proof did not arrive" r
apply_alarm pair_ttl ref now r = expire_slot ref r
apply_alarm ticket_15s ref now r = record r { store = expire_tickets r.store now }

-- Each row is awaited, so other work runs between one and the next.
unfoldable pub apply_due : Env → ℕ → List AlarmRow → Room → Room
unfolding apply_alarm note_alarm_late
apply_due env now [] r = r
apply_due env now (row ∷ rest) r =
    apply_due env now rest
      (env.others (apply_alarm row.kind row.ref now (note_alarm_late (now - row.at) r)))

unfoldable pub harvest_due : Env → Room → Room
unfolding due_alarms apply_due delete_alarm_ids expire_tickets
harvest_due env r =
    let now = r.clock in
    let due = due_alarms r.store now in
    let applied = apply_due env now due r in
    record applied { store = expire_tickets (delete_alarm_ids applied.store (ids_of due)) now }

-- RoomCore.alarm
unfoldable pub alarm : Env → Room → Room
unfolding harvest_due flush_fwd sync_heap_alarm
alarm env r = sync_heap_alarm (flush_fwd (harvest_due env r))

unfoldable pub arm_hello : String → ℕ → Room → Room
unfolding schedule
arm_hello ref hello_at r = schedule hello_5s ref (hello_at + hello_grace_ms) r

unfoldable pub arm_resume : String → ℕ → Room → Room
unfolding schedule
arm_resume route_hex created r = schedule resume_15s route_hex (created + resume_ms) r

unfoldable pub arm_pair_first : String → ℕ → Room → Room
unfolding schedule
arm_pair_first route_hex created r = schedule pair_first_15s route_hex (created + pair_first_ms) r

unfoldable pub advance_pair_frames : Env → String → (frames slot_deadline : ℕ) → Room → Room
unfolding schedule delete_alarms_by_kind_ref sync_heap_alarm
advance_pair_frames env route_hex frames slot_deadline r =
    if frames == 1
    then (let armed =
          env.others (schedule pair_confirm_30s route_hex (r.clock + pair_confirm_ms) r) in
        sync_heap_alarm
          (record armed { store = delete_alarms_by_kind_ref armed.store pair_first_15s route_hex }))
    else if frames == 2
    then (let cleared =
          delete_alarms_by_kind_ref (delete_alarms_by_kind_ref r.store pair_first_15s route_hex)
            pair_confirm_30s route_hex in
        schedule pair_confirm_30s route_hex (r.clock + max 1000 (slot_deadline - r.clock))
          (record r { store = cleared }))
    else r
