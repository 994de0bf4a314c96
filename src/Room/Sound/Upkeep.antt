-- ===== src/Room/Sound/Upkeep.antt =====
-- Alarms, enrolment, tickets and upgrades keep the invariant.
use pairfob.Prelude.{
  ℕ, ◌+◌, ◌-◌, refl, String, Bool, not, ◌&&◌, ◌||◌, Option, none, some, List, [], ◌∷◌, arith, ◌===◌,
  if_rule, option_rule, ltb,
}
use pairfob.Store.{
  AlarmKind, AlarmRow, load_slot, load_meta, MetaRow, clear_reconnect_hash, hello_5s, resume_15s,
  pair_first_15s, pair_confirm_30s, pair_ttl, ticket_15s, delete_slot, due_alarms,
}
use pairfob.Attachment.{is_pairing, is_resumehello}
use pairfob.Constants.{resume_ms}
use pairfob.Room.{Room, Env, att, close, for_sockets, ids}
use pairfob.Room.Core.{drop_daemon, index_forget}
use pairfob.Room.Traffic.{note_alarm_late, find_by_route}
use pairfob.Room.Alarms.{
  schedule, clear_kind_ref, close_hello, hello_expired, close_expired_hellos, close_resume,
  close_expired_resumes, timeout_socket, timeout_pairing, close_pairing, tell_expired, expire_slot,
  apply_alarm, apply_due, harvest_due, alarm,
}
use pairfob.Room.Enrollment.{
  Answer, timing_safe_equal, holds_secret, rekey_from, enroll, kick, abort_enroll, rekey,
}
use pairfob.Room.Gates.{note_gate_attempt}
use pairfob.Room.Sound.Steps.{
  IsSafe, sockets-IsSafe, close-IsSafe, for_sockets-IsSafe, safe_rules, note_alarm_late-IsSafe,
  flush_fwd-IsSafe, drop_daemon-IsSafe,
}

pub schedule-IsSafe :
    (kind : AlarmKind) (ref : String) (at : ℕ) (r : Room)
    → IsSafe r
    → IsSafe (schedule kind ref at r)
unfolding schedule
schedule-IsSafe kind ref at r v = sockets-IsSafe refl v

pub clear_kind_ref-IsSafe :
    (kind : AlarmKind) (ref : String) (r : Room) → IsSafe r → IsSafe (clear_kind_ref kind ref r)
unfolding clear_kind_ref
clear_kind_ref-IsSafe kind ref r v = sockets-IsSafe refl v

close_hello-IsSafe : (now ws : ℕ) (r : Room) → IsSafe r → IsSafe (close_hello now ws r)
close_hello-IsSafe now ws r v =
    option_rule IsSafe (att r ws) _ _ (λ _. v)
      λ a _. if_rule IsSafe (hello_expired now a) _ _ (λ _. search safe_rules) λ _. v

close_resume-IsSafe : (now ws : ℕ) (r : Room) → IsSafe r → IsSafe (close_resume now ws r)
close_resume-IsSafe now ws r v =
    option_rule IsSafe (att r ws) _ _ (λ _. v)
      λ a _.
        if_rule IsSafe (is_resumehello a.kind && ltb (a.created_ms + resume_ms) now) _ _
          (λ _. search safe_rules) λ _. v

timeout_socket-IsSafe :
    (ws : ℕ) (code message : String) (r : Room)
    → IsSafe r
    → IsSafe (timeout_socket ws code message r)
timeout_socket-IsSafe ws code message r v =
    option_rule IsSafe (att r ws) _ _ (λ _. v)
      λ a _. if_rule IsSafe (is_pairing a.kind) _ _ (λ _. search safe_rules) λ _. v

timeout_pairing-IsSafe :
    (hex code message : String) (r : Room) → IsSafe r → IsSafe (timeout_pairing hex code message r)
unfolding timeout_pairing
timeout_pairing-IsSafe hex code message r v =
    option_rule IsSafe (find_by_route r hex) _ _ (λ _. v)
      λ ws _. timeout_socket-IsSafe ws code message r v

pub close_pairing-IsSafe :
    (pair_ref code message : String) (ws : ℕ) (r : Room)
    → IsSafe r
    → IsSafe (close_pairing pair_ref code message ws r)
close_pairing-IsSafe pair_ref code message ws r v =
    option_rule IsSafe (att r ws) _ _ (λ _. v)
      λ a _.
        if_rule IsSafe (is_pairing a.kind && a.pair_ref === pair_ref) _ _ (λ _. search safe_rules)
          λ _. v

pub index_forget-IsSafe :
    (loc pair_ref : String) (r : Room) → IsSafe r → IsSafe (index_forget loc pair_ref r)
index_forget-IsSafe loc pair_ref r v =
    if_rule IsSafe r.has_index _ _ (λ _. sockets-IsSafe refl v) λ _. v

tell_expired-IsSafe : (pair_ref : String) (r : Room) → IsSafe r → IsSafe (tell_expired pair_ref r)
tell_expired-IsSafe pair_ref r v = option_rule IsSafe r.daemon _ _ (λ _. v) λ d _. search safe_rules

expire_slot-IsSafe : (pair_ref : String) (r : Room) → IsSafe r → IsSafe (expire_slot pair_ref r)
unfolding expire_slot
expire_slot-IsSafe pair_ref r v =
    option_rule IsSafe (load_slot r.store) _ _ (λ _. v)
      λ slot _.
        if_rule IsSafe (not (slot.pair_ref === pair_ref) || ltb r.clock slot.deadline) _ _ (λ _. v)
          λ _.
            let body = close_pairing pair_ref "unpaired" "pairing slot expired" in
            let closed = for_sockets (ids r.sockets) body r in
            let told = tell_expired pair_ref closed in
            let safe_told : IsSafe told = tell_expired-IsSafe pair_ref closed (
              for_sockets-IsSafe (ids r.sockets) body r
                (close_pairing-IsSafe pair_ref "unpaired" "pairing slot expired") v) in
            index_forget-IsSafe slot.pair_loc slot.pair_ref
              (record told { store = delete_slot told.store }) (sockets-IsSafe refl safe_told)

apply_alarm-IsSafe :
    (kind : AlarmKind) (ref : String) (now : ℕ) (r : Room)
    → IsSafe r
    → IsSafe (apply_alarm kind ref now r)
unfolding apply_alarm close_expired_hellos close_expired_resumes
apply_alarm-IsSafe hello_5s ref now r v =
    for_sockets-IsSafe (ids r.sockets) (close_hello now) r (close_hello-IsSafe now) v
apply_alarm-IsSafe resume_15s ref now r v =
    for_sockets-IsSafe (ids r.sockets) (close_resume now) r (close_resume-IsSafe now) v
apply_alarm-IsSafe pair_first_15s ref now r v = timeout_pairing-IsSafe ref _ _ r v
apply_alarm-IsSafe pair_confirm_30s ref now r v = timeout_pairing-IsSafe ref _ _ r v
apply_alarm-IsSafe pair_ttl ref now r v = expire_slot-IsSafe ref r v
apply_alarm-IsSafe ticket_15s ref now r v = sockets-IsSafe refl v

-- What the work of others during an await is trusted with.
abbrev pub Others : Env → Type 0
Others env = (r : Room) → IsSafe r → IsSafe (env.others r)

module _ (env : Env) (keeps : Others env) where
  apply_due-IsSafe :
      (now : ℕ) (rows : List AlarmRow) (r : Room) → IsSafe r → IsSafe (apply_due env now rows r)
  unfolding apply_due
  apply_due-IsSafe now [] r v = v
  apply_due-IsSafe now (row ∷ rows) r v = apply_due-IsSafe now rows _ (
      keeps _ (
        apply_alarm-IsSafe row.kind row.ref now (note_alarm_late (now - row.at) r)
          (note_alarm_late-IsSafe _ r v)))

  harvest_due-IsSafe : (r : Room) → IsSafe r → IsSafe (harvest_due env r)
  unfolding harvest_due
  harvest_due-IsSafe r v =
      sockets-IsSafe refl (apply_due-IsSafe r.clock (due_alarms r.store r.clock) r v)

  pub alarm-IsSafe : (r : Room) → IsSafe r → IsSafe (alarm env r)
  unfolding alarm
  alarm-IsSafe r v =
      sockets-IsSafe refl (flush_fwd-IsSafe (harvest_due env r) (harvest_due-IsSafe r v))

pub enroll-IsSafe :
    (hash grant_id : String) (r : Room) → IsSafe r → IsSafe (enroll hash grant_id r).room
unfolding enroll
enroll-IsSafe hash grant_id r v = sockets-IsSafe (ground arith) v

pub kick-IsSafe : (r : Room) → IsSafe r → IsSafe (kick r)
unfolding kick
kick-IsSafe r v =
    let cleared = record r { store = clear_reconnect_hash r.store; reconnect_hash = "" } in
    let dropped : IsSafe (drop_daemon "kicked" cleared) =
      drop_daemon-IsSafe "kicked" cleared (sockets-IsSafe refl v) in
    sockets-IsSafe refl (
      for_sockets-IsSafe (ids (drop_daemon "kicked" cleared).sockets) (λ ws. close ws "kicked") _
        (λ ws s. close-IsSafe ws "kicked" s) dropped)

pub abort_enroll-IsSafe :
    (env : Env) (hash grant_id : String) (r : Room)
    → IsSafe r
    → IsSafe (abort_enroll env hash grant_id r).room
unfolding abort_enroll
abort_enroll-IsSafe env hash grant_id r v =
    let S : Answer → Type 0 = λ x. IsSafe x.room in
    if_rule S (not (holds_secret (timing_safe_equal env.utf8) hash grant_id (load_meta r.store))) _
      _ (λ _. v) λ _. sockets-IsSafe refl (kick-IsSafe r v)

rekey_from-IsSafe :
    (same : String → String → Bool) (old_hash new_hash : String) (r : Room) (m : Option MetaRow)
    → IsSafe r
    → IsSafe (rekey_from same old_hash new_hash r m).room
rekey_from-IsSafe same old_hash new_hash r none v = v
rekey_from-IsSafe same old_hash new_hash r (some m) v =
    let S : Answer → Type 0 = λ x. IsSafe x.room in
    if_rule S (m.reconnect_hash === "") _ _ (λ _. v)
      λ _.
        if_rule S (same m.reconnect_hash new_hash) _ _ (λ _. v)
          λ _.
            if_rule S (not (same m.reconnect_hash old_hash)) _ _ (λ _. v) λ _. sockets-IsSafe refl v

pub rekey-IsSafe :
    (env : Env) (old_hash new_hash : String) (r : Room)
    → IsSafe r
    → IsSafe (rekey env old_hash new_hash r).room
unfolding rekey
rekey-IsSafe env old_hash new_hash r v =
    rekey_from-IsSafe (timing_safe_equal env.utf8) old_hash new_hash r (load_meta r.store) v

-- The ledger of the gate is no attachment.
pub note_gate_attempt-IsSafe : (ok : Bool) (r : Room) → IsSafe r → IsSafe (note_gate_attempt ok r)
unfolding note_gate_attempt
note_gate_attempt-IsSafe ok r v = sockets-IsSafe refl v
