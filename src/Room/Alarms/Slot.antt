-- ===== src/Room/Alarms/Slot.antt =====
-- What the deadlines of a room do to its pairing slot (applyAlarm, expireSlot).
use pairfob.Prelude.{
  ℕ, ◌+◌, ◌≤◌, ◌≡◌, ◌⊎◌, inl, inr, refl, ap, ◌∙◌, String, Bool, true, false, not, ◌&&◌, ◌||◌, ◌==◌,
  ltb, ◌===◌, Option, none, some, List, [], ◌∷◌, arith, if_rule, option_rule, eq_iff,
}
use pairfob.Attachment.{is_pairing, is_resumehello}
use pairfob.Constants.{resume_ms}
use pairfob.Store.{
  PairSlot, AlarmKind, AlarmRow, hello_5s, resume_15s, pair_first_15s, pair_confirm_30s, pair_ttl,
  ticket_15s, is_alarm, alarm_code, load_slot, delete_slot, delete_bind_row, expire_tickets,
}
use pairfob.Room.{Room, att, send, close, send_err, delete_bind, for_sockets, ids}
use pairfob.Room.Attached.{for_sockets-keeps}
use pairfob.Room.Core.{index_forget}
use pairfob.Room.Traffic.{close_bind, find_by_route, note_alarm_late}
use pairfob.Room.Alarms.{
  hello_expired, close_hello, close_expired_hellos, close_resume, close_expired_resumes,
  timeout_pairing, close_pairing, tell_expired, expire_slot, apply_alarm,
}

-- The slot, and the clock that its deadline is held against.
abbrev slot_at : Room → Option PairSlot × ℕ
slot_at r = (r.store.slot, r.clock)

slot_at-close_bind :
    (ws : ℕ) (code message : String) (n : Bool) (r : Room)
    → slot_at (close_bind ws code message n r) ≡ slot_at r
unfolding close_bind send_err send close delete_bind delete_bind_row
slot_at-close_bind ws code message n r = ground arith

slot_at-close_hello : (now ws : ℕ) (r : Room) → slot_at (close_hello now ws r) ≡ slot_at r
unfolding send_err send close
slot_at-close_hello now ws r =
    option_rule (λ s. slot_at s ≡ slot_at r) (att r ws) _ _ (λ _. refl)
      λ a _. if_rule (λ s. slot_at s ≡ slot_at r) (hello_expired now a) _ _ (λ _. refl) λ _. refl

slot_at-close_resume : (now ws : ℕ) (r : Room) → slot_at (close_resume now ws r) ≡ slot_at r
slot_at-close_resume now ws r =
    option_rule (λ s. slot_at s ≡ slot_at r) (att r ws) _ _ (λ _. refl)
      λ a _.
        if_rule (λ s. slot_at s ≡ slot_at r)
          (is_resumehello a.kind && ltb (a.created_ms + resume_ms) now) _ _
          (λ _. slot_at-close_bind ws _ _ true r) λ _. refl

slot_at-close_pairing :
    (pair_ref code message : String) (ws : ℕ) (r : Room)
    → slot_at (close_pairing pair_ref code message ws r) ≡ slot_at r
slot_at-close_pairing pair_ref code message ws r =
    option_rule (λ s. slot_at s ≡ slot_at r) (att r ws) _ _ (λ _. refl)
      λ a _.
        if_rule (λ s. slot_at s ≡ slot_at r) (is_pairing a.kind && a.pair_ref === pair_ref) _ _
          (λ _. slot_at-close_bind ws _ _ true r) λ _. refl

slot_at-timeout :
    (route code message : String) (r : Room)
    → slot_at (timeout_pairing route code message r) ≡ slot_at r
unfolding timeout_pairing
slot_at-timeout route code message r =
    option_rule (λ s. slot_at s ≡ slot_at r) (find_by_route r route) _ _ (λ _. refl)
      λ ws _.
        option_rule (λ s. slot_at s ≡ slot_at r) (att r ws) _ _ (λ _. refl)
          λ a _.
            if_rule (λ s. slot_at s ≡ slot_at r) (is_pairing a.kind) _ _
              (λ _. slot_at-close_bind ws _ _ true r) λ _. refl

slot_at-note_alarm_late : (ms : ℕ) (r : Room) → slot_at (note_alarm_late ms r) ≡ slot_at r
unfolding note_alarm_late
slot_at-note_alarm_late ms r = refl

slot_at-told_expired : (ref : String) (r : Room) → slot_at (tell_expired ref r) ≡ slot_at r
unfolding send_err send
slot_at-told_expired ref r =
    option_rule (λ s. slot_at s ≡ slot_at r) r.daemon _ _ (λ _. refl) λ d _. refl

slot_at-forgotten :
    (loc ref : String) (r : Room)
    → slot_at (index_forget loc ref (record r { store = delete_slot r.store })) ≡ (none, r.clock)
unfolding delete_slot
slot_at-forgotten loc ref r =
    if_rule (λ s. slot_at s ≡ (none, r.clock)) r.has_index _ _ (λ _. refl) λ _. refl

-- What is done for a slot that has expired.
abbrev drop_slot : PairSlot → String → Room → Room
drop_slot slot ref r =
    let closed =
      for_sockets (ids r.sockets) (close_pairing ref "unpaired" "pairing slot expired") r in
    let told = tell_expired ref closed in
    index_forget slot.pair_loc slot.pair_ref (record told { store = delete_slot told.store })

slot_at-drop_slot :
    (slot : PairSlot) (ref : String) (r : Room) → slot_at (drop_slot slot ref r) ≡ (none, r.clock)
slot_at-drop_slot slot ref r =
    let closed =
      for_sockets (ids r.sockets) (close_pairing ref "unpaired" "pairing slot expired") r in
    let told = tell_expired ref closed in
    let kept : slot_at told ≡ slot_at r =
      slot_at-told_expired ref closed
      ∙ for_sockets-keeps slot_at (ids r.sockets)
          (close_pairing ref "unpaired" "pairing slot expired") r
          (slot_at-close_pairing ref "unpaired" "pairing slot expired") in
    slot_at-forgotten slot.pair_loc slot.pair_ref told ∙ ap (λ x. (none, x.1)) kept

-- An expired slot is gone once the row that names it is handled.
slot_at-expire_slot :
    (slot : PairSlot) (ref : String) (r : Room)
    → r.store.slot ≡ some slot
    → (slot.pair_ref === ref) ≡ true
    → slot.deadline ≤ r.clock
    → slot_at (expire_slot ref r) ≡ (none, r.clock)
unfolding expire_slot load_slot
slot_at-expire_slot slot ref r e same late =
    option_rule (λ s. slot_at s ≡ (none, r.clock)) r.store.slot _ _
      (λ missing. absurd (ground (arith, e, missing)))
      λ found here.
        if_rule (λ s. slot_at s ≡ (none, r.clock))
          (not (found.pair_ref === ref) || ltb r.clock found.deadline) _ _
          (λ early. absurd (ground (arith, e, here, early, same, late)))
          λ _. slot_at-drop_slot found ref r

-- Other alarms, and the row of another slot, leave the slot or find it gone.
abbrev pub IsLeft : Room → Room → Type 0
IsLeft s r = ((s.store.slot ≡ r.store.slot) ⊎ (s.store.slot ≡ none)) × (s.clock ≡ r.clock)

kept-IsLeft : (s r : Room) → slot_at s ≡ slot_at r → IsLeft s r
kept-IsLeft s r e = (inl (ap (λ x. x.0) e), ap (λ x. x.1) e)

gone-IsLeft : (s r : Room) → slot_at s ≡ (none, r.clock) → IsLeft s r
gone-IsLeft s r e = (inr (ap (λ x. x.0) e), ap (λ x. x.1) e)

expire_slot-IsLeft : (ref : String) (r : Room) → IsLeft (expire_slot ref r) r
unfolding expire_slot load_slot
expire_slot-IsLeft ref r =
    option_rule (λ s. IsLeft s r) r.store.slot _ _ (λ _. (inl refl, refl))
      λ slot _.
        if_rule (λ s. IsLeft s r) (not (slot.pair_ref === ref) || ltb r.clock slot.deadline) _ _
          (λ _. (inl refl, refl))
          λ _. gone-IsLeft (drop_slot slot ref r) r (slot_at-drop_slot slot ref r)

pub apply_alarm-IsLeft :
    (kind : AlarmKind) (ref : String) (now : ℕ) (r : Room) → IsLeft (apply_alarm kind ref now r) r
unfolding apply_alarm close_expired_hellos close_expired_resumes expire_tickets
apply_alarm-IsLeft hello_5s ref now r =
    kept-IsLeft (apply_alarm hello_5s ref now r) r
      (for_sockets-keeps slot_at (ids r.sockets) (close_hello now) r (slot_at-close_hello now))
apply_alarm-IsLeft resume_15s ref now r =
    kept-IsLeft (apply_alarm resume_15s ref now r) r
      (for_sockets-keeps slot_at (ids r.sockets) (close_resume now) r (slot_at-close_resume now))
apply_alarm-IsLeft pair_first_15s ref now r =
    kept-IsLeft (apply_alarm pair_first_15s ref now r) r
      (slot_at-timeout ref "pair_timeout" "pairing handshake did not start" r)
apply_alarm-IsLeft pair_confirm_30s ref now r =
    kept-IsLeft (apply_alarm pair_confirm_30s ref now r) r
      (slot_at-timeout ref "pair_timeout" "pairing proof did not arrive" r)
apply_alarm-IsLeft pair_ttl ref now r = expire_slot-IsLeft ref r
apply_alarm-IsLeft ticket_15s ref now r = (inl refl, refl)

-- The slot is over: its deadline is past, and it is there or gone, with no other in its place.
abbrev pub IsOver : PairSlot → Room → Type 0
IsOver slot r = ((r.store.slot ≡ some slot) ⊎ (r.store.slot ≡ none)) × (slot.deadline ≤ r.clock)

pub left-IsOver : (slot : PairSlot) (s r : Room) → IsLeft s r → IsOver slot r → IsOver slot s
left-IsOver slot s r (inl same, t) (inl e, late) = (inl (same ∙ e), omega (arith, t, late))
left-IsOver slot s r (inl same, t) (inr e, late) = (inr (same ∙ e), omega (arith, t, late))
left-IsOver slot s r (inr gone, t) (there, late) = (inr gone, omega (arith, t, late))

pub left-gone : (s r : Room) → IsLeft s r → r.store.slot ≡ none → s.store.slot ≡ none
left-gone s r (inl same, t) e = same ∙ e
left-gone s r (inr gone, t) e = gone

-- Whether one of the rows is the deadline of the slot under the reference.
abbrev pub has_deadline : String → List AlarmRow → Bool
has_deadline ref [] = false
has_deadline ref (a ∷ rest) = is_alarm pair_ttl ref a || has_deadline ref rest

kind_of_ttl : (kind : AlarmKind) → (alarm_code kind == alarm_code pair_ttl) ≡ true → kind ≡ pair_ttl
kind_of_ttl hello_5s h = absurd (ground arith)
kind_of_ttl resume_15s h = absurd (ground arith)
kind_of_ttl pair_first_15s h = absurd (ground arith)
kind_of_ttl pair_confirm_30s h = absurd (ground arith)
kind_of_ttl pair_ttl h = refl
kind_of_ttl ticket_15s h = absurd (ground arith)

pub applied_deadline :
    (slot : PairSlot) (row : AlarmRow) (now : ℕ) (r : Room)
    → is_alarm pair_ttl slot.pair_ref row ≡ true
    → IsOver slot r
    → (apply_alarm row.kind row.ref now r).store.slot ≡ none
unfolding apply_alarm
applied_deadline slot row now r h (inr e, late) =
    left-gone (apply_alarm row.kind row.ref now r) r (apply_alarm-IsLeft row.kind row.ref now r) e
applied_deadline slot row now r h (inl e, late) =
    let kind : row.kind ≡ pair_ttl = kind_of_ttl row.kind (ground arith) in
    let same : (slot.pair_ref === row.ref) ≡ true =
      ground (arith, eq_iff row.ref slot.pair_ref, eq_iff slot.pair_ref row.ref) in
    ap (λ k. (apply_alarm k row.ref now r).store.slot) kind
    ∙ ap (λ x. x.0) (slot_at-expire_slot slot row.ref r e same late)
