-- ===== src/Room/Pairing/Slot.antt =====
-- The pairing slot: how long it may live, and that a failed PAIR_OPEN leaves the slot as it was.
use pairfob.Prelude.{
  ℕ, zero, suc, ◌+◌, ◌*◌, ◌≤◌, ◌≡◌, refl, sym, ◌∙◌, String, false, not, Option, none, some, arith,
  ◌===◌, if_rule, option_rule,
}
use pairfob.Store.{PairSlot, load_slot, put_slot, delete_slot}
use pairfob.Crockford.{mint_loc}
use pairfob.Constants.{min_ttl_s, max_ttl_s, is_pair_ref, loc_mint_tries}
use pairfob.Room.{
  Room, Env, InsertResult, inserted, conflict, failed, send, close, reject, send_err,
  is_daemon_socket,
}
use pairfob.Hex.{is_zero_route}
use pairfob.Json.{parse_json_object, text_field, number_field}
use pairfob.Envelope.{Frame}
use pairfob.Room.Pairing.{
  Request, ttl_ms_of, open_loop, restore, unavailable, commit_slot, commit_thrown, insert_call,
  settle, refresh, is_inserted, open_slot, handle_pair_open, bad_open,
}

-- The lifetime of a slot is between one minute and five, whatever the computer asked for.
pub ttl_bounds :
    (ttl_s : ℕ) → (min_ttl_s * 1000 ≤ ttl_ms_of ttl_s) × (ttl_ms_of ttl_s ≤ max_ttl_s * 1000)
ttl_bounds ttl_s = ground arith

slot-restore : (o : Option PairSlot) (r : Room) → (restore o r).store.slot ≡ o
unfolding put_slot delete_slot
slot-restore none r = refl
slot-restore (some slot) r = refl

slot-unavailable :
    (q : Request) (message : String) (r : Room)
    → (unavailable q message r).store.slot ≡ r.store.slot
unfolding send_err send
slot-unavailable q message r = refl

-- An index that never takes a location, or a platform alarm that cannot be written.
abbrev pub Refuses : Env → Type 0
Refuses env = (r : Room) (loc : String) → is_inserted (env.index_answer r loc) ≡ false

module _ (env : Env) (refuses : Refuses env) (q : Request) (o : Option PairSlot) where
  slot-answer :
      (loc : String) (retry : Room → Room) (asked : Room) (answer : InsertResult)
      → is_inserted answer ≡ false
      → ((s : Room) → s.store.slot ≡ o → (retry s).store.slot ≡ o)
      → (elim answer as (λ x. Room) [
        | inserted ↦ settle env q o loc asked
        | failed ↦ unavailable q "pairing index insert failed" (restore o asked)
        | conflict ↦ retry (restore o asked)
      ]).store.slot
        ≡ o
  slot-answer loc retry asked inserted other h = absurd (ground arith)
  slot-answer loc retry asked failed other h =
      slot-unavailable q _ (restore o asked) ∙ slot-restore o asked
  slot-answer loc retry asked conflict other h = h (restore o asked) (slot-restore o asked)

  slot-open_loop :
      (tries : ℕ) (r : Room) → r.store.slot ≡ o → (open_loop tries env q o r).store.slot ≡ o
  unfolding open_loop
  slot-open_loop zero r h = slot-unavailable q _ r ∙ h
  slot-open_loop (suc tries) r h =
      let loc = mint_loc (env.random_bytes r.draw 6) in
      let drawn = record r { draw = r.draw + 1 } in
      let slot : PairSlot = record {
        pair_ref = q.pair_ref;
        pair_loc = loc;
        deadline = q.deadline;
      } in
      let committed = env.others (commit_slot q slot drawn) in
      let P : Room → Type 0 = λ s. s.store.slot ≡ o in
      if_rule P (env.alarm_throws drawn) _ _
        (λ _.
          slot-unavailable q _ (restore o (commit_thrown q slot drawn))
          ∙ slot-restore o (commit_thrown q slot drawn))
        λ _.
          slot-answer loc (open_loop tries env q o) (insert_call env q loc committed)
            (env.index_answer committed loc) (refuses committed loc) (slot-open_loop tries)

module _ (env : Env) (refuses : Refuses env) where
  slot-refresh :
      (q : Request) (slot : PairSlot) (r : Room) → (refresh env q slot r).store.slot ≡ some slot
  unfolding refresh
  slot-refresh q slot r =
      let P : Room → Type 0 = λ s. s.store.slot ≡ some slot in
      let moved = record slot { deadline = q.deadline } in
      let committed = env.others (commit_slot q moved r) in
      let asked = insert_call env q slot.pair_loc committed in
      if_rule P (env.alarm_throws r) _ _
        (λ _.
          slot-unavailable q _ (restore (some slot) (commit_thrown q moved r))
          ∙ slot-restore (some slot) (commit_thrown q moved r))
        λ _.
          if_rule P (not (is_inserted (env.index_answer committed slot.pair_loc))) _ _
            (λ _. slot-unavailable q _ (restore (some slot) asked) ∙ slot-restore (some slot) asked)
            λ taken. absurd (ground (arith, taken, refuses committed slot.pair_loc))

  slot-open_slot : (q : Request) (r : Room) → (open_slot env q r).store.slot ≡ r.store.slot
  unfolding load_slot send_err send
  slot-open_slot q r =
      let P : Room → Type 0 = λ s. s.store.slot ≡ r.store.slot in
      let fresh : P (open_loop loc_mint_tries env q r.store.slot r) =
        slot-open_loop env refuses q r.store.slot loc_mint_tries r refl in
      if_rule P (not r.has_index) _ _ (λ _. refl)
        λ _.
          option_rule P r.store.slot _ _ (λ _. fresh)
            λ slot e.
              if_rule P (slot.pair_ref === q.pair_ref) _ _ (λ _. slot-refresh q slot r ∙ sym e)
                λ _. fresh

  -- When the index takes no location, PAIR_OPEN leaves the pairing slot as it was: on a conflict in
  -- every round, on a failure and on a refresh, whatever runs while it awaits the index.
  pub refused_open_keeps_slot :
      (ws : ℕ) (frame : Frame) (r : Room)
      → (handle_pair_open env ws frame r).store.slot ≡ r.store.slot
  unfolding handle_pair_open reject send_err send close
  refused_open_keeps_slot ws frame r =
      let P : Room → Type 0 = λ s. s.store.slot ≡ r.store.slot in
      let req = parse_json_object env.parse frame.payload in
      let pair_ref = text_field "pair_ref" req in
      let ttl_ms = ttl_ms_of (number_field "ttl_s" 180 req) in
      let q : Request = record {
        ws = ws;
        frame = frame;
        pair_ref = pair_ref;
        ttl_ms = ttl_ms;
        deadline = r.clock + ttl_ms;
      } in
      if_rule P (not (is_zero_route frame.route_id)) _ _ (λ _. refl)
        λ _.
          if_rule P (bad_open req) _ _ (λ _. refl)
            λ _.
              if_rule P (not (is_pair_ref pair_ref)) _ _ (λ _. refl)
                λ _.
                  if_rule P (not (is_daemon_socket r ws)) _ _ (λ _. refl)
                    λ _.
                      if_rule P (not (text_field "daemon_id" req === r.daemon_id)) _ _ (λ _. refl)
                        λ _. slot-open_slot q r
