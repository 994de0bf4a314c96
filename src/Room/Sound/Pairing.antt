-- ===== src/Room/Sound/Pairing.antt =====
-- The handlers of the pairing slot keep the invariant.
use pairfob.Prelude.{
  ℕ, zero, suc, ◌+◌, refl, String, not, ◌||◌, Option, none, some, ◌===◌, if_rule, option_rule,
}
use pairfob.Store.{PairSlot, load_slot}
use pairfob.Attachment.{is_pairing}
use pairfob.Hex.{is_zero_route}
use pairfob.Json.{parse_json_object, text_field, number_field}
use pairfob.Crockford.{mint_loc}
use pairfob.Envelope.{Frame}
use pairfob.Constants.{is_pair_ref, loc_mint_tries}
use pairfob.Room.{
  Room, Env, att, send_err, with_pair_ref, is_daemon_socket, for_sockets, ids, log_call,
  index_insert, index_remove, InsertResult, inserted, conflict, failed,
}
use pairfob.Room.Core.{index_forget}
use pairfob.Room.Alarms.{schedule, close_pairing, clear_kind_ref}
use pairfob.Room.Session.{bad_version}
use pairfob.Room.Pairing.{
  Request, commit_slot, commit_thrown, restore, unavailable, insert_call, is_inserted, refresh,
  replace_pairing, replace_slot, settle, open_round, open_loop, open_slot, bad_open,
  handle_pair_open, close_slot, handle_pair_close, ttl_ms_of,
}
use pairfob.Room.Sound.Steps.{
  IsSafe, sockets-IsSafe, send-IsSafe, send_err-IsSafe, for_sockets-IsSafe, safe_rules,
}
use pairfob.Room.Sound.Upkeep.{close_pairing-IsSafe, index_forget-IsSafe}
use pairfob.Room.Sound.Upkeep.{Others}

restore-IsSafe : (o : Option PairSlot) (r : Room) → IsSafe r → IsSafe (restore o r)
restore-IsSafe none r v = sockets-IsSafe refl v
restore-IsSafe (some slot) r v = sockets-IsSafe refl v

replace_pairing-IsSafe : (ws : ℕ) (r : Room) → IsSafe r → IsSafe (replace_pairing ws r)
replace_pairing-IsSafe ws r v =
    option_rule IsSafe (att r ws) _ _ (λ _. v)
      λ a _. if_rule IsSafe (is_pairing a.kind) _ _ (λ _. search safe_rules) λ _. v

module _ (env : Env) (keeps : Others env) where
  insert_call-IsSafe :
      (q : Request) (loc : String) (r : Room) → IsSafe r → IsSafe (insert_call env q loc r)
  insert_call-IsSafe q loc r v =
      keeps (log_call (index_insert loc q.pair_ref q.deadline) r) (sockets-IsSafe refl v)

  replace_slot-IsSafe :
      (q : Request) (o : Option PairSlot) (r : Room) → IsSafe r → IsSafe (replace_slot env q o r)
  replace_slot-IsSafe q none r v = v
  replace_slot-IsSafe q (some old) r v =
      let closed = for_sockets (ids r.sockets) replace_pairing r in
      let told =
        send_err q.ws "pairing_replaced" "another computer opened pairing"
          (with_pair_ref old.pair_ref) closed in
      let safe_told : IsSafe told =
        send_err-IsSafe q.ws _ _ _ closed
          (for_sockets-IsSafe (ids r.sockets) replace_pairing r replace_pairing-IsSafe v) in
      keeps (log_call (index_remove old.pair_loc old.pair_ref) told) (sockets-IsSafe refl safe_told)

  settle-IsSafe :
      (q : Request) (o : Option PairSlot) (loc : String) (r : Room)
      → IsSafe r
      → IsSafe (settle env q o loc r)
  settle-IsSafe q o loc r v =
      if_rule IsSafe (is_daemon_socket r q.ws) _ _
        (λ _. send-IsSafe q.ws _ _ (replace_slot-IsSafe q o r v))
        λ _.
          restore-IsSafe o (env.others (log_call (index_remove loc q.pair_ref) r))
            (keeps (log_call (index_remove loc q.pair_ref) r) (sockets-IsSafe refl v))

  commit_slot-IsSafe :
      (q : Request) (slot : PairSlot) (r : Room)
      → IsSafe r
      → IsSafe (env.others (commit_slot q slot r))
  unfolding schedule
  commit_slot-IsSafe q slot r v = keeps (commit_slot q slot r) (sockets-IsSafe refl v)

  -- What the index answers decides the round.
  answer-IsSafe :
      (q : Request) (o : Option PairSlot) (loc : String) (retry : Room → Room) (asked : Room)
      (answer : InsertResult)
      → ((s : Room) → IsSafe s → IsSafe (retry s))
      → IsSafe asked
      → IsSafe (elim answer [
        | inserted ↦ settle env q o loc asked
        | failed ↦ unavailable q "pairing index insert failed" (restore o asked)
        | conflict ↦ retry (restore o asked)
      ])
  answer-IsSafe q o loc retry asked inserted h v = settle-IsSafe q o loc asked v
  answer-IsSafe q o loc retry asked failed h v =
      send_err-IsSafe q.ws _ _ _ _ (restore-IsSafe o asked v)
  answer-IsSafe q o loc retry asked conflict h v = h (restore o asked) (restore-IsSafe o asked v)

  open_round-IsSafe :
      (q : Request) (o : Option PairSlot) (retry : Room → Room) (r : Room)
      → ((s : Room) → IsSafe s → IsSafe (retry s))
      → IsSafe r
      → IsSafe (open_round env q o retry r)
  open_round-IsSafe q o retry r h v =
      let loc = mint_loc (env.random_bytes r.draw 6) in
      let drawn = record r { draw = r.draw + 1 } in
      let slot : PairSlot = record {
        pair_ref = q.pair_ref;
        pair_loc = loc;
        deadline = q.deadline;
      } in
      let committed : IsSafe (env.others (commit_slot q slot drawn)) =
        commit_slot-IsSafe q slot drawn (sockets-IsSafe refl v) in
      if_rule IsSafe (env.alarm_throws drawn) _ _
        (λ _.
          send_err-IsSafe q.ws _ _ _ (restore o (commit_thrown q slot drawn))
            (restore-IsSafe o (commit_thrown q slot drawn) (sockets-IsSafe refl v)))
        λ _.
          answer-IsSafe q o loc retry
            (insert_call env q loc (env.others (commit_slot q slot drawn)))
            (env.index_answer (env.others (commit_slot q slot drawn)) loc) h
            (insert_call-IsSafe q loc (env.others (commit_slot q slot drawn)) committed)

  open_loop-IsSafe :
      (tries : ℕ) (q : Request) (o : Option PairSlot) (r : Room)
      → IsSafe r
      → IsSafe (open_loop tries env q o r)
  unfolding open_loop
  open_loop-IsSafe zero q o r v = search safe_rules
  open_loop-IsSafe (suc tries) q o r v =
      open_round-IsSafe q o (open_loop tries env q o) r (open_loop-IsSafe tries q o) v

  refresh-IsSafe :
      (q : Request) (slot : PairSlot) (r : Room) → IsSafe r → IsSafe (refresh env q slot r)
  unfolding refresh
  refresh-IsSafe q slot r v =
      let moved = record slot { deadline = q.deadline } in
      let committed : IsSafe (env.others (commit_slot q moved r)) =
        commit_slot-IsSafe q moved r v in
      let asked = insert_call env q slot.pair_loc (env.others (commit_slot q moved r)) in
      let safe_asked : IsSafe asked =
        insert_call-IsSafe q slot.pair_loc (env.others (commit_slot q moved r)) committed in
      if_rule IsSafe (env.alarm_throws r) _ _
        (λ _.
          send_err-IsSafe q.ws _ _ _ (restore (some slot) (commit_thrown q moved r))
            (sockets-IsSafe refl v))
        λ _.
          if_rule IsSafe
            (not
              (is_inserted (env.index_answer (env.others (commit_slot q moved r)) slot.pair_loc)))
            _ _
            (λ _.
              send_err-IsSafe q.ws _ _ _ (restore (some slot) asked)
                (restore-IsSafe (some slot) asked safe_asked))
            λ _.
              if_rule IsSafe (not (is_daemon_socket asked q.ws)) _ _
                (λ _. sockets-IsSafe refl safe_asked) λ _. send-IsSafe q.ws _ _ safe_asked

  open_slot-IsSafe : (q : Request) (r : Room) → IsSafe r → IsSafe (open_slot env q r)
  open_slot-IsSafe q r v =
      let existing = load_slot r.store in
      let fresh : IsSafe (open_loop loc_mint_tries env q existing r) =
        open_loop-IsSafe loc_mint_tries q existing r v in
      if_rule IsSafe (not r.has_index) _ _ (λ _. search safe_rules)
        λ _.
          option_rule IsSafe existing _ _ (λ _. fresh)
            λ slot _.
              if_rule IsSafe (slot.pair_ref === q.pair_ref) _ _ (λ _. refresh-IsSafe q slot r v)
                λ _. fresh

  pub handle_pair_open-IsSafe :
      (ws : ℕ) (frame : Frame) (r : Room) → IsSafe r → IsSafe (handle_pair_open env ws frame r)
  unfolding handle_pair_open
  handle_pair_open-IsSafe ws frame r v =
      let req = parse_json_object env.parse frame.payload in
      let pair_ref = text_field "pair_ref" req in
      let ttl_ms = ttl_ms_of (number_field "ttl_s" 180 req) in
      let q : Request = record {
        ws = ws;
        frame = frame;
        pair_ref = pair_ref;
        ttl_ms = ttl_ms;
        deadline = r.clock + ttl_ms;
      } in
      if_rule IsSafe (not (is_zero_route frame.route_id)) _ _ (λ _. search safe_rules)
        λ _.
          if_rule IsSafe (bad_open req) _ _ (λ _. search safe_rules)
            λ _.
              if_rule IsSafe (not (is_pair_ref pair_ref)) _ _ (λ _. search safe_rules)
                λ _.
                  if_rule IsSafe (not (is_daemon_socket r ws)) _ _ (λ _. search safe_rules)
                    λ _.
                      if_rule IsSafe (not (text_field "daemon_id" req === r.daemon_id)) _ _
                        (λ _. search safe_rules) λ _. open_slot-IsSafe q r v

  close_slot-IsSafe :
      (pair_ref : String) (slot : PairSlot) (r : Room)
      → IsSafe r
      → IsSafe (close_slot env pair_ref slot r)
  unfolding clear_kind_ref
  close_slot-IsSafe pair_ref slot r v =
      if_rule IsSafe (slot.pair_ref === pair_ref) _ _
        (λ _.
          let body = close_pairing pair_ref "unpaired" "pairing closed" in
          let closed = for_sockets (ids r.sockets) body r in
          let safe_closed : IsSafe closed =
            for_sockets-IsSafe (ids r.sockets) body r
              (close_pairing-IsSafe pair_ref "unpaired" "pairing closed") v in
          let gone = index_forget slot.pair_loc slot.pair_ref closed in
          let removed : IsSafe (env.others gone) =
            keeps gone (index_forget-IsSafe slot.pair_loc slot.pair_ref closed safe_closed) in
          sockets-IsSafe refl removed)
        λ _. v

  pub handle_pair_close-IsSafe :
      (ws : ℕ) (frame : Frame) (r : Room) → IsSafe r → IsSafe (handle_pair_close env ws frame r)
  unfolding handle_pair_close
  handle_pair_close-IsSafe ws frame r v =
      let req = parse_json_object env.parse frame.payload in
      let pair_ref = text_field "pair_ref" req in
      if_rule IsSafe (not (is_zero_route frame.route_id)) _ _ (λ _. search safe_rules)
        λ _.
          if_rule IsSafe (bad_version req || not (is_pair_ref pair_ref)) _ _
            (λ _. search safe_rules)
            λ _.
              if_rule IsSafe (not (is_daemon_socket r ws)) _ _ (λ _. search safe_rules)
                λ _.
                  option_rule IsSafe (load_slot r.store) _ _ (λ _. v)
                    λ slot _. close_slot-IsSafe pair_ref slot r v
