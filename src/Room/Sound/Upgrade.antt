-- ===== src/Room/Sound/Upgrade.antt =====
-- Tickets and upgrades keep the invariant: a new websocket has no bind yet.
use pairfob.Prelude.{
  ◌+◌, ◌≡◌, refl, String, Bool, true, false, not, ◌&&◌, ◌||◌, Option, none, some, Option-cases, inl,
  inr, List, [], ◌∷◌, ◌++◌, arith, ◌===◌, if_rule, option_rule, count, All, leb,
}
use pairfob.Store.{upsert_alarm, load_slot, hello_5s, ticket_15s, insert_ticket}
use pairfob.Attachment.{Attachment, is_none, is_pairing, is_established, new_attachment}
use pairfob.Constants.{ticket_ms, hello_grace_ms, is_daemon_id, max_pending_hello}
use pairfob.Room.{Room, Socket, Env, ids}
use pairfob.Room.Core.{attachments, attach_socket}
use pairfob.Room.Traffic.{sync_heap_alarm}
use pairfob.Room.Counts.{count_pending_hellos, counts_as}
use pairfob.Room.Gates.{
  TicketAnswer, UpgradeAnswer, gate_allowed, random_hex, note_gate_attempt, issue_ticket,
  consume_upgrade, accept, upgrade, fresh_id,
}
use pairfob.Room.Sound.Upkeep.{Others, note_gate_attempt-IsSafe}
use pairfob.Room.Sound.{IsOwned}
use pairfob.Room.Sound.Steps.{IsSafe, sockets-IsSafe, rebuild_maps-IsSafe}

pub consume_upgrade-IsSafe :
    (ticket : Option String) (role account owner : String) (r : Room)
    → IsSafe r
    → IsSafe (consume_upgrade ticket role account owner r).room
unfolding consume_upgrade note_gate_attempt
consume_upgrade-IsSafe ticket role account owner r v = sockets-IsSafe (ground arith) v

-- A new websocket has no bind yet.
count-append :
    (p : Attachment → Bool) (ss : List Socket) (s : Socket) (a : Attachment)
    → s.attachment ≡ some a
    → p a ≡ false
    → count p (attachments (ss ++ s ∷ [])) ≡ count p (attachments ss)
count-append p [] s a e h = ground arith
count-append p (t ∷ ss) s a e h = ground (arith, count-append p ss s a e h)

All-append_socket :
    (P : Attachment → Type 0) (ss : List Socket) (s : Socket) (a : Attachment)
    → s.attachment ≡ some a
    → P a
    → All P (attachments ss)
    → All P (attachments (ss ++ s ∷ []))
All-append_socket P [] s a e pa h = rw e (pa, tt)
All-append_socket P (t ∷ ss) s a e pa h = elim (Option-cases t.attachment) [
  | inl bare ↦ rw bare (All-append_socket P ss s a e pa (rw bare at h))
  | inr (b, full) ↦
      let parts : All P (b ∷ attachments ss) = rw full at h in
      rw full (parts.0, All-append_socket P ss s a e pa parts.1)
]

accept-IsSafe : (a : Attachment) (r : Room) → is_none a.kind ≡ true → IsSafe r → IsSafe (accept a r)
unfolding accept attach_socket
accept-IsSafe a r n v =
    let s : Socket = record {
      id = fresh_id (ids r.sockets);
      attachment = some a;
      sent = [];
      closed = none;
      broken = false;
    } in
    let est : counts_as is_established a ≡ false = ground arith in
    let pair : counts_as is_pairing a ≡ false = ground arith in
    let grown : IsSafe (record r { sockets = r.sockets ++ s ∷ [] }) = record {
      sound = record {
        established =
            rw (count-append (counts_as is_established) r.sockets s a refl est) v.sound.established;
        pairing = rw (count-append (counts_as is_pairing) r.sockets s a refl pair) v.sound.pairing;
        owned = All-append_socket IsOwned r.sockets s a refl (ground arith) v.sound.owned;
      };
    } in
    rebuild_maps-IsSafe (record r { sockets = r.sockets ++ s ∷ [] }) grown

-- The attachment of an upgrade is unbound.
attachment-consume_upgrade :
    (ticket : Option String) (role account owner : String) (r : Room) (a : Attachment)
    → (consume_upgrade ticket role account owner r).attachment ≡ some a
    → is_none a.kind ≡ true
unfolding consume_upgrade new_attachment
attachment-consume_upgrade ticket role account owner r a e = ground arith

module _ (env : Env) (keeps : Others env) where
  pub issue_ticket-IsSafe :
      (pair_loc : String) (r : Room) → IsSafe r → IsSafe (issue_ticket env pair_loc r).room
  unfolding issue_ticket
  issue_ticket-IsSafe pair_loc r v =
      let S : TicketAnswer → Type 0 = λ x. IsSafe x.room in
      let missed : IsSafe (note_gate_attempt false r) = note_gate_attempt-IsSafe false r v in
      if_rule S (not (gate_allowed r)) _ _ (λ _. v)
        λ _.
          option_rule S (load_slot r.store) _ _ (λ _. missed)
            λ slot _.
              if_rule S (not (slot.pair_loc === pair_loc) || leb slot.deadline r.clock) _ _
                (λ _. missed)
                λ _.
                  let ticket = random_hex env 16 r in
                  let at = r.clock + ticket_ms in
                  let row =
                    insert_ticket r.store
                      (record { ticket = ticket; pair_ref = slot.pair_ref; deadline = at }) in
                  let armed = record r {
                    store = upsert_alarm row ticket_15s ticket at;
                    draw = r.draw + 1;
                  } in
                  note_gate_attempt-IsSafe true (env.others (sync_heap_alarm armed))
                    (keeps (sync_heap_alarm armed) (sockets-IsSafe refl v))

  pub upgrade-IsSafe :
      (has_loc : Bool) (role daemon_id : String) (ticket : Option String) (account owner : String)
      (r : Room)
      → IsSafe r
      → IsSafe (upgrade env has_loc role daemon_id ticket account owner r).room
  unfolding upgrade
  upgrade-IsSafe has_loc role daemon_id ticket account owner r v =
      let S : UpgradeAnswer → Type 0 = λ x. IsSafe x.room in
      let c = (consume_upgrade ticket role account owner r).room in
      let consumed : IsSafe c = consume_upgrade-IsSafe ticket role account owner r v in
      if_rule S has_loc _ _ (λ _. v)
        λ _.
          if_rule S (not (role === "daemon") && not (role === "client")) _ _ (λ _. v)
            λ _.
              if_rule S (not (is_daemon_id daemon_id) || not (daemon_id === r.daemon_id)) _ _
                (λ _. v)
                λ _.
                  if_rule S (leb max_pending_hello (count_pending_hellos r)) _ _ (λ _. v)
                    λ _.
                      option_rule S (consume_upgrade ticket role account owner r).attachment _ _
                        (λ _. consumed)
                        λ a e.
                          let armed = record c {
                            store =
                                upsert_alarm c.store hello_5s (random_hex env 8 c)
                                  (a.created_ms + hello_grace_ms);
                            draw = c.draw + 1;
                          } in
                          accept-IsSafe a (env.others (sync_heap_alarm armed))
                            (attachment-consume_upgrade ticket role account owner r a e)
                            (keeps (sync_heap_alarm armed) (sockets-IsSafe refl consumed))
