-- ===== src/Room/Sound/Steps.antt =====
-- The operations that keep the invariant: frames, closes, alarms, enrolment, tickets and upgrades.
use pairfob.Prelude.{
  ℕ, ◌+◌, ◌≡◌, refl, ◌∙◌, ap, String, Bool, true, false, Option, none, some, List, [], ◌∷◌, arith,
  ◌===◌, if◌then◌else◌, if_rule, option_rule,
}
use pairfob.Attachment
use pairfob.Attachment.{
  Attachment, is_none, is_pairing, is_resumehello, is_daemon, new_attachment, owner_mismatch,
}
use pairfob.Room.{
  Room, Sent, Extra, att, send, close, send_err, reject, write_att, delete_bind, for_sockets,
  no_extra,
}
use pairfob.Room.Core.{
  cold_start, notify_replaced, release_slot, attachments, drop_daemon, rebuild_maps, delete_bind_if,
}
use pairfob.Room.Traffic.{
  sync_heap_alarm, note_alarm_late, note_fwd, load_reconnect_hash, close_bind, on_close, flush_fwd,
  unbind_closed, closes_daemon, tell_unpaired, bind_extra, tell_daemon,
}
use pairfob.Room.Core.Attached.{
  atts-drop_daemon, atts-rebuild_maps, atts-tell_unpaired, atts-flush_fwd, atts-close_bind,
  atts-delete_bind_if, atts-cold_start, atts-sync_heap_alarm, atts-note_alarm_late, atts-note_fwd,
  atts-notify_replaced, atts-load_reconnect_hash, atts-release_slot,
}
use pairfob.Hex.{hex_to_route}
use pairfob.Room.Attached.{
  atts, atts-send, atts-close, atts-send_err, atts-reject, atts-delete_bind,
}
use pairfob.Room.Written.{att-send_err, att-close}
use pairfob.Room.Sound.{IsSound, IsSound-eq, IsSound-write_unbound, IsSound-write_same}

-- The invariant of a whole room.
pub record IsSafe (r : Room) : Type 0 where
  pub sound : IsSound (atts r)

-- What leaves the attachments leaves the invariant.
pub atts-IsSafe : {s r : Room} → atts s ≡ atts r → IsSafe r → IsSafe s
atts-IsSafe e v = record { sound = IsSound-eq e v.sound }

pub sockets-IsSafe : {s r : Room} → s.sockets ≡ r.sockets → IsSafe r → IsSafe s
sockets-IsSafe e v = atts-IsSafe (ap attachments e) v

pub send-IsSafe : (ws : ℕ) (f : Sent) (r : Room) → IsSafe r → IsSafe (send ws f r)
send-IsSafe ws f r v = atts-IsSafe (atts-send ws f r) v

pub close-IsSafe : (ws : ℕ) (reason : String) (r : Room) → IsSafe r → IsSafe (close ws reason r)
close-IsSafe ws reason r v = atts-IsSafe (atts-close ws reason r) v

pub send_err-IsSafe :
    (ws : ℕ) (code message : String) (x : Extra) (r : Room)
    → IsSafe r
    → IsSafe (send_err ws code message x r)
send_err-IsSafe ws code message x r v = atts-IsSafe (atts-send_err ws code message x r) v

pub reject-IsSafe :
    (ws : ℕ) (code message : String) (r : Room) → IsSafe r → IsSafe (reject ws code message r)
reject-IsSafe ws code message r v = atts-IsSafe (atts-reject ws code message r) v

pub delete_bind_if-IsSafe : (hex : String) (r : Room) → IsSafe r → IsSafe (delete_bind_if hex r)
delete_bind_if-IsSafe hex r v = atts-IsSafe (atts-delete_bind_if hex r) v

pub delete_bind-IsSafe : (route_id : String) (r : Room) → IsSafe r → IsSafe (delete_bind route_id r)
delete_bind-IsSafe route_id r v = atts-IsSafe (atts-delete_bind route_id r) v

pub flush_fwd-IsSafe : (r : Room) → IsSafe r → IsSafe (flush_fwd r)
flush_fwd-IsSafe r v = atts-IsSafe (atts-flush_fwd r) v

pub drop_daemon-IsSafe : (reason : String) (r : Room) → IsSafe r → IsSafe (drop_daemon reason r)
drop_daemon-IsSafe reason r v = atts-IsSafe (atts-drop_daemon reason r) v

pub rebuild_maps-IsSafe : (r : Room) → IsSafe r → IsSafe (rebuild_maps r)
rebuild_maps-IsSafe r v = atts-IsSafe (atts-rebuild_maps r) v

pub cold_start-IsSafe : (r : Room) → IsSafe r → IsSafe (cold_start r)
cold_start-IsSafe r v = atts-IsSafe (atts-cold_start r) v

pub sync_heap_alarm-IsSafe : (r : Room) → IsSafe r → IsSafe (sync_heap_alarm r)
sync_heap_alarm-IsSafe r v = atts-IsSafe (atts-sync_heap_alarm r) v

pub note_alarm_late-IsSafe : (ms : ℕ) (r : Room) → IsSafe r → IsSafe (note_alarm_late ms r)
note_alarm_late-IsSafe ms r v = atts-IsSafe (atts-note_alarm_late ms r) v

pub note_fwd-IsSafe : (n : ℕ) (r : Room) → IsSafe r → IsSafe (note_fwd n r)
note_fwd-IsSafe n r v = atts-IsSafe (atts-note_fwd n r) v

pub notify_replaced-IsSafe : (r : Room) → IsSafe r → IsSafe (notify_replaced r)
notify_replaced-IsSafe r v = atts-IsSafe (atts-notify_replaced r) v

pub load_reconnect_hash-IsSafe : (r : Room) → IsSafe r → IsSafe (load_reconnect_hash r)
load_reconnect_hash-IsSafe r v = atts-IsSafe (atts-load_reconnect_hash r) v

pub release_slot-IsSafe : (r : Room) → IsSafe r → IsSafe (release_slot r)
release_slot-IsSafe r v = atts-IsSafe (atts-release_slot r) v

pub tell_unpaired-IsSafe : (rid : List ℕ) (r : Room) → IsSafe r → IsSafe (tell_unpaired rid r)
tell_unpaired-IsSafe rid r v = atts-IsSafe (atts-tell_unpaired rid r) v

pub close_bind-IsSafe :
    (ws : ℕ) (code message : String) (notify : Bool) (r : Room)
    → IsSafe r
    → IsSafe (close_bind ws code message notify r)
close_bind-IsSafe ws code message notify r v =
    atts-IsSafe (atts-close_bind ws code message notify r) v

pub write_unbound-IsSafe :
    (ws : ℕ) (a : Attachment) (r : Room)
    → is_none a.kind ≡ true
    → IsSafe r
    → IsSafe (write_att ws a r)
write_unbound-IsSafe ws a r n v = record { sound = IsSound-write_unbound ws a r n v.sound }

pub write_same-IsSafe :
    (ws : ℕ) (old a : Attachment) (r : Room)
    → att r ws ≡ some old
    → a.role ≡ old.role
    → a.kind ≡ old.kind
    → a.account ≡ old.account
    → a.owner ≡ old.owner
    → IsSafe r
    → IsSafe (write_att ws a r)
write_same-IsSafe ws old a r e role kind account owner v = record {
  sound = IsSound-write_same ws old a r e role kind account owner v.sound;
}

pub ruleset safe_rules = (
  send-IsSafe, close-IsSafe, send_err-IsSafe, reject-IsSafe, close_bind-IsSafe,
  delete_bind_if-IsSafe, delete_bind-IsSafe, flush_fwd-IsSafe, drop_daemon-IsSafe,
  rebuild_maps-IsSafe, cold_start-IsSafe, sync_heap_alarm-IsSafe, note_alarm_late-IsSafe,
  note_fwd-IsSafe, notify_replaced-IsSafe, load_reconnect_hash-IsSafe,
)

pub for_sockets-IsSafe :
    (listed : List ℕ) (body : ℕ → Room → Room) (r : Room)
    → ((ws : ℕ) (s : Room) → IsSafe s → IsSafe (body ws s))
    → IsSafe r
    → IsSafe (for_sockets listed body r)
for_sockets-IsSafe [] body r h v = v
for_sockets-IsSafe (ws ∷ listed) body r h v =
    for_sockets-IsSafe listed body (body ws r) h (h ws r v)

-- The end of a socket: its bind counts for nothing from then on.
unbind_closed-IsSafe :
    (ws : ℕ) (a : Option Attachment) (r : Room) → IsSafe r → IsSafe (unbind_closed ws a r)
unbind_closed-IsSafe ws none r v = v
unbind_closed-IsSafe ws (some a) r v =
    if_rule IsSafe (a.route_id === "") _ _ (λ _. v)
      λ _.
        write_unbound-IsSafe ws (record a { kind = Attachment.none; route_id = "" }) _ refl
          (delete_bind-IsSafe a.route_id _ (tell_unpaired-IsSafe (hex_to_route a.route_id) r v))

pub on_close-IsSafe :
    (ws : ℕ) (reason : String) (r : Room) → IsSafe r → IsSafe (on_close ws reason r)
unfolding on_close
on_close-IsSafe ws reason r v =
    let closing = record r { close_count = r.close_count + 1 } in
    let flushed : IsSafe (flush_fwd closing) = flush_fwd-IsSafe closing (sockets-IsSafe refl v) in
    if_rule IsSafe (closes_daemon r ws (att r ws)) _ _
      (λ _. drop_daemon-IsSafe "closed" _ (sockets-IsSafe refl flushed))
      λ _.
        rebuild_maps-IsSafe _ (unbind_closed-IsSafe ws (att r ws) _ (sockets-IsSafe refl flushed))

-- What a bind that ends leaves of the attachment of a socket: everything.
att-delete_bind_if : (hex : String) (j : ℕ) (r : Room) → att (delete_bind_if hex r) j ≡ att r j
unfolding att delete_bind
att-delete_bind_if hex j r = ground arith

att-tell :
    (a : Attachment) (code message : String) (b : Bool) (j : ℕ) (r : Room)
    → att (if b then tell_daemon a code message r else r) j ≡ att r j
att-tell a code message false j r = refl
att-tell a code message true j r =
    option_rule (λ s. att s j ≡ att r j) r.daemon _ _ (λ _. refl)
      λ d _.
        if_rule (λ s. att s j ≡ att r j) (a.route_id === "") _ _ (λ _. refl)
          λ _. att-send_err d j code message (bind_extra a) r

pub att-close_bind :
    (ws j : ℕ) (code message : String) (notify : Bool) (r : Room)
    → att (close_bind ws code message notify r) j ≡ att r j
unfolding close_bind
att-close_bind ws j code message notify r =
    option_rule (λ s. att s j ≡ att r j) (att r ws) _ _
      (λ _.
        att-close ws j code (send_err ws code message no_extra r)
        ∙ att-send_err ws j code message no_extra r)
      λ a _.
        let told = send_err ws code message (bind_extra a) r in
        let both = if notify then tell_daemon a code message told else told in
        att-close ws j code (delete_bind_if a.route_id both)
        ∙ att-delete_bind_if a.route_id j both
        ∙ att-tell a code message notify j told
        ∙ att-send_err ws j code message (bind_extra a) r
