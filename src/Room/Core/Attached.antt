-- ===== src/Room/Core/Attached.antt =====
-- The operations of core.ts that leave every attachment as it is.
use pairfob.Prelude.{
  ℕ, ◌≡◌, refl, ◌∙◌, String, Bool, true, false, Option, none, some, List, [], ◌∷◌, arith,
  if◌then◌else◌, if_rule, option_rule, keep,
}
use pairfob.Attachment.{Attachment, is_daemon}
use pairfob.Room.{Room, att, send_err, for_sockets, ids, remember_if}
use pairfob.Room.Attached.{
  atts, atts-close, atts-send_err, atts-delete_bind, atts-remember_route, atts-for_sockets,
  atts_laws,
}
use pairfob.Room.Core.{
  close_unless, retain_newest_daemon, newest, registered, remember_attached, rebuild_maps,
  harvest_control, cold_start, release_slot, delete_bind_if, drop_client, close_replaced,
  drop_daemon, notify_client, notify_replaced,
}
use pairfob.Room.Traffic.{
  note_fwd, flush_fwd, close_bind, bind_extra, tell_daemon, note_alarm_late, load_reconnect_hash,
  sync_heap_alarm, tell_unpaired,
}

atts-close_unless : (live ws : ℕ) (r : Room) → atts (close_unless live ws r) ≡ atts r
atts-close_unless live ws r = ground (arith, atts-close ws "replaced" r)

pub atts-retain_newest_daemon : (ds : List ℕ) (r : Room) → atts (retain_newest_daemon ds r) ≡ atts r
unfolding retain_newest_daemon
atts-retain_newest_daemon [] r = refl
atts-retain_newest_daemon (d ∷ rest) r =
    atts-for_sockets (d ∷ rest) (close_unless (newest r d rest)) r
      (atts-close_unless (newest r d rest))

atts-remember_if : (hex : String) (ws : ℕ) (r : Room) → atts (remember_if hex ws r) ≡ atts r
atts-remember_if hex ws r = ground (arith, atts-remember_route hex ws r)

atts-remember_attached : (ws : ℕ) (r : Room) → atts (remember_attached ws r) ≡ atts r
atts-remember_attached ws r =
    option_rule (λ s. atts s ≡ atts r) (att r ws) _ _ (λ _. refl)
      λ a _. atts-remember_if a.route_id ws r

pub atts-rebuild_maps : (r : Room) → atts (rebuild_maps r) ≡ atts r
unfolding rebuild_maps
atts-rebuild_maps r =
    atts-retain_newest_daemon (keep (registered r) (ids r.sockets))
      (for_sockets (ids r.sockets) remember_attached (record r { routes = [] }))
    ∙ atts-for_sockets (ids r.sockets) remember_attached _ atts-remember_attached

atts-harvest_control : (r : Room) → atts (harvest_control r) ≡ atts r
unfolding harvest_control
atts-harvest_control r = ground arith

pub atts-cold_start : (r : Room) → atts (cold_start r) ≡ atts r
unfolding cold_start
atts-cold_start r = ground (arith, atts-rebuild_maps r, atts-harvest_control (rebuild_maps r))

pub atts-release_slot : (r : Room) → atts (release_slot r) ≡ atts r
atts-release_slot r = ground arith

pub atts-delete_bind_if : (hex : String) (r : Room) → atts (delete_bind_if hex r) ≡ atts r
atts-delete_bind_if hex r = ground (arith, atts-delete_bind hex r)

atts-drop_client : (ws : ℕ) (r : Room) → atts (drop_client ws r) ≡ atts r
atts-drop_client ws r =
    option_rule (λ s. atts s ≡ atts r) (att r ws) _ _ (λ _. refl)
      λ a _.
        if_rule (λ s. atts s ≡ atts r) (is_daemon a.role) _ _ (λ _. refl)
          λ _. atts-delete_bind_if a.route_id _ ∙ simp atts_laws

atts-close_replaced :
    (d : Option ℕ) (reason : String) (r : Room) → atts (close_replaced d reason r) ≡ atts r
atts-close_replaced none reason r = refl
atts-close_replaced (some d) reason r = ground (arith, atts-close d "replaced" r)

pub atts-drop_daemon : (reason : String) (r : Room) → atts (drop_daemon reason r) ≡ atts r
unfolding drop_daemon
atts-drop_daemon reason r =
    atts-close_replaced r.daemon reason _
    ∙ atts-release_slot (for_sockets (ids r.sockets) drop_client r)
    ∙ atts-for_sockets (ids r.sockets) drop_client r atts-drop_client

atts-notify_client : (id : String) (ws : ℕ) (r : Room) → atts (notify_client id ws r) ≡ atts r
atts-notify_client id ws r =
    option_rule (λ s. atts s ≡ atts r) (att r ws) _ _ (λ _. refl)
      λ a _.
        if_rule (λ s. atts s ≡ atts r) (is_daemon a.role) _ _ (λ _. refl)
          λ _. atts-delete_bind_if a.route_id _ ∙ simp atts_laws

pub atts-notify_replaced : (r : Room) → atts (notify_replaced r) ≡ atts r
unfolding notify_replaced
atts-notify_replaced r =
    atts-release_slot (for_sockets (ids r.sockets) (notify_client r.daemon_id) r)
    ∙ atts-for_sockets (ids r.sockets) (notify_client r.daemon_id) r
        (atts-notify_client r.daemon_id)

pub atts-note_fwd : (n : ℕ) (r : Room) → atts (note_fwd n r) ≡ atts r
unfolding note_fwd
atts-note_fwd n r = ground arith

pub atts-flush_fwd : (r : Room) → atts (flush_fwd r) ≡ atts r
unfolding flush_fwd
atts-flush_fwd r = ground arith

atts-tell_daemon :
    (a : Attachment) (code message : String) (r : Room)
    → atts (tell_daemon a code message r) ≡ atts r
atts-tell_daemon a code message r =
    option_rule (λ s. atts s ≡ atts r) r.daemon _ _ (λ _. refl)
      λ d _. ground (arith, atts-send_err d code message (bind_extra a) r)

atts-tell_if :
    (b : Bool) (a : Attachment) (code message : String) (r : Room)
    → atts (if b then tell_daemon a code message r else r) ≡ atts r
atts-tell_if true a code message r = atts-tell_daemon a code message r
atts-tell_if false a code message r = refl

pub atts-close_bind :
    (ws : ℕ) (code message : String) (notify : Bool) (r : Room)
    → atts (close_bind ws code message notify r) ≡ atts r
unfolding close_bind
atts-close_bind ws code message notify r =
    option_rule (λ s. atts s ≡ atts r) (att r ws) _ _ (λ _. simp atts_laws)
      λ a _.
        let told = send_err ws code message (bind_extra a) r in
        let both = if notify then tell_daemon a code message told else told in
        atts-close ws code (delete_bind_if a.route_id both)
        ∙ atts-delete_bind_if a.route_id both
        ∙ atts-tell_if notify a code message told
        ∙ atts-send_err ws code message (bind_extra a) r

pub atts-note_alarm_late : (ms : ℕ) (r : Room) → atts (note_alarm_late ms r) ≡ atts r
unfolding note_alarm_late
atts-note_alarm_late ms r = refl

pub atts-load_reconnect_hash : (r : Room) → atts (load_reconnect_hash r) ≡ atts r
unfolding load_reconnect_hash
atts-load_reconnect_hash r = ground arith

pub atts-sync_heap_alarm : (r : Room) → atts (sync_heap_alarm r) ≡ atts r
unfolding sync_heap_alarm
atts-sync_heap_alarm r = refl

pub atts-tell_unpaired : (rid : List ℕ) (r : Room) → atts (tell_unpaired rid r) ≡ atts r
atts-tell_unpaired rid r =
    option_rule (λ s. atts s ≡ atts r) r.daemon _ _ (λ _. refl) λ d _. simp atts_laws
