-- ===== src/Room/Core/Closing.antt =====
-- What the end of a websocket takes from a room (onClose).
use pairfob.Prelude.{
  ℕ, ◌+◌, ◌≡◌, refl, sym, subst, ap, ◌∙◌, String, false, none, some, List, [], ◌∷◌, arith, ◌==◌,
  ◌===◌, if◌then◌else◌, if_rule, option_rule, lookup, lookup-delete, eq_refl, keep,
}
use pairfob.Attachment
use pairfob.Attachment.{Attachment, is_daemon}
use pairfob.Store.{delete_bind_row}
use pairfob.Hex.{hex_to_route}
use pairfob.Room.{
  Room, att, close, remember_route, write_att, delete_bind, for_sockets, ids, log_call,
  metric_close, with_route,
}
use pairfob.Room.Attached.{for_sockets-keeps}
use pairfob.Room.Written.{att-send_err, att-write_att_self, att-close}
use pairfob.Room.Core.{
  rebuild_maps, retain_newest_daemon, registered, remember_attached, close_unless, newest,
}
use pairfob.Room.Traffic.{
  on_close, unbind_closed, tell_unpaired, flush_fwd, closes_daemon, close_kind,
}

pub att-sockets : (ws : ℕ) (s r : Room) → s.sockets ≡ r.sockets → att s ws ≡ att r ws
unfolding att
att-sockets ws s r e = rw e refl

att-flush_fwd : (ws : ℕ) (r : Room) → att (flush_fwd r) ws ≡ att r ws
unfolding flush_fwd att
att-flush_fwd ws r = ground arith

att-close_unless : (ws live i : ℕ) (r : Room) → att (close_unless live i r) ws ≡ att r ws
att-close_unless ws live i r =
    if_rule (λ s. att s ws ≡ att r ws) (i == live) _ _ (λ _. refl) λ _. att-close i ws "replaced" r

att-retain : (ws : ℕ) (ds : List ℕ) (r : Room) → att (retain_newest_daemon ds r) ws ≡ att r ws
unfolding retain_newest_daemon att
att-retain ws [] r = refl
att-retain ws (d ∷ rest) r =
    for_sockets-keeps (λ s. att s ws) (d ∷ rest) (close_unless (newest r d rest)) r
      (att-close_unless ws (newest r d rest))

att-remember_attached : (ws i : ℕ) (r : Room) → att (remember_attached i r) ws ≡ att r ws
unfolding remember_route
att-remember_attached ws i r =
    option_rule (λ s. att s ws ≡ att r ws) (att r i) _ _ (λ _. refl)
      λ a _.
        if_rule (λ s. att s ws ≡ att r ws) (a.route_id === "") _ _ (λ _. refl)
          λ _. att-sockets ws _ r refl

att-rebuild_maps : (ws : ℕ) (r : Room) → att (rebuild_maps r) ws ≡ att r ws
unfolding rebuild_maps
att-rebuild_maps ws r =
    let cleared = record r { routes = [] } in
    let mapped = for_sockets (ids r.sockets) remember_attached cleared in
    att-retain ws (keep (registered r) (ids r.sockets)) mapped
    ∙ for_sockets-keeps (λ s. att s ws) (ids r.sockets) remember_attached cleared
        (att-remember_attached ws)
    ∙ att-sockets ws cleared r refl

att-tell_unpaired : (ws : ℕ) (rid : List ℕ) (r : Room) → att (tell_unpaired rid r) ws ≡ att r ws
att-tell_unpaired ws rid r =
    option_rule (λ s. att s ws ≡ att r ws) r.daemon _ _ (λ _. refl)
      λ d _. att-send_err d ws "unpaired" "client websocket gone" (with_route rid) r

store-write_att : (ws : ℕ) (a : Attachment) (r : Room) → (write_att ws a r).store ≡ r.store
unfolding write_att
store-write_att ws a r = ground arith

store-close_unless : (live i : ℕ) (r : Room) → (close_unless live i r).store ≡ r.store
unfolding close
store-close_unless live i r =
    let P : Room → Type 0 = λ s. s.store ≡ r.store in
    if_rule P (i == live) _ _ (λ _. refl) λ _. refl

store-retain : (ds : List ℕ) (r : Room) → (retain_newest_daemon ds r).store ≡ r.store
unfolding retain_newest_daemon
store-retain [] r = refl
store-retain (d ∷ rest) r =
    for_sockets-keeps (λ s. s.store) (d ∷ rest) (close_unless (newest r d rest)) r
      (store-close_unless (newest r d rest))

store-remember_attached : (i : ℕ) (r : Room) → (remember_attached i r).store ≡ r.store
unfolding remember_route
store-remember_attached i r =
    let P : Room → Type 0 = λ s. s.store ≡ r.store in
    option_rule P (att r i) _ _ (λ _. refl)
      λ a _. if_rule P (a.route_id === "") _ _ (λ _. refl) λ _. refl

store-rebuild_maps : (r : Room) → (rebuild_maps r).store ≡ r.store
unfolding rebuild_maps
store-rebuild_maps r =
    let cleared = record r { routes = [] } in
    let mapped = for_sockets (ids r.sockets) remember_attached cleared in
    store-retain (keep (registered r) (ids r.sockets)) mapped
    ∙ for_sockets-keeps (λ s. s.store) (ids r.sockets) remember_attached cleared
        store-remember_attached

sockets-delete_bind : (hex : String) (r : Room) → (delete_bind hex r).sockets ≡ r.sockets
unfolding delete_bind
sockets-delete_bind hex r = refl

binds-delete_bind : (hex : String) (r : Room) → lookup hex (delete_bind hex r).store.binds ≡ none
unfolding delete_bind delete_bind_row
binds-delete_bind hex r = ground (arith, lookup-delete hex hex r.store.binds, eq_refl hex)

att-flush_counted :
    (ws : ℕ) (r : Room)
    → att (flush_fwd (record r { close_count = r.close_count + 1 })) ws ≡ att r ws
att-flush_counted ws r =
    att-flush_fwd ws (record r { close_count = r.close_count + 1 })
    ∙ att-sockets ws (record r { close_count = r.close_count + 1 }) r refl

unbound :
    (ws : ℕ) (a : Attachment) (r : Room)
    → att r ws ≡ some a
    → (a.route_id === "") ≡ false
    → (att (rebuild_maps (unbind_closed ws (some a) r)) ws
        ≡ some (record a { kind = Attachment.none; route_id = "" }))
      × (lookup a.route_id (rebuild_maps (unbind_closed ws (some a) r)).store.binds ≡ none)
unbound ws a r e bound =
    let told = tell_unpaired (hex_to_route a.route_id) r in
    let freed = delete_bind a.route_id told in
    let b = record a { kind = Attachment.none; route_id = "" } in
    let P : Room → Type 0 = λ s.
      (att (rebuild_maps s) ws ≡ some b)
      × (lookup a.route_id (rebuild_maps s).store.binds ≡ none) in
    let here : att freed ws ≡ some a =
      att-sockets ws freed told (sockets-delete_bind a.route_id told)
      ∙ att-tell_unpaired ws (hex_to_route a.route_id) r
      ∙ e in
    let row : lookup a.route_id (rebuild_maps (write_att ws b freed)).store.binds ≡ none =
      ap (λ s. lookup a.route_id s.binds)
        (store-rebuild_maps (write_att ws b freed) ∙ store-write_att ws b freed)
      ∙ binds-delete_bind a.route_id told in
    if_rule P (a.route_id === "") _ _ (λ empty. absurd (ground (arith, empty, bound)))
      λ _. (att-rebuild_maps ws (write_att ws b freed) ∙ att-write_att_self ws a b freed here, row)

-- When the websocket of a bound phone ends, its bind ends with it: the attachment is unbound, and the
-- row of the bind is gone.
pub on_close_unbinds :
    (ws : ℕ) (reason : String) (a : Attachment) (r : Room)
    → att r ws ≡ some a
    → is_daemon a.role ≡ false
    → (a.route_id === "") ≡ false
    → (att (on_close ws reason r) ws ≡ some (record a { kind = Attachment.none; route_id = "" }))
      × (lookup a.route_id (on_close ws reason r).store.binds ≡ none)
unfolding on_close
on_close_unbinds ws reason a r e phone bound =
    let P : Room → Type 0 = λ s.
      (att s ws ≡ some (record a { kind = Attachment.none; route_id = "" }))
      × (lookup a.route_id s.store.binds ≡ none) in
    let closing = record r { close_count = r.close_count + 1 } in
    let counted =
      log_call (metric_close (if reason === "" then "closed" else reason) (close_kind (att r ws)))
        (flush_fwd closing) in
    if_rule P (closes_daemon r ws (att r ws)) _ _
      (λ d. absurd (ground (arith, ap (closes_daemon r ws) e, d, phone)))
      λ _.
        subst (λ o. P (rebuild_maps (unbind_closed ws o counted))) (sym e)
          (unbound ws a counted
            (att-sockets ws counted (flush_fwd closing) refl ∙ att-flush_counted ws r ∙ e) bound)
