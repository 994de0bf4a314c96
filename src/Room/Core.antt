-- ===== src/Room/Core.antt =====
-- workers/pairfob-origin/src/room/core.ts: maps, enrolment, traffic counts, and the ends of sockets.
pub mod Attached
pub mod Closing
use pairfob.Prelude.{
  ℕ, zero, suc, ◌+◌, ◌-◌, ◌≤◌, String, Bool, true, false, not, ◌&&◌, ◌||◌, Option, none, some, List,
  [], ◌∷◌, ◌==◌, ◌===◌, leb, ltb, if◌then◌else◌, length, keep, count, lookup,
}
use pairfob.Store
use pairfob.Store.{
  MetaRow, load_meta, put_meta, delete_meta, set_reconnect_hash, clear_reconnect_hash, load_slot,
  delete_slot, delete_ghost_binds, min_alarm_at, set_alarm_if_changed,
}
use pairfob.Attachment
use pairfob.Attachment.{
  Attachment, is_daemon, is_phone, is_none, is_pairing, is_resumehello, is_established,
  is_hello_mode, kind_text, role_text, is_registered_daemon, needs_constructor_sql,
}
use pairfob.Hex.{zero_route, hex_to_route}
use pairfob.Json.{text, number}
use pairfob.Envelope.Typ
use pairfob.Constants.{fwd_flush_bytes}
use pairfob.Room.{
  Room, Socket, Env, RouteTarget, json_frame, metric_bind, metric_close, metric_fwd,
  metric_alarm_late, index_remove, send, close, att, remember_route, remember_if, write_att,
  delete_bind, send_err, log_call, ids, for_sockets, no_extra, with_route, is_daemon_socket, Extra,
}

-- The hello of a socket, 0 without an attachment.
abbrev pub hello_of : Room → ℕ → ℕ
hello_of r ws = elim (att r ws) [ none ↦ 0 | some a ↦ a.hello_at_ms ]

-- The loop over the other daemon sockets: the last of the latest hellos is kept.
unfoldable pub newest : Room → ℕ → List ℕ → ℕ
newest r live [] = live
newest r live (ws ∷ rest) =
    newest r (if leb (hello_of r live) (hello_of r ws) then ws else live) rest

abbrev pub close_unless : ℕ → ℕ → Room → Room
close_unless live ws r = if ws == live then r else close ws "replaced" r

unfoldable pub retain_newest_daemon : List ℕ → Room → Room
unfolding newest close
retain_newest_daemon [] r = record r { daemon = none }
retain_newest_daemon (d ∷ rest) r =
    let live = newest r d rest in
    let closed = for_sockets (d ∷ rest) (close_unless live) r in
    record closed { daemon = some live }

abbrev pub registered : Room → ℕ → Bool
registered r ws = elim (att r ws) [ none ↦ false | some a ↦ is_registered_daemon a ]

abbrev pub remember_attached : ℕ → Room → Room
remember_attached ws r = elim (att r ws) [ none ↦ r | some a ↦ remember_if a.route_id ws r ]

unfoldable pub rebuild_maps : Room → Room
unfolding retain_newest_daemon remember_route att is_registered_daemon
rebuild_maps r =
    let listed = ids r.sockets in
    let cleared = record r { routes = [] } in
    retain_newest_daemon (keep (registered r) listed) (for_sockets listed remember_attached cleared)

-- The attachments, and the route ids in them, of the listed sockets.
abbrev pub attachments : List Socket → List Attachment
attachments [] = []
attachments (s ∷ ss) = elim s.attachment [ none ↦ attachments ss | some a ↦ a ∷ attachments ss ]

abbrev pub route_ids : List Attachment → List String
route_ids [] = []
route_ids (a ∷ as') = if a.route_id === "" then route_ids as' else a.route_id ∷ route_ids as'

unfoldable pub harvest_control : Room → Room
unfolding delete_ghost_binds load_meta
harvest_control r =
    let cleaned = record r {
      store = delete_ghost_binds r.store (route_ids (attachments r.sockets));
    } in
    elim (load_meta cleaned.store) [
      | none ↦ cleaned
      | some m ↦ record cleaned {
        enrolled = true;
        reconnect_hash = m.reconnect_hash;
        grant_id = m.grant_id;
      }
    ]

unfoldable pub cold_start : Room → Room
unfolding rebuild_maps harvest_control needs_constructor_sql
cold_start r =
    let built = rebuild_maps r in
    if needs_constructor_sql (attachments built.sockets) then harvest_control built else built

unfoldable pub attach_socket : Room → Room
unfolding rebuild_maps
attach_socket r = rebuild_maps r

-- void this.index()?.remove(loc, …)
abbrev pub index_forget : String → String → Room → Room
index_forget loc pair_ref r = if r.has_index then log_call (index_remove loc pair_ref) r else r

abbrev pub release_slot : Room → Room
release_slot r = elim (load_slot r.store) [
  | none ↦ r
  | some slot ↦ index_forget slot.pair_loc slot.pair_ref (record r { store = delete_slot r.store })
]

abbrev pub delete_bind_if : String → Room → Room
delete_bind_if route_id r = if route_id === "" then r else delete_bind route_id r

abbrev pub drop_client : ℕ → Room → Room
drop_client ws r = elim (att r ws) [
  | none ↦ r
  | some a ↦
      if is_daemon a.role
      then r
      else delete_bind_if a.route_id (
          close ws "daemon_offline"
            (send_err ws "daemon_offline" "daemon websocket gone" no_extra r))
]

abbrev pub close_replaced : Option ℕ → String → Room → Room
close_replaced none reason r = r
close_replaced (some d) reason r = if reason === "replaced" then close d "replaced" r else r

unfoldable pub drop_daemon : (reason : String) → Room → Room
unfolding att close send_err delete_bind load_slot delete_slot
drop_daemon reason r =
    let released = release_slot (for_sockets (ids r.sockets) drop_client r) in
    close_replaced r.daemon reason (record released { daemon = none })

abbrev route_bytes_of : String → List ℕ
route_bytes_of hex = if hex === "" then zero_route else hex_to_route hex

abbrev pub notify_client : String → ℕ → Room → Room
notify_client daemon_id ws r = elim (att r ws) [
  | none ↦ r
  | some a ↦
      if is_daemon a.role
      then r
      else delete_bind_if a.route_id (
          close ws "replaced" (
            send ws
              (json_frame Typ.daemon_replaced (route_bytes_of a.route_id)
                (("v", number 2) ∷ ("daemon_id", text daemon_id) ∷ []))
              r))
]

unfoldable pub notify_replaced : Room → Room
unfolding att close send delete_bind load_slot delete_slot hex_to_route
notify_replaced r = release_slot (for_sockets (ids r.sockets) (notify_client r.daemon_id) r)
