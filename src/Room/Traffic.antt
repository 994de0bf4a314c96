-- ===== src/Room/Traffic.antt =====
-- workers/pairfob-origin/src/room/core.ts: traffic counts, binds that are closed, and the ends of sockets.
use pairfob.Prelude.{
  ℕ, ◌+◌, String, Bool, true, false, ◌&&◌, Option, none, some, List, ◌∷◌, ◌==◌, ◌===◌, leb, ltb,
  if◌then◌else◌, lookup,
}
use pairfob.Store.{load_meta, min_alarm_at, set_alarm_if_changed}
use pairfob.Attachment
use pairfob.Attachment.{
  Attachment, is_daemon, is_phone, is_none, is_pairing, is_resumehello, is_established,
  is_hello_mode, kind_text, role_text, is_registered_daemon, needs_constructor_sql,
}
use pairfob.Hex.{hex_to_route}
use pairfob.Constants.{fwd_flush_bytes}
use pairfob.Room.{
  Room, metric_bind, metric_close, metric_fwd, metric_alarm_late, close, att, write_att,
  delete_bind, send_err, log_call, no_extra, with_route, is_daemon_socket, Extra,
}
use pairfob.Room.Core.{delete_bind_if, drop_daemon, rebuild_maps}

unfoldable pub note_fwd : ℕ → Room → Room
note_fwd bytes r =
    let total = r.fwd_since_write + bytes in
    let counted = record r { fwd_bytes = r.fwd_bytes + bytes; fwd_since_write = total } in
    if bytes == 0
    then r
    else if leb fwd_flush_bytes total
    then record counted { fwd_since_write = 0; calls = metric_fwd total ∷ r.calls }
    else counted

unfoldable pub flush_fwd : Room → Room
flush_fwd r =
    if r.fwd_since_write == 0
    then r
    else record r { fwd_since_write = 0; calls = metric_fwd r.fwd_since_write ∷ r.calls }

abbrev pub note_bind : String → Room → Room
note_bind kind r = log_call (metric_bind kind) r

-- The route and the pairing reference that an error names; none without a route.
abbrev pub bind_extra : Attachment → Extra
bind_extra a = if a.route_id === "" then no_extra else record {
  route_id = some (hex_to_route a.route_id);
  pair_ref = a.pair_ref;
  retry_after_ms = none;
}

abbrev pub tell_daemon : Attachment → (code message : String) → Room → Room
tell_daemon a code message r = elim r.daemon [
  | none ↦ r
  | some d ↦ if a.route_id === "" then r else send_err d code message (bind_extra a) r
]

unfoldable pub close_bind : ℕ → (code message : String) → (notify_daemon : Bool) → Room → Room
unfolding att send_err close delete_bind hex_to_route
close_bind ws code message notify_daemon r = elim (att r ws) [
  | none ↦ close ws code (send_err ws code message no_extra r)
  | some a ↦
      let told = send_err ws code message (bind_extra a) r in
      let both = if notify_daemon then tell_daemon a code message told else told in
      close ws code (delete_bind_if a.route_id both)
]

unfoldable pub note_alarm_late : ℕ → Room → Room
note_alarm_late ms r = record r {
  alarm_late_count = r.alarm_late_count + 1;
  alarm_late_max_ms = if ltb r.alarm_late_max_ms ms then ms else r.alarm_late_max_ms;
  calls = metric_alarm_late ms ∷ r.calls;
}

unfoldable pub find_by_route : Room → String → Option ℕ
unfolding lookup
find_by_route r hex = elim (lookup hex r.routes) [ none ↦ none | some t ↦ some t.socket ]

unfoldable pub route_bytes : Room → String → List ℕ
unfolding lookup hex_to_route
route_bytes r hex = elim (lookup hex r.routes) [ none ↦ hex_to_route hex | some t ↦ t.route_id ]

abbrev pub close_kind : Option Attachment → String
close_kind none = "none"
close_kind (some a) = if is_none a.kind then role_text a.role else kind_text a.kind

abbrev pub closes_daemon : Room → ℕ → Option Attachment → Bool
closes_daemon r ws none = false
closes_daemon r ws (some a) = is_daemon a.role && is_daemon_socket r ws

abbrev pub tell_unpaired : List ℕ → Room → Room
tell_unpaired rid r = elim r.daemon [
  | none ↦ r
  | some d ↦ send_err d "unpaired" "client websocket gone" (with_route rid) r
]

abbrev pub unbind_closed : ℕ → Option Attachment → Room → Room
unbind_closed ws none r = r
unbind_closed ws (some a) r =
    if a.route_id === ""
    then r
    else write_att ws (record a { kind = Attachment.none; route_id = "" })
        (delete_bind a.route_id (tell_unpaired (hex_to_route a.route_id) r))

unfoldable pub on_close : ℕ → (reason : String) → Room → Room
unfolding att flush_fwd drop_daemon send_err delete_bind write_att rebuild_maps hex_to_route
on_close ws reason r =
    let a = att r ws in
    let flushed = flush_fwd (record r { close_count = r.close_count + 1 }) in
    let counted =
      log_call (metric_close (if reason === "" then "closed" else reason) (close_kind a)) flushed in
    if closes_daemon r ws a
    then drop_daemon "closed" counted
    else rebuild_maps (unbind_closed ws a counted)

unfoldable pub load_reconnect_hash : Room → Room
unfolding load_meta
load_reconnect_hash r =
    if r.reconnect_hash === ""
    then (elim (load_meta r.store) [
      | none ↦ r
      | some m ↦ record r {
        reconnect_hash = m.reconnect_hash;
        grant_id = m.grant_id;
        enrolled = true;
      }
    ])
    else r

-- syncHeapAlarm of alarms.ts
unfoldable pub sync_heap_alarm : Room → Room
unfolding min_alarm_at set_alarm_if_changed
sync_heap_alarm r = record r { store = set_alarm_if_changed r.store (min_alarm_at r.store) }
