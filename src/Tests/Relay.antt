-- ===== src/Tests/Relay.antt =====
-- Runs of the theorems on relayed frames, alarms, tickets and the pairing slot.
use pairfob.Prelude.{
  ℕ, String, ◌≡◌, ◌≤◌, refl, true, false, none, some, [], ◌∷◌, arith, lookup, All, List,
}
use pairfob.Hex.{bytes_to_hex, hex_digit}
use pairfob.Attachment
use pairfob.Attachment.{Attachment, new_attachment}
use pairfob.Envelope.{Frame, ok, decode, layout}
use pairfob.Envelope.Typ
use pairfob.Json.{parse_json_object, text_field}
use pairfob.Store.{
  PairSlot, due_alarms, has_id, load_slot, gate_failures_since, record_gate_attempt, pair_ttl,
}
use pairfob.Store.Alarms.{ids_of}
use pairfob.Gate.{gate_cooldown_ms}
use pairfob.Room.{Room, Env, att, failed, wire}
use pairfob.Room.Traffic.{close_bind, find_by_route, on_close, route_bytes}
use pairfob.Room.Counts.{count_kinds}
use pairfob.Room.Core.Closing.{on_close_unbinds}
use pairfob.Room.Attached.{atts}
use pairfob.Room.Alarms.{schedule, alarm, advance_pair_frames}
use pairfob.Room.Alarms.Heap.{IsArmed, schedule-IsArmed}
use pairfob.Room.Alarms.Expiry.{alarm_expires_slot}
use pairfob.Room.Fwd.{forward_wire, advance_and_forward, fwd_wire_from_client, fwd_wire_from_daemon}
use pairfob.Room.Fwd.Forwarding.{forwards_after_close}
use pairfob.Room.Fwd.Delivered.{frame_delivered_stamped}
use pairfob.Room.Fwd.Isolation.{sent_to, daemon_frame_isolated, phone_frame_isolated}
use pairfob.Room.Gates.{gate_allowed, gate_check, issue_ticket, consume_upgrade}
use pairfob.Room.Gates.Admission.{issued_ticket_admits}
use pairfob.Room.Gates.Tickets.{ticket_admits_once}
use pairfob.Room.PairAttach.{handle_pair_attach}
use pairfob.Room.Pairing.{handle_pair_open}
use pairfob.Room.PairAttach.Guards.{shut_slot_binds_nothing}
use pairfob.Room.Pairing.Slot.{refused_open_keeps_slot}
use pairfob.Tests.{route_a, fwd_frame, quiet_env, busy_room, phone, hex_a, hex_b, repeat, reference}

-- The index has another route for the phone than the one that it writes.
abbrev stray_room : Room
stray_room = record busy_room {
  routes = (hex_a, record { socket = 1; route_id = repeat 16 9 }) ∷ [];
}

frame_delivered_stamped_example :
    (w : List ℕ) × (sent_to 0 (
        fwd_wire_from_client quiet_env 1
          (phone hex_a "" Attachment.established)
          (layout fwd_frame)
          stray_room)
      ≡ wire w ∷ sent_to 0 stray_room)
    × (decode w ≡ ok (record fwd_frame { route_id = route_bytes stray_room hex_a }))
unfolding busy_room decode att route_bytes lookup
frame_delivered_stamped_example =
    frame_delivered_stamped quiet_env 1 0 (phone hex_a "" Attachment.established) (layout fwd_frame)
      fwd_frame stray_room (λ pairing s. refl) refl refl refl refl (search arith) refl refl

daemon_frame_isolated_example :
    sent_to 2 (fwd_wire_from_daemon 0 (layout fwd_frame) busy_room) ≡ sent_to 2 busy_room
unfolding busy_room find_by_route bytes_to_hex hex_digit
daemon_frame_isolated_example = daemon_frame_isolated 0 2 (layout fwd_frame) busy_room refl refl

abbrev paired : Attachment
paired = phone hex_b reference Attachment.pairing

phone_frame_isolated_example :
    sent_to 1 (fwd_wire_from_client quiet_env 2 paired (layout fwd_frame) busy_room)
    ≡ sent_to 1 busy_room
unfolding busy_room
phone_frame_isolated_example =
    phone_frame_isolated quiet_env 1 (λ r. refl) 2 paired (layout fwd_frame) busy_room refl refl

abbrev closing_env : Env
closing_env = record quiet_env { others = close_bind 2 "pair_timeout" "late" true }

forwards_after_close_example :
    advance_and_forward closing_env 2 0 hex_b 2 90000 route_a (layout fwd_frame) busy_room
    ≡ forward_wire 0 route_a (layout fwd_frame) (
        close_bind 2 "pair_timeout" "late" true
          (advance_pair_frames closing_env hex_b 2 90000 busy_room))
unfolding busy_room att
forwards_after_close_example =
    forwards_after_close closing_env 2 0 90000 "pair_timeout" "late" true route_a (layout fwd_frame)
      paired busy_room refl refl refl refl

schedule-IsArmed_example :
    ((m : ℕ) × ((schedule pair_ttl reference 5000 busy_room).store.alarm ≡ some m) × (m ≤ 5000))
    × IsArmed (schedule pair_ttl reference 5000 busy_room)
schedule-IsArmed_example = schedule-IsArmed pair_ttl reference 5000 busy_room

abbrev expired : PairSlot
expired = record { pair_ref = reference; pair_loc = "000000"; deadline = 5000 }

-- The deadline of an open slot is a second past.
abbrev waiting : Room
waiting = record busy_room {
  store = record busy_room.store {
    slot = some expired;
    alarm = some 5000;
    alarms = record { id = 3; at = 5000; kind = pair_ttl; ref = reference } ∷ [];
  };
  clock = 6000;
}

alarm_expires_slot_example :
    ((alarm quiet_env waiting).store.slot ≡ none)
    × All
        (λ a. has_id (ids_of (due_alarms waiting.store waiting.clock)) a.id ≡ false)
        (alarm quiet_env waiting).store.alarms
    × IsArmed (alarm quiet_env waiting)
unfolding due_alarms busy_room
alarm_expires_slot_example =
    alarm_expires_slot quiet_env expired waiting (λ s v. v) (λ s e. e) refl (omega arith) refl

abbrev ticketed : Room
ticketed = record busy_room {
  store = record busy_room.store {
    tickets =
        (reference, record { ticket = reference; pair_ref = reference; deadline = 9000 }) ∷ [];
  };
}

ticket_admits_once_example :
    (consume_upgrade
      (some reference)
      "client"
      "u_2"
      ""
      (record (consume_upgrade (some reference) "client" "u_1" "u_1" ticketed).room {
        clock = 3000;
      })).attachment
    ≡ none
unfolding consume_upgrade busy_room gate_cooldown_ms gate_failures_since lookup
ticket_admits_once_example =
    ticket_admits_once reference "client" "u_1" "u_1" "client" "u_2" "" 3000 ticketed
      (new_attachment Attachment.phone 2000 "u_1" "u_1" 0) refl refl

abbrev offering : Room
offering = record busy_room {
  store = record busy_room.store {
    slot = some (record { pair_ref = reference; pair_loc = "000000"; deadline = 90000 });
  };
}

abbrev drawn : String
drawn = "01010101010101010101010101010101"

issued_ticket_admits_example :
    (consume_upgrade
      (some drawn)
      "client"
      "u_1"
      "u_1"
      (record (issue_ticket quiet_env "000000" offering).room { clock = 9000 })).attachment
    ≡ some (new_attachment Attachment.phone 9000 "u_1" "u_1" 0)
unfolding issue_ticket busy_room gate_allowed gate_cooldown_ms gate_failures_since load_slot
    bytes_to_hex hex_digit record_gate_attempt
issued_ticket_admits_example =
    issued_ticket_admits quiet_env "000000" drawn reference "u_1" "u_1" 9000 offering (λ s. refl)
      (search arith) refl refl refl refl

shut_slot_binds_nothing_example :
    atts (
      handle_pair_attach quiet_env 1
        (record fwd_frame { typ = Typ.pair_attach; payload = 3 ∷ [] })
        busy_room)
    ≡ atts busy_room
unfolding busy_room gate_check count_kinds gate_cooldown_ms gate_failures_since load_slot text_field
    parse_json_object
shut_slot_binds_nothing_example =
    shut_slot_binds_nothing quiet_env 1
      (record fwd_frame { typ = Typ.pair_attach; payload = 3 ∷ [] }) busy_room refl

abbrev full_env : Env
full_env = record quiet_env { index_answer = λ r loc. failed }

abbrev open_frame : Frame
open_frame = record {
  version = 1;
  typ = Typ.pair_open;
  flags = 0;
  route_id = repeat 16 0;
  payload = 3 ∷ [];
}

refused_open_keeps_slot_example :
    (handle_pair_open full_env 0 open_frame busy_room).store.slot ≡ busy_room.store.slot
refused_open_keeps_slot_example =
    refused_open_keeps_slot full_env (λ r loc. refl) 0 open_frame busy_room

on_close_unbinds_example :
    (att (on_close 2 "gone" busy_room) 2
      ≡ some (record paired { kind = Attachment.none; route_id = "" }))
    × (lookup hex_b (on_close 2 "gone" busy_room).store.binds ≡ none)
unfolding busy_room att
on_close_unbinds_example = on_close_unbinds 2 "gone" paired busy_room refl refl refl
