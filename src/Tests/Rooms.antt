-- ===== src/Tests/Rooms.antt =====
-- Runs of the theorems on whole rooms and their secrets.
use pairfob.Prelude.{
  ℕ, ◌≡◌, ◌↔◌, ◌≤◌, refl, true, false, ◌||◌, none, List, [], ◌∷◌, All, if◌then◌else◌,
}
use pairfob.Constants.{max_established, max_pairing, is_daemon_id, is_reconnect_token}
use pairfob.Json.{parse_json_object, text_field, field_is}
use pairfob.Hex.{is_zero_route}
use pairfob.Envelope.{Frame, layout, binary}
use pairfob.Envelope.Typ
use pairfob.Crockford.{codes}
use pairfob.Room.{Room, Env, att, is_daemon_socket}
use pairfob.Room.Attached.{atts}
use pairfob.Room.Traffic.{load_reconnect_hash}
use pairfob.Room.Enrollment.{timing_safe_equal, rekey, verify_enroll, enroll, abort_enroll, kick}
use pairfob.Room.Enrollment.Secrets.{
  timing_safe_equal_iff, rekey_outcome, abort_enroll_outcome, verify-enroll, holds,
}
use pairfob.Room.DaemonHello.{handle_daemon_hello}
use pairfob.Room.DaemonHello.Secret.{secrets, hello_after_kick, hello_knows_secret}
use pairfob.Room.DaemonHello.Stale.{hello_survives_kick}
use pairfob.Room.Sound.{IsOwned, established_in, pairing_in}
use pairfob.Room.System.{
  Event, message, closed, upgraded, enrolled_by, passes, run, nested, new_room,
}
use pairfob.Room.System.Reachable.{caps_hold, no_foreign_bind}
use pairfob.Tests.{quiet_env, codes_injective, busy_room, repeat, room_id, reference, token}

abbrev zero_frame : (typ first : ℕ) → Frame
zero_frame typ first = record {
  version = 1;
  typ = typ;
  flags = 0;
  route_id = repeat 16 0;
  payload = first ∷ [];
}

-- A computer registers, and a phone of another account and one of its own attach a session.
abbrev events : List Event
events =
    enrolled_by token "g_1"
    ∷ upgraded false "daemon" room_id none "" ""
    ∷ message 0 (binary (layout (zero_frame Typ.hello_daemon 4)))
    ∷ upgraded false "client" room_id none "u_2" "u_1"
    ∷ message 1 (binary (layout (zero_frame Typ.hello_client 1)))
    ∷ message 1 (binary (layout (zero_frame Typ.session_attach 2)))
    ∷ upgraded false "client" room_id none "u_1" "u_1"
    ∷ message 2 (binary (layout (zero_frame Typ.hello_client 1)))
    ∷ message 2 (binary (layout (zero_frame Typ.session_attach 2)))
    ∷ []

abbrev plan : ℕ → Room → List Event
plan depth r = closed 1 "gone" ∷ passes 10 ∷ []

caps_hold_example :
    (established_in (atts (run (nested quiet_env plan 1) events (new_room room_id true)))
      ≤ max_established)
    × (pairing_in (atts (run (nested quiet_env plan 1) events (new_room room_id true)))
        ≤ max_pairing)
caps_hold_example = caps_hold quiet_env plan 1 events room_id true

no_foreign_bind_example :
    All IsOwned (atts (run (nested quiet_env plan 1) events (new_room room_id true)))
no_foreign_bind_example = no_foreign_bind quiet_env plan 1 events room_id true

timing_safe_equal_iff_example :
    (timing_safe_equal codes token reference ≡ true) ↔ (token ≡ reference)
timing_safe_equal_iff_example = timing_safe_equal_iff codes token reference codes_injective

rekey_outcome_example :
    ((rekey quiet_env token "new" busy_room).ok
      ≡ (holds busy_room.store.meta "new" || holds busy_room.store.meta token))
    × (holds (rekey quiet_env token "new" busy_room).room.store.meta "new"
        ≡ (rekey quiet_env token "new" busy_room).ok)
unfolding busy_room
rekey_outcome_example = rekey_outcome quiet_env token "new" busy_room codes_injective refl

abort_enroll_outcome_example :
    ((abort_enroll quiet_env token "g_1" busy_room).ok
      ≡ verify_enroll quiet_env token "g_1" busy_room)
    × ((abort_enroll quiet_env token "g_1" busy_room).room.store.meta
        ≡ (if verify_enroll quiet_env token "g_1" busy_room then none else busy_room.store.meta))
    × ((abort_enroll quiet_env token "g_1" busy_room).room.daemon
        ≡ (if verify_enroll quiet_env token "g_1" busy_room then none else busy_room.daemon))
    × ((abort_enroll quiet_env token "g_1" busy_room).room.enrolled
        ≡ (if verify_enroll quiet_env token "g_1" busy_room then false else busy_room.enrolled))
abort_enroll_outcome_example = abort_enroll_outcome quiet_env token "g_1" busy_room

verify-enroll_example :
    verify_enroll quiet_env token "g_1" (enroll token "g_1" (new_room room_id true)).room
    ≡ (enroll token "g_1" (new_room room_id true)).ok
verify-enroll_example = verify-enroll quiet_env token "g_1" (new_room room_id true) codes_injective

abbrev hello : Frame
hello = zero_frame Typ.hello_daemon 4

abbrev kicked_room : Room
kicked_room = kick busy_room

hello_after_kick_example :
    (handle_daemon_hello quiet_env 0 hello kicked_room).daemon ≡ kicked_room.daemon
hello_after_kick_example = hello_after_kick quiet_env 0 hello busy_room kicked_room refl

abbrev second_room : Room
second_room = record busy_room { daemon = none }

hello_knows_secret_example :
    quiet_env.sha256_hex
      (text_field "reconnect_token" (parse_json_object quiet_env.parse hello.payload))
    ≡ (load_reconnect_hash second_room).reconnect_hash
unfolding handle_daemon_hello busy_room
hello_knows_secret_example =
    hello_knows_secret quiet_env 0 hello second_room codes_injective (λ s h. h) refl refl

-- The digest of a registration is awaited while the room is kicked.
abbrev kicking_env : Env
kicking_env = record quiet_env { others = kick }

hello_survives_kick_example :
    (is_daemon_socket (handle_daemon_hello kicking_env 0 hello second_room) 0 ≡ true)
    × (secrets (handle_daemon_hello kicking_env 0 hello second_room) ≡ ("", ""))
unfolding busy_room att is_zero_route text_field field_is parse_json_object is_daemon_id
    is_reconnect_token load_reconnect_hash
hello_survives_kick_example =
    hello_survives_kick kicking_env 0 hello second_room codes_injective refl refl refl refl refl
      refl refl
