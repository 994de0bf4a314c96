-- ===== src/Room/DaemonHello/Stale.antt =====
-- A registration whose digest is awaited while the room is kicked.
use pairfob.Prelude.{ℕ, String, some, ◌≡◌, refl, ◌∙◌, true, false, arith, ◌===◌}
use pairfob.Attachment.{Attachment}
use pairfob.Hex.{is_zero_route}
use pairfob.Json.{parse_json_object, text_field}
use pairfob.Envelope.{Frame}
use pairfob.Room.{Room, Env, att, write_att, send, is_daemon_socket}
use pairfob.Room.Traffic.{load_reconnect_hash}
use pairfob.Room.Enrollment.{kick, timing_safe_equal}
use pairfob.Room.Enrollment.Secrets.{timing_safe_equal_iff}
use pairfob.Room.DaemonHello.{bad_register, is_daemon_att, handle_daemon_hello, register}
use pairfob.Room.DaemonHello.Secret.{secrets, secrets-kick}

secrets-write_att : (ws : ℕ) (a : Attachment) (r : Room) → secrets (write_att ws a r) ≡ secrets r
unfolding write_att
secrets-write_att ws a r = ground arith

daemon-write_att : (ws : ℕ) (a : Attachment) (r : Room) → (write_att ws a r).daemon ≡ r.daemon
unfolding write_att
daemon-write_att ws a r = ground arith

secrets-register :
    (ws : ℕ) (frame : Frame) (token : String) (r : Room)
    → secrets (register ws frame token r) ≡ secrets r
unfolding send
secrets-register ws frame token r = secrets-write_att ws _ (record r { daemon = some ws })

daemon-register :
    (ws : ℕ) (frame : Frame) (token : String) (r : Room)
    → (register ws frame token r).daemon ≡ some ws
unfolding send
daemon-register ws frame token r = daemon-write_att ws _ (record r { daemon = some ws })

taken_by : (ws : ℕ) (r : Room) → r.daemon ≡ some ws → is_daemon_socket r ws ≡ true
taken_by ws r e = ground (arith, e)

-- A registration that names the secret of the room, and whose digest is awaited while the room is
-- kicked, still takes it: afterwards the room has no secret and this socket as its computer.
pub hello_survives_kick :
    (env : Env) (ws : ℕ) (frame : Frame) (r : Room)
    → ((s t : String) → env.utf8 s ≡ env.utf8 t → s ≡ t)
    → env.others ≡ kick
    → is_zero_route frame.route_id ≡ true
    → bad_register r (parse_json_object env.parse frame.payload) ≡ false
    → is_daemon_att (att r ws) ≡ true
    → is_daemon_socket r ws ≡ false
    → ((load_reconnect_hash r).reconnect_hash === "") ≡ false
    → env.sha256_hex (text_field "reconnect_token" (parse_json_object env.parse frame.payload))
      ≡ (load_reconnect_hash r).reconnect_hash
    → (is_daemon_socket (handle_daemon_hello env ws frame r) ws ≡ true)
      × (secrets (handle_daemon_hello env ws frame r) ≡ ("", ""))
unfolding handle_daemon_hello kick
hello_survives_kick env ws frame r injective kicked zero good role out live known =
    let token = text_field "reconnect_token" (parse_json_object env.parse frame.payload) in
    let loaded = load_reconnect_hash r in
    let same : timing_safe_equal env.utf8 (env.sha256_hex token) loaded.reconnect_hash ≡ true =
      (timing_safe_equal_iff env.utf8 (env.sha256_hex token) loaded.reconnect_hash injective).1
        known in
    let registered = register ws frame token (kick loaded) in
    let taken : handle_daemon_hello env ws frame r ≡ registered =
      rw (kicked, zero, good, role, out, live, same) refl in
    rw taken (
      taken_by ws registered (daemon-register ws frame token (kick loaded)),
      secrets-register ws frame token (kick loaded) ∙ secrets-kick loaded,
    )
