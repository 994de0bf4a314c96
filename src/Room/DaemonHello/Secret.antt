-- ===== src/Room/DaemonHello/Secret.antt =====
-- Which computer takes a room: the secret that a registration has to know.
use pairfob.Prelude.{
  ℕ, ◌≡◌, refl, ap, ◌∙◌, String, true, false, not, Option, none, some, arith, ◌===◌, if_rule,
  option_rule, Option-cases, Bool, ◌==◌, Bool-cases, inl, inr,
}
use pairfob.Attachment.{is_daemon}
use pairfob.Hex.{is_zero_route}
use pairfob.Json.{parse_json_object, text_field}
use pairfob.Envelope.{Frame}
use pairfob.Store.{
  Store, MetaRow, load_meta, clear_reconnect_hash, load_slot, delete_slot, delete_bind_row,
}
use pairfob.Room.{
  Room, Env, att, send, close, send_err, delete_bind, is_daemon_socket, for_sockets, ids,
}
use pairfob.Room.Attached.{for_sockets-keeps}
use pairfob.Room.Core.{drop_daemon, drop_client, release_slot, close_replaced}
use pairfob.Room.Traffic.{load_reconnect_hash}
use pairfob.Room.Enrollment.{kick, timing_safe_equal}
use pairfob.Room.Enrollment.Secrets.{timing_safe_equal_iff}
use pairfob.Room.DaemonHello.{bad_register, is_daemon_att, handle_daemon_hello}

abbrev is_taken : ℕ → Option ℕ → Bool
is_taken ws none = false
is_taken ws (some d) = d == ws

-- The secret of a room, in memory and in its row.
abbrev pub hash_of : Option MetaRow → String
hash_of none = ""
hash_of (some m) = m.reconnect_hash

abbrev pub secrets : Room → String × String
secrets r = (r.reconnect_hash, hash_of r.store.meta)

secrets-drop_client : (ws : ℕ) (r : Room) → secrets (drop_client ws r) ≡ secrets r
unfolding close send_err send delete_bind delete_bind_row
secrets-drop_client ws r =
    option_rule (λ s. secrets s ≡ secrets r) (att r ws) _ _ (λ _. refl)
      λ a _.
        if_rule (λ s. secrets s ≡ secrets r) (is_daemon a.role) _ _ (λ _. refl)
          λ _. if_rule (λ s. secrets s ≡ secrets r) (a.route_id === "") _ _ (λ _. refl) λ _. refl

secrets-release_slot : (r : Room) → secrets (release_slot r) ≡ secrets r
unfolding delete_slot
secrets-release_slot r =
    option_rule (λ s. secrets s ≡ secrets r) (load_slot r.store) _ _ (λ _. refl)
      λ slot _. if_rule (λ s. secrets s ≡ secrets r) r.has_index _ _ (λ _. refl) λ _. refl

secrets-close : (ws : ℕ) (r : Room) → secrets (close ws "kicked" r) ≡ secrets r
unfolding close
secrets-close ws r = refl

cleared_hash : (s : Store) → hash_of (clear_reconnect_hash s).meta ≡ ""
unfolding clear_reconnect_hash
cleared_hash s = ground arith

secrets-close_replaced :
    (d : Option ℕ) (r : Room) → secrets (close_replaced d "kicked" r) ≡ secrets r
secrets-close_replaced none r = refl
secrets-close_replaced (some d) r = refl

secrets-drop_daemon : (r : Room) → secrets (drop_daemon "kicked" r) ≡ secrets r
unfolding drop_daemon
secrets-drop_daemon r =
    let released = release_slot (for_sockets (ids r.sockets) drop_client r) in
    secrets-close_replaced r.daemon (record released { daemon = none })
    ∙ secrets-release_slot (for_sockets (ids r.sockets) drop_client r)
    ∙ for_sockets-keeps secrets (ids r.sockets) drop_client r secrets-drop_client

pub secrets-kick : (r : Room) → secrets (kick r) ≡ ("", "")
unfolding kick
secrets-kick r =
    let cleared = record r { store = clear_reconnect_hash r.store; reconnect_hash = "" } in
    let dropped = drop_daemon "kicked" cleared in
    for_sockets-keeps secrets (ids dropped.sockets) (λ ws. close ws "kicked") dropped secrets-close
    ∙ secrets-drop_daemon cleared
    ∙ ap (λ h. ("", h)) (cleared_hash r.store)

load_no_secret : (r : Room) → secrets r ≡ ("", "") → (load_reconnect_hash r).reconnect_hash ≡ ""
unfolding load_reconnect_hash load_meta
load_no_secret r h =
    let memory : r.reconnect_hash ≡ "" = ap (λ s. s.0) h in
    let row : hash_of r.store.meta ≡ "" = ap (λ s. s.1) h in
    elim (Option-cases r.store.meta) [
      | inl bare ↦ rw (memory, bare) memory
      | inr (m, full) ↦ rw (memory, full) (rw full at row)
    ]

daemon-load : (r : Room) → (load_reconnect_hash r).daemon ≡ r.daemon
unfolding load_reconnect_hash
daemon-load r = ground arith

-- While the secret of a room is what a kick leaves, in memory and in its row, a registration that
-- starts gives the room no computer and takes none away, whatever the frame, the token and the work
-- of others. One that was already awaiting its digest when the kick came is not meant.
pub hello_after_kick :
    (env : Env) (ws : ℕ) (frame : Frame) (r later : Room)
    → secrets later ≡ secrets (kick r)
    → (handle_daemon_hello env ws frame later).daemon ≡ later.daemon
unfolding handle_daemon_hello
hello_after_kick env ws frame r later bare =
    let P : Room → Type 0 = λ s. s.daemon ≡ later.daemon in
    let loaded = load_reconnect_hash later in
    let empty : loaded.reconnect_hash ≡ "" = load_no_secret later (bare ∙ secrets-kick r) in
    if_rule P (not (is_zero_route frame.route_id)) _ _ (λ _. refl)
      λ _.
        if_rule P (bad_register later (parse_json_object env.parse frame.payload)) _ _ (λ _. refl)
          λ _.
            if_rule P (not (is_daemon_att (att later ws))) _ _ (λ _. refl)
              λ _.
                if_rule P (is_daemon_socket later ws) _ _ (λ _. refl)
                  λ _.
                    if_rule P (loaded.reconnect_hash === "") _ _ (λ _. daemon-load later)
                      λ live. absurd (ground (arith, ap (λ h. h === "") empty, live))

is_daemon_socket-load :
    (ws : ℕ) (r : Room)
    → is_daemon_socket r ws ≡ false
    → is_daemon_socket (load_reconnect_hash r) ws ≡ false
is_daemon_socket-load ws r out =
    let kept : is_daemon_socket (load_reconnect_hash r) ws ≡ is_daemon_socket r ws =
      ap (λ d. is_taken ws d) (daemon-load r) in
    kept ∙ out

refused_hello :
    (env : Env) (ws : ℕ) (frame : Frame) (r : Room)
    → ((s : Room) → is_daemon_socket s ws ≡ false → is_daemon_socket (env.others s) ws ≡ false)
    → is_daemon_socket r ws ≡ false
    → timing_safe_equal env.utf8
        (env.sha256_hex (text_field "reconnect_token" (parse_json_object env.parse frame.payload)))
        (load_reconnect_hash r).reconnect_hash
      ≡ false
    → is_daemon_socket (handle_daemon_hello env ws frame r) ws ≡ false
unfolding handle_daemon_hello
refused_hello env ws frame r keeps out differs =
    let P : Room → Type 0 = λ s. is_daemon_socket s ws ≡ false in
    let loaded = load_reconnect_hash r in
    let still : is_daemon_socket loaded ws ≡ false = is_daemon_socket-load ws r out in
    if_rule P (not (is_zero_route frame.route_id)) _ _ (λ _. out)
      λ _.
        if_rule P (bad_register r (parse_json_object env.parse frame.payload)) _ _ (λ _. out)
          λ _.
            if_rule P (not (is_daemon_att (att r ws))) _ _ (λ _. out)
              λ _.
                if_rule P (is_daemon_socket r ws) _ _ (λ _. out)
                  λ _.
                    if_rule P (loaded.reconnect_hash === "") _ _ (λ _. still)
                      λ _.
                        if_rule P
                          (not (
                            timing_safe_equal env.utf8
                              (env.sha256_hex (
                                text_field "reconnect_token"
                                  (parse_json_object env.parse frame.payload)))
                              loaded.reconnect_hash))
                          _ _ (λ _. keeps loaded still)
                          λ same. absurd (ground (arith, differs, same))

-- A socket that a registration makes the computer of a room knew the secret: the digest of the
-- token in its frame is the secret that the room had when the registration started. The encoder
-- gives different texts different bytes, and what runs while the digest is awaited does not make
-- this socket the computer; it may kick, close, register another socket or rekey. A rekey that
-- comes then is not seen: the secret compared is the one before it.
pub hello_knows_secret :
    (env : Env) (ws : ℕ) (frame : Frame) (r : Room)
    → ((s t : String) → env.utf8 s ≡ env.utf8 t → s ≡ t)
    → ((s : Room) → is_daemon_socket s ws ≡ false → is_daemon_socket (env.others s) ws ≡ false)
    → is_daemon_socket r ws ≡ false
    → is_daemon_socket (handle_daemon_hello env ws frame r) ws ≡ true
    → env.sha256_hex (text_field "reconnect_token" (parse_json_object env.parse frame.payload))
      ≡ (load_reconnect_hash r).reconnect_hash
hello_knows_secret env ws frame r injective keeps out taken =
    let token =
      env.sha256_hex (text_field "reconnect_token" (parse_json_object env.parse frame.payload)) in
    let want = (load_reconnect_hash r).reconnect_hash in
    elim (Bool-cases (timing_safe_equal env.utf8 token want)) [
      | inl same ↦ (timing_safe_equal_iff env.utf8 token want injective).0 same
      | inr differs ↦ absurd (ground (arith, refused_hello env ws frame r keeps out differs, taken))
    ]
