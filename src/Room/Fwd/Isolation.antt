-- ===== src/Room/Fwd/Isolation.antt =====
-- Which sockets a relayed frame leaves alone.
use pairfob.Prelude.{
  ℕ, ◌+◌, ◌-◌, ◌≡◌, refl, ap, ◌∙◌, String, Bool, true, false, not, ◌&&◌, ◌||◌, Option, none, some,
  List, [], ◌∷◌, arith, ◌==◌, ◌===◌, length, take, drop, if_rule, option_rule,
}
use pairfob.Attachment.{Attachment, is_pairing}
use pairfob.Hex.{bytes_to_hex}
use pairfob.Envelope.{header_size}
use pairfob.Room.{
  Room, Socket, Env, Sent, Extra, modify, find_socket, push_sent, mark_closed, set_attachment, att,
  wire, send, close, send_err, write_att, is_daemon_socket, delete_bind, no_extra, error_frame,
}
use pairfob.Room.Written.{sockets-write_att}
use pairfob.Room.Core.{delete_bind_if}
use pairfob.Room.Traffic.{close_bind, find_by_route, note_fwd, tell_daemon, bind_extra}
use pairfob.Room.Alarms.{advance_pair_frames, schedule}
use pairfob.Room.Fwd.{
  forward_wire, advance_and_forward, relay_client, relay_daemon, fwd_wire_from_client,
  fwd_wire_from_daemon, is_bound, same_daemon, still_pairing, send_throws,
}

-- The frames that a socket was given.
abbrev pub sent_in : ℕ → List Socket → List Sent
sent_in j ss = elim (find_socket j ss) [ none ↦ [] | some s ↦ s.sent ]

abbrev pub sent_to : ℕ → Room → List Sent
sent_to j r = sent_in j r.sockets

sent_in-modify_other :
    (i j : ℕ) (f : Socket → Socket) (ss : List Socket)
    → (i == j) ≡ false
    → ((s : Socket) → (f s).id ≡ s.id)
    → sent_in j (modify i f ss) ≡ sent_in j ss
sent_in-modify_other i j f [] h e = refl
sent_in-modify_other i j f (s ∷ ss) h e = ground (arith, e s, sent_in-modify_other i j f ss h e)

sent_in-modify_quiet :
    (i j : ℕ) (f : Socket → Socket) (ss : List Socket)
    → ((s : Socket) → ((f s).id ≡ s.id) × ((f s).sent ≡ s.sent))
    → sent_in j (modify i f ss) ≡ sent_in j ss
sent_in-modify_quiet i j f [] e = refl
sent_in-modify_quiet i j f (s ∷ ss) e = ground (arith, e s, sent_in-modify_quiet i j f ss e)

sent_to-send :
    (i j : ℕ) (f : Sent) (r : Room) → (i == j) ≡ false → sent_to j (send i f r) ≡ sent_to j r
unfolding send
sent_to-send i j f r h = sent_in-modify_other i j (push_sent f) r.sockets h (λ s. ground arith)

sent_to-send_err :
    (i j : ℕ) (code message : String) (x : Extra) (r : Room)
    → (i == j) ≡ false
    → sent_to j (send_err i code message x r) ≡ sent_to j r
unfolding send_err
sent_to-send_err i j code message x r h = sent_to-send i j (error_frame code message x) r h

sent_to-close : (i j : ℕ) (reason : String) (r : Room) → sent_to j (close i reason r) ≡ sent_to j r
unfolding close
sent_to-close i j reason r =
    sent_in-modify_quiet i j (mark_closed reason) r.sockets (λ s. (ground arith, ground arith))

pub sent_to-write_att :
    (i j : ℕ) (a : Attachment) (r : Room) → sent_to j (write_att i a r) ≡ sent_to j r
sent_to-write_att i j a r =
    ap (sent_in j) (sockets-write_att i a r)
    ∙ sent_in-modify_quiet i j (set_attachment a) r.sockets (λ s. (refl, refl))

pub sent_to-note_fwd : (n j : ℕ) (r : Room) → sent_to j (note_fwd n r) ≡ sent_to j r
unfolding note_fwd
sent_to-note_fwd n j r = ground arith

-- Whether the room's computer is the socket.
abbrev pub at_daemon : ℕ → Option ℕ → Bool
at_daemon j none = false
at_daemon j (some d) = d == j

sent_to-tell :
    (a : Attachment) (code message : String) (j : ℕ) (r : Room)
    → at_daemon j r.daemon ≡ false
    → sent_to j (tell_daemon a code message r) ≡ sent_to j r
sent_to-tell a code message j r h =
    option_rule (λ s. sent_to j s ≡ sent_to j r) r.daemon _ _ (λ _. refl)
      λ d e.
        if_rule (λ s. sent_to j s ≡ sent_to j r) (a.route_id === "") _ _ (λ _. refl)
          λ _. sent_to-send_err d j code message (bind_extra a) r (ground arith)

sent_to-delete_bind_if :
    (hex : String) (j : ℕ) (r : Room) → sent_to j (delete_bind_if hex r) ≡ sent_to j r
unfolding delete_bind
sent_to-delete_bind_if hex j r = ground arith

daemon-send_err :
    (i : ℕ) (code message : String) (x : Extra) (r : Room)
    → (send_err i code message x r).daemon ≡ r.daemon
unfolding send_err send
daemon-send_err i code message x r = refl

sent_to-close_bind :
    (ws j : ℕ) (code message : String) (r : Room)
    → (ws == j) ≡ false
    → at_daemon j r.daemon ≡ false
    → sent_to j (close_bind ws code message true r) ≡ sent_to j r
unfolding close_bind
sent_to-close_bind ws j code message r h k =
    option_rule (λ s. sent_to j s ≡ sent_to j r) (att r ws) _ _
      (λ _.
        sent_to-close ws j code (send_err ws code message no_extra r)
        ∙ sent_to-send_err ws j code message no_extra r h)
      λ a _.
        let told = send_err ws code message (bind_extra a) r in
        let both = tell_daemon a code message told in
        let away : at_daemon j told.daemon ≡ false =
          ap (at_daemon j) (daemon-send_err ws code message (bind_extra a) r) ∙ k in
        sent_to-close ws j code (delete_bind_if a.route_id both)
        ∙ sent_to-delete_bind_if a.route_id j both
        ∙ sent_to-tell a code message j told away
        ∙ sent_to-send_err ws j code message (bind_extra a) r h

pub daemon-note_fwd : (n : ℕ) (r : Room) → (note_fwd n r).daemon ≡ r.daemon
unfolding note_fwd
daemon-note_fwd n r = ground arith

-- Whether the route of a wire leads to a socket.
abbrev pub routed_to : ℕ → Room → List ℕ → Bool
routed_to j r bytes = at_daemon j (find_by_route r (bytes_to_hex (take 16 (drop 8 bytes))))

sent_to-relay_daemon :
    (client j : ℕ) (bytes : List ℕ) (r : Room)
    → (client == j) ≡ false
    → at_daemon j r.daemon ≡ false
    → sent_to j (relay_daemon client bytes r) ≡ sent_to j r
sent_to-relay_daemon client j bytes r h k =
    let noted = note_fwd (length bytes - header_size) r in
    let away : at_daemon j noted.daemon ≡ false =
      ap (at_daemon j) (daemon-note_fwd (length bytes - header_size) r) ∙ k in
    if_rule (λ s. sent_to j s ≡ sent_to j r) (send_throws noted client) _ _
      (λ _.
        sent_to-close_bind client j "unbound" "client send failed" noted h away
        ∙ sent_to-note_fwd _ j r)
      λ _. sent_to-send client j (wire bytes) noted h ∙ sent_to-note_fwd _ j r

-- A relayed (FWD) frame from a computer reaches no phone but the one whose route it names: no other
-- socket is given a frame, but for the computer itself, which is told of a failed send.
pub daemon_frame_isolated :
    (ws j : ℕ) (bytes : List ℕ) (r : Room)
    → routed_to j r bytes ≡ false
    → at_daemon j r.daemon ≡ false
    → sent_to j (fwd_wire_from_daemon ws bytes r) ≡ sent_to j r
unfolding fwd_wire_from_daemon
daemon_frame_isolated ws j bytes r h k =
    if_rule (λ s. sent_to j s ≡ sent_to j r) (not (is_daemon_socket r ws)) _ _ (λ _. refl)
      λ _.
        option_rule (λ s. sent_to j s ≡ sent_to j r)
          (find_by_route r (bytes_to_hex (take 16 (drop 8 bytes)))) _ _ (λ _. refl)
          λ client e. sent_to-relay_daemon client j bytes r (ground arith) k

-- A room and the work of others that leaves a socket alone, and its computer in place.
module _ (env : Env) (j : ℕ) (quiet : (r : Room) → sent_to j (env.others r) ≡ sent_to j r) where
  sent_to-advance :
      (rid : String) (frames deadline : ℕ) (r : Room)
      → sent_to j (advance_pair_frames env rid frames deadline r) ≡ sent_to j r
  unfolding advance_pair_frames schedule
  sent_to-advance rid frames deadline r =
      if_rule (λ s. sent_to j s ≡ sent_to j r) (frames == 1) _ _ (λ _. quiet _)
        λ _. if_rule (λ s. sent_to j s ≡ sent_to j r) (frames == 2) _ _ (λ _. refl) λ _. refl

  sent_to-advance_and_forward :
      (ws daemon : ℕ) (rid : String) (frames deadline : ℕ) (route bytes : List ℕ) (r : Room)
      → (daemon == j) ≡ false
      → sent_to j (advance_and_forward env ws daemon rid frames deadline route bytes r)
        ≡ sent_to j r
  unfolding advance_and_forward forward_wire
  sent_to-advance_and_forward ws daemon rid frames deadline route bytes r h =
      let before = advance_pair_frames env rid frames deadline r in
      let still : sent_to j (env.others before) ≡ sent_to j r =
        quiet before ∙ sent_to-advance rid frames deadline r in
      if_rule (λ s. sent_to j s ≡ sent_to j r)
        (same_daemon daemon (env.others before).daemon
          && still_pairing rid (att (env.others before) ws))
        _ _ (λ _. sent_to-send daemon j _ (env.others before) h ∙ still) λ _. still

  sent_to-relay_client :
      (ws : ℕ) (a : Attachment) (daemon : ℕ) (bytes : List ℕ) (r : Room)
      → (daemon == j) ≡ false
      → sent_to j (relay_client env ws a daemon bytes r) ≡ sent_to j r
  unfolding forward_wire
  sent_to-relay_client ws a daemon bytes r h =
      let n = length bytes - header_size in
      let noted = note_fwd n r in
      let b = record a { pair_frames = a.pair_frames + 1 } in
      let counted = write_att ws b noted in
      let still : sent_to j counted ≡ sent_to j r =
        sent_to-write_att ws j b noted ∙ sent_to-note_fwd n j r in
      if_rule (λ s. sent_to j s ≡ sent_to j r) (is_pairing a.kind) _ _
        (λ _.
          if_rule (λ s. sent_to j s ≡ sent_to j r)
            (a.pair_frames + 1 == 1 || a.pair_frames + 1 == 2) _ _
            (λ _.
              sent_to-advance_and_forward ws daemon a.route_id (a.pair_frames + 1) _ _ bytes counted
                h
              ∙ still)
            λ _. sent_to-send daemon j _ counted h ∙ still)
        λ _. sent_to-send daemon j _ noted h ∙ sent_to-note_fwd n j r

  -- A relayed (FWD) frame from a phone reaches no other phone, if what runs while it awaits sends
  -- that one nothing: only the computer and the phone itself are given a frame.
  pub phone_frame_isolated :
      (ws : ℕ) (a : Attachment) (bytes : List ℕ) (r : Room)
      → (ws == j) ≡ false
      → at_daemon j r.daemon ≡ false
      → sent_to j (fwd_wire_from_client env ws a bytes r) ≡ sent_to j r
  unfolding fwd_wire_from_client
  phone_frame_isolated ws a bytes r h k =
      if_rule (λ s. sent_to j s ≡ sent_to j r) (not (is_bound a)) _ _
        (λ _.
          sent_to-close ws j "unbound" (send_err ws "unbound" "FWD before bind" no_extra r)
          ∙ sent_to-send_err ws j "unbound" "FWD before bind" no_extra r h)
        λ _.
          option_rule (λ s. sent_to j s ≡ sent_to j r) r.daemon _ _
            (λ _.
              sent_to-close ws j "daemon_offline"
                (send_err ws "daemon_offline" "no daemon" no_extra r)
              ∙ sent_to-send_err ws j "daemon_offline" "no daemon" no_extra r h)
            λ daemon e. sent_to-relay_client ws a daemon bytes r (ground arith)
