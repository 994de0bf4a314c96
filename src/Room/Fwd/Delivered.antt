-- ===== src/Room/Fwd/Delivered.antt =====
-- What the computer is given of a phone's relayed frame.
use pairfob.Prelude.{
  ℕ, ◌+◌, ◌-◌, ◌≡◌, refl, ap, ◌∙◌, String, Bool, true, false, not, ◌||◌, Option, none, some, List,
  [], ◌∷◌, ◌==◌, arith, length, eq_refl, if_rule,
}
use pairfob.Attachment.{Attachment, is_pairing}
use pairfob.Envelope.{Frame, ok, decode, header_size}
use pairfob.Hex.RoundTrip.{AreBytes}
use pairfob.Room.{
  Room, Socket, Env, Sent, modify, find_socket, is_some, push_sent, set_attachment, att, wire, send,
  write_att,
}
use pairfob.Room.Written.{sockets-write_att, att-write_att_self}
use pairfob.Room.Core.Closing.{att-sockets}
use pairfob.Room.Traffic.{note_fwd, route_bytes}
use pairfob.Room.Alarms.{advance_pair_frames, schedule}
use pairfob.Room.Fwd.{
  stamp, forward_wire, advance_and_forward, relay_client, fwd_wire_from_client, is_bound,
}
use pairfob.Room.Fwd.Forwarding.{stamp_decodes}
use pairfob.Room.Fwd.Isolation.{
  sent_in, sent_to, sent_to-write_att, sent_to-note_fwd, daemon-note_fwd,
}

-- Whether a socket is there and takes frames.
abbrev pub takes : Option Socket → Bool
takes none = false
takes (some s) = not (is_some s.closed || s.broken)

abbrev pub open_in : ℕ → List Socket → Bool
open_in j ss = takes (find_socket j ss)

-- What the path of a frame looks at: the computer, the frames it has, whether it takes more, and
-- the attachment of the phone.
abbrev pub Seen : Type 0
Seen = (Option ℕ × List Sent) × (Bool × Option Attachment)

abbrev pub seen : (ws daemon : ℕ) → Room → Seen
seen ws daemon r = ((r.daemon, sent_to daemon r), (open_in daemon r.sockets, att r ws))

sent_in-push :
    (j : ℕ) (f : Sent) (ss : List Socket)
    → open_in j ss ≡ true
    → sent_in j (modify j (push_sent f) ss) ≡ f ∷ sent_in j ss
sent_in-push j f [] h = ground (arith, h)
sent_in-push j f (s ∷ ss) h = ground (arith, h, sent_in-push j f ss)

sent_to-forward_wire :
    (daemon : ℕ) (rid bytes : List ℕ) (r : Room)
    → open_in daemon r.sockets ≡ true
    → sent_to daemon (forward_wire daemon rid bytes r) ≡ wire (stamp rid bytes) ∷ sent_to daemon r
unfolding forward_wire send
sent_to-forward_wire daemon rid bytes r h = sent_in-push daemon (wire (stamp rid bytes)) r.sockets h

open_in-attach :
    (i j : ℕ) (a : Attachment) (ss : List Socket)
    → open_in j (modify i (set_attachment a) ss) ≡ open_in j ss
open_in-attach i j a [] = refl
open_in-attach i j a (s ∷ ss) = ground (arith, open_in-attach i j a ss)

open_in-write_att :
    (i j : ℕ) (a : Attachment) (r : Room)
    → open_in j (write_att i a r).sockets ≡ open_in j r.sockets
open_in-write_att i j a r =
    ap (open_in j) (sockets-write_att i a r) ∙ open_in-attach i j a r.sockets

sockets-note_fwd : (n : ℕ) (r : Room) → (note_fwd n r).sockets ≡ r.sockets
unfolding note_fwd
sockets-note_fwd n r = ground arith

daemon-write_att : (i : ℕ) (a : Attachment) (r : Room) → (write_att i a r).daemon ≡ r.daemon
unfolding write_att
daemon-write_att i a r = ground arith

att-note_fwd : (n ws : ℕ) (r : Room) → att (note_fwd n r) ws ≡ att r ws
att-note_fwd n ws r = att-sockets ws (note_fwd n r) r (sockets-note_fwd n r)

-- A room in which a bound phone and the computer are there, and the frames that one has.
record IsReady (ws daemon : ℕ) (b : Attachment) (before : List Sent) (r : Room) : Type 0 where
  here : r.daemon ≡ some daemon
  given : sent_to daemon r ≡ before
  alive : open_in daemon r.sockets ≡ true
  bound : att r ws ≡ some b

-- A room that looks the same is as ready.
seen-IsReady :
    (ws daemon : ℕ) (b : Attachment) (before : List Sent) (s r : Room)
    → seen ws daemon s ≡ seen ws daemon r
    → IsReady ws daemon b before r
    → IsReady ws daemon b before s
seen-IsReady ws daemon b before s r e v = record {
  here = ap (λ x. x.0.0) e ∙ v.here;
  given = ap (λ x. x.0.1) e ∙ v.given;
  alive = ap (λ x. x.1.0) e ∙ v.alive;
  bound = ap (λ x. x.1.1) e ∙ v.bound;
}

forward_wire-IsReady :
    (ws daemon : ℕ) (b : Attachment) (before : List Sent) (rid bytes : List ℕ) (r : Room)
    → IsReady ws daemon b before r
    → sent_to daemon (forward_wire daemon rid bytes r) ≡ wire (stamp rid bytes) ∷ before
forward_wire-IsReady ws daemon b before rid bytes r v =
    sent_to-forward_wire daemon rid bytes r v.alive ∙ ap (λ x. wire (stamp rid bytes) ∷ x) v.given

noted-IsReady :
    (ws daemon n : ℕ) (b : Attachment) (before : List Sent) (r : Room)
    → IsReady ws daemon b before r
    → IsReady ws daemon b before (note_fwd n r)
noted-IsReady ws daemon n b before r v = record {
  here = daemon-note_fwd n r ∙ v.here;
  given = sent_to-note_fwd n daemon r ∙ v.given;
  alive = ap (open_in daemon) (sockets-note_fwd n r) ∙ v.alive;
  bound = att-note_fwd n ws r ∙ v.bound;
}

counted-IsReady :
    (ws daemon : ℕ) (a b : Attachment) (before : List Sent) (r : Room)
    → IsReady ws daemon a before r
    → IsReady ws daemon b before (write_att ws b r)
counted-IsReady ws daemon a b before r v = record {
  here = daemon-write_att ws b r ∙ v.here;
  given = sent_to-write_att ws daemon b r ∙ v.given;
  alive = open_in-write_att ws daemon b r ∙ v.alive;
  bound = att-write_att_self ws a b r v.bound;
}

self_eq : (d : ℕ) → (d == d) ≡ true
self_eq d = ground arith

module _ (env : Env) (ws daemon : ℕ)
    (quiet : (r : Room) → seen ws daemon (env.others r) ≡ seen ws daemon r) where
  seen-advance :
      (rid : String) (frames deadline : ℕ) (r : Room)
      → seen ws daemon (advance_pair_frames env rid frames deadline r) ≡ seen ws daemon r
  unfolding advance_pair_frames schedule att
  seen-advance rid frames deadline r =
      if_rule (λ s. seen ws daemon s ≡ seen ws daemon r) (frames == 1) _ _ (λ _. quiet _)
        λ _.
          if_rule (λ s. seen ws daemon s ≡ seen ws daemon r) (frames == 2) _ _ (λ _. refl) λ _. refl

  advanced-delivers :
      (b : Attachment) (before : List Sent) (frames deadline : ℕ) (rid bytes : List ℕ) (r : Room)
      → is_pairing b.kind ≡ true
      → IsReady ws daemon b before r
      → sent_to daemon (advance_and_forward env ws daemon b.route_id frames deadline rid bytes r)
        ≡ wire (stamp rid bytes) ∷ before
  unfolding advance_and_forward
  advanced-delivers b before frames deadline rid bytes r pairing v =
      let advanced = advance_pair_frames env b.route_id frames deadline r in
      let ready =
        seen-IsReady ws daemon b before (env.others advanced) r
          (quiet advanced ∙ seen-advance b.route_id frames deadline r) v in
      rw (ready.here, ready.bound, pairing, eq_refl b.route_id, self_eq daemon)
        (forward_wire-IsReady ws daemon b before rid bytes (env.others advanced) ready)

relay_client-delivers :
    (env : Env) (ws daemon : ℕ) (a : Attachment) (before : List Sent) (bytes : List ℕ) (r : Room)
    → (is_pairing a.kind ≡ true → (s : Room) → seen ws daemon (env.others s) ≡ seen ws daemon s)
    → IsReady ws daemon a before r
    → sent_to daemon (relay_client env ws a daemon bytes r)
      ≡ wire (stamp (route_bytes r a.route_id) bytes) ∷ before
relay_client-delivers env ws daemon a before bytes r quiet v =
    let rid = route_bytes r a.route_id in
    let n = length bytes - header_size in
    let b = record a { pair_frames = a.pair_frames + 1 } in
    let noted = noted-IsReady ws daemon n a before r v in
    let counted = counted-IsReady ws daemon a b before (note_fwd n r) noted in
    let P : Room → Type 0 = λ s. sent_to daemon s ≡ wire (stamp rid bytes) ∷ before in
    if_rule P (is_pairing a.kind) _ _
      (λ pairing.
        if_rule P (a.pair_frames + 1 == 1 || a.pair_frames + 1 == 2) _ _
          (λ _.
            advanced-delivers env ws daemon (quiet pairing) b before (a.pair_frames + 1) _ rid bytes
              (write_att ws b (note_fwd n r)) pairing counted)
          λ _. forward_wire-IsReady ws daemon b before rid bytes _ counted)
      λ _. forward_wire-IsReady ws daemon a before rid bytes _ noted

-- A relayed frame of a bound phone is given to the computer, as one frame more, and the computer
-- decodes it as what the phone sent with the route that the room has for the phone's bind in place
-- of the one that the phone wrote. The computer is there and its websocket open, the frame decodes
-- and is made of bytes, the route has sixteen of them, and, while a phone is pairing, what runs at
-- the awaits leaves the computer, its websocket with the frames it was given, and this phone's
-- attachment as they are.
pub frame_delivered_stamped :
    (env : Env) (ws daemon : ℕ) (a : Attachment) (bytes : List ℕ) (f : Frame) (r : Room)
    → (is_pairing a.kind ≡ true → (s : Room) → seen ws daemon (env.others s) ≡ seen ws daemon s)
    → is_bound a ≡ true
    → att r ws ≡ some a
    → r.daemon ≡ some daemon
    → open_in daemon r.sockets ≡ true
    → AreBytes bytes
    → decode bytes ≡ ok f
    → length (route_bytes r a.route_id) ≡ 16
    → (w : List ℕ) × (sent_to daemon (fwd_wire_from_client env ws a bytes r)
        ≡ wire w ∷ sent_to daemon r)
      × (decode w ≡ ok (record f { route_id = route_bytes r a.route_id }))
unfolding fwd_wire_from_client
frame_delivered_stamped env ws daemon a bytes f r quiet bound e here alive ok-bytes decoded long =
    let rid = route_bytes r a.route_id in
    let ready : IsReady ws daemon a (sent_to daemon r) r = record {
      here = here;
      given = refl;
      alive = alive;
      bound = e;
    } in
    (
      stamp rid bytes,
      rw (bound, here) (relay_client-delivers env ws daemon a _ bytes r quiet ready),
      stamp_decodes rid bytes f ok-bytes long decoded,
    )
