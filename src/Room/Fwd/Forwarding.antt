-- ===== src/Room/Fwd/Forwarding.antt =====
-- What relayed frames carry, and where they go.
use pairfob.Prelude.{
  ℕ, ◌≡◌, refl, ap, ◌∙◌, String, Bool, true, some, List, arith, length, drop-append, eq_refl,
}
use pairfob.Attachment.{Attachment, is_pairing}
use pairfob.Envelope.{Frame, ok, decode, layout}
use pairfob.Envelope.Codec.{IsFrame, decode-IsFrame, decode-layout, layout-parts}
use pairfob.Hex.RoundTrip.{AreBytes}
use pairfob.Room.{Room, Env, att, send, close, send_err, delete_bind}
use pairfob.Room.Core.Closing.{att-sockets}
use pairfob.Room.Traffic.{close_bind}
use pairfob.Room.Alarms.{advance_pair_frames, schedule}
use pairfob.Room.Fwd.{stamp, forward_wire, advance_and_forward}
use pairfob.Room.Sound.Steps.{att-close_bind}

stamp-layout :
    (rid : List ℕ) (f : Frame)
    → length rid ≡ 16
    → length f.route_id ≡ 16
    → stamp rid (layout f) ≡ layout (record f { route_id = rid })
stamp-layout rid f e h = ground (arith, drop-append f.route_id f.payload 16 h)

-- A stamped wire decodes to the frame that it was, with the stamped route.
pub stamp_decodes :
    (rid bytes : List ℕ) (f : Frame)
    → AreBytes bytes
    → length rid ≡ 16
    → decode bytes ≡ ok f
    → decode (stamp rid bytes) ≡ ok (record f { route_id = rid })
stamp_decodes rid bytes f ok-bytes e h =
    let (same, v, long, len) = decode-IsFrame bytes f h in
    let whole : layout f ≡ bytes = ap layout same ∙ layout-parts bytes ok-bytes long len in
    let stamped : IsFrame (record f { route_id = rid }) = record {
      version = v.version;
      flags = v.flags;
      known = v.known;
      route = e;
      fits = v.fits;
    } in
    rw (← whole) (ap decode (stamp-layout rid f e v.route) ∙ decode-layout _ stamped)

sockets-advance_second :
    (env : Env) (rid : String) (deadline : ℕ) (r : Room)
    → ((advance_pair_frames env rid 2 deadline r).sockets ≡ r.sockets)
      × ((advance_pair_frames env rid 2 deadline r).daemon ≡ r.daemon)
unfolding advance_pair_frames schedule
sockets-advance_second env rid deadline r = (refl, refl)

daemon-close_bind :
    (ws : ℕ) (code message : String) (n : Bool) (r : Room)
    → (close_bind ws code message n r).daemon ≡ r.daemon
unfolding close_bind send_err send close delete_bind
daemon-close_bind ws code message n r = ground arith

-- The second frame of a pairing still reaches the computer when the bind of its phone was closed
-- while the alarm was written: the close leaves the attachment, which is all that is looked at.
pub forwards_after_close :
    (env : Env) (ws daemon : ℕ) (deadline : ℕ) (code message : String) (n : Bool)
    (route bytes : List ℕ) (a : Attachment) (r : Room)
    → env.others ≡ close_bind ws code message n
    → att r ws ≡ some a
    → is_pairing a.kind ≡ true
    → r.daemon ≡ some daemon
    → advance_and_forward env ws daemon a.route_id 2 deadline route bytes r
      ≡ forward_wire daemon route bytes
          (close_bind ws code message n (advance_pair_frames env a.route_id 2 deadline r))
unfolding advance_and_forward
forwards_after_close env ws daemon deadline code message n route bytes a r closing e pairing here =
    let advanced = advance_pair_frames env a.route_id 2 deadline r in
    let (same, kept) = sockets-advance_second env a.route_id deadline r in
    let bind : att (close_bind ws code message n advanced) ws ≡ some a =
      att-close_bind ws ws code message n advanced ∙ att-sockets ws advanced r same ∙ e in
    let there : (close_bind ws code message n advanced).daemon ≡ some daemon =
      daemon-close_bind ws code message n advanced ∙ kept ∙ here in
    rw closing (rw (there, bind, pairing, eq_refl a.route_id) (ground arith))
