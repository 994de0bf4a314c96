-- ===== src/Tests/Codec.antt =====
-- Runs of the codecs' theorems.
use pairfob.Prelude.{◌≡◌, ◌↔◌, refl, some, [], ◌∷◌, arith}
use pairfob.Hex.{Drawn}
use pairfob.Hex.RoundTrip.{AreBytes}
use pairfob.Envelope.Typ
use pairfob.Envelope.{
  Frame, ok, known_type, validate_frame, encode, decode, layout, binary, decode_fwd_message,
  fwd_wire,
}
use pairfob.Envelope.Codec.{decode-encode, encode-decode}
use pairfob.Envelope.Fwd.{decode_fwd_message_iff}
use pairfob.Crockford.{normalize_loc, mint_loc, codes}
use pairfob.Crockford.Alphabet.{normalize_loc-mint_loc}
use pairfob.Tests.{route_a, fwd_frame, repeat}

route_bytes-AreBytes : AreBytes route_a
route_bytes-AreBytes = search arith

abbrev drawn : Drawn
drawn = record { route = repeat 16 4; draw = 4 }

decode-encode_example : decode (layout fwd_frame) ≡ ok fwd_frame
unfolding encode validate_frame known_type
decode-encode_example = decode-encode fwd_frame (layout fwd_frame) refl

encode-decode_example : encode fwd_frame ≡ ok (layout fwd_frame)
unfolding decode
encode-decode_example = encode-decode (layout fwd_frame) fwd_frame (search arith) refl

decode_fwd_message_iff_example :
    (decode_fwd_message (binary (layout fwd_frame)) ≡ fwd_wire (layout fwd_frame))
    ↔ ((f : Frame) × (decode (layout fwd_frame) ≡ ok f) × (f.typ ≡ Typ.fwd))
decode_fwd_message_iff_example = decode_fwd_message_iff (layout fwd_frame)

normalize_loc-mint_loc_example :
    normalize_loc (codes (mint_loc (3 ∷ 31 ∷ 255 ∷ 64 ∷ 18 ∷ 20 ∷ [])))
    ≡ some (codes (mint_loc (3 ∷ 31 ∷ 255 ∷ 64 ∷ 18 ∷ 20 ∷ [])))
normalize_loc-mint_loc_example = normalize_loc-mint_loc (3 ∷ 31 ∷ 255 ∷ 64 ∷ 18 ∷ 20 ∷ [])
