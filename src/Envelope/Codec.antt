-- ===== src/Envelope/Codec.antt =====
-- encode and decode undo one another.
use pairfob.Prelude.{
  ℕ, ◌+◌, ◌≤◌, ◌≡◌, true, List, ◌∷◌, arith, length, take-append, drop-append, length-append,
  take-append-drop, length-drop, ap, ◌∙◌,
}
use pairfob.Hex.RoundTrip.{AreBytes}
use pairfob.Envelope.{
  Frame, ok, known_type, validate_frame, layout, encode, decode, parts, uint32_at, header_size,
  max_payload,
}

-- What a frame has to satisfy on the wire.
pub record IsFrame (f : Frame) : Type 0 where
  pub version : f.version ≡ 1
  pub flags : f.flags ≡ 0
  pub known : known_type f.typ ≡ true
  pub route : length f.route_id ≡ 16
  pub fits : length f.payload ≤ max_payload

pub validate_frame-IsFrame : (f : Frame) → validate_frame f ≡ ok tt → IsFrame f
unfolding validate_frame
validate_frame-IsFrame f h = ground arith

pub IsFrame-validate_frame : (f : Frame) → IsFrame f → validate_frame f ≡ ok tt
unfolding validate_frame
IsFrame-validate_frame f v = ground arith

parts-layout : (f : Frame) → IsFrame f → parts (layout f) ≡ f
parts-layout f v = ground (
  arith,
  take-append f.route_id f.payload 16 v.route,
  drop-append f.route_id f.payload 16 v.route,
)

uint32_at-layout : (f : Frame) → IsFrame f → uint32_at (layout f) 4 ≡ length f.payload
uint32_at-layout f v = let fits = v.fits in omega arith

length-layout : (f : Frame) → IsFrame f → length (layout f) ≡ length f.payload + header_size
length-layout f v = omega (arith, length-append f.route_id f.payload, v.route)

pub decode-layout : (f : Frame) → IsFrame f → decode (layout f) ≡ ok f
unfolding decode
decode-layout f v =
    ground
      (arith, uint32_at-layout f v, length-layout f v, parts-layout f v, IsFrame-validate_frame f v)

encode-IsFrame : (f : Frame) (wire : List ℕ) → encode f ≡ ok wire → IsFrame f × (wire ≡ layout f)
unfolding encode validate_frame
encode-IsFrame f wire h = ground arith

-- Whatever `encode` writes, `decode` reads back as the same frame.
pub decode-encode : (f : Frame) (wire : List ℕ) → encode f ≡ ok wire → decode wire ≡ ok f
decode-encode f wire h = let (v, same) = encode-IsFrame f wire h in rw same (decode-layout f v)

pub decode-IsFrame :
    (wire : List ℕ) (f : Frame)
    → decode wire ≡ ok f
    → (f ≡ parts wire)
      × IsFrame f
      × (header_size ≤ length wire)
      × (uint32_at wire 4 + header_size ≡ length wire)
unfolding decode
decode-IsFrame wire f h =
    let same : f ≡ parts wire = ground arith in
    let valid : validate_frame (parts wire) ≡ ok tt = ground arith in
    (same, rw same (validate_frame-IsFrame (parts wire) valid), ground arith, ground arith)

pub layout-parts :
    (w : List ℕ)
    → AreBytes w
    → header_size ≤ length w
    → uint32_at w 4 + header_size ≡ length w
    → layout (parts w) ≡ w
layout-parts (b0 ∷ b1 ∷ b2 ∷ b3 ∷ b4 ∷ b5 ∷ b6 ∷ b7 ∷ rest) bytes long len =
    ground (arith, take-append-drop 16 rest, length-drop 16 rest)
layout-parts _ bytes long len = absurd (omega arith)

-- Whatever `decode` accepts is the encoding of the frame that it gives: no two wires decode alike.
pub encode-decode :
    (wire : List ℕ) (f : Frame) → AreBytes wire → decode wire ≡ ok f → encode f ≡ ok wire
unfolding encode
encode-decode wire f bytes h =
    let (same, v, long, len) = decode-IsFrame wire f h in
    rw (IsFrame-validate_frame f v) (ap ok (ap layout same ∙ layout-parts wire bytes long len))
