-- ===== src/Envelope/Fwd.antt =====
-- decodeFwdMessage: the fast test for relayed frames, against the full decoder.
use pairfob.Prelude.{
  ℕ, ◌+◌, ◌≤◌, ◌≡◌, ◌↔◌, refl, List, arith, length, length-drop, length-take, sym, ap, ◌∙◌, true,
  drop,
}
use pairfob.Envelope.{
  Frame, ok, decode, parts, known_type, fwd_wire, binary, decode_fwd_message, byte_at, uint16_at,
  uint32_at, header_size, max_payload,
}
use pairfob.Envelope.Typ
use pairfob.Envelope.Codec.{IsFrame, decode-IsFrame, IsFrame-validate_frame}

known_type-fwd : known_type Typ.fwd ≡ true
unfolding known_type
known_type-fwd = refl

-- What the fast test accepts, the decoder decodes as a FWD frame.
fwd_decodes :
    (wire w : List ℕ)
    → decode_fwd_message (binary wire) ≡ fwd_wire w
    → (w ≡ wire) × (decode wire ≡ ok (parts wire)) × ((parts wire).typ ≡ Typ.fwd)
unfolding decode_fwd_message
fwd_decodes wire w h =
    let long : header_size ≤ length wire = ground arith in
    let version : byte_at wire 0 ≡ 1 = ground arith in
    let typ : byte_at wire 1 ≡ Typ.fwd = ground arith in
    let b2 : byte_at wire 2 ≡ 0 = ground arith in
    let b3 : byte_at wire 3 ≡ 0 = ground arith in
    let fits : uint32_at wire 4 ≤ max_payload = ground arith in
    let len : length wire ≡ header_size + uint32_at wire 4 = ground arith in
    let frame : IsFrame (parts wire) = record {
      version = version;
      flags = omega arith;
      known = rw typ known_type-fwd;
      route = omega (arith, length-take 16 (drop 8 wire), length-drop 8 wire);
      fits = omega (arith, length-drop 24 wire);
    } in
    (ground arith, unfold decode in ground (arith, IsFrame-validate_frame (parts wire) frame), typ)

decodes_fwd :
    (wire : List ℕ) (f : Frame)
    → decode wire ≡ ok f
    → f.typ ≡ Typ.fwd
    → decode_fwd_message (binary wire) ≡ fwd_wire wire
unfolding decode_fwd_message
decodes_fwd wire f h t =
    let (same, v, long, len) = decode-IsFrame wire f h in
    let version : byte_at wire 0 ≡ 1 = sym (ap (λ g. g.version) same) ∙ v.version in
    let typ : byte_at wire 1 ≡ Typ.fwd = sym (ap (λ g. g.typ) same) ∙ t in
    let flags : uint16_at wire 2 ≡ 0 = sym (ap (λ g. g.flags) same) ∙ v.flags in
    let fits : length (parts wire).payload ≤ max_payload = rw same at v.fits in
    ground (arith, length-drop 24 wire)

-- The fast test accepts a wire, and hands it on unchanged, exactly when the decoder reads it as a
-- frame of type FWD.
pub decode_fwd_message_iff :
    (wire : List ℕ)
    → (decode_fwd_message (binary wire) ≡ fwd_wire wire)
      ↔ ((f : Frame) × (decode wire ≡ ok f) × (f.typ ≡ Typ.fwd))
decode_fwd_message_iff wire = (
  λ h. let (_, d, t) = fwd_decodes wire wire h in (parts wire, d, t),
  λ (f, d, t). decodes_fwd wire f d t,
)
