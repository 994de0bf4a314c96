-- ===== src/Envelope.antt =====
-- workers/pairfob-origin/src/envelope.ts and the message tests of frames.ts: the 24-byte header. A
-- wire is a list of bytes; a throw is an `err`.
pub mod Typ
pub mod Codec
pub mod Fwd
use pairfob.Prelude.{
  ℕ, ◌+◌, ◌*◌, ◌/◌, ◌%◌, Bool, true, false, not, ◌||◌, Option, none, some, List, [], ◌∷◌, ◌++◌,
  ◌==◌, ltb, if◌then◌else◌, length, take, drop, get_or,
}
use pairfob.Store.{has_id}
use Typ

abbrev pub envelope_version : ℕ
envelope_version = 1

abbrev pub header_size : ℕ
header_size = 24

abbrev pub max_payload : ℕ
max_payload = 262144

abbrev known_types : List ℕ
known_types =
    Typ.hello_daemon ∷ Typ.hello_client ∷ Typ.pair_open ∷ Typ.pair_attach ∷ Typ.fwd ∷ Typ.pair_close
    ∷ Typ.error ∷ Typ.ping ∷ Typ.pong ∷ Typ.pair_attached ∷ Typ.session_attach ∷ Typ.session_bound
    ∷ Typ.daemon_replaced ∷ Typ.session_established ∷ []

pub record Frame : Type 0 where
  pub version : ℕ
  pub typ : ℕ
  pub flags : ℕ
  pub route_id : List ℕ
  pub payload : List ℕ

pub data Error : Type 0 where
  short_frame length_over length_mismatch bad_version bad_flags unknown_type bad_route : Error

pub data Result {ℓ} (A : Type ℓ) : Type ℓ where
  ok : A → Result A
  err : Error → Result A

infixl 5 ◌>>=◌ ◌>>◌
abbrev ◌>>=◌ {ℓ κ} : {A : Type ℓ} {B : Type κ} → Result A → (A → Result B) → Result B
ok a >>= f = f a
err e >>= f = err e

abbrev ◌>>◌ {ℓ} : {B : Type ℓ} → Result (Unit {0}) → Result B → Result B
m >> k = m >>= λ _. k

-- if (failed) throw
abbrev refuse_if : Bool → Error → Result (Unit {0})
refuse_if true e = err e
refuse_if false e = ok tt

unfoldable pub known_type : ℕ → Bool
known_type typ = has_id known_types typ

unfoldable pub validate_frame : Frame → Result (Unit {0})
unfolding known_type
validate_frame f = do
  refuse_if (not (f.version == envelope_version)) bad_version
  refuse_if (not (f.flags == 0)) bad_flags
  refuse_if (not (known_type f.typ)) unknown_type
  refuse_if (not (length f.route_id == 16)) bad_route
  refuse_if (ltb max_payload (length f.payload)) length_over

-- setUint16 and setUint32, most significant byte first
abbrev pub uint16_bytes : ℕ → List ℕ
uint16_bytes n = n / 0x100 % 0x100 ∷ n % 0x100 ∷ []

abbrev pub uint32_bytes : ℕ → List ℕ
uint32_bytes n = n / 0x1000000 % 0x100 ∷ n / 0x10000 % 0x100 ∷ n / 0x100 % 0x100 ∷ n % 0x100 ∷ []

abbrev pub layout : Frame → List ℕ
layout f =
    f.version
    ∷ f.typ
    ∷ (uint16_bytes f.flags ++ uint32_bytes (length f.payload) ++ f.route_id ++ f.payload)

unfoldable pub encode : Frame → Result (List ℕ)
unfolding validate_frame
encode f = do validate_frame f; ok (layout f)

abbrev pub byte_at : List ℕ → ℕ → ℕ
byte_at bytes i = get_or bytes i 0

-- getUint16 and getUint32
abbrev pub uint16_at : List ℕ → ℕ → ℕ
uint16_at bytes i = byte_at bytes i * 0x100 + byte_at bytes (i + 1)

abbrev pub uint32_at : List ℕ → ℕ → ℕ
uint32_at bytes i =
    byte_at bytes i * 0x1000000
    + byte_at bytes (i + 1) * 0x10000
    + byte_at bytes (i + 2) * 0x100
    + byte_at bytes (i + 3)

abbrev pub parts : List ℕ → Frame
parts bytes = record {
  version = byte_at bytes 0;
  typ = byte_at bytes 1;
  flags = uint16_at bytes 2;
  route_id = take 16 (drop 8 bytes);
  payload = drop header_size bytes;
}

unfoldable pub decode : List ℕ → Result Frame
unfolding validate_frame
decode bytes = do
  refuse_if (ltb (length bytes) header_size) short_frame
  refuse_if (ltb max_payload (uint32_at bytes 4)) length_over
  refuse_if (not (uint32_at bytes 4 + header_size == length bytes)) length_mismatch
  validate_frame (parts bytes)
  ok (parts bytes)

-- decodeFwdMessage: `undefined`, `null` and the wire
pub data FwdMessage : Type 0 where
  not_fwd malformed : FwdMessage
  fwd_wire : List ℕ → FwdMessage

-- A text message has no bytes: `asBytes` gives `null` for it.
pub data Message : Type 0 where
  text : Message
  binary : List ℕ → Message

unfoldable pub decode_fwd_message : Message → FwdMessage
decode_fwd_message text = not_fwd
decode_fwd_message (binary wire) =
    if ltb (length wire) 2 || not (byte_at wire 1 == Typ.fwd)
    then not_fwd
    else if ltb (length wire) header_size
        || not (byte_at wire 0 == envelope_version)
        || not (byte_at wire 2 == 0)
        || not (byte_at wire 3 == 0)
    then malformed
    else if ltb max_payload (uint32_at wire 4)
        || not (length wire == header_size + uint32_at wire 4)
    then malformed
    else fwd_wire wire

unfoldable pub decode_message : Message → Option Frame
unfolding decode
decode_message text = none
decode_message (binary wire) = elim (decode wire) [ ok f ↦ some f | err _ ↦ none ]
