-- ===== src/Tests.antt =====
-- Concrete frames, rooms and answers of the platform, for runs of the theorems of the other modules.
pub mod Accounts
pub mod Codec
pub mod Direct
pub mod Ledger
pub mod Relay
pub mod Rooms
pub mod Worker
use Prim.Native.Char.{code}
use Prim.Native.String
use package.text.Mathlib.TextEquality.{Char-path}
use pairfob.Prelude.{
  ℕ, zero, suc, ◌+◌, ◌≡◌, refl, ap, String, Bool, true, false, Option, none, some, List, [], ◌∷◌,
  ◌∙◌, get_or, drop, ◌==◌, if◌then◌else◌,
}
use pairfob.Crockford.{codes}
use pairfob.Json.{Json, text, number, Parsed, not_json, object}
use pairfob.Attachment
use pairfob.Attachment.{Attachment}
use pairfob.Envelope.Typ
use pairfob.Envelope.{Frame}
use pairfob.Store.{Store, empty_store, MetaRow, PairSlot}
use pairfob.Hex.{zero_route}
use pairfob.Room.{Room, Socket, Env, inserted}
use pairfob.Room.System.{new_room}

abbrev pub route_a : List ℕ
route_a = 1 ∷ 1 ∷ 1 ∷ 1 ∷ 1 ∷ 1 ∷ 1 ∷ 1 ∷ 1 ∷ 1 ∷ 1 ∷ 1 ∷ 1 ∷ 1 ∷ 1 ∷ 171 ∷ []

abbrev pub fwd_frame : Frame
fwd_frame = record {
  version = 1;
  typ = Typ.fwd;
  flags = 0;
  route_id = route_a;
  payload = 7 ∷ 8 ∷ [];
}

abbrev pub repeat : ℕ → ℕ → List ℕ
repeat zero x = []
repeat (suc n) x = x ∷ repeat n x

abbrev pub room_id : String
room_id = "d_00000000000000000000"

abbrev pub reference : String
reference = "00000000000000000000000000000000"

abbrev pub token : String
token = "rt_00000000000000000000000000000000"

-- A payload is named by its first byte.
abbrev pub bodies : List ℕ → Parsed
bodies payload =
    let first = get_or payload 0 0 in
    if first == 1
    then object (("v", number 2) ∷ ("protocol", number 2) ∷ [])
    else if first == 2
    then object (("v", number 2) ∷ ("daemon_id", text room_id) ∷ [])
    else if first == 3
    then object (("v", number 2) ∷ ("daemon_id", text room_id) ∷ ("pair_ref", text reference) ∷ [])
    else if first == 4
    then object (
        ("v", number 2)
        ∷ ("op", text "RegisterDaemon")
        ∷ ("daemon_id", text room_id)
        ∷ ("reconnect_token", text token)
        ∷ [])
    else not_json

-- An environment in which nothing else runs, and the index takes every location.
abbrev pub quiet_env : Env
quiet_env = record {
  random_bytes = λ draw size. repeat size (draw + 1);
  parse = bodies;
  utf8 = codes;
  sha256_hex = λ s. s;
  index_answer = λ r loc. inserted;
  alarm_throws = λ r. false;
  others = λ r. r;
}

-- Different texts have different codes.
pub codes_injective : (s t : String) → codes s ≡ codes t → s ≡ t
codes_injective String.[] String.[] e = refl
codes_injective String.[] (String.◌∷◌ d t) e = absurd (cc)
codes_injective (String.◌∷◌ c s) String.[] e = absurd (cc)
codes_injective (String.◌∷◌ c s) (String.◌∷◌ d t) e =
    let first : c ≡ d = Char-path c d (ap (λ cs. get_or cs 0 0) e) in
    let rest : s ≡ t = codes_injective s t (ap (drop 1) e) in
    ap (λ x. String.◌∷◌ x s) first ∙ ap (String.◌∷◌ d) rest

abbrev pub phone : (route_id pair_ref : String) → Attachment.BindKind → Attachment
phone route_id pair_ref kind = record {
  role = Attachment.phone;
  mode = Attachment.session;
  route_id = route_id;
  kind = kind;
  created_ms = 1000;
  hello_at_ms = 1000;
  pair_ref = pair_ref;
  pair_frames = 1;
  account = "u_1";
  owner = "u_1";
}

abbrev pub computer : Attachment
computer = record (phone "" "" Attachment.none) {
  role = Attachment.daemon;
  mode = Attachment.hello;
}

abbrev pub socket : ℕ → Attachment → Socket
socket id a = record { id = id; attachment = some a; sent = []; closed = none; broken = false }

abbrev pub hex_a : String
hex_a = "010101010101010101010101010101ab"

abbrev pub hex_b : String
hex_b = "020202020202020202020202020202cd"

-- A room with a computer, an established phone, and one that is pairing.
unfoldable pub busy_room : Room
unfolding new_room
busy_room = record (new_room room_id true) {
  clock = 2000;
  daemon = some 0;
  reconnect_hash = token;
  enrolled = true;
  sockets =
      socket 0 computer
      ∷ socket 1 (phone hex_a "" Attachment.established)
      ∷ socket 2 (phone hex_b reference Attachment.pairing)
      ∷ [];
  routes = (hex_a, record { socket = 1; route_id = route_a }) ∷ [];
  store = record empty_store {
    meta =
        some (record {
          daemon_id = room_id;
          reconnect_hash = token;
          grant_id = "g_1";
          created_at = 0;
        });
    slot = some (record { pair_ref = reference; pair_loc = "000000"; deadline = 90000 });
  };
}
