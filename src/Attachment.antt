-- ===== src/Attachment.antt =====
-- workers/pairfob-origin/src/room/attachment.ts: what a room keeps on each websocket across
-- hibernation. An attachment is typed here, so the check of a raw value is left out.
use pairfob.Prelude.{
  ℕ, String, Bool, true, false, not, ◌&&◌, ◌||◌, List, [], ◌∷◌, ltb, ◌===◌, if◌then◌else◌,
}

pub data SocketRole : Type 0 where
  daemon phone : SocketRole

pub data SocketMode : Type 0 where
  hello pairing session : SocketMode

pub data BindKind : Type 0 where
  none pairing resumehello established : BindKind

pub record Attachment : Type 0 where
  pub role : SocketRole
  pub mode : SocketMode
  pub route_id : String
  pub kind : BindKind
  pub created_ms : ℕ
  pub hello_at_ms : ℕ
  pub pair_ref : String
  pub pair_frames : ℕ
  pub account : String
  pub owner : String

-- `===` on the three unions
abbrev pub is_daemon : SocketRole → Bool
is_daemon daemon = true
is_daemon phone = false

abbrev pub is_phone : SocketRole → Bool
is_phone daemon = false
is_phone phone = true

abbrev pub is_hello_mode : SocketMode → Bool
is_hello_mode hello = true
is_hello_mode _ = false

abbrev pub is_pairing_mode : SocketMode → Bool
is_pairing_mode pairing = true
is_pairing_mode _ = false

abbrev pub is_session_mode : SocketMode → Bool
is_session_mode session = true
is_session_mode _ = false

abbrev pub is_none : BindKind → Bool
is_none none = true
is_none _ = false

abbrev pub is_pairing : BindKind → Bool
is_pairing pairing = true
is_pairing _ = false

abbrev pub is_resumehello : BindKind → Bool
is_resumehello resumehello = true
is_resumehello _ = false

abbrev pub is_established : BindKind → Bool
is_established established = true
is_established _ = false

abbrev pub kind_text : BindKind → String
kind_text none = "none"
kind_text pairing = "pairing"
kind_text resumehello = "resumehello"
kind_text established = "established"

abbrev pub role_text : SocketRole → String
role_text daemon = "daemon"
role_text phone = "phone"

-- `extra` of the source is the account, the owner and the time of the hello.
unfoldable pub new_attachment :
    SocketRole → ℕ → (account owner : String) → (hello_at_ms : ℕ) → Attachment
new_attachment role now account owner hello_at_ms = record {
  role = role;
  mode = hello;
  route_id = "";
  kind = none;
  created_ms = now;
  hello_at_ms = hello_at_ms;
  pair_ref = "";
  pair_frames = 0;
  account = account;
  owner = owner;
}

unfoldable pub owner_mismatch : Attachment → Bool
owner_mismatch att =
    if not (is_phone att.role)
    then false
    else if att.owner === ""
    then false
    else att.account === "" || not (att.account === att.owner)

unfoldable pub is_registered_daemon : Attachment → Bool
is_registered_daemon att = is_daemon att.role && ltb 0 att.hello_at_ms

unfoldable pub needs_constructor_sql : List Attachment → Bool
needs_constructor_sql [] = false
needs_constructor_sql (a ∷ atts) =
    if is_pairing a.kind || is_resumehello a.kind
    then true
    else if is_hello_mode a.mode && is_phone a.role
    then true
    else needs_constructor_sql atts
