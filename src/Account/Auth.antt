-- ===== src/Account/Auth.antt =====
-- workers/pairfob-origin/src/account-auth.ts: what a body may say, sessions, and invite codes.
pub mod Invite
pub mod Codes
use Prim.Native.Char.{Char, code}
use Prim.Native.String
use pairfob.Prelude.{
  ℕ, zero, suc, ◌+◌, ◌*◌, ◌/◌, ◌%◌, String, Bool, true, false, not, ◌&&◌, ◌||◌, Option, none, some,
  List, [], ◌∷◌, ◌==◌, ◌===◌, leb, ltb, if◌then◌else◌, maybe, length, get_or, lookup,
}
use pairfob.Json.{Json, Fields, text}
use pairfob.Text.{
  trim, to_lower, to_upper, units, every, no_control, collapse, is_lower_code, is_upper_code,
  is_digit_code,
}
use pairfob.Hex.{bytes_to_hex, text_length}
use pairfob.Task.{Task, pure, await, ◌>>=◌, ◌>>◌}
use pairfob.Account.{Db, Env, Request, UserRow, SessionRow}
use pairfob.Account.Users.{get_live_session, get_user_by_id, delete_session, create_session}

abbrev pub session_ttl_ms : ℕ
session_ttl_ms = 30 * 24 * 60 * 60 * 1000

abbrev pub password_min : ℕ
password_min = 8

abbrev pub password_max : ℕ
password_max = 128

abbrev pub device_label_max : ℕ
device_label_max = 64

abbrev pub invite_code_len : ℕ
invite_code_len = 4

abbrev is_name_code : ℕ → Bool
is_name_code c = is_lower_code c || is_digit_code c || c == b'.' || c == b'_' || c == b'-'

abbrev starts_plain : String → Bool
starts_plain String.[] = false
starts_plain (String.◌∷◌ c s) = is_lower_code (code c) || is_digit_code (code c)

-- USERNAME_RE
unfoldable pub is_username : String → Bool
unfolding every
is_username s =
    starts_plain s && every is_name_code s && leb 3 (text_length s) && leb (text_length s) 32

-- INVITE_CODE_RE
unfoldable pub is_invite_code : String → Bool
unfolding every
is_invite_code s = every is_upper_code s && text_length s == 4

-- A value of the body, or nothing where it is no text.
abbrev pub text_value : String → Option Fields → Option String
text_value key none = none
text_value key (some fields) = elim (lookup key fields) [ some (text s) ↦ some s | _ ↦ none ]

abbrev pub normalize : (String → String) → (String → Bool) → Option String → Option String
normalize change accepts none = none
normalize change accepts (some value) =
    let changed = change value in if accepts changed then some changed else none

unfoldable pub normalize_username : Option String → Option String
unfolding trim to_lower is_username
normalize_username value = normalize (λ s. to_lower (trim s)) is_username value

abbrev pub fits_password : Env → String → Bool
fits_password env s =
    let bytes = length (env.utf8 s) in
    leb password_min bytes && leb bytes password_max && no_control s

unfoldable pub normalize_password : Env → Option String → Option String
unfolding trim no_control
normalize_password env value = normalize trim (fits_password env) value

unfoldable pub normalize_invite_code : Option String → Option String
unfolding trim to_upper is_invite_code
normalize_invite_code value = normalize (λ s. to_upper (trim s)) is_invite_code value

unfoldable pub normalize_device_label : Option String → Option String
unfolding trim collapse units no_control
normalize_device_label value =
    normalize (λ s. collapse (trim s))
      (λ s. not (s === "") && leb (units s) device_label_max && no_control s) value

-- A text of the entropy source: the bytes in hex.
unfoldable pub random_hex : Env → (size : ℕ) → Task Db String
unfolding bytes_to_hex
random_hex env size db =
    (bytes_to_hex (env.random_bytes db.draw size), record db { draw = db.draw + 1 })

unfoldable pub new_user_id : Env → Task Db String
unfolding random_hex ◌>>=◌
new_user_id env = do hex ← random_hex env 8; pure (String.◌++◌ "u_" hex)

unfoldable pub new_claim_proof : Env → Task Db String
unfolding random_hex ◌>>=◌
new_claim_proof env = do hex ← random_hex env 16; pure (String.◌++◌ "cp_" hex)

pub record Identity : Type 0 where
  pub user : UserRow
  pub token_hash : String

-- A session whose user is gone is dropped.
abbrev pub forget_session : Env → String → Task Db (Option Identity)
forget_session env token_hash = do await env.others (delete_session token_hash); pure none

-- `token` is what readSessionToken finds in the cookie.
unfoldable pub resolve_identity :
    Env → (token : Option String) → (now : ℕ) → Task Db (Option Identity)
unfolding get_live_session get_user_by_id delete_session ◌>>=◌
resolve_identity env none now = pure none
resolve_identity env (some token) now = do
  let token_hash = env.sha256_hex token
  session ← await env.others (get_live_session token_hash now)
  maybe session (pure none) λ s. do
    user ← await env.others (get_user_by_id s.user_id)
    maybe user (forget_session env token_hash)
        λ u. pure (some (record { user = u; token_hash = token_hash }))

-- false where the digest of the new token is taken.
unfoldable pub issue_session : Env → (user_id : String) → (now : ℕ) → Task Db Bool
unfolding random_hex create_session ◌>>=◌
issue_session env user_id now = do
  token ← random_hex env 32
  await env.others (
      create_session (record {
        token_hash = env.sha256_hex token;
        user_id = user_id;
        created_at = now;
        expires_at = now + session_ttl_ms;
      }))
