-- ===== src/Account.antt =====
-- workers/pairfob-origin/src/account*.ts: the tables of the accounts, and what the handlers take from
-- the platform. A statement, or a batch, is one step; a failing statement is one of its results.
pub mod Auth
pub mod Ledger
pub mod Users
pub mod Claims
pub mod Login
pub mod Register
pub mod Bootstrap
pub mod Devices
pub mod Listing
pub mod Access
pub mod Release
pub mod Vault
pub mod System
pub mod Closed
use pairfob.Prelude.{ℕ, String, Bool, true, false, ◌&&◌, Option, none, some, List, [], ◌==◌, ◌===◌}
use pairfob.Json.{Fields}

pub data AuthDomain : Type 0 where
  invite login bootstrap : AuthDomain

-- sourceSubject, with the digest of the address, and inviteGlobalSubject
pub data Subject : Type 0 where
  source : AuthDomain → String → Subject
  invite_global : (version : ℕ) → Subject

abbrev domain_code : AuthDomain → ℕ
domain_code invite = 0
domain_code login = 1
domain_code bootstrap = 2

-- subject = ?
unfoldable pub same_subject : Subject → Subject → Bool
same_subject (source d a) (source e b) = domain_code d == domain_code e && a === b
same_subject (invite_global v) (invite_global w) = v == w
same_subject (source d a) (invite_global w) = false
same_subject (invite_global v) (source e b) = false

pub record UserRow : Type 0 where
  pub user_id : String
  pub username : String
  pub password_hash : String
  pub role : String
  pub created_at : ℕ

pub record SessionRow : Type 0 where
  pub token_hash : String
  pub user_id : String
  pub created_at : ℕ
  pub expires_at : ℕ

pub record InviteRow : Type 0 where
  pub code : String
  pub updated_by : String
  pub updated_at : ℕ
  pub suspended_at : ℕ
  pub version : ℕ

pub record FailureRow : Type 0 where
  pub id : ℕ
  pub subject : Subject
  pub at : ℕ

pub record LockRow : Type 0 where
  pub subject : Subject
  pub until : ℕ

pub record ClaimProofRow : Type 0 where
  pub proof : String
  pub user_id : String
  pub daemon_id : String
  pub created_at : ℕ
  pub expires_at : ℕ
  pub ready_at : ℕ
  pub route_id : String

pub record DeviceOwnerRow : Type 0 where
  pub daemon_id : String
  pub user_id : String
  pub label : Option String
  pub bound_at : ℕ

pub record VaultRow : Type 0 where
  pub user_id : String
  pub ciphertext : String
  pub nonce : String
  pub kdf : String
  pub version : ℕ
  pub updated_at : ℕ

-- A row of the daemons table, of which the accounts read whether it was kicked.
pub record DaemonRow : Type 0 where
  pub daemon_id : String
  pub kicked_at : Option ℕ

-- The tables, and how often the entropy source was asked.
pub record Db : Type 0 where
  pub users : List UserRow
  pub sessions : List SessionRow
  pub invite : Option InviteRow
  pub failures : List FailureRow
  pub next_failure : ℕ
  pub locks : List LockRow
  pub proofs : List ClaimProofRow
  pub owners : List DeviceOwnerRow
  pub vaults : List VaultRow
  pub daemons : List DaemonRow
  pub draw : ℕ

abbrev pub empty_db : Db
empty_db = record {
  users = [];
  sessions = [];
  invite = none;
  failures = [];
  next_failure = 1;
  locks = [];
  proofs = [];
  owners = [];
  vaults = [];
  daemons = [];
  draw = 0;
}

-- The platform, and the functions of crypto.ts that call it: the digest of an address, of a token,
-- the salted hash of a password at a draw, and its check. `rounds` bounds how often the model follows
-- the loop that draws an invite code.
pub record Env : Type 0 where
  pub random_bytes : (draw size : ℕ) → List ℕ
  pub utf8 : String → List ℕ
  pub hash_ip : String → String
  pub sha256_hex : String → String
  pub hash_password : (draw : ℕ) → String → String
  pub verify_password : (stored password : String) → Bool
  pub decoy_hash : String
  pub service_token : String
  pub decode_uri : String → String
  pub rounds : ℕ
  pub others : Db → Db

-- A request with the token that its cookie carries, and the fields of its JSON body.
pub record Request : Type 0 where
  pub ip : String
  pub token : Option String
  pub body : Option Fields
  pub now : ℕ

-- A row of the list of an account's computers; the computer is live unless it was kicked.
pub record Listed : Type 0 where
  pub row : DeviceOwnerRow
  pub live : Bool

-- What a handler answers: the status and the code of the error, or what the body says.
pub data Reply : Type 0 where
  signed_in : (user_id : String) → Reply
  signed_out : Reply
  bad_credentials : (remaining : ℕ) → Reply
  bad_service_token : Reply
  bad_invite locked_out not_initialized invite_suspended username_taken : Reply
  already_initialized already_bound bad_token forbidden unauthenticated unbound internal : Reply
  invite_code : (code : String) → (updated_at : ℕ) → Reply
  rotated : (code : String) → (updated_at version : ℕ) → Reply
  bound : DeviceOwnerRow → Reply
  released : (daemon_id : String) → Reply
  devices : List Listed → Reply
  freed : (daemon_id : String) → (released : Bool) → Reply
  proof_pending : Reply
  too_large no_vault : Reply
  vault : VaultRow → Reply
  stored : (version : ℕ) → Reply
  stale : (version : ℕ) → Reply
  proof_ready : (proof : String) → Reply
  state : (initialized : Bool) → (user : Option UserRow) → Reply
  -- the loop of mintInviteCode took more rounds than the model follows
  drawing : Reply
