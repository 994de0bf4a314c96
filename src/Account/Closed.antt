-- ===== src/Account/Closed.antt =====
-- The frame of an invariant of the tables: if every statement keeps it, every handler does.
pub mod Frames
pub mod Rest
pub mod Admin
pub mod Owner
pub mod Confirmed
pub mod Budget
pub mod WrongCode
pub mod VaultRows
pub mod Versions
pub mod Handlers
pub mod Opening
pub mod Routes
pub mod Runs
use pairfob.Prelude.{ℕ, ◌+◌, ◌≡◌, String, Bool, Option, List, ◌==◌, if◌then◌else◌}
use pairfob.Task.{Task, await}
use pairfob.Task.Keeps.{Keeps}
use pairfob.Account.{
  Db, Env, Request, UserRow, SessionRow, ClaimProofRow, DeviceOwnerRow, DaemonRow, VaultRow,
  Subject, AuthDomain, source, invite_global, invite, login, bootstrap,
}
use pairfob.Account.Ledger.{
  FailureReservation, auth_lockout_strikes, login_lockout_strikes, invite_global_strikes,
  reserve_failure_budget, release_failure_budget, locked_until, lock_subject, clear_auth_domain,
}
use pairfob.Account.Users.{
  get_user_by_name, get_user_by_id, count_users, insert_first_user, insert_user, create_session,
  get_live_session, delete_session, get_invite, put_invite, suspend_invite,
}
use pairfob.Account.Claims.{
  create_claim_proof, ready_claim_proof, get_ready_proof, get_device_owner, list_devices_by_user,
  unbind_device, get_daemon,
}
use pairfob.Account.Devices.{Label, spend_proof}
use pairfob.Account.Vault.{get_vault, insert_vault, update_vault}

-- The budget that a subject is reserved against.
abbrev pub limit_of : Subject → ℕ
limit_of (source invite key) = auth_lockout_strikes
limit_of (source login key) = login_lockout_strikes
limit_of (source bootstrap key) = auth_lockout_strikes
limit_of (invite_global version) = invite_global_strikes

-- `Free` are the computers that may be given up, `Confirmed` the pairs of an account and a computer
-- whose room may confirm a pairing.
pub record IsClosed (P : Db → Type 0) (Free : String → Type 0)
    (Confirmed : String → String → Type 0) : Type 0 where
  pub draw : (n : ℕ) (db : Db) → P db → P (record db { draw = n })
  pub reserve : (s : Subject) (now : ℕ) → Keeps P (reserve_failure_budget s now (limit_of s))
  pub release : (r : FailureReservation) → Keeps P (release_failure_budget r)
  pub lock : (s : Subject) (now : ℕ) → Keeps P (lock_subject s now)
  pub clear : (s : Subject) → Keeps P (clear_auth_domain s)
  pub first_user : (row : UserRow) → Keeps P (insert_first_user row)
  pub user : (row : UserRow) → row.role ≡ "member" → Keeps P (insert_user row)
  pub session : (row : SessionRow) → Keeps P (create_session row)
  pub end_session : (hash : String) → Keeps P (delete_session hash)
  pub put : (code by : String) (now : ℕ) → Keeps P (put_invite code by now)
  pub suspend : (now version : ℕ) → Keeps P (suspend_invite now version)
  pub proof : (row : ClaimProofRow) → Keeps P (create_claim_proof row)
  pub ready :
      (user_id daemon_id route_id : String) (now : ℕ)
      → Confirmed user_id daemon_id
      → Keeps P (ready_claim_proof user_id daemon_id route_id now)
  pub spend :
      (env : Env) (req : Request) (user_id daemon_id : String) (label : Label)
      (existing : Option DeviceOwnerRow)
      → ((db : Db) → P db → P (env.others db))
      → Keeps P (spend_proof env req user_id daemon_id label existing)
  pub unbind :
      (daemon_id user_id : String) → Free daemon_id → Keeps P (unbind_device daemon_id user_id)
  pub new_vault : (row : VaultRow) → Keeps P (insert_vault row)
  pub swap_vault :
      (row : VaultRow) (expected : ℕ)
      → row.version ≡ expected + 1
      → Keeps P (update_vault row expected)
  pub computers : (rows : List DaemonRow) (db : Db) → P db → P (record db { daemons = rows })

-- What only reads keeps everything.
module _ {P : Db → Type 0} where
  pub Keeps-locked_until : (s : Subject) (now : ℕ) → Keeps P (locked_until s now)
  unfolding locked_until
  Keeps-locked_until s now = record { at = λ db h. h }

  pub Keeps-get_user_by_name : (name : String) → Keeps P (get_user_by_name name)
  unfolding get_user_by_name
  Keeps-get_user_by_name name = record { at = λ db h. h }

  pub Keeps-get_user_by_id : (id : String) → Keeps P (get_user_by_id id)
  unfolding get_user_by_id
  Keeps-get_user_by_id id = record { at = λ db h. h }

  pub Keeps-count_users : Keeps P count_users
  unfolding count_users
  Keeps-count_users = record { at = λ db h. h }

  pub Keeps-get_live_session : (hash : String) (now : ℕ) → Keeps P (get_live_session hash now)
  unfolding get_live_session
  Keeps-get_live_session hash now = record { at = λ db h. h }

  pub Keeps-get_invite : Keeps P get_invite
  unfolding get_invite
  Keeps-get_invite = record { at = λ db h. h }

  pub Keeps-get_ready_proof :
      (user_id daemon_id : String) (now : ℕ) → Keeps P (get_ready_proof user_id daemon_id now)
  unfolding get_ready_proof
  Keeps-get_ready_proof user_id daemon_id now = record { at = λ db h. h }

  pub Keeps-get_device_owner : (daemon_id : String) → Keeps P (get_device_owner daemon_id)
  unfolding get_device_owner
  Keeps-get_device_owner daemon_id = record { at = λ db h. h }

  pub Keeps-get_daemon : (daemon_id : String) → Keeps P (get_daemon daemon_id)
  unfolding get_daemon
  Keeps-get_daemon daemon_id = record { at = λ db h. h }

  pub Keeps-get_vault : (user_id : String) → Keeps P (get_vault user_id)
  unfolding get_vault
  Keeps-get_vault user_id = record { at = λ db h. h }

  pub Keeps-list_devices_by_user : (user_id : String) → Keeps P (list_devices_by_user user_id)
  unfolding list_devices_by_user
  Keeps-list_devices_by_user user_id = record { at = λ db h. h }

pub ruleset read_rules = (
  Keeps-locked_until, Keeps-get_user_by_name, Keeps-get_user_by_id, Keeps-count_users,
  Keeps-get_live_session, Keeps-get_invite, Keeps-get_ready_proof, Keeps-get_device_owner,
  Keeps-get_daemon, Keeps-get_vault, Keeps-list_devices_by_user,
)
