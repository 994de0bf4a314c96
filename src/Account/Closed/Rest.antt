-- ===== src/Account/Closed/Rest.antt =====
-- An invariant of some of the tables is closed under every statement, from those that write them.
use pairfob.Prelude.{ℕ, ◌≡◌, String, Option, List}
use pairfob.Task.Keeps.{Keeps}
use pairfob.Account.{
  Db, Env, Request, UserRow, SessionRow, InviteRow, LockRow, ClaimProofRow, DeviceOwnerRow,
  VaultRow, DaemonRow, Subject,
}
use pairfob.Account.Ledger.{
  FailureReservation, reserve_failure_budget, release_failure_budget, clear_auth_domain,
}
use pairfob.Account.Users.{insert_first_user, insert_user}
use pairfob.Account.Claims.{create_claim_proof, ready_claim_proof, unbind_device}
use pairfob.Account.Devices.{Label, spend_proof}
use pairfob.Account.Closed.{IsClosed, limit_of}
use pairfob.Account.Closed.Frames.{
  lock_kept, session_kept, end_session_kept, put_kept, suspend_kept, new_vault_kept,
  swap_vault_kept,
}

-- The tables that few invariants read.
pub record IsStable (P : Db → Type 0) : Type 0 where
  pub draw : (n : ℕ) (db : Db) → P db → P (record db { draw = n })
  pub sessions : (rows : List SessionRow) (db : Db) → P db → P (record db { sessions = rows })
  pub invite : (row : Option InviteRow) (db : Db) → P db → P (record db { invite = row })
  pub locks : (rows : List LockRow) (db : Db) → P db → P (record db { locks = rows })
  pub vaults : (rows : List VaultRow) (db : Db) → P db → P (record db { vaults = rows })
  pub daemons : (rows : List DaemonRow) (db : Db) → P db → P (record db { daemons = rows })

-- An invariant of users, strikes, proofs and owners, from what is left to show for those.
pub record Rest (P : Db → Type 0) (Free : String → Type 0) (Confirmed : String → String → Type 0)
    : Type 0 where
  pub stable : IsStable P
  pub reserve : (s : Subject) (now : ℕ) → Keeps P (reserve_failure_budget s now (limit_of s))
  pub release : (r : FailureReservation) → Keeps P (release_failure_budget r)
  pub clear : (s : Subject) → Keeps P (clear_auth_domain s)
  pub first_user : (row : UserRow) → Keeps P (insert_first_user row)
  pub user : (row : UserRow) → row.role ≡ "member" → Keeps P (insert_user row)
  pub proof : (row : ClaimProofRow) → Keeps P (create_claim_proof row)
  pub ready :
      (user_id daemon_id route_id : String) (now : ℕ)
      → Confirmed user_id daemon_id
      → Keeps P (ready_claim_proof user_id daemon_id route_id now)
  pub spend :
      (env : Env) (req : Request) (user_id daemon_id : String) (label : Label)
      (existing : Option DeviceOwnerRow)
      → ((db : Db) → P db → P (env.others db))
      → Keeps P (spend_proof env req user_id daemon_id label existing)
  pub unbind :
      (daemon_id user_id : String) → Free daemon_id → Keeps P (unbind_device daemon_id user_id)

pub Rest-closed :
    {P : Db → Type 0} {Free : String → Type 0} {Confirmed : String → String → Type 0}
    → Rest P Free Confirmed
    → IsClosed P Free Confirmed
Rest-closed rest = record {
  draw = rest.stable.draw;
  reserve = rest.reserve;
  release = rest.release;
  lock = lock_kept rest.stable.locks;
  clear = rest.clear;
  first_user = rest.first_user;
  user = rest.user;
  session = session_kept rest.stable.sessions;
  end_session = end_session_kept rest.stable.sessions;
  put = put_kept rest.stable.invite;
  suspend = suspend_kept rest.stable.invite;
  proof = rest.proof;
  ready = rest.ready;
  spend = rest.spend;
  unbind = rest.unbind;
  new_vault = new_vault_kept rest.stable.vaults;
  swap_vault = λ row expected _. swap_vault_kept rest.stable.vaults row expected;
  computers = rest.stable.daemons;
}
