-- ===== src/Account/Closed/Frames.antt =====
-- Each statement writes one table, so an invariant that does not read the table is kept.
use pairfob.Prelude.{
  ℕ, String, Bool, Option, List, true, false, not, ◌+◌, ◌&&◌, ◌||◌, ◌==◌, ◌===◌, ltb, if◌then◌else◌,
  keep, count, length, maybe_rule,
}
use pairfob.Task.Keeps.{Keeps, keeps_rules}
use pairfob.Account.{
  Db, Env, Request, UserRow, SessionRow, InviteRow, FailureRow, LockRow, ClaimProofRow,
  DeviceOwnerRow, VaultRow, Subject, same_subject,
}
use pairfob.Account.Ledger.{
  FailureReservation, is_strike, prune_failures, reserve_failure_budget, release_failure_budget,
  lock_subject, clear_auth_domain,
}
use pairfob.Account.Users.{
  first, is_some, insert_first_user, insert_user, create_session, delete_session, put_invite,
  suspend_invite,
}
use pairfob.Account.Claims.{
  create_claim_proof, ready_claim_proof, consume_claim_proof, bind_device, unbind_device,
}
use pairfob.Account.Devices.{Label, bind_claimed, spend_proof}
use pairfob.Account.Vault.{insert_vault, update_vault}
use pairfob.Account.Closed.{read_rules}

-- The state after one of two outcomes of a statement.
pub Good-if :
    {A : Type 0} (P : Db → Type 0) (b : Bool) (m n : A × Db)
    → P m.1
    → P n.1
    → P (if b then m else n).1
Good-if P true m n hm hn = hm
Good-if P false m n hm hn = hn

module _ {P : Db → Type 0} where
  module _ (users : (rows : List UserRow) (db : Db) → P db → P (record db { users = rows })) where
    pub first_user_kept : (row : UserRow) → Keeps P (insert_first_user row)
    unfolding insert_first_user
    first_user_kept row = record {
      at = λ db h. Good-if P (ltb 0 (length db.users)) _ _ h (users _ db h);
    }

    pub user_kept : (row : UserRow) → Keeps P (insert_user row)
    unfolding insert_user
    user_kept row = record {
      at = λ db h.
          Good-if P
            (is_some
              (first (λ u. u.username === row.username || u.user_id === row.user_id) db.users))
            _ _ h (users _ db h);
    }

  module _
      (failures : (rows : List FailureRow) (n : ℕ) (db : Db)
        → P db
        → P (record db { failures = rows; next_failure = n }))
      (locks : (rows : List LockRow) (db : Db) → P db → P (record db { locks = rows })) where
    pub reserve_kept : (s : Subject) (now limit : ℕ) → Keeps P (reserve_failure_budget s now limit)
    unfolding reserve_failure_budget
    reserve_kept s now limit = record {
      at = λ db h.
          Good-if P (ltb (count (is_strike s now) (prune_failures now db.failures)) limit) _ _
            (failures _ (db.next_failure + 1) db h) (failures _ db.next_failure db h);
    }

    pub release_kept : (r : FailureReservation) → Keeps P (release_failure_budget r)
    unfolding release_failure_budget
    release_kept r = record {
      at = λ db h. Good-if P (not r.granted || r.id == 0) _ _ h (failures _ db.next_failure db h);
    }

    pub clear_kept : (s : Subject) → Keeps P (clear_auth_domain s)
    unfolding clear_auth_domain
    clear_kept s = record {
      at = λ db h.
          locks _ (record db { failures = keep (λ f. not (same_subject f.subject s)) db.failures })
            (failures _ db.next_failure db h);
    }

  module _
      (proofs : (rows : List ClaimProofRow) (db : Db)
        → P db
        → P (record db { proofs = rows })) where
    pub proof_kept : (row : ClaimProofRow) → Keeps P (create_claim_proof row)
    unfolding create_claim_proof
    proof_kept row = record {
      at = λ db h.
          Good-if P (is_some (first (λ p. p.proof === row.proof) db.proofs)) _ _ h (proofs _ db h);
    }

    pub ready_kept :
        (user_id daemon_id route_id : String) (now : ℕ)
        → Keeps P (ready_claim_proof user_id daemon_id route_id now)
    unfolding ready_claim_proof
    ready_kept user_id daemon_id route_id now = record { at = λ db h. proofs _ db h }

    pub consume_kept :
        (proof user_id daemon_id : String) (now : ℕ)
        → Keeps P (consume_claim_proof proof user_id daemon_id now)
    unfolding consume_claim_proof
    consume_kept proof user_id daemon_id now = record { at = λ db h. proofs _ db h }

  -- A claim spends a proof and binds a row.
  module _
      (consume : (proof user_id daemon_id : String) (now : ℕ)
        → Keeps P (consume_claim_proof proof user_id daemon_id now))
      (bind : (row : DeviceOwnerRow) → Keeps P (bind_device row)) where
    bind_claimed_kept :
        (env : Env) (req : Request) (user_id daemon_id : String) (label : Label)
        → ((db : Db) → P db → P (env.others db))
        → Keeps P (bind_claimed env req user_id daemon_id label)
    unfolding bind_claimed
    bind_claimed_kept env req user_id daemon_id label others =
        search (keeps_rules, read_rules, bind, others) depth 20

    pub spend_kept :
        (env : Env) (req : Request) (user_id daemon_id : String) (label : Label)
        (existing : Option DeviceOwnerRow)
        → ((db : Db) → P db → P (env.others db))
        → Keeps P (spend_proof env req user_id daemon_id label existing)
    unfolding spend_proof
    spend_kept env req user_id daemon_id label existing others =
        search (keeps_rules, consume, bind_claimed_kept env, others) depth 20

  module _
      (owners : (rows : List DeviceOwnerRow) (db : Db)
        → P db
        → P (record db { owners = rows })) where
    pub bind_kept : (row : DeviceOwnerRow) → Keeps P (bind_device row)
    unfolding bind_device
    bind_kept row = record {
      at = λ db h.
          Good-if P (is_some (first (λ o. o.daemon_id === row.daemon_id) db.owners)) _ _ h
            (owners _ db h);
    }

    pub unbind_kept : (daemon_id user_id : String) → Keeps P (unbind_device daemon_id user_id)
    unfolding unbind_device
    unbind_kept daemon_id user_id = record { at = λ db h. owners _ db h }

  module _ (locks : (rows : List LockRow) (db : Db) → P db → P (record db { locks = rows })) where
    pub lock_kept : (s : Subject) (now : ℕ) → Keeps P (lock_subject s now)
    unfolding lock_subject
    lock_kept s now = record { at = λ db h. locks _ db h }

  module _
      (sessions : (rows : List SessionRow) (db : Db)
        → P db
        → P (record db { sessions = rows })) where
    pub session_kept : (row : SessionRow) → Keeps P (create_session row)
    unfolding create_session
    session_kept row = record {
      at = λ db h.
          Good-if P (is_some (first (λ s. s.token_hash === row.token_hash) db.sessions)) _ _ h
            (sessions _ db h);
    }

    pub end_session_kept : (hash : String) → Keeps P (delete_session hash)
    unfolding delete_session
    end_session_kept hash = record { at = λ db h. sessions _ db h }

  module _
      (invite : (row : Option InviteRow) (db : Db) → P db → P (record db { invite = row })) where
    pub put_kept : (code by : String) (now : ℕ) → Keeps P (put_invite code by now)
    unfolding put_invite
    put_kept code by now = record { at = λ db h. invite _ db h }

    pub suspend_kept : (now version : ℕ) → Keeps P (suspend_invite now version)
    unfolding suspend_invite
    suspend_kept now version = record {
      at = λ db h.
          maybe_rule (λ (m : Bool × Db). P m.1) db.invite _ _ h
            (λ row _.
              Good-if P (row.suspended_at == 0 && row.version == version) _ _ (invite _ db h) h);
    }

  module _
      (vaults : (rows : List VaultRow) (db : Db) → P db → P (record db { vaults = rows })) where
    pub new_vault_kept : (row : VaultRow) → Keeps P (insert_vault row)
    unfolding insert_vault
    new_vault_kept row = record {
      at = λ db h.
          Good-if P (is_some (first (λ v. v.user_id === row.user_id) db.vaults)) _ _ h
            (vaults _ db h);
    }

    pub swap_vault_kept : (row : VaultRow) (expected : ℕ) → Keeps P (update_vault row expected)
    unfolding update_vault
    swap_vault_kept row expected = record { at = λ db h. vaults _ db h }
