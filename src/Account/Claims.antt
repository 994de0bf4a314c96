-- ===== src/Account/Claims.antt =====
-- workers/pairfob-origin/src/account-store.ts: claim proofs, the owners of computers, and getDaemon of
-- d1.ts.
use pairfob.Prelude.{
  ℕ, String, Bool, true, false, not, ◌&&◌, ◌||◌, Option, List, [], ◌∷◌, ◌++◌, ◌==◌, ◌===◌, ltb,
  if◌then◌else◌, keep, count, map, take,
}
use pairfob.Task.{Task}
use pairfob.Account.{Db, ClaimProofRow, DeviceOwnerRow, DaemonRow}
use pairfob.Account.Users.{first, is_some}

-- false where the proof is taken: the batch throws and is undone.
unfoldable pub create_claim_proof : ClaimProofRow → Task Db Bool
create_claim_proof row db =
    if is_some (first (λ p. p.proof === row.proof) db.proofs) then (false, db) else (
      true,
      record db {
        proofs =
            keep (λ p. ltb row.created_at p.expires_at)
              (db.proofs ++ record row { ready_at = 0 } ∷ []);
      },
    )

abbrev pub is_pending : (user_id daemon_id : String) → (now : ℕ) → ClaimProofRow → Bool
is_pending user_id daemon_id now p =
    p.user_id === user_id && p.daemon_id === daemon_id && p.ready_at == 0 && ltb now p.expires_at

unfoldable pub ready_claim_proof : (user_id daemon_id route_id : String) → (now : ℕ) → Task Db ℕ
ready_claim_proof user_id daemon_id route_id now db = (
  count (is_pending user_id daemon_id now) db.proofs,
  record db {
    proofs =
        map
          (λ p.
            if is_pending user_id daemon_id now p
            then record p { ready_at = now; route_id = route_id }
            else p)
          db.proofs;
  },
)

abbrev pub is_ready : (user_id daemon_id : String) → (now : ℕ) → ClaimProofRow → Bool
is_ready user_id daemon_id now p =
    p.user_id === user_id && p.daemon_id === daemon_id && ltb 0 p.ready_at && ltb now p.expires_at

unfoldable pub get_ready_proof :
    (user_id daemon_id : String) → (now : ℕ) → Task Db (Option ClaimProofRow)
get_ready_proof user_id daemon_id now db = (first (is_ready user_id daemon_id now) db.proofs, db)

abbrev pub is_spent_by : (proof user_id daemon_id : String) → (now : ℕ) → ClaimProofRow → Bool
is_spent_by proof user_id daemon_id now p = p.proof === proof && is_ready user_id daemon_id now p

-- `proof` is the primary key, so one row is changed at most.
unfoldable pub consume_claim_proof : (proof user_id daemon_id : String) → (now : ℕ) → Task Db Bool
consume_claim_proof proof user_id daemon_id now db = (
  count (is_spent_by proof user_id daemon_id now) db.proofs == 1,
  record db { proofs = keep (λ p. not (is_spent_by proof user_id daemon_id now p)) db.proofs },
)

unfoldable pub get_device_owner : String → Task Db (Option DeviceOwnerRow)
get_device_owner daemon_id db = (first (λ o. o.daemon_id === daemon_id) db.owners, db)

unfoldable pub bind_device : DeviceOwnerRow → Task Db Bool
bind_device row db =
    if is_some (first (λ o. o.daemon_id === row.daemon_id) db.owners)
    then (false, db)
    else (true, record db { owners = db.owners ++ row ∷ [] })

abbrev pub is_owned_by : (daemon_id user_id : String) → DeviceOwnerRow → Bool
is_owned_by daemon_id user_id o = o.daemon_id === daemon_id && o.user_id === user_id

unfoldable pub unbind_device : (daemon_id user_id : String) → Task Db Bool
unbind_device daemon_id user_id db = (
  count (is_owned_by daemon_id user_id) db.owners == 1,
  record db { owners = keep (λ o. not (is_owned_by daemon_id user_id o)) db.owners },
)

unfoldable pub get_daemon : String → Task Db (Option DaemonRow)
get_daemon daemon_id db = (first (λ d. d.daemon_id === daemon_id) db.daemons, db)

-- The earlier row first; rows bound at once stay as they were inserted.
insert_bound : DeviceOwnerRow → List DeviceOwnerRow → List DeviceOwnerRow
insert_bound row [] = row ∷ []
insert_bound row (o ∷ rows) =
    if ltb o.bound_at row.bound_at || o.bound_at == row.bound_at
    then o ∷ insert_bound row rows
    else row ∷ o ∷ rows

sort_bound_from : List DeviceOwnerRow → List DeviceOwnerRow → List DeviceOwnerRow
unfolding insert_bound
sort_bound_from sorted [] = sorted
sort_bound_from sorted (o ∷ rows) = sort_bound_from (insert_bound o sorted) rows

abbrev pub listed_devices : ℕ
listed_devices = 64

unfoldable pub list_devices_by_user : (user_id : String) → Task Db (List DeviceOwnerRow)
unfolding sort_bound_from
list_devices_by_user user_id db =
    let own = keep (λ o. o.user_id === user_id) db.owners in
    (take listed_devices (sort_bound_from [] own), db)
