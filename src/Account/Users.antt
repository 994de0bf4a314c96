-- ===== src/Account/Users.antt =====
-- workers/pairfob-origin/src/account-store.ts: users, their sessions, and the invite code.
use pairfob.Prelude.{
  ℕ, ◌+◌, String, Bool, true, false, not, ◌&&◌, ◌||◌, Option, none, some, List, [], ◌∷◌, ◌++◌, ◌==◌,
  ◌===◌, ltb, if◌then◌else◌, maybe, keep, length,
}
use pairfob.Task.{Task}
use pairfob.Account.{Db, UserRow, SessionRow, InviteRow}

-- SELECT … WHERE …, first row
abbrev pub first {ℓ} : {A : Type ℓ} → (A → Bool) → List A → Option A
first p [] = none
first p (x ∷ xs) = if p x then some x else first p xs

unfoldable pub get_user_by_name : String → Task Db (Option UserRow)
get_user_by_name username db = (first (λ u. u.username === username) db.users, db)

unfoldable pub get_user_by_id : String → Task Db (Option UserRow)
get_user_by_id user_id db = (first (λ u. u.user_id === user_id) db.users, db)

unfoldable pub count_users : Task Db ℕ
count_users db = (length db.users, db)

unfoldable pub insert_first_user : UserRow → Task Db Bool
insert_first_user row db =
    if ltb 0 (length db.users)
    then (false, db)
    else (true, record db { users = db.users ++ row ∷ [] })

abbrev pub is_some {ℓ} : {A : Type ℓ} → Option A → Bool
is_some none = false
is_some (some _) = true

-- A name that is taken inserts nothing; a user id that is taken breaks the primary key.
unfoldable pub insert_user : UserRow → Task Db Bool
insert_user row db =
    if is_some (first (λ u. u.username === row.username || u.user_id === row.user_id) db.users)
    then (false, db)
    else (true, record db { users = db.users ++ row ∷ [] })

-- false where the token's digest is taken: the batch throws and is undone.
unfoldable pub create_session : SessionRow → Task Db Bool
create_session row db =
    if is_some (first (λ s. s.token_hash === row.token_hash) db.sessions) then (false, db) else (
      true,
      record db {
        sessions = keep (λ s. ltb row.created_at s.expires_at) (db.sessions ++ row ∷ []);
      },
    )

unfoldable pub get_live_session : String → (now : ℕ) → Task Db (Option SessionRow)
get_live_session token_hash now db =
    (first (λ s. s.token_hash === token_hash && ltb now s.expires_at) db.sessions, db)

unfoldable pub delete_session : String → Task Db (Unit {0})
delete_session token_hash db =
    (tt, record db { sessions = keep (λ s. not (s.token_hash === token_hash)) db.sessions })

unfoldable pub get_invite : Task Db (Option InviteRow)
get_invite db = (db.invite, db)

abbrev pub next_version : Option InviteRow → ℕ
next_version none = 1
next_version (some row) = row.version + 1

unfoldable pub put_invite : (code updated_by : String) → (now : ℕ) → Task Db (Unit {0})
put_invite code updated_by now db = (
  tt,
  record db {
    invite = some (record {
      code = code;
      updated_by = updated_by;
      updated_at = now;
      suspended_at = 0;
      version = next_version db.invite;
    });
  },
)

unfoldable pub suspend_invite : (now version : ℕ) → Task Db Bool
suspend_invite now version db =
    maybe db.invite (false, db)
      λ row.
        if row.suspended_at == 0 && row.version == version
        then (true, record db { invite = some (record row { suspended_at = now }) })
        else (false, db)
