-- ===== src/Account/Bootstrap.antt =====
-- workers/pairfob-origin/src/account.ts: the first account, and the invite code that it owns.
use pairfob.Prelude.{
  ℕ, ◌+◌, String, not, Option, none, some, [], ◌===◌, leb, ltb, if◌then◌else◌, maybe,
}
use pairfob.Room.Enrollment.{timing_safe_equal}
use pairfob.Task.{Task, pure, await, ◌>>=◌, ◌>>◌}
use pairfob.Account.{Db, Env, Request, Reply, UserRow, InviteRow, Subject, source}
use pairfob.Account
use pairfob.Account.Auth.{Identity, text_value, normalize_password, resolve_identity, new_user_id}
use pairfob.Account.Auth.Invite.{mint_from}
use pairfob.Account.Users.{count_users, insert_first_user, put_invite, get_invite}
use pairfob.Account.Ledger.{
  FailureReservation, auth_lockout_strikes, locked_until, reserve_failure_budget,
  release_failure_budget, lock_subject, clear_auth_domain,
}
use pairfob.Account.Login.{sign_in}

abbrev pub bootstrap_subject : Env → Request → Subject
bootstrap_subject env req = source Account.bootstrap (env.hash_ip req.ip)

unfoldable pub mint_invite_code : Env → Task Db (Option String)
unfolding mint_from
mint_invite_code env db =
    maybe (mint_from env.random_bytes env.rounds db.draw []) (none, db)
      λ minted. (some minted.0, record db { draw = minted.1 })

-- hashPassword, with its salt from the entropy source
unfoldable pub hash_password : Env → String → Task Db String
hash_password env password db =
    (env.hash_password db.draw password, record db { draw = db.draw + 1 })

abbrev pub new_user : (user_id username password_hash role : String) → (now : ℕ) → UserRow
new_user user_id username password_hash role now = record {
  user_id = user_id;
  username = username;
  password_hash = password_hash;
  role = role;
  created_at = now;
}

unfoldable pub open_first : Env → Request → UserRow → Task Db Reply
unfolding mint_invite_code put_invite clear_auth_domain sign_in ◌>>=◌
open_first env req user = do
  minted ← mint_invite_code env
  maybe minted (pure Account.drawing) λ code. do
    await env.others (put_invite code user.user_id req.now)
    await env.others (clear_auth_domain (bootstrap_subject env req))
    sign_in env user req.now

unfoldable pub right_token :
    Env → Request → (password : String) → FailureReservation → Task Db Reply
unfolding release_failure_budget new_user_id hash_password insert_first_user open_first ◌>>=◌
right_token env req password reserved = do
  await env.others (release_failure_budget reserved)
  user_id ← new_user_id env
  hash ← await env.others (hash_password env password)
  let user = new_user user_id "admin" hash "admin" req.now
  first ← await env.others (insert_first_user user)
  if first then open_first env req user else pure Account.already_initialized

unfoldable pub wrong_token : Env → Request → FailureReservation → Task Db Reply
unfolding lock_subject ◌>>=◌
wrong_token env req reserved =
    if leb auth_lockout_strikes reserved.strikes
    then (do
      await env.others (lock_subject (bootstrap_subject env req) req.now)
      pure Account.bad_service_token)
    else pure Account.bad_service_token

unfoldable pub try_token : Env → Request → (password token : String) → Task Db Reply
unfolding locked_until reserve_failure_budget timing_safe_equal right_token wrong_token ◌>>=◌
try_token env req password token = do
  until ← await env.others (locked_until (bootstrap_subject env req) req.now)
  if ltb 0 until then pure Account.locked_out else do
    reserved ←
        await env.others
          (reserve_failure_budget (bootstrap_subject env req) req.now auth_lockout_strikes)
    if not reserved.granted
        then pure Account.locked_out
        else if timing_safe_equal env.utf8 token env.service_token
        then right_token env req password reserved
        else wrong_token env req reserved

abbrev pub service_token_of : Request → String
service_token_of req = elim (text_value "service_token" req.body) [ none ↦ "" | some s ↦ s ]

unfoldable pub bootstrap : Env → Request → Task Db Reply
unfolding count_users normalize_password try_token ◌>>=◌
bootstrap env req = if env.service_token === "" then pure Account.internal else do
  users ← await env.others count_users
  if ltb 0 users
      then pure Account.already_initialized
      else maybe (normalize_password env (text_value "password" req.body)) (pure Account.bad_token)
          λ password.
            if service_token_of req === ""
            then pure Account.bad_token
            else try_token env req password (service_token_of req)

-- requireAdmin
unfoldable pub require_admin : Env → Request → Task Db (Option Identity)
unfolding resolve_identity ◌>>=◌
require_admin env req = do
  identity ← resolve_identity env req.token req.now
  pure (elim identity [
    | none ↦ none
    | some who ↦ if who.user.role === "admin" then some who else none
  ])

abbrev pub invite_reply : Option InviteRow → Reply
invite_reply none = Account.not_initialized
invite_reply (some row) = Account.invite_code row.code row.updated_at

unfoldable pub read_invite : Env → Request → Task Db Reply
unfolding require_admin get_invite ◌>>=◌
read_invite env req = do
  admin ← require_admin env req
  maybe admin (pure Account.forbidden)
      λ _. do row ← await env.others get_invite; pure (invite_reply row)

-- row?.version ?? 0
abbrev pub live_version : Option InviteRow → ℕ
live_version none = 0
live_version (some row) = row.version

unfoldable pub rotate_invite : Env → Request → Task Db Reply
unfolding require_admin mint_invite_code put_invite get_invite ◌>>=◌
rotate_invite env req = do
  admin ← require_admin env req
  maybe admin (pure Account.forbidden) λ who. do
    minted ← mint_invite_code env
    maybe minted (pure Account.drawing) λ code. do
      await env.others (put_invite code who.user.user_id req.now)
      row ← await env.others get_invite
      pure (Account.rotated code req.now (live_version row))
