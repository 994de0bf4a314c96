-- ===== src/Account/Login.antt =====
-- workers/pairfob-origin/src/account.ts: signing in and out. The awaits before the first statement
-- read the request and hash its address, and touch no table.
use pairfob.Prelude.{
  ℕ, ◌-◌, String, true, not, Option, none, some, ◌===◌, leb, ltb, if◌then◌else◌, maybe,
}
use pairfob.Text.{trim}
use pairfob.Task.{Task, pure, await, ◌>>=◌, ◌>>◌}
use pairfob.Account.{Db, Env, Request, Reply, UserRow, Subject, source}
use pairfob.Account
use pairfob.Account.Auth.{text_value, normalize_username, resolve_identity, issue_session}
use pairfob.Account.Users.{get_user_by_name, delete_session, count_users}
use pairfob.Account.Ledger.{
  FailureReservation, login_lockout_strikes, locked_until, reserve_failure_budget,
  release_failure_budget, lock_subject, clear_auth_domain,
}

abbrev pub login_subject : Env → Request → Subject
login_subject env req = source Account.login (env.hash_ip req.ip)

-- signedIn; an account whose session could not be stored is answered with an error.
unfoldable pub sign_in : Env → UserRow → (now : ℕ) → Task Db Reply
unfolding issue_session ◌>>=◌
sign_in env user now = do
  stored ← issue_session env user.user_id now
  pure (if stored then Account.signed_in user.user_id else Account.internal)

unfoldable pub wrong_password : Env → Request → FailureReservation → Task Db Reply
unfolding lock_subject ◌>>=◌
wrong_password env req reserved =
    let answer = Account.bad_credentials (login_lockout_strikes - reserved.strikes) in
    if leb login_lockout_strikes reserved.strikes
    then (do await env.others (lock_subject (login_subject env req) req.now); pure answer)
    else pure answer

unfoldable pub right_password : Env → Request → FailureReservation → UserRow → Task Db Reply
unfolding release_failure_budget clear_auth_domain sign_in ◌>>=◌
right_password env req reserved user = do
  await env.others (release_failure_budget reserved)
  await env.others (clear_auth_domain (login_subject env req))
  sign_in env user req.now

abbrev pub stored_hash : Env → Option UserRow → String
stored_hash env none = env.decoy_hash
stored_hash env (some user) = user.password_hash

abbrev pub check_password :
    Env → Request → (password : String) → FailureReservation → Option UserRow → Task Db Reply
check_password env req password reserved user = do
  ok ← await env.others (pure (env.verify_password (stored_hash env user) password))
  maybe user (wrong_password env req reserved)
      λ u. if ok then right_password env req reserved u else wrong_password env req reserved

unfoldable pub attempt_login : Env → Request → (username password : String) → Task Db Reply
unfolding locked_until reserve_failure_budget get_user_by_name wrong_password right_password ◌>>=◌
attempt_login env req username password = do
  until ← await env.others (locked_until (login_subject env req) req.now)
  if ltb 0 until then pure Account.locked_out else do
    reserved ←
        await env.others
          (reserve_failure_budget (login_subject env req) req.now login_lockout_strikes)
    if not reserved.granted then pure Account.locked_out else do
      user ← await env.others (get_user_by_name username)
      check_password env req password reserved user

-- typeof body?.password === "string" ? body.password.trim() : ""
abbrev pub raw_password : Request → String
raw_password req = elim (text_value "password" req.body) [ none ↦ "" | some s ↦ trim s ]

unfoldable pub login : Env → Request → Task Db Reply
unfolding normalize_username attempt_login
login env req =
    let password = raw_password req in
    maybe (normalize_username (text_value "username" req.body)) (pure Account.bad_token) λ username.
      if password === "" then pure Account.bad_token else attempt_login env req username password

unfoldable pub logout : Env → Request → Task Db Reply
unfolding resolve_identity delete_session ◌>>=◌
logout env req = do
  identity ← resolve_identity env req.token req.now
  maybe identity (pure Account.signed_out)
      λ who. do await env.others (delete_session who.token_hash); pure Account.signed_out

abbrev pub anonymous_state : Env → Task Db Reply
anonymous_state env = do n ← await env.others count_users; pure (Account.state (ltb 0 n) none)

unfoldable pub account_state : Env → Request → Task Db Reply
unfolding resolve_identity count_users ◌>>=◌
account_state env req = do
  identity ← resolve_identity env req.token req.now
  maybe identity (anonymous_state env) λ who. pure (Account.state true (some who.user))
