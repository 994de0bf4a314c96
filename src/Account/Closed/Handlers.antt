-- ===== src/Account/Closed/Handlers.antt =====
-- Every handler keeps what every statement keeps.
use pairfob.Prelude.{ℕ, ◌+◌, String, Option, none, some}
use pairfob.Task.Keeps.{Keeps, keeps_rules}
use pairfob.Account.{Db, Env, Request, UserRow}
use pairfob.Account.Auth.{resolve_identity, issue_session, random_hex}
use pairfob.Account.Ledger.{FailureReservation, reserve_failure_budget, login_lockout_strikes}
use pairfob.Account.Login.{
  sign_in, check_password, wrong_password, right_password, attempt_login, login, logout,
  account_state, login_subject,
}
use pairfob.Account.Closed.{IsClosed, read_rules}

module _ {P : Db → Type 0} {Free : String → Type 0} {Confirmed : String → String → Type 0}
    (closed : IsClosed P Free Confirmed) (env : Env)
    (others : (db : Db) → P db → P (env.others db)) where
  pub Keeps-random_hex : (size : ℕ) → Keeps P (random_hex env size)
  unfolding random_hex
  Keeps-random_hex size = record { at = λ db h. closed.draw (db.draw + 1) db h }

  Keeps-issue_session : (user_id : String) (now : ℕ) → Keeps P (issue_session env user_id now)
  unfolding issue_session
  Keeps-issue_session user_id now = search (keeps_rules, Keeps-random_hex, closed.session, others)

  pub Keeps-resolve_identity :
      (token : Option String) (now : ℕ) → Keeps P (resolve_identity env token now)
  unfolding resolve_identity
  Keeps-resolve_identity none now = search keeps_rules
  Keeps-resolve_identity (some token) now =
      search (keeps_rules, read_rules, closed.end_session, others) depth 20

  pub Keeps-sign_in : (user : UserRow) (now : ℕ) → Keeps P (sign_in env user now)
  unfolding sign_in
  Keeps-sign_in user now = search (keeps_rules, Keeps-issue_session)

  Keeps-wrong_password :
      (req : Request) (r : FailureReservation) → Keeps P (wrong_password env req r)
  unfolding wrong_password
  Keeps-wrong_password req r = search (keeps_rules, closed.lock, others)

  Keeps-right_password :
      (req : Request) (r : FailureReservation) (user : UserRow)
      → Keeps P (right_password env req r user)
  unfolding right_password
  Keeps-right_password req r user =
      search (keeps_rules, closed.release, closed.clear, Keeps-sign_in, others)

  Keeps-check_password :
      (req : Request) (password : String) (r : FailureReservation) (user : Option UserRow)
      → Keeps P (check_password env req password r user)
  Keeps-check_password req password r user =
      search (keeps_rules, Keeps-wrong_password, Keeps-right_password, others) depth 20

  Keeps-reserve_login :
      (req : Request)
      → Keeps P (reserve_failure_budget (login_subject env req) req.now login_lockout_strikes)
  Keeps-reserve_login req = closed.reserve (login_subject env req) req.now

  Keeps-attempt_login :
      (req : Request) (username password : String)
      → Keeps P (attempt_login env req username password)
  unfolding attempt_login
  Keeps-attempt_login req username password =
      search (keeps_rules, read_rules, Keeps-reserve_login, Keeps-check_password, others) depth 20

  pub Keeps-login : (req : Request) → Keeps P (login env req)
  unfolding login
  Keeps-login req = search (keeps_rules, Keeps-attempt_login)

  pub Keeps-logout : (req : Request) → Keeps P (logout env req)
  unfolding logout
  Keeps-logout req =
      search (keeps_rules, Keeps-resolve_identity, closed.end_session, others) depth 20

  pub Keeps-account_state : (req : Request) → Keeps P (account_state env req)
  unfolding account_state
  Keeps-account_state req = search (keeps_rules, Keeps-resolve_identity, read_rules, others)
