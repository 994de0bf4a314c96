-- ===== src/Account/Closed/Opening.antt =====
-- Opening an account keeps what every statement keeps.
use pairfob.Prelude.{ℕ, ◌+◌, refl, String, Option, [], maybe_rule}
use pairfob.Task.Keeps.{Keeps, keeps_rules}
use pairfob.Account.{Db, Env, Request, UserRow, InviteRow, invite_global}
use pairfob.Account.Auth.{new_user_id}
use pairfob.Account.Auth.Invite.{mint_from}
use pairfob.Account.Users.{insert_user}
use pairfob.Account.Ledger.{
  FailureReservation, auth_lockout_strikes, invite_global_strikes, reserve_failure_budget,
}
use pairfob.Account.Bootstrap.{
  mint_invite_code, hash_password, new_user, open_first, right_token, wrong_token, try_token,
  bootstrap, bootstrap_subject, require_admin, read_invite, rotate_invite,
}
use pairfob.Account.Register.{
  Form, refund, suspend_spent, wrong_invite, right_invite, try_invite, attempt_register, register,
  invite_subject,
}
use pairfob.Account.Closed.{IsClosed, read_rules}
use pairfob.Account.Closed.Handlers.{Keeps-random_hex, Keeps-resolve_identity, Keeps-sign_in}

module _ {P : Db → Type 0} {Free : String → Type 0} {Confirmed : String → String → Type 0}
    (closed : IsClosed P Free Confirmed) (env : Env)
    (others : (db : Db) → P db → P (env.others db)) where
  Keeps-mint_invite_code : Keeps P (mint_invite_code env)
  unfolding mint_invite_code
  Keeps-mint_invite_code = record {
    at = λ db h.
        maybe_rule (λ (m : Option String × Db). P m.1)
          (mint_from env.random_bytes env.rounds db.draw []) _ _ h
          (λ minted _. closed.draw minted.1 db h);
  }

  Keeps-hash_password : (password : String) → Keeps P (hash_password env password)
  unfolding hash_password
  Keeps-hash_password password = record { at = λ db h. closed.draw (db.draw + 1) db h }

  Keeps-new_user_id : Keeps P (new_user_id env)
  unfolding new_user_id
  Keeps-new_user_id = search (keeps_rules, Keeps-random_hex closed env others)

  Keeps-open_first : (req : Request) (user : UserRow) → Keeps P (open_first env req user)
  unfolding open_first
  Keeps-open_first req user =
      search
        (
          keeps_rules,
          Keeps-mint_invite_code,
          closed.put,
          closed.clear,
          Keeps-sign_in closed env others,
          others,
        )
        depth 20

  Keeps-right_token :
      (req : Request) (password : String) (r : FailureReservation)
      → Keeps P (right_token env req password r)
  unfolding right_token
  Keeps-right_token req password r =
      search
        (
          keeps_rules, closed.release, Keeps-new_user_id, Keeps-hash_password, closed.first_user,
          Keeps-open_first, others,
        )
        depth 20

  Keeps-wrong_token : (req : Request) (r : FailureReservation) → Keeps P (wrong_token env req r)
  unfolding wrong_token
  Keeps-wrong_token req r = search (keeps_rules, closed.lock, others) depth 20

  Keeps-reserve_bootstrap :
      (req : Request)
      → Keeps P (reserve_failure_budget (bootstrap_subject env req) req.now auth_lockout_strikes)
  Keeps-reserve_bootstrap req = closed.reserve (bootstrap_subject env req) req.now

  Keeps-try_token :
      (req : Request) (password token : String) → Keeps P (try_token env req password token)
  unfolding try_token
  Keeps-try_token req password token =
      search
        (
          keeps_rules, read_rules, Keeps-reserve_bootstrap, Keeps-right_token, Keeps-wrong_token,
          others,
        )
        depth 20

  pub Keeps-bootstrap : (req : Request) → Keeps P (bootstrap env req)
  unfolding bootstrap
  Keeps-bootstrap req = search (keeps_rules, read_rules, Keeps-try_token, others) depth 20

  Keeps-require_admin : (req : Request) → Keeps P (require_admin env req)
  unfolding require_admin
  Keeps-require_admin req = search (keeps_rules, Keeps-resolve_identity closed env others)

  pub Keeps-read_invite : (req : Request) → Keeps P (read_invite env req)
  unfolding read_invite
  Keeps-read_invite req = search (keeps_rules, read_rules, Keeps-require_admin, others) depth 20

  pub Keeps-rotate_invite : (req : Request) → Keeps P (rotate_invite env req)
  unfolding rotate_invite
  Keeps-rotate_invite req =
      search (keeps_rules, Keeps-require_admin, Keeps-mint_invite_code, closed.put, others) depth 20

  Keeps-refund : (own global : FailureReservation) → Keeps P (refund env own global)
  unfolding refund
  Keeps-refund own global = search (keeps_rules, closed.release, others)

  Keeps-suspend_spent :
      (req : Request) (global : FailureReservation) (current : InviteRow)
      → Keeps P (suspend_spent env req global current)
  unfolding suspend_spent
  Keeps-suspend_spent req global current = search (keeps_rules, closed.suspend, others) depth 20

  Keeps-wrong_invite :
      (req : Request) (own global : FailureReservation) (current : InviteRow)
      → Keeps P (wrong_invite env req own global current)
  unfolding wrong_invite
  Keeps-wrong_invite req own global current =
      search (keeps_rules, Keeps-suspend_spent, closed.lock, others) depth 20

  Keeps-insert_member :
      (user_id username hash : String) (now : ℕ)
      → Keeps P (insert_user (new_user user_id username hash "member" now))
  Keeps-insert_member user_id username hash now =
      closed.user (new_user user_id username hash "member" now) refl

  Keeps-right_invite :
      (req : Request) (form : Form) (own global : FailureReservation)
      → Keeps P (right_invite env req form own global)
  unfolding right_invite
  Keeps-right_invite req form own global =
      search
        (
          keeps_rules,
          Keeps-refund,
          Keeps-new_user_id,
          Keeps-hash_password,
          Keeps-insert_member,
          closed.clear,
          Keeps-sign_in closed env others,
          others,
        )
        depth 20

  Keeps-reserve_global :
      (version now : ℕ)
      → Keeps P (reserve_failure_budget (invite_global version) now invite_global_strikes)
  Keeps-reserve_global version now = closed.reserve (invite_global version) now

  Keeps-try_invite :
      (req : Request) (form : Form) (own : FailureReservation) (current : InviteRow)
      → Keeps P (try_invite env req form own current)
  unfolding try_invite
  Keeps-try_invite req form own current =
      search
        (
          keeps_rules, Keeps-reserve_global, closed.release, Keeps-refund, Keeps-wrong_invite,
          Keeps-right_invite, others,
        )
        depth 20

  Keeps-reserve_invite :
      (req : Request)
      → Keeps P (reserve_failure_budget (invite_subject env req) req.now auth_lockout_strikes)
  Keeps-reserve_invite req = closed.reserve (invite_subject env req) req.now

  Keeps-attempt_register : (req : Request) (form : Form) → Keeps P (attempt_register env req form)
  unfolding attempt_register
  Keeps-attempt_register req form =
      search
        (keeps_rules, read_rules, Keeps-reserve_invite, closed.release, Keeps-try_invite, others)
        depth 20

  pub Keeps-register : (req : Request) → Keeps P (register env req)
  unfolding register
  Keeps-register req = search (keeps_rules, Keeps-attempt_register)
