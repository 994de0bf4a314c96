-- ===== src/Account/Register.antt =====
-- workers/pairfob-origin/src/account.ts: registering with an invite code.
use pairfob.Prelude.{String, Bool, not, Option, none, some, leb, ltb, if◌then◌else◌, maybe}
use pairfob.Room.Enrollment.{timing_safe_equal}
use pairfob.Task.{Task, pure, await, ◌>>=◌, ◌>>◌}
use pairfob.Account.{Db, Env, Request, Reply, InviteRow, Subject, source, invite_global}
use pairfob.Account
use pairfob.Account.Auth.{
  text_value, normalize_username, normalize_password, normalize_invite_code, new_user_id,
}
use pairfob.Account.Users.{get_invite, insert_user, suspend_invite}
use pairfob.Account.Ledger.{
  FailureReservation, auth_lockout_strikes, invite_global_strikes, locked_until,
  reserve_failure_budget, release_failure_budget, lock_subject, clear_auth_domain,
}
use pairfob.Account.Login.{sign_in}
use pairfob.Account.Bootstrap.{hash_password, new_user}

abbrev pub invite_subject : Env → Request → Subject
invite_subject env req = source Account.invite (env.hash_ip req.ip)

-- What a well-formed body asks for.
pub record Form : Type 0 where
  pub username : String
  pub password : String
  pub invite : String

unfoldable pub form_of : Env → Request → Option Form
unfolding normalize_username normalize_password normalize_invite_code
form_of env req = elim (normalize_username (text_value "username" req.body)) [
  | none ↦ none
  | some username ↦ elim (normalize_password env (text_value "password" req.body)) [
    | none ↦ none
    | some password ↦ elim (normalize_invite_code (text_value "invite_code" req.body)) [
      | none ↦ none
      | some code ↦ some (record { username = username; password = password; invite = code })
    ]
  ]
]

abbrev pub give_back : Env → FailureReservation → Reply → Task Db Reply
give_back env own answer = do await env.others (release_failure_budget own); pure answer

unfoldable pub refund : Env → (own global : FailureReservation) → Task Db (Unit {0})
unfolding release_failure_budget ◌>>=◌
refund env own global = do
  await env.others (release_failure_budget own)
  await env.others (release_failure_budget global)

unfoldable pub suspend_spent : Env → Request → FailureReservation → InviteRow → Task Db (Unit {0})
unfolding suspend_invite ◌>>=◌
suspend_spent env req global current =
    if leb invite_global_strikes global.strikes
    then (do await env.others (suspend_invite req.now current.version); pure tt)
    else pure tt

unfoldable pub wrong_invite :
    Env → Request → (own global : FailureReservation) → InviteRow → Task Db Reply
unfolding suspend_spent lock_subject ◌>>=◌
wrong_invite env req own global current = do
  suspend_spent env req global current
  if leb auth_lockout_strikes own.strikes
      then (do
        await env.others (lock_subject (invite_subject env req) req.now)
        pure Account.locked_out)
      else pure Account.bad_invite

unfoldable pub right_invite :
    Env → Request → Form → (own global : FailureReservation) → Task Db Reply
unfolding refund new_user_id hash_password insert_user clear_auth_domain sign_in ◌>>=◌
right_invite env req form own global = do
  refund env own global
  user_id ← new_user_id env
  hash ← await env.others (hash_password env form.password)
  let user = new_user user_id form.username hash "member" req.now
  inserted ← await env.others (insert_user user)
  if not inserted then pure Account.username_taken else do
    await env.others (clear_auth_domain (invite_subject env req))
    sign_in env user req.now

abbrev pub is_suspended : InviteRow → Bool
is_suspended current = ltb 0 current.suspended_at

unfoldable pub try_invite : Env → Request → Form → FailureReservation → InviteRow → Task Db Reply
unfolding reserve_failure_budget release_failure_budget refund timing_safe_equal wrong_invite
    right_invite ◌>>=◌
try_invite env req form own current = do
  global ←
      await env.others
        (reserve_failure_budget (invite_global current.version) req.now invite_global_strikes)
  if not global.granted
      then give_back env own Account.invite_suspended
      else if is_suspended current
      then (do refund env own global; pure Account.invite_suspended)
      else if timing_safe_equal env.utf8 form.invite current.code
      then right_invite env req form own global
      else wrong_invite env req own global current

unfoldable pub attempt_register : Env → Request → Form → Task Db Reply
unfolding locked_until reserve_failure_budget get_invite release_failure_budget try_invite ◌>>=◌
attempt_register env req form = do
  until ← await env.others (locked_until (invite_subject env req) req.now)
  if ltb 0 until then pure Account.locked_out else do
    own ←
        await env.others
          (reserve_failure_budget (invite_subject env req) req.now auth_lockout_strikes)
    if not own.granted then pure Account.locked_out else do
      current ← await env.others get_invite
      maybe current (give_back env own Account.not_initialized)
          λ row. try_invite env req form own row

unfoldable pub register : Env → Request → Task Db Reply
unfolding form_of attempt_register
register env req =
    maybe (form_of env req) (pure Account.bad_token) λ form. attempt_register env req form
