-- ===== src/Account/Closed/WrongCode.antt =====
-- A registration that does not give the live invite code adds no account.
use pairfob.Prelude.{
  ℕ, ◌≡◌, refl, subst, sym, String, Bool, true, false, not, ◌&&◌, ◌==◌, Option, none, some, List,
  arith, maybe, maybe_rule, option_rule, if_rule, ◌∙◌,
}
use pairfob.Room.Enrollment.{timing_safe_equal}
use pairfob.Task.{Task, await, ◌>>=◌}
use pairfob.Task.Keeps.{Keeps, Keeps-pure, Keeps-bind_result, Keeps-await, keeps_rules}
use pairfob.Account.{Db, Env, Request, Reply, Subject, UserRow, InviteRow, FailureRow, LockRow}
use pairfob.Account
use pairfob.Account.Auth.{text_value, normalize_invite_code, normalize_username, normalize_password}
use pairfob.Account.Users.{get_invite, suspend_invite}
use pairfob.Account.Ledger.{
  FailureReservation, lock_subject, release_failure_budget, reserve_failure_budget,
}
use pairfob.Account.Register.{
  Form, form_of, give_back, refund, suspend_spent, right_invite, wrong_invite, is_suspended,
  try_invite, attempt_register, register,
}
use pairfob.Account.Closed.{Keeps-locked_until, Keeps-get_invite}
use pairfob.Account.Closed.Frames.{reserve_kept, release_kept, lock_kept}

-- The code is the stored one, and not suspended.
abbrev pub opens : Env → (code : String) → Option InviteRow → Bool
opens env code none = false
opens env code (some row) = not (is_suspended row) && timing_safe_equal env.utf8 code row.code

abbrev pub code_or_none : Option String → String
code_or_none none = ""
code_or_none (some code) = code

-- The code that a body gives.
abbrev pub given_code : Request → String
given_code req = code_or_none (normalize_invite_code (text_value "invite_code" req.body))

-- A form holds the code of its body.
form_of-given :
    (env : Env) (req : Request) (form : Form)
    → form_of env req ≡ some form
    → form.invite ≡ given_code req
unfolding form_of
form_of-given env req form =
    let Gives = λ (o : Option Form). o ≡ some form → form.invite ≡ given_code req in
    option_rule Gives (normalize_username (text_value "username" req.body)) _ _
      (λ _ e. absurd (ground arith))
      (λ username _.
        option_rule Gives (normalize_password env (text_value "password" req.body)) _ _
          (λ _ e. absurd (ground arith))
          (λ password _.
            option_rule Gives (normalize_invite_code (text_value "invite_code" req.body)) _ _
              (λ _ e. absurd (ground arith))
              (λ code found e.
                subst (λ o. form.invite ≡ code_or_none o) (sym found) (ground arith))))

module _ (env : Env) (users : List UserRow) (code : String) where
  -- These accounts, and an invite code that is not this one.
  pub record IsShut (db : Db) : Type 0 where
    pub same : db.users ≡ users
    pub shut : opens env code db.invite ≡ false

  failures_kept :
      (rows : List FailureRow) (n : ℕ) (db : Db)
      → IsShut db
      → IsShut (record db { failures = rows; next_failure = n })
  failures_kept rows n db h = record { same = h.same; shut = h.shut }

  locks_kept : (rows : List LockRow) (db : Db) → IsShut db → IsShut (record db { locks = rows })
  locks_kept rows db h = record { same = h.same; shut = h.shut }

  shut_kept :
      (now version : ℕ) (row : InviteRow)
      → opens env code (some row) ≡ false
      → (row.suspended_at == 0 && row.version == version) ≡ true
      → opens env code (some (record row { suspended_at = now })) ≡ false
  shut_kept now version row h e = ground arith

  suspend-IsShut : (now version : ℕ) → Keeps IsShut (suspend_invite now version)
  unfolding suspend_invite
  suspend-IsShut now version = record {
    at = λ db h.
        maybe_rule (λ (m : Bool × Db). IsShut m.1) db.invite _ _ h
          (λ row e.
            if_rule (λ (m : Bool × Db). IsShut m.1)
              (row.suspended_at == 0 && row.version == version) _ _
              (λ live. record {
                same = h.same;
                shut =
                    shut_kept now version row (subst (λ o. opens env code o ≡ false) e h.shut) live;
              })
              (λ _. h));
  }

  lock-IsShut : (s : Subject) (now : ℕ) → Keeps IsShut (lock_subject s now)
  lock-IsShut = lock_kept locks_kept

  release-IsShut : (r : FailureReservation) → Keeps IsShut (release_failure_budget r)
  release-IsShut = release_kept failures_kept locks_kept

  reserve-IsShut : (s : Subject) (now limit : ℕ) → Keeps IsShut (reserve_failure_budget s now limit)
  reserve-IsShut = reserve_kept failures_kept locks_kept

  module _ (others : (db : Db) → IsShut db → IsShut (env.others db)) where
    wrong-IsShut :
        (req : Request) (own global : FailureReservation) (row : InviteRow)
        → Keeps IsShut (wrong_invite env req own global row)
    unfolding wrong_invite suspend_spent
    wrong-IsShut req own global row =
        search (keeps_rules, suspend-IsShut, lock-IsShut, others) depth 20

    refund-IsShut : (own global : FailureReservation) → Keeps IsShut (refund env own global)
    unfolding refund
    refund-IsShut own global = search (keeps_rules, release-IsShut, others) depth 20

    give-IsShut : (own : FailureReservation) (a : Reply) → Keeps IsShut (give_back env own a)
    give-IsShut own a = search (keeps_rules, release-IsShut, others) depth 20

    -- The right code does not come here.
    right-IsShut :
        (req : Request) (form : Form) (own global : FailureReservation) (row : InviteRow)
        → form.invite ≡ code
        → opens env code (some row) ≡ false
        → is_suspended row ≡ false
        → timing_safe_equal env.utf8 form.invite row.code ≡ true
        → Keeps IsShut (right_invite env req form own global)
    right-IsShut req form own global row e shut live same =
        let same' = subst (λ c. timing_safe_equal env.utf8 c row.code ≡ true) e same in
        absurd (ground arith)

    try-IsShut :
        (req : Request) (form : Form) (own : FailureReservation) (row : InviteRow)
        → form.invite ≡ code
        → opens env code (some row) ≡ false
        → Keeps IsShut (try_invite env req form own row)
    unfolding try_invite
    try-IsShut req form own row e shut =
        let right = λ (global : FailureReservation). right-IsShut req form own global row e shut in
        search
          (keeps_rules, reserve-IsShut, refund-IsShut, give-IsShut, right, wrong-IsShut, others)
          depth 20

    found-IsShut :
        (req : Request) (form : Form) (own : FailureReservation) (current : Option InviteRow)
        → form.invite ≡ code
        → opens env code current ≡ false
        → Keeps IsShut (
            maybe current
              (give_back env own Account.not_initialized)
              λ row. try_invite env req form own row)
    found-IsShut req form own none e shut = give-IsShut own _
    found-IsShut req form own (some row) e shut = try-IsShut req form own row e shut

    read-IsShut :
        (f : Option InviteRow → Task Db Reply)
        → ((current : Option InviteRow) → opens env code current ≡ false → Keeps IsShut (f current))
        → Keeps IsShut (await env.others get_invite >>= f)
    unfolding await get_invite
    read-IsShut f kept =
        Keeps-bind_result _ f (Keeps-await env.others _ Keeps-get_invite others)
          (λ db h. kept db.invite h.shut)

    attempt-IsShut :
        (req : Request) (form : Form)
        → form.invite ≡ code
        → Keeps IsShut (attempt_register env req form)
    unfolding attempt_register
    attempt-IsShut req form e =
        let found =
          λ (own : FailureReservation) (current : Option InviteRow)
              (shut : opens env code current ≡ false).
            found-IsShut req form own current e shut in
        search (keeps_rules, Keeps-locked_until, reserve-IsShut, read-IsShut, found, others) depth
          20

    register-IsShut : (req : Request) → given_code req ≡ code → Keeps IsShut (register env req)
    unfolding register
    register-IsShut req e =
        maybe_rule (Keeps IsShut) (form_of env req) _ _ (Keeps-pure Account.bad_token)
          (λ form formed. attempt-IsShut req form (form_of-given env req form formed ∙ e))

-- A registration whose body does not give the stored invite code, or comes while that code is
-- suspended or before there is one, adds no account, provided that what runs at its awaits neither
-- adds one nor makes the given code the live one.
pub wrong_code_adds_nobody :
    (env : Env) (req : Request) (db : Db)
    → ((s : Db)
        → IsShut env db.users (given_code req) s
        → IsShut env db.users (given_code req) (env.others s))
    → opens env (given_code req) db.invite ≡ false
    → (register env req db).1.users ≡ db.users
wrong_code_adds_nobody env req db others shut =
    ((register-IsShut env db.users (given_code req) others req refl).at db
      (record { same = refl; shut = shut })).same
