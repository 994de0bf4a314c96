-- ===== src/Account/Ledger.antt =====
-- workers/pairfob-origin/src/account-store.ts: strikes and bans. `now - AUTH_LOCKOUT_MS` is the start
-- of the trailing hour; `at > start` is written without the subtraction.
use pairfob.Prelude.{
  ℕ, ◌+◌, ◌*◌, Bool, true, false, not, ◌&&◌, ◌||◌, List, [], ◌∷◌, ◌++◌, ◌==◌, ltb, if◌then◌else◌,
  keep, count, max,
}
use pairfob.Task.{Task}
use pairfob.Account.{Db, Subject, FailureRow, LockRow, same_subject}

abbrev pub auth_lockout_strikes : ℕ
auth_lockout_strikes = 3

abbrev pub login_lockout_strikes : ℕ
login_lockout_strikes = 5

abbrev pub invite_global_strikes : ℕ
invite_global_strikes = 20

abbrev pub auth_lockout_ms : ℕ
auth_lockout_ms = 60 * 60 * 1000

-- subject = ? AND at > now - AUTH_LOCKOUT_MS
abbrev pub is_strike : Subject → (now : ℕ) → FailureRow → Bool
is_strike subject now f = same_subject f.subject subject && ltb now (f.at + auth_lockout_ms)

pub record FailureReservation : Type 0 where
  pub granted : Bool
  pub strikes : ℕ
  pub id : ℕ

abbrev pub prune_failures : (now : ℕ) → List FailureRow → List FailureRow
prune_failures now = keep (λ f. ltb now (f.at + auth_lockout_ms))

unfoldable pub reserve_failure_budget : Subject → (now limit : ℕ) → Task Db FailureReservation
unfolding same_subject
reserve_failure_budget subject now limit db =
    let pruned = prune_failures now db.failures in
    let row : FailureRow = record { id = db.next_failure; subject = subject; at = now } in
    if ltb (count (is_strike subject now) pruned) limit
    then (
      record {
        granted = true;
        strikes = count (is_strike subject now) (pruned ++ row ∷ []);
        id = db.next_failure;
      },
      record db { failures = pruned ++ row ∷ []; next_failure = db.next_failure + 1 },
    )
    else (record { granted = false; strikes = limit; id = 0 }, record db { failures = pruned })

unfoldable pub release_failure_budget : FailureReservation → Task Db (Unit {0})
release_failure_budget reservation db =
    if not reservation.granted || reservation.id == 0
    then (tt, db)
    else (tt, record db { failures = keep (λ f. not (f.id == reservation.id)) db.failures })

abbrev until_of : Subject → (now : ℕ) → List LockRow → ℕ
until_of subject now [] = 0
until_of subject now (l ∷ ls) =
    if same_subject l.subject subject && ltb now l.until then l.until else until_of subject now ls

unfoldable pub locked_until : Subject → (now : ℕ) → Task Db ℕ
unfolding same_subject
locked_until subject now db = (until_of subject now db.locks, db)

-- ON CONFLICT(subject) DO UPDATE SET until = MAX(until, excluded.until)
abbrev pub upsert_lock : Subject → ℕ → List LockRow → List LockRow
upsert_lock subject until [] = record { subject = subject; until = until } ∷ []
upsert_lock subject until (l ∷ ls) =
    if same_subject l.subject subject
    then record l { until = max l.until until } ∷ ls
    else l ∷ upsert_lock subject until ls

unfoldable pub lock_subject : Subject → (now : ℕ) → Task Db ℕ
unfolding same_subject
lock_subject subject now db =
    let until = now + auth_lockout_ms in
    let live = keep (λ (l : LockRow). ltb now l.until) db.locks in
    (until, record db { locks = upsert_lock subject until live })

unfoldable pub clear_auth_domain : Subject → Task Db (Unit {0})
unfolding same_subject
clear_auth_domain subject db = (
  tt,
  record db {
    failures = keep (λ f. not (same_subject f.subject subject)) db.failures;
    locks = keep (λ l. not (same_subject l.subject subject)) db.locks;
  },
)

unfoldable pub spend_failure_budget : Subject → (now : ℕ) → Task Db ℕ
unfolding same_subject
spend_failure_budget subject now db =
    let row : FailureRow = record { id = db.next_failure; subject = subject; at = now } in
    let rows = prune_failures now (db.failures ++ row ∷ []) in
    (
      count (is_strike subject now) rows,
      record db { failures = rows; next_failure = db.next_failure + 1 },
    )

unfoldable pub count_failures : Subject → (now : ℕ) → Task Db ℕ
unfolding same_subject
count_failures subject now db = (count (is_strike subject now) db.failures, db)
