-- ===== src/Account/Closed/Budget.antt =====
-- A subject never has more strikes in an hour than its budget.
use pairfob.Prelude.{
  subst, ℕ, ◌+◌, ◌≤◌, ◌<◌, ◌≡◌, ap, Bool, true, not, ◌&&◌, ◌==◌, List, [], ◌∷◌, ◌++◌, arith, count,
  ltb, leb, count-append, count-keep-le, count_mono, eq_iff, Bool-cases, inl, inr,
}
use pairfob.Task.Keeps.{Keeps}
use pairfob.Account.{
  Db, Env, Subject, source, invite_global, invite, login, bootstrap, FailureRow, same_subject,
  empty_db,
}
use pairfob.Account.Ledger.{
  FailureReservation, is_strike, prune_failures, auth_lockout_ms, reserve_failure_budget,
  release_failure_budget, clear_auth_domain,
}
use pairfob.Account.System.{Event, run, nested}
use pairfob.Account.Closed.{IsClosed, limit_of}
use pairfob.Account.Closed.Frames.{
  first_user_kept, user_kept, proof_kept, ready_kept, consume_kept, spend_kept, bind_kept,
  unbind_kept,
}
use pairfob.Account.Closed.Rest.{IsStable, Rest-closed}
use pairfob.Account.Closed.Runs.{Any1, Any2, All-Allowed, nested-closed}

-- A strike of the subject after `start` and within an hour of it.
abbrev pub in_hour : Subject → (start : ℕ) → FailureRow → Bool
in_hour s start f =
    same_subject f.subject s && (ltb start f.at && leb f.at (start + auth_lockout_ms))

abbrev pub WithinBudget : Db → Type 0
WithinBudget db = (s : Subject) (start : ℕ) → count (in_hour s start) db.failures ≤ limit_of s

same_subject_eq : (s t : Subject) → same_subject s t ≡ true → s ≡ t
unfolding same_subject
same_subject_eq (source invite a) (source invite b) h = ap (source invite) ((eq_iff a b).0 h)
same_subject_eq (source login a) (source login b) h = ap (source login) ((eq_iff a b).0 h)
same_subject_eq (source bootstrap a) (source bootstrap b) h =
    ap (source bootstrap) ((eq_iff a b).0 h)
same_subject_eq (invite_global v) (invite_global w) h = ground arith
same_subject_eq _ _ h = absurd (ground arith)

-- While fewer strikes than the budget are in the trailing hour, one more fits in every hour.
one_more :
    (s t : Subject) (now start id : ℕ) (rows : List FailureRow)
    → count (in_hour t start) rows ≤ limit_of t
    → count (is_strike s now) rows < limit_of s
    → count (in_hour t start) (rows ++ record { id = id; subject = s; at = now } ∷ []) ≤ limit_of t
one_more s t now start id rows kept room =
    let row : FailureRow = record { id = id; subject = s; at = now } in
    elim (Bool-cases (in_hour t start row)) [
      | inl within ↦
          let same : s ≡ t = same_subject_eq s t (ground arith) in
          let fewer : count (in_hour t start) rows ≤ count (is_strike t now) rows =
            count_mono (in_hour t start) (is_strike t now) rows (λ f h. ground arith) in
          let room' : count (is_strike t now) rows < limit_of t =
            subst (λ u. count (is_strike u now) rows < limit_of u) same room in
          rw (count-append (in_hour t start) rows (row ∷ []), within) (omega arith)
      | inr outside ↦ rw (count-append (in_hour t start) rows (row ∷ []), outside) (omega arith)
    ]

reserve-WithinBudget :
    (s : Subject) (now : ℕ) → Keeps WithinBudget (reserve_failure_budget s now (limit_of s))
unfolding reserve_failure_budget
reserve-WithinBudget s now = record {
  at = λ db h t start.
      let pruned = prune_failures now db.failures in
      let kept : count (in_hour t start) pruned ≤ limit_of t = omega (
        arith,
        h t start,
        count-keep-le (in_hour t start) (λ f. ltb now (f.at + auth_lockout_ms)) db.failures,
      ) in
      ground (arith, one_more s t now start db.next_failure pruned kept);
}

release-WithinBudget : (r : FailureReservation) → Keeps WithinBudget (release_failure_budget r)
unfolding release_failure_budget
release-WithinBudget r = record {
  at = λ db h t start.
      ground
        (arith, h t start, count-keep-le (in_hour t start) (λ f. not (f.id == r.id)) db.failures);
}

clear-WithinBudget : (s : Subject) → Keeps WithinBudget (clear_auth_domain s)
unfolding clear_auth_domain
clear-WithinBudget s = record {
  at = λ db h t start. omega (
    arith,
    h t start,
    count-keep-le (in_hour t start) (λ f. not (same_subject f.subject s)) db.failures,
  );
}

stable : IsStable WithinBudget
stable = record {
  draw = λ n db h. h;
  sessions = λ rows db h. h;
  invite = λ row db h. h;
  locks = λ rows db h. h;
  vaults = λ rows db h. h;
  daemons = λ rows db h. h;
}

closed : IsClosed WithinBudget Any1 Any2
closed = Rest-closed (record {
  stable = stable;
  reserve = reserve-WithinBudget;
  release = release-WithinBudget;
  clear = clear-WithinBudget;
  first_user = first_user_kept (λ rows db h. h);
  user = λ row _. user_kept (λ rows db h. h) row;
  proof = proof_kept (λ rows db h. h);
  ready = λ u d r now _. ready_kept (λ rows db h. h) u d r now;
  spend = spend_kept (consume_kept (λ rows db h. h)) (bind_kept (λ rows db h. h));
  unbind = λ d u _. unbind_kept (λ rows db h. h) d u;
})

-- Whatever requests are made, and however they interleave at their awaits, every hour has at most as
-- many strikes of a source, and of a version of the invite code, as its budget.
pub budget_holds :
    (env : Env) (scheduler : Db → List Event) (depth : ℕ) (es : List Event) (s : Subject)
    (start : ℕ)
    → count (in_hour s start) (run (nested depth env scheduler) es empty_db).failures ≤ limit_of s
budget_holds env scheduler depth es =
    nested-closed closed env scheduler (λ db. All-Allowed env.decode_uri (scheduler db)) depth es
      empty_db (All-Allowed env.decode_uri es) (λ s start. omega arith)
