-- ===== src/Account/Closed/Admin.antt =====
-- The first account is the only administrator, whatever races for it.
use pairfob.Prelude.{
  ℕ, ◌≤◌, ◌≡◌, refl, Bool, false, ◌===◌, List, [], ◌∷◌, arith, count, count-append, count-le-length,
}
use pairfob.Task.Keeps.{Keeps}
use pairfob.Account.{Db, Env, UserRow, empty_db}
use pairfob.Account.Users.{insert_first_user, insert_user}
use pairfob.Account.System.{Event, run, nested}
use pairfob.Account.Closed.{IsClosed}
use pairfob.Account.Closed.Frames.{
  reserve_kept, release_kept, clear_kept, proof_kept, ready_kept, consume_kept, spend_kept,
  bind_kept, unbind_kept,
}
use pairfob.Account.Closed.Rest.{IsStable, Rest-closed}
use pairfob.Account.Closed.Runs.{Any1, Any2, All-Allowed, nested-closed}

abbrev pub is_admin_row : UserRow → Bool
is_admin_row u = u.role === "admin"

abbrev pub OneAdmin : Db → Type 0
OneAdmin db = count is_admin_row db.users ≤ 1

first_user-OneAdmin : (row : UserRow) → Keeps OneAdmin (insert_first_user row)
unfolding insert_first_user
first_user-OneAdmin row = record {
  at = λ db h.
      ground (
        arith,
        count-append is_admin_row db.users (row ∷ []),
        count-le-length is_admin_row db.users,
      );
}

member_is_no_admin : (row : UserRow) → row.role ≡ "member" → is_admin_row row ≡ false
member_is_no_admin row e = rw e refl

user-OneAdmin : (row : UserRow) → row.role ≡ "member" → Keeps OneAdmin (insert_user row)
unfolding insert_user
user-OneAdmin row e = record {
  at = λ db h.
      ground (arith, count-append is_admin_row db.users (row ∷ []), member_is_no_admin row e);
}

stable : IsStable OneAdmin
stable = record {
  draw = λ n db h. h;
  sessions = λ rows db h. h;
  invite = λ row db h. h;
  locks = λ rows db h. h;
  vaults = λ rows db h. h;
  daemons = λ rows db h. h;
}

closed : IsClosed OneAdmin Any1 Any2
closed = Rest-closed (record {
  stable = stable;
  reserve = λ s now. reserve_kept (λ rows n db h. h) stable.locks s now _;
  release = release_kept (λ rows n db h. h) stable.locks;
  clear = clear_kept (λ rows n db h. h) stable.locks;
  first_user = first_user-OneAdmin;
  user = user-OneAdmin;
  proof = proof_kept (λ rows db h. h);
  ready = λ u d r now _. ready_kept (λ rows db h. h) u d r now;
  spend = spend_kept (consume_kept (λ rows db h. h)) (bind_kept (λ rows db h. h));
  unbind = λ d u _. unbind_kept (λ rows db h. h) d u;
})

-- Whatever requests are made, and however they interleave at their awaits, there is one administrator
-- at most.
pub one_admin :
    (env : Env) (scheduler : Db → List Event) (depth : ℕ) (es : List Event)
    → count is_admin_row (run (nested depth env scheduler) es empty_db).users ≤ 1
one_admin env scheduler depth es =
    nested-closed closed env scheduler (λ db. All-Allowed env.decode_uri (scheduler db)) depth es
      empty_db (All-Allowed env.decode_uri es) (omega arith)
