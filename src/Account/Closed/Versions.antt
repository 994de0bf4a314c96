-- ===== src/Account/Closed/Versions.antt =====
-- Compare and swap on the version of a vault: no write is lost.
use pairfob.Prelude.{
  ℕ, ◌+◌, ◌≤◌, ◌≡◌, refl, String, Bool, true, false, ◌==◌, List, [], ◌∷◌, arith, count,
  if◌then◌else◌, sym, subst, count-append, eq_iff, eq_refl, count_mono, Bool-cases, inl, inr,
}
use pairfob.Task.{Task}
use pairfob.Task.Keeps.{Keeps}
use pairfob.Account.{Db, Env, VaultRow, empty_db}
use pairfob.Account.Users.{first, is_some}
use pairfob.Account.Vault.{VaultBody, insert_vault, update_vault, has_version, row_of, swap}
use pairfob.Account.System.{Event, run, nested}
use pairfob.Account.Closed.{IsClosed}
use pairfob.Account.Closed.VaultRows.{
  is_of, is_old, none_of, count-swap, past-swap, versioned_le, old_le, swap_clears, versioned_of,
  none_versioned,
}
use pairfob.Account.Closed.Frames.{
  lock_kept, session_kept, end_session_kept, put_kept, suspend_kept, reserve_kept, release_kept,
  clear_kept, first_user_kept, user_kept, proof_kept, ready_kept, consume_kept, spend_kept,
  bind_kept, unbind_kept,
}
use pairfob.Account.Closed.Runs.{Any1, Any2, All-Allowed, nested-closed}

-- An invariant of the vaults alone.
module _ (Q : List VaultRow → Type 0) where
  abbrev Vaults : Db → Type 0
  Vaults db = Q db.vaults

  Vaults-IsClosed :
      ((row : VaultRow) → Keeps Vaults (insert_vault row))
      → ((row : VaultRow) (expected : ℕ)
          → row.version ≡ expected + 1
          → Keeps Vaults (update_vault row expected))
      → IsClosed Vaults Any1 Any2
  Vaults-IsClosed new_vault swap_vault = record {
    draw = λ n db h. h;
    reserve = λ s now. reserve_kept (λ rows n db h. h) (λ rows db h. h) s now _;
    release = release_kept (λ rows n db h. h) (λ rows db h. h);
    lock = lock_kept (λ rows db h. h);
    clear = clear_kept (λ rows n db h. h) (λ rows db h. h);
    first_user = first_user_kept (λ rows db h. h);
    user = λ row _. user_kept (λ rows db h. h) row;
    session = session_kept (λ rows db h. h);
    end_session = end_session_kept (λ rows db h. h);
    put = put_kept (λ row db h. h);
    suspend = suspend_kept (λ row db h. h);
    proof = proof_kept (λ rows db h. h);
    ready = λ u d r now _. ready_kept (λ rows db h. h) u d r now;
    spend = spend_kept (consume_kept (λ rows db h. h)) (bind_kept (λ rows db h. h));
    unbind = λ d u _. unbind_kept (λ rows db h. h) d u;
    new_vault = new_vault;
    swap_vault = swap_vault;
    computers = λ rows db h. h;
  }

abbrev Single : List VaultRow → Type 0
Single rows = (user_id : String) → count (is_of user_id) rows ≤ 1

insert-Single : (row : VaultRow) → Keeps (λ db. Single db.vaults) (insert_vault row)
unfolding insert_vault
insert-Single row = record {
  at = λ db h user_id. ground (
    arith,
    count-append (is_of user_id) db.vaults (row ∷ []),
    h user_id,
    none_of row.user_id db.vaults,
    eq_iff row.user_id user_id,
  );
}

swap-Single :
    (row : VaultRow) (expected : ℕ)
    → row.version ≡ expected + 1
    → Keeps (λ db. Single db.vaults) (update_vault row expected)
unfolding update_vault
swap-Single row expected e = record {
  at = λ db h user_id. rw (count-swap user_id row expected db.vaults) (h user_id);
}

-- The account has one vault, past the version.
pub record IsPast (user_id : String) (version : ℕ) (rows : List VaultRow) : Type 0 where
  pub one : count (is_of user_id) rows ≡ 1
  pub past : count (is_old user_id version) rows ≡ 0

module _ (user_id : String) (version : ℕ) where
  insert-IsPast :
      (row : VaultRow) → Keeps (λ db. IsPast user_id version db.vaults) (insert_vault row)
  unfolding insert_vault
  insert-IsPast row = record {
    at = λ db h. ground (
      arith,
      count-append (is_of user_id) db.vaults (row ∷ []),
      count-append (is_old user_id version) db.vaults (row ∷ []),
      none_of row.user_id db.vaults,
      eq_iff row.user_id user_id,
    );
  }

  swap-IsPast :
      (row : VaultRow) (expected : ℕ)
      → row.version ≡ expected + 1
      → Keeps (λ db. IsPast user_id version db.vaults) (update_vault row expected)
  unfolding update_vault
  swap-IsPast row expected e = record {
    at = λ db h. record {
      one = rw (count-swap user_id row expected db.vaults) h.one;
      past = past-swap user_id version row expected db.vaults e h.past;
    };
  }

insert_new-IsPast :
    (row : VaultRow) (db : Db)
    → row.version ≡ 1
    → (insert_vault row db).0 ≡ true
    → IsPast row.user_id 0 (insert_vault row db).1.vaults
unfolding insert_vault
insert_new-IsPast row db e h = elim (Bool-cases (is_some (first (is_of row.user_id) db.vaults))) [
  | inl found ↦ absurd (ground arith)
  | inr new ↦
      let fresh = none_of row.user_id db.vaults new in
      record {
        one =
            ground
              (arith, count-append (is_of row.user_id) db.vaults (row ∷ []), eq_refl row.user_id);
        past = ground (
          arith,
          count-append (is_old row.user_id 0) db.vaults (row ∷ []),
          old_le row.user_id 0 db.vaults,
        );
      }
]

update_won-IsPast :
    (row : VaultRow) (expected : ℕ) (db : Db)
    → row.version ≡ expected + 1
    → Single db.vaults
    → (update_vault row expected db).0 ≡ true
    → IsPast row.user_id expected (update_vault row expected db).1.vaults
unfolding update_vault
update_won-IsPast row expected db e single h =
    let some_row = versioned_of row.user_id expected db.vaults h in
    let most = versioned_le row.user_id expected db.vaults in
    record {
      one = rw (count-swap row.user_id row expected db.vaults) (ground (arith, single row.user_id));
      past =
          swap_clears row.user_id expected row db.vaults refl e (omega (arith, single row.user_id));
    }

if_wins :
    (P : Db → Type 0) (b : Bool) (m n : Task Db Bool) (db : Db)
    → (b ≡ true → (m db).0 ≡ true → P (m db).1)
    → ((n db).0 ≡ true → P (n db).1)
    → ((if b then m else n) db).0 ≡ true
    → P ((if b then m else n) db).1
if_wins P true m n db hm hn won = hm refl won
if_wins P false m n db hm hn won = hn won

-- A successful write leaves the one row of the account past the version it was based on.
swap_won-IsPast :
    (user_id : String) (now : ℕ) (body : VaultBody) (db : Db)
    → Single db.vaults
    → (swap user_id now body db).0 ≡ true
    → IsPast user_id body.version (swap user_id now body db).1.vaults
swap_won-IsPast user_id now body db single h =
    if_wins (λ s. IsPast user_id body.version s.vaults) (body.version == 0) _ _ db
      (λ zero won.
        let e : body.version ≡ 0 = ground arith in
        subst (λ v. IsPast user_id v (insert_vault (row_of user_id now body) db).1.vaults) (sym e)
          (insert_new-IsPast (row_of user_id now body) db (ground arith) won))
      (update_won-IsPast (row_of user_id now body) body.version db refl single) h

-- A write based on a version that is past changes nothing.
past_fails :
    (user_id : String) (version : ℕ) (now : ℕ) (body : VaultBody) (db : Db)
    → IsPast user_id version db.vaults
    → body.version ≤ version
    → (swap user_id now body db).0 ≡ false
unfolding insert_vault update_vault
past_fails user_id version now body db h le = ground (
  arith,
  none_of user_id db.vaults,
  none_versioned user_id body.version db.vaults,
  count_mono (has_version user_id body.version) (is_old user_id version) db.vaults
      (λ v e. ground arith),
)

Single-IsClosed : IsClosed (λ db. Single db.vaults) Any1 Any2
Single-IsClosed = Vaults-IsClosed Single insert-Single swap-Single

IsPast-IsClosed :
    (user_id : String) (version : ℕ) → IsClosed (λ db. IsPast user_id version db.vaults) Any1 Any2
IsPast-IsClosed user_id version =
    Vaults-IsClosed (IsPast user_id version) (insert-IsPast user_id version)
      (swap-IsPast user_id version)

-- Once a write of a vault based on a version has succeeded, no write based on that version or an
-- earlier one succeeds, whatever requests are made before and between, and however they interleave.
pub no_lost_update :
    (env : Env) (scheduler : Db → List Event) (depth : ℕ) (before between : List Event)
    (user_id : String) (now later : ℕ) (body body' : VaultBody)
    → let db = run (nested depth env scheduler) before empty_db in
      (swap user_id now body db).0 ≡ true
      → body'.version ≤ body.version
      → (swap user_id later body'
          (run (nested depth env scheduler) between (swap user_id now body db).1)).0
        ≡ false
no_lost_update env scheduler depth before between user_id now later body body' won le =
    let fair = λ (db : Db). All-Allowed env.decode_uri (scheduler db) in
    let single =
      nested-closed Single-IsClosed env scheduler fair depth before empty_db
        (All-Allowed env.decode_uri before) (λ u. omega arith) in
    past_fails user_id body.version later body' _
      (nested-closed (IsPast-IsClosed user_id body.version) env scheduler fair depth between _
        (All-Allowed env.decode_uri between)
        (swap_won-IsPast user_id now body (run (nested depth env scheduler) before empty_db) single
          won))
      le
