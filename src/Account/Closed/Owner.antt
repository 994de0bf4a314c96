-- ===== src/Account/Closed/Owner.antt =====
-- A computer stays with its owner until it is given up.
use pairfob.Prelude.{
  ℕ, ◌≡◌, refl, String, Bool, false, not, ◌===◌, Option, some, List, [], ◌∷◌, ◌++◌, arith, keep,
  eq_iff, All,
}
use pairfob.Task.Keeps.{Keeps}
use pairfob.Account.{Db, Env, DeviceOwnerRow}
use pairfob.Account.Users.{first}
use pairfob.Account.Claims.{bind_device, unbind_device, is_owned_by}
use pairfob.Account.System.{Event, run, nested}
use pairfob.Account.Closed.{IsClosed}
use pairfob.Account.Closed.Frames.{
  reserve_kept, release_kept, clear_kept, first_user_kept, user_kept, proof_kept, ready_kept,
  consume_kept, spend_kept,
}
use pairfob.Account.Closed.Rest.{IsStable, Rest-closed}
use pairfob.Account.Closed.Routes.{Allowed}
use pairfob.Account.Closed.Runs.{Any2, nested-closed}

-- What getDeviceOwner finds.
abbrev pub owner_row : String → Db → Option DeviceOwnerRow
owner_row daemon_id db = first (λ o. o.daemon_id === daemon_id) db.owners

first-append_some {ℓ} :
    {A : Type ℓ} (p : A → Bool) (xs ys : List A) (x : A)
    → first p xs ≡ some x
    → first p (xs ++ ys) ≡ some x
first-append_some p [] ys x h = absurd (ground arith)
first-append_some p (y ∷ xs) ys x h = ground (arith, first-append_some p xs ys x)

-- Dropping rows of another computer does not change what is found.
first-keep_other :
    (daemon_id other user_id : String) (rows : List DeviceOwnerRow)
    → (other === daemon_id) ≡ false
    → first (λ o. o.daemon_id === daemon_id) (keep (λ o. not (is_owned_by other user_id o)) rows)
      ≡ first (λ o. o.daemon_id === daemon_id) rows
first-keep_other daemon_id other user_id [] h = refl
first-keep_other daemon_id other user_id (o ∷ rows) h = ground (
  arith,
  first-keep_other daemon_id other user_id rows h,
  eq_iff o.daemon_id other,
  eq_iff o.daemon_id daemon_id,
  eq_iff other daemon_id,
)

module _ (daemon_id : String) (row : DeviceOwnerRow) where
  abbrev pub Owned : Db → Type 0
  Owned db = owner_row daemon_id db ≡ some row

  abbrev pub Other : String → Type 0
  Other d = (d === daemon_id) ≡ false

  bind-Owned : (new : DeviceOwnerRow) → Keeps Owned (bind_device new)
  unfolding bind_device
  bind-Owned new = record {
    at = λ db h.
        ground
          (arith, first-append_some (λ o. o.daemon_id === daemon_id) db.owners (new ∷ []) row h);
  }

  unbind-Owned : (d user_id : String) → Other d → Keeps Owned (unbind_device d user_id)
  unfolding unbind_device
  unbind-Owned d user_id other = record {
    at = λ db h. rw (first-keep_other daemon_id d user_id db.owners other) h;
  }

  stable : IsStable Owned
  stable = record {
    draw = λ n db h. h;
    sessions = λ rows db h. h;
    invite = λ r db h. h;
    locks = λ rows db h. h;
    vaults = λ rows db h. h;
    daemons = λ rows db h. h;
  }

  closed : IsClosed Owned Other Any2
  closed = Rest-closed (record {
    stable = stable;
    reserve = λ s now. reserve_kept (λ rows n db h. h) stable.locks s now _;
    release = release_kept (λ rows n db h. h) stable.locks;
    clear = clear_kept (λ rows n db h. h) stable.locks;
    first_user = first_user_kept (λ rows db h. h);
    user = λ r _. user_kept (λ rows db h. h) r;
    proof = proof_kept (λ rows db h. h);
    ready = λ u d r now _. ready_kept (λ rows db h. h) u d r now;
    spend = spend_kept (consume_kept (λ rows db h. h)) bind-Owned;
    unbind = unbind-Owned;
  })

  -- Whatever requests are made by anyone, and however they interleave, the row of the owner of a
  -- computer stays as it is, unless a path names that computer to be given up, or the computer asks
  -- for it with a token that its room knows.
  pub owner_keeps :
      (env : Env) (scheduler : Db → List Event) (depth : ℕ) (es : List Event) (db : Db)
      → ((s : Db) → All (Allowed Other Any2 env.decode_uri) (scheduler s))
      → All (Allowed Other Any2 env.decode_uri) es
      → owner_row daemon_id db ≡ some row
      → owner_row daemon_id (run (nested depth env scheduler) es db) ≡ some row
  owner_keeps env scheduler depth es db fair ok h =
      nested-closed closed env scheduler fair depth es db ok h
