-- ===== src/Account/Closed/Confirmed.antt =====
-- An account owns no computer whose room never confirmed a pairing of it.
use pairfob.Prelude.{
  ℕ, ◌≡◌, refl, String, Bool, false, not, ◌&&◌, ◌===◌, Option, List, [], ◌∷◌, arith, count, ltb,
  if◌then◌else◌, eq_iff, All, All-append, All-keep, All-map, Bool-cases, inl, inr,
}
use pairfob.Task.Keeps.{Keeps, Keeps-if, Keeps-pure, Keeps-await, Keeps-bind_result, keeps_rules}
use pairfob.Account.{Db, Env, Request, DeviceOwnerRow, ClaimProofRow, FailureRow, UserRow, empty_db}
use pairfob.Account.Users.{first, is_some}
use pairfob.Account.Claims.{
  bind_device, unbind_device, is_owned_by, create_claim_proof, ready_claim_proof,
  consume_claim_proof, is_pending, is_spent_by,
}
use pairfob.Account.Devices.{Label, bind_claimed, spend_proof, after_proof, field_text}
use pairfob.Constants.{is_claim_proof}
use pairfob.Account.System.{Event, run, nested}
use pairfob.Account.Closed.{IsClosed, read_rules}
use pairfob.Account.Closed.Frames.{
  Good-if, reserve_kept, release_kept, clear_kept, first_user_kept, user_kept,
}
use pairfob.Account.Closed.Rest.{IsStable, Rest-closed}
use pairfob.Account.Closed.Routes.{Allowed}
use pairfob.Account.Closed.Runs.{Any1, nested-closed}

module _ (user_id daemon_id : String) where
  -- No row gives the computer to the account.
  abbrev pub is_theirs : DeviceOwnerRow → Bool
  is_theirs o = is_owned_by daemon_id user_id o

  abbrev NotReady : ClaimProofRow → Type 0
  NotReady p = (p.user_id === user_id && (p.daemon_id === daemon_id && ltb 0 p.ready_at)) ≡ false

  abbrev pub NotTheirs : DeviceOwnerRow → Type 0
  NotTheirs o = is_theirs o ≡ false

  pub record IsOutside (db : Db) : Type 0 where
    pub proofs : All NotReady db.proofs
    pub owners : All NotTheirs db.owners

  -- The room of the computer confirms other accounts only.
  abbrev pub Else : String → String → Type 0
  Else u d = (u === user_id && d === daemon_id) ≡ false

  IsOutside-proofs :
      (rows : List ClaimProofRow) (db : Db)
      → All NotReady rows
      → IsOutside db
      → IsOutside (record db { proofs = rows })
  IsOutside-proofs rows db all h = record { proofs = all; owners = h.owners }

  fresh-NotReady : (row : ClaimProofRow) → NotReady (record row { ready_at = 0 })
  fresh-NotReady row = ground arith

  proof-IsOutside : (row : ClaimProofRow) → Keeps IsOutside (create_claim_proof row)
  unfolding create_claim_proof
  proof-IsOutside row = record {
    at = λ db h. Good-if IsOutside (is_some (first (λ p. p.proof === row.proof) db.proofs)) _ _ h (
        IsOutside-proofs _ db
          (All-keep NotReady (λ p. ltb row.created_at p.expires_at) _
            (All-append NotReady db.proofs _ h.proofs (fresh-NotReady row, tt)))
          h);
  }

  ready_other :
      (u d route_id : String) (now : ℕ) (p : ClaimProofRow)
      → Else u d
      → NotReady p
      → NotReady
          (if is_pending u d now p then record p { ready_at = now; route_id = route_id } else p)
  ready_other u d route_id now p other h = ground (
    arith,
    eq_iff p.user_id u,
    eq_iff p.daemon_id d,
    eq_iff p.user_id user_id,
    eq_iff p.daemon_id daemon_id,
    eq_iff u user_id,
    eq_iff d daemon_id,
  )

  ready-IsOutside :
      (u d route_id : String) (now : ℕ)
      → Else u d
      → Keeps IsOutside (ready_claim_proof u d route_id now)
  unfolding ready_claim_proof
  ready-IsOutside u d route_id now other = record {
    at = λ db h.
        IsOutside-proofs _ db
          (All-map NotReady _ db.proofs (λ p. ready_other u d route_id now p other) h.proofs) h;
  }

  consume-IsOutside :
      (proof u d : String) (now : ℕ) → Keeps IsOutside (consume_claim_proof proof u d now)
  unfolding consume_claim_proof
  consume-IsOutside proof u d now = record {
    at = λ db h.
        IsOutside-proofs _ db
          (All-keep NotReady (λ p. not (is_spent_by proof u d now p)) db.proofs h.proofs) h;
  }

  -- Nothing can be spent.
  none_spent :
      (proof : String) (now : ℕ) (rows : List ClaimProofRow)
      → All NotReady rows
      → count (is_spent_by proof user_id daemon_id now) rows ≡ 0
  none_spent proof now [] h = refl
  none_spent proof now (p ∷ rows) h = ground (arith, none_spent proof now rows h.1)

  consume_fails :
      (proof : String) (now : ℕ) (db : Db)
      → IsOutside db
      → (consume_claim_proof proof user_id daemon_id now db).0 ≡ false
  unfolding consume_claim_proof
  consume_fails proof now db h = rw (none_spent proof now db.proofs h.proofs) refl

  bind-IsOutside : (row : DeviceOwnerRow) → NotTheirs row → Keeps IsOutside (bind_device row)
  unfolding bind_device
  bind-IsOutside row other = record {
    at = λ db h.
        Good-if IsOutside (is_some (first (λ o. o.daemon_id === row.daemon_id) db.owners)) _ _ h
          (record {
            proofs = h.proofs;
            owners = All-append NotTheirs db.owners (row ∷ []) h.owners (other, tt);
          });
  }

  unbind-IsOutside : (d u : String) → Keeps IsOutside (unbind_device d u)
  unfolding unbind_device
  unbind-IsOutside d u = record {
    at = λ db h. record {
      proofs = h.proofs;
      owners = All-keep NotTheirs (λ o. not (is_owned_by d u o)) db.owners h.owners;
    };
  }

  module _ (env : Env) (req : Request)
      (others : (db : Db) → IsOutside db → IsOutside (env.others db)) where
    bind_claimed-IsOutside :
        (u d : String) (label : Label) → Else u d → Keeps IsOutside (bind_claimed env req u d label)
    unfolding bind_claimed
    bind_claimed-IsOutside u d label other =
        let bind = λ (row : DeviceOwnerRow) (e : row.user_id ≡ u) (f : row.daemon_id ≡ d).
          bind-IsOutside row (rw (e, f) (ground arith)) in
        search (keeps_rules, read_rules, bind, others) depth 20

    -- The account itself finds no proof to spend.
    spend_own-IsOutside :
        (label : Label) (existing : Option DeviceOwnerRow)
        → Keeps IsOutside (spend_proof env req user_id daemon_id label existing)
    unfolding spend_proof
    spend_own-IsOutside label existing =
        Keeps-if (not (is_claim_proof (field_text "claim_proof" req))) _ _ (λ _. Keeps-pure _)
          (λ _.
            Keeps-bind_result _ (after_proof env req user_id daemon_id label existing)
              (Keeps-await env.others _
                (consume-IsOutside (field_text "claim_proof" req) user_id daemon_id req.now) others)
              (λ db h.
                rw (consume_fails (field_text "claim_proof" req) req.now db h) (Keeps-pure _)))

    spend_other-IsOutside :
        (u d : String) (label : Label) (existing : Option DeviceOwnerRow)
        → Else u d
        → Keeps IsOutside (spend_proof env req u d label existing)
    unfolding spend_proof
    spend_other-IsOutside u d label existing other =
        search (keeps_rules, consume-IsOutside, bind_claimed-IsOutside, others) depth 20

    spend-IsOutside :
        (u d : String) (label : Label) (existing : Option DeviceOwnerRow)
        → Keeps IsOutside (spend_proof env req u d label existing)
    spend-IsOutside u d label existing = elim (Bool-cases (u === user_id && d === daemon_id)) [
      | inr other ↦ spend_other-IsOutside u d label existing other
      | inl same ↦
          let eu : u ≡ user_id = ground (arith, eq_iff u user_id) in
          let ed : d ≡ daemon_id = ground (arith, eq_iff d daemon_id) in
          rw (eu, ed) (spend_own-IsOutside label existing)
    ]

  stable : IsStable IsOutside
  stable = record {
    draw = λ n db h. record { proofs = h.proofs; owners = h.owners };
    sessions = λ rows db h. record { proofs = h.proofs; owners = h.owners };
    invite = λ r db h. record { proofs = h.proofs; owners = h.owners };
    locks = λ rows db h. record { proofs = h.proofs; owners = h.owners };
    vaults = λ rows db h. record { proofs = h.proofs; owners = h.owners };
    daemons = λ rows db h. record { proofs = h.proofs; owners = h.owners };
  }

  failures_kept :
      (rows : List FailureRow) (n : ℕ) (db : Db)
      → IsOutside db
      → IsOutside (record db { failures = rows; next_failure = n })
  failures_kept rows n db h = record { proofs = h.proofs; owners = h.owners }

  users_kept :
      (rows : List UserRow) (db : Db) → IsOutside db → IsOutside (record db { users = rows })
  users_kept rows db h = record { proofs = h.proofs; owners = h.owners }

  closed : IsClosed IsOutside Any1 Else
  closed = Rest-closed (record {
    stable = stable;
    reserve = λ s now. reserve_kept failures_kept stable.locks s now _;
    release = release_kept failures_kept stable.locks;
    clear = clear_kept failures_kept stable.locks;
    first_user = first_user_kept users_kept;
    user = λ r _. user_kept users_kept r;
    proof = proof-IsOutside;
    ready = ready-IsOutside;
    spend = λ env req u d label existing others. spend-IsOutside env req others u d label existing;
    unbind = λ d u _. unbind-IsOutside d u;
  })

  -- Whatever requests are made, an account owns no computer as long as the computer's room has
  -- confirmed no pairing of that account.
  pub unconfirmed_never_owns :
      (env : Env) (scheduler : Db → List Event) (depth : ℕ) (es : List Event)
      → ((s : Db) → All (Allowed Any1 Else env.decode_uri) (scheduler s))
      → All (Allowed Any1 Else env.decode_uri) es
      → All NotTheirs (run (nested depth env scheduler) es empty_db).owners
  unconfirmed_never_owns env scheduler depth es fair ok =
      (nested-closed closed env scheduler fair depth es empty_db ok
        (record { proofs = tt; owners = tt })).owners
