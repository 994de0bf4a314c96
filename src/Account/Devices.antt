-- ===== src/Account/Devices.antt =====
-- workers/pairfob-origin/src/account.ts: claiming a computer, polling for the proof, and giving it up.
use pairfob.Prelude.{
  ℕ, ◌+◌, ◌*◌, String, Bool, true, false, not, Option, none, some, ◌===◌, if◌then◌else◌, maybe,
  lookup,
}
use pairfob.Constants.{is_daemon_id, is_claim_proof}
use pairfob.Json.{Json, Fields, text}
use pairfob.Task.{Task, pure, await, ◌>>=◌}
use pairfob.Account.{Db, Env, Request, Reply, DeviceOwnerRow, ClaimProofRow, DaemonRow}
use pairfob.Account
use pairfob.Account.Auth.{text_value, normalize_device_label, resolve_identity, new_claim_proof}
use pairfob.Account.Users.{is_some}
use pairfob.Account.Claims.{
  get_device_owner, consume_claim_proof, bind_device, unbind_device, get_ready_proof, get_daemon,
  create_claim_proof,
}

abbrev pub claim_proof_ttl_ms : ℕ
claim_proof_ttl_ms = 10 * 60 * 1000

abbrev pub field_text : String → Request → String
field_text key req = elim (text_value key req.body) [ none ↦ "" | some s ↦ s ]

-- The label of a body: absent, fit, or not to be taken. `null` is read as absent.
pub data Label : Type 0 where
  no_label bad_label : Label
  a_label : String → Label

abbrev label_value : Option Json → Label
label_value none = no_label
label_value (some (text s)) = elim (normalize_device_label (some s)) [
  | none ↦ bad_label
  | some label ↦ a_label label
]
label_value (some Json.null) = no_label
label_value (some _) = bad_label

unfoldable pub label_of : Option Fields → Label
unfolding lookup normalize_device_label
label_of none = no_label
label_of (some fields) = label_value (lookup "label" fields)

abbrev pub label_option : Label → Option String
label_option (a_label s) = some s
label_option _ = none

abbrev pub is_bad : Label → Bool
is_bad bad_label = true
is_bad _ = false

abbrev pub is_live : Option DaemonRow → Bool
is_live none = false
is_live (some d) = not (is_some d.kicked_at)

unfoldable pub bind_claimed : Env → Request → (user_id daemon_id : String) → Label → Task Db Reply
unfolding get_daemon bind_device ◌>>=◌
bind_claimed env req user_id daemon_id label = do
  daemon ← await env.others (get_daemon daemon_id)
  if not (is_live daemon) then pure Account.bad_token else do
    let row : DeviceOwnerRow = record {
      daemon_id = daemon_id;
      user_id = user_id;
      label = label_option label;
      bound_at = req.now;
    }
    won ← await env.others (bind_device row)
    pure (if won then Account.bound row else Account.already_bound)

-- After the proof was spent or refused.
abbrev pub after_proof :
    Env
    → Request
    → (user_id daemon_id : String) → Label
    → Option DeviceOwnerRow
    → (spent : Bool) → Task Db Reply
after_proof env req user_id daemon_id label existing spent =
    if not spent
    then pure Account.forbidden
    else if is_some existing
    then pure Account.already_bound
    else bind_claimed env req user_id daemon_id label

unfoldable pub spend_proof :
    Env → Request → (user_id daemon_id : String) → Label → Option DeviceOwnerRow → Task Db Reply
unfolding is_claim_proof consume_claim_proof bind_claimed ◌>>=◌
spend_proof env req user_id daemon_id label existing =
    let proof = field_text "claim_proof" req in
    if not (is_claim_proof proof) then pure Account.forbidden else do
      spent ← await env.others (consume_claim_proof proof user_id daemon_id req.now)
      after_proof env req user_id daemon_id label existing spent

abbrev pub own_row : (user_id : String) → Option DeviceOwnerRow → Option DeviceOwnerRow
own_row user_id none = none
own_row user_id (some o) = if o.user_id === user_id then some o else none

unfoldable pub claim_for : Env → Request → (user_id : String) → Task Db Reply
unfolding is_daemon_id label_of get_device_owner spend_proof ◌>>=◌
claim_for env req user_id =
    let daemon_id = field_text "daemon_id" req in
    let label = label_of req.body in
    if not (is_daemon_id daemon_id)
    then pure Account.bad_token
    else if is_bad label
    then pure Account.bad_token
    else (do
      existing ← await env.others (get_device_owner daemon_id)
      maybe (own_row user_id existing) (spend_proof env req user_id daemon_id label existing)
          λ o. pure (Account.bound o))

abbrev pub with_identity : Env → Request → (String → Task Db Reply) → Task Db Reply
with_identity env req body = do
  identity ← resolve_identity env req.token req.now
  maybe identity (pure Account.unauthenticated) λ who. body who.user.user_id

unfoldable pub claim_device : Env → Request → Task Db Reply
unfolding resolve_identity claim_for ◌>>=◌
claim_device env req = with_identity env req (claim_for env req)

-- `daemon_id` is the parameter of the query.
unfoldable pub read_claim_proof : Env → (daemon_id : String) → Request → Task Db Reply
unfolding resolve_identity is_daemon_id get_ready_proof ◌>>=◌
read_claim_proof env daemon_id req = with_identity env req λ user_id.
    if not (is_daemon_id daemon_id) then pure Account.bad_token else do
      row ← await env.others (get_ready_proof user_id daemon_id req.now)
      pure (elim row [ none ↦ Account.proof_pending | some p ↦ Account.proof_ready p.proof ])

-- `daemon_id` is the last part of the path.
unfoldable pub release_device : Env → (daemon_id : String) → Request → Task Db Reply
unfolding resolve_identity is_daemon_id unbind_device ◌>>=◌
release_device env daemon_id req = with_identity env req λ user_id.
    if not (is_daemon_id daemon_id) then pure Account.bad_token else do
      freed ← await env.others (unbind_device daemon_id user_id)
      pure (if freed then Account.released daemon_id else Account.bad_token)

-- handlePairIntent of pair-intent.ts, where the code was resolved to this computer and a ticket was
-- issued: the proof of a signed-in phone, for a computer without an owner.
unfoldable pub mint_proof : Env → (user_id daemon_id : String) → (now : ℕ) → Task Db Bool
unfolding new_claim_proof create_claim_proof ◌>>=◌
mint_proof env user_id daemon_id now = do
  proof ← new_claim_proof env
  await env.others (
      create_claim_proof (record {
        proof = proof;
        user_id = user_id;
        daemon_id = daemon_id;
        created_at = now;
        expires_at = now + claim_proof_ttl_ms;
        ready_at = 0;
        route_id = "";
      }))
