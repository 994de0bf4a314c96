-- ===== src/Account/System.antt =====
-- workers/pairfob-origin/src/account.ts: the routes of the accounts, and runs of requests that
-- interleave at their awaits. What reaches the same tables from elsewhere is an event too: the proof
-- of a pairing code (pair-intent.ts), its confirmation by the room, a change of the computers, and a
-- computer that frees itself (device-release.ts).
use Prim.Native.Char.{code}
use pairfob.Prelude.{
  ℕ, zero, suc, String, Bool, true, false, not, ◌&&◌, ◌||◌, Option, none, some, List, [], ◌∷◌, ◌==◌,
  ◌===◌, if◌then◌else◌, maybe,
}
use pairfob.Task.{Task, pure, await, ◌>>=◌}
use pairfob.Account.{Db, Env, Request, Reply, DaemonRow, DeviceOwnerRow}
use pairfob.Account
use pairfob.Account.Auth.{Identity, resolve_identity}
use pairfob.Account.Users.{is_some}
use pairfob.Account.Claims.{get_device_owner, ready_claim_proof}
use pairfob.Account.Login.{login, logout, account_state}
use pairfob.Account.Register.{register}
use pairfob.Account.Bootstrap.{bootstrap, read_invite, rotate_invite}
use pairfob.Account.Devices.{claim_device, read_claim_proof, release_device, mint_proof}
use pairfob.Account.Release.{handle_device_release}
use pairfob.Account.Listing.{list_devices}
use pairfob.Account.Vault.{read_vault, write_vault}

has_slash : String → Bool
has_slash String.[] = false
has_slash (String.◌∷◌ c s) = code c == b'/' || has_slash s

-- What stands after the prefix, where it is not empty and has no slash.
unfoldable pub segment : String → String → Option String
unfolding has_slash
segment String.[] rest = if rest === "" || has_slash rest then none else some rest
segment (String.◌∷◌ c cs) String.[] = none
segment (String.◌∷◌ c cs) (String.◌∷◌ d ds) = if code c == code d then segment cs ds else none

-- A path and a method; `daemon_id` is the parameter of the query.
pub record Call : Type 0 where
  pub path : String
  pub method : String
  pub daemon_id : String
  pub req : Request

abbrev pub gets : Call → String → Bool
gets c path = c.method === "GET" && c.path === path

abbrev pub posts : Call → String → Bool
posts c path = c.method === "POST" && c.path === path

abbrev pub vault_route : Env → Call → Task Db Reply
vault_route env c =
    if c.method === "GET"
    then read_vault env c.req
    else if c.method === "PUT"
    then write_vault env c.req
    else (do
      identity ← resolve_identity env c.req.token c.req.now
      pure (if is_some identity then Account.bad_token else Account.unauthenticated))

abbrev pub device_route : Env → Call → Task Db Reply
device_route env c = maybe (segment "/v2/account/devices/" c.path) (pure Account.unbound) λ raw.
    if c.method === "DELETE"
    then release_device env (env.decode_uri raw) c.req
    else pure Account.unbound

unfoldable pub route : Env → Call → Task Db Reply
unfolding account_state bootstrap login register logout read_invite rotate_invite list_devices
    claim_device read_claim_proof read_vault write_vault release_device segment resolve_identity
    ◌>>=◌
route env c =
    if gets c "/v2/account/state"
    then account_state env c.req
    else if posts c "/v2/account/bootstrap"
    then bootstrap env c.req
    else if posts c "/v2/account/login"
    then login env c.req
    else if posts c "/v2/account/register"
    then register env c.req
    else if posts c "/v2/account/logout"
    then logout env c.req
    else if gets c "/v2/account/invite"
    then read_invite env c.req
    else if posts c "/v2/account/invite/rotate"
    then rotate_invite env c.req
    else if gets c "/v2/account/devices"
    then list_devices env c.req
    else if posts c "/v2/account/devices"
    then claim_device env c.req
    else if gets c "/v2/account/claim-proof"
    then read_claim_proof env c.daemon_id c.req
    else if c.path === "/v2/account/vault"
    then vault_route env c
    else device_route env c

-- handlePairIntent, where the code was resolved to this computer. `ticketed` is whether the room
-- issued a ticket; the answer is whether the code was good for the caller.
abbrev pub intent_for :
    Env
    → (daemon_id : String) → (ticketed : Bool) → (now : ℕ) → Option Identity
    → Option DeviceOwnerRow
    → Task Db Bool
intent_for env daemon_id ticketed now identity none =
    if not ticketed
    then pure false
    else maybe identity (pure true) λ who. mint_proof env who.user.user_id daemon_id now
intent_for env daemon_id ticketed now none (some owner) = pure false
intent_for env daemon_id ticketed now (some who) (some owner) =
    pure (owner.user_id === who.user.user_id && ticketed)

unfoldable pub pair_intent : Env → (daemon_id : String) → (ticketed : Bool) → Request → Task Db Bool
unfolding resolve_identity get_device_owner mint_proof ◌>>=◌
pair_intent env daemon_id ticketed req = do
  identity ← resolve_identity env req.token req.now
  owner ← await env.others (get_device_owner daemon_id)
  intent_for env daemon_id ticketed req.now identity owner

pub data Event : Type 0 where
  call : Call → Event
  intent : (daemon_id : String) → (ticketed : Bool) → Request → Event
  confirmed : (user_id daemon_id route_id : String) → (now : ℕ) → Event
  computers : List DaemonRow → Event
  -- a computer asks to be freed, and its room verified the token or not
  let_go : (verified : Bool) → Request → Event

unfoldable pub step : Env → Event → Db → Db
unfolding route pair_intent ready_claim_proof handle_device_release
step env (call c) db = (route env c db).1
step env (intent daemon_id ticketed req) db = (pair_intent env daemon_id ticketed req db).1
step env (confirmed user_id daemon_id route_id now) db =
    (ready_claim_proof user_id daemon_id route_id now db).1
step env (computers rows) db = record db { daemons = rows }
step env (let_go verified req) db = (handle_device_release env verified req db).1

unfoldable pub run : Env → List Event → Db → Db
unfolding step
run env [] db = db
run env (e ∷ es) db = run env es (step env e db)

-- At each await of a handler a scheduler may run any events, whose handlers may await in turn, to a
-- finite depth.
unfoldable pub nested : ℕ → Env → (Db → List Event) → Env
unfolding run
nested zero env scheduler = record env { others = λ db. db }
nested (suc depth) env scheduler = record env {
  others = λ db. run (nested depth env scheduler) (scheduler db) db;
}
