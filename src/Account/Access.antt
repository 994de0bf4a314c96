-- ===== src/Account/Access.antt =====
-- workers/pairfob-origin/src/account-authz.ts: who may reach a computer. The headers that carry the
-- answer to the room are its fields.
use pairfob.Prelude.{String, Bool, not, ◌&&◌, Option, none, some, ◌===◌}
use pairfob.Task.{Task, pure, await, ◌>>=◌}
use pairfob.Account.{Db, Env, Request, DeviceOwnerRow}
use pairfob.Account.Auth.{Identity, resolve_identity}
use pairfob.Account.Claims.{get_device_owner}

pub record DeviceAccess : Type 0 where
  pub account : String
  pub owner : String
  pub allowed : Bool

-- identity?.user.user_id ?? ""
abbrev pub account_of : Option Identity → String
account_of none = ""
account_of (some who) = who.user.user_id

abbrev pub access_of : (account : String) → Option DeviceOwnerRow → DeviceAccess
access_of account none = record { account = account; owner = ""; allowed = not (account === "") }
access_of account (some o) = record {
  account = account;
  owner = o.user_id;
  allowed = not (account === "") && account === o.user_id;
}

unfoldable pub device_access : Env → (daemon_id : String) → Request → Task Db DeviceAccess
unfolding get_device_owner resolve_identity ◌>>=◌
device_access env daemon_id req = do
  owner ← await env.others (get_device_owner daemon_id)
  identity ← resolve_identity env req.token req.now
  pure (access_of (account_of identity) owner)
