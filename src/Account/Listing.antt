-- ===== src/Account/Listing.antt =====
-- workers/pairfob-origin/src/account.ts: the list of an account's computers.
use pairfob.Prelude.{List, [], ◌∷◌}
use pairfob.Task.{Task, pure, await, ◌>>=◌}
use pairfob.Account.{Db, Env, Request, Reply, Listed, DeviceOwnerRow}
use pairfob.Account
use pairfob.Account.Auth.{resolve_identity}
use pairfob.Account.Claims.{list_devices_by_user, get_daemon}
use pairfob.Account.Devices.{is_live, with_identity}

-- One read of the computer's row at a time.
unfoldable pub with_liveness : Env → List DeviceOwnerRow → Task Db (List Listed)
unfolding get_daemon ◌>>=◌
with_liveness env [] = pure []
with_liveness env (row ∷ rows) = do
  daemon ← await env.others (get_daemon row.daemon_id)
  rest ← with_liveness env rows
  pure (record { row = row; live = is_live daemon } ∷ rest)

unfoldable pub list_devices : Env → Request → Task Db Reply
unfolding resolve_identity list_devices_by_user with_liveness ◌>>=◌
list_devices env req = with_identity env req λ user_id. do
  rows ← await env.others (list_devices_by_user user_id)
  listed ← with_liveness env rows
  pure (Account.devices listed)
