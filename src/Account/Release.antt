-- ===== src/Account/Release.antt =====
-- workers/pairfob-origin/src/device-release.ts: a computer frees itself. `verified` is the answer of
-- its room, which knows the digest of the token.
use pairfob.Prelude.{String, Bool, false, not, ◌||◌, ◌==◌, if◌then◌else◌, maybe}
use pairfob.Constants.{protocol, is_daemon_id, is_reconnect_token}
use pairfob.Json.{number_field}
use pairfob.Task.{Task, pure, await, ◌>>=◌}
use pairfob.Account.{Db, Env, Request, Reply}
use pairfob.Account
use pairfob.Account.Claims.{get_device_owner, get_daemon, unbind_device}
use pairfob.Account.Devices.{field_text, is_live}

-- `body.v` is compared with the protocol.
abbrev pub is_bad_release : Request → Bool
is_bad_release req =
    not (number_field "v" 0 req.body == protocol)
    || not (is_daemon_id (field_text "daemon_id" req))
    || not (is_reconnect_token (field_text "reconnect_token" req))

abbrev pub free_device : Env → (daemon_id : String) → Task Db Reply
free_device env daemon_id = do
  owner ← await env.others (get_device_owner daemon_id)
  maybe owner (pure (Account.freed daemon_id false)) λ o. do
    released ← await env.others (unbind_device daemon_id o.user_id)
    pure (Account.freed daemon_id released)

unfoldable pub handle_device_release : Env → (verified : Bool) → Request → Task Db Reply
unfolding is_daemon_id is_reconnect_token number_field get_daemon get_device_owner unbind_device
    ◌>>=◌
handle_device_release env verified req =
    let daemon_id = field_text "daemon_id" req in
    if is_bad_release req then pure Account.bad_token else do
      daemon ← await env.others (get_daemon daemon_id)
      if not (is_live daemon) then pure Account.bad_token else do
        known ← await env.others (pure verified)
        if known then free_device env daemon_id else pure Account.bad_token
