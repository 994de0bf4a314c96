-- ===== src/Tests/Accounts.antt =====
-- Runs of the theorems on the accounts.
use Prim.Native.String
use pairfob.Prelude.{
  ℕ, ◌≤◌, ◌≡◌, refl, subst, String, true, false, ◌===◌, ◌==◌, Option, none, some, List, [], ◌∷◌,
  arith, count, All, if◌then◌else◌, lookup,
}
use pairfob.Crockford.{codes}
use pairfob.Json.{Fields, text}
use pairfob.Account.{Db, Env, Request, Subject, source, DeviceOwnerRow, InviteRow, empty_db}
use pairfob.Account
use pairfob.Account.Auth.{normalize_invite_code}
use pairfob.Account.Auth.Invite.{mint_from}
use pairfob.Account.Auth.Codes.{normalize_invite_code-mint_from, mint_from_total}
use pairfob.Account.Users.{is_some}
use pairfob.Account.Register.{register}
use pairfob.Account.Vault.{VaultBody, insert_vault, swap}
use pairfob.Account.System.{Event, call, intent, confirmed, computers, run, nested, segment}
use pairfob.Account.Closed.{limit_of}
use pairfob.Account.Closed.Admin.{is_admin_row, one_admin}
use pairfob.Account.Closed.Budget.{in_hour, budget_holds}
use pairfob.Account.Closed.Owner.{owner_row, owner_keeps}
use pairfob.Account.Closed.Confirmed.{NotTheirs, unconfirmed_never_owns}
use pairfob.Account.Closed.Versions.{no_lost_update}
use pairfob.Account.Closed.WrongCode.{wrong_code_adds_nobody}
use pairfob.Tests.{repeat, room_id}

-- Each draw of the entropy source repeats its number.
abbrev draws : (draw size : ℕ) → List ℕ
draws draw size = repeat size draw

abbrev open_env : Env
open_env = record {
  random_bytes = draws;
  utf8 = codes;
  hash_ip = λ ip. ip;
  sha256_hex = λ s. s;
  hash_password = λ draw password. password;
  verify_password = λ stored password. stored === password;
  decoy_hash = "";
  service_token = "service";
  decode_uri = λ s. s;
  rounds = 3;
  others = λ db. db;
}

-- A request from one address, at one second, with the fields of its body.
abbrev asks : (token : Option String) → Fields → Request
asks token body = record { ip = "10.0.0.1"; token = token; body = some body; now = 1000 }

abbrev posted : (path : String) → (token : Option String) → Fields → Event
posted path token body =
    call (record { path = path; method = "POST"; daemon_id = ""; req = asks token body })

abbrev bootstrapped : Event
bootstrapped =
    posted "/v2/account/bootstrap" none
      (("password", text "long enough") ∷ ("service_token", text "service") ∷ [])

abbrev wrong_login : Event
wrong_login =
    posted "/v2/account/login" none
      (("username", text "admin") ∷ ("password", text "not the one") ∷ [])

abbrev wrong_code : Request
wrong_code = asks none (
    ("username", text "guest")
    ∷ ("password", text "long enough")
    ∷ ("invite_code", text "zzzz")
    ∷ [])

abbrev wrong_register : Event
wrong_register =
    call
      (record { path = "/v2/account/register"; method = "POST"; daemon_id = ""; req = wrong_code })

abbrev claim : (token : String) → Event
claim token =
    posted "/v2/account/devices" (some token) (
      ("daemon_id", text room_id)
      ∷ ("claim_proof", text "cp_00000000000000000000000000000000")
      ∷ [])

abbrev given_up : (daemon_id : String) → Event
given_up daemon_id = call (record {
  path = String.◌++◌ "/v2/account/devices/" daemon_id;
  method = "DELETE";
  daemon_id = "";
  req = asks (some "token") [];
})

-- Bootstrap, then wrong passwords and wrong codes.
abbrev attempts : List Event
attempts =
    bootstrapped ∷ wrong_login ∷ wrong_login ∷ wrong_register ∷ wrong_register ∷ bootstrapped ∷ []

abbrev meanwhile : Db → List Event
meanwhile db = wrong_login ∷ wrong_register ∷ []

one_admin_example :
    count is_admin_row (run (nested 1 open_env meanwhile) attempts empty_db).users ≤ 1
one_admin_example = one_admin open_env meanwhile 1 attempts

budget_holds_example :
    count
      (in_hour (source Account.login "10.0.0.1") 0)
      (run (nested 1 open_env meanwhile) attempts empty_db).failures
    ≤ limit_of (source Account.login "10.0.0.1")
budget_holds_example =
    budget_holds open_env meanwhile 1 attempts (source Account.login "10.0.0.1") 0

-- The session that `bootstrapped` issues, and the account.
abbrev session_token : String
session_token = "0303030303030303030303030303030303030303030303030303030303030303"

abbrev account_id : String
account_id = "u_0000000000000000"

-- A pairing of the account that the room confirms for another account alone, then a claim.
abbrev unpaired : List Event
unpaired =
    bootstrapped
    ∷ computers (record { daemon_id = room_id; kicked_at = none } ∷ [])
    ∷ intent room_id true (asks (some session_token) [])
    ∷ confirmed "u_other" room_id "route" 1000
    ∷ claim session_token
    ∷ given_up "d_11111111111111111111"
    ∷ []

abbrev IsNotTheirs : List Event → Type 0
IsNotTheirs es =
    All (NotTheirs account_id room_id) (run (nested 1 open_env meanwhile) es empty_db).owners

unconfirmed_never_owns_example : IsNotTheirs unpaired
unconfirmed_never_owns_example =
    unconfirmed_never_owns account_id room_id open_env meanwhile 1 unpaired
      (λ db. (λ raw e. tt, (λ raw e. tt, tt)))
      (λ raw e. tt, (tt, (tt, (refl, (λ raw e. tt, (λ raw e. tt, tt))))))

abbrev owned_row : DeviceOwnerRow
owned_row = record { daemon_id = room_id; user_id = account_id; label = some "desk"; bound_at = 1 }

abbrev owned_db : Db
owned_db = record empty_db { owners = owned_row ∷ [] }

abbrev other_requests : List Event
other_requests = bootstrapped ∷ claim session_token ∷ given_up "d_11111111111111111111" ∷ []

-- The calls of these events name no computer, or another one.
abbrev IsElsewhere : Option String → Type 0
IsElsewhere none = Unit {0}
IsElsewhere (some raw) = (raw === room_id) ≡ false

elsewhere :
    (o : Option String) (raw : String) → IsElsewhere o → o ≡ some raw → (raw === room_id) ≡ false
elsewhere o raw h e = subst IsElsewhere e h

owner_keeps_example :
    owner_row room_id (run (nested 1 open_env meanwhile) other_requests owned_db) ≡ some owned_row
unfolding segment
owner_keeps_example =
    owner_keeps room_id owned_row open_env meanwhile 1 other_requests owned_db
      (λ db. (λ raw. elsewhere none raw tt, (λ raw. elsewhere none raw tt, tt)))
      (
        λ raw. elsewhere none raw tt,
        (
          λ raw. elsewhere none raw tt,
          (λ raw. elsewhere (some "d_11111111111111111111") raw refl, tt),
        ),
      )
      refl

abbrev first_body : VaultBody
first_body = record { ciphertext = "QQ=="; nonce = "QQ=="; kdf = "argon2id"; version = 0 }

abbrev second_body : VaultBody
second_body = record first_body { ciphertext = "Qg==" }

no_lost_update_example :
    (swap account_id 2000 second_body (
      run
        (nested 1 open_env meanwhile)
        attempts
        (swap account_id 1000 first_body
          (run (nested 1 open_env meanwhile) attempts empty_db)).1)).0
    ≡ false
unfolding run nested insert_vault
no_lost_update_example =
    no_lost_update open_env meanwhile 1 attempts attempts account_id 1000 2000 first_body
      second_body refl (omega arith)

abbrev invite_row : InviteRow
invite_row = record {
  code = "CCCC";
  updated_by = account_id;
  updated_at = 1;
  suspended_at = 0;
  version = 1;
}

abbrev invited_db : Db
invited_db = record empty_db { invite = some invite_row }

wrong_code_adds_nobody_example : (register open_env wrong_code invited_db).1.users ≡ []
unfolding register lookup
wrong_code_adds_nobody_example =
    wrong_code_adds_nobody open_env wrong_code invited_db (λ s h. h) refl

normalize_invite_code-mint_from_example : normalize_invite_code (some "CCCC") ≡ some "CCCC"
unfolding mint_from
normalize_invite_code-mint_from_example = normalize_invite_code-mint_from draws 3 2 "CCCC" 3 refl

-- The first round draws bytes that are passed over.
abbrev late_draws : (draw size : ℕ) → List ℕ
late_draws draw size = repeat size (if draw == 0 then 250 else 7)

mint_from_total_example : is_some (mint_from late_draws 2 0 []) ≡ true
mint_from_total_example = mint_from_total late_draws 2 0 (omega arith)
