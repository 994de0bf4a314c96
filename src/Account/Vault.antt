-- ===== src/Account/Vault.antt =====
-- workers/pairfob-origin/src/account-vault.ts: an encrypted blob per account, written by compare and
-- swap on its version. A method other than GET and PUT is answered before any statement.
use Prim.Native.Char.{code}
use pairfob.Prelude.{
  ℕ, ◌+◌, ◌*◌, String, Bool, true, false, not, ◌&&◌, ◌||◌, Option, none, some, [], ◌∷◌, ◌++◌, ◌==◌,
  ◌===◌, leb, if◌then◌else◌, maybe, length, lookup, map,
}
use pairfob.Json.{Fields, number}
use pairfob.Text.{units, no_control, is_lower_code, is_upper_code, is_digit_code}
use pairfob.Task.{Task, pure, await, ◌>>=◌}
use pairfob.Account.{Db, Env, Request, Reply, VaultRow}
use pairfob.Account
use pairfob.Account.Auth.{text_value, resolve_identity}
use pairfob.Account.Users.{first, is_some}
use pairfob.Account.Devices.{with_identity}

abbrev pub vault_max_bytes : ℕ
vault_max_bytes = 65536

abbrev pub vault_kdf_max : ℕ
vault_kdf_max = 128

abbrev pub vault_nonce_max : ℕ
vault_nonce_max = 128

abbrev is_base64_code : ℕ → Bool
is_base64_code c = is_lower_code c || is_upper_code c || is_digit_code c || c == b'+' || c == b'/'

-- What may follow a first `=`.
one_more : String → Bool
one_more String.[] = true
one_more (String.◌∷◌ c s) = code c == b'=' && s === ""

base64_from : Bool → String → Bool
unfolding one_more
base64_from seen String.[] = seen
base64_from seen (String.◌∷◌ c s) =
    if is_base64_code (code c) then base64_from true s else seen && code c == b'=' && one_more s

-- BASE64_RE
unfoldable pub is_base64 : String → Bool
unfolding base64_from
is_base64 s = base64_from false s

unfoldable pub get_vault : (user_id : String) → Task Db (Option VaultRow)
get_vault user_id db = (first (λ v. v.user_id === user_id) db.vaults, db)

unfoldable pub insert_vault : VaultRow → Task Db Bool
insert_vault row db =
    if is_some (first (λ v. v.user_id === row.user_id) db.vaults)
    then (false, db)
    else (true, record db { vaults = db.vaults ++ row ∷ [] })

abbrev pub has_version : (user_id : String) → (version : ℕ) → VaultRow → Bool
has_version user_id version v = v.user_id === user_id && v.version == version

-- `user_id` is the primary key, so one row is changed at most.
unfoldable pub update_vault : VaultRow → (expected : ℕ) → Task Db Bool
update_vault row expected db = (
  is_some (first (has_version row.user_id expected) db.vaults),
  record db { vaults = map (λ v. if has_version row.user_id expected v then row else v) db.vaults },
)

abbrev pub base64_field : (value : Option String) → (cap : ℕ) → Option String
base64_field none cap = none
base64_field (some value) cap =
    if value === ""
    then none
    else if not (leb (units value) (cap * 2))
    then none
    else if is_base64 value
    then some value
    else none

abbrev pub opaque_field : (value : Option String) → (max : ℕ) → Option String
opaque_field none max = none
opaque_field (some value) max =
    if value === ""
    then none
    else if not (leb (units value) max)
    then none
    else if no_control value
    then some value
    else none

abbrev pub version_field : Option Fields → Option ℕ
version_field none = none
version_field (some fields) = elim (lookup "version" fields) [ some (number n) ↦ some n | _ ↦ none ]

pub record VaultBody : Type 0 where
  pub ciphertext : String
  pub nonce : String
  pub kdf : String
  pub version : ℕ

unfoldable pub parse_vault_body : Option Fields → Option VaultBody
unfolding units is_base64 no_control lookup
parse_vault_body body = elim (base64_field (text_value "ciphertext" body) vault_max_bytes) [
  | none ↦ none
  | some ciphertext ↦ elim (base64_field (text_value "nonce" body) vault_nonce_max) [
    | none ↦ none
    | some nonce ↦ elim (opaque_field (text_value "kdf" body) vault_kdf_max) [
      | none ↦ none
      | some kdf ↦ elim (version_field body) [
        | none ↦ none
        | some version ↦
            some (record { ciphertext = ciphertext; nonce = nonce; kdf = kdf; version = version })
      ]
    ]
  ]
]

abbrev pub row_of : (user_id : String) → (now : ℕ) → VaultBody → VaultRow
row_of user_id now body = record {
  user_id = user_id;
  ciphertext = body.ciphertext;
  nonce = body.nonce;
  kdf = body.kdf;
  version = body.version + 1;
  updated_at = now;
}

abbrev pub swap : (user_id : String) → (now : ℕ) → VaultBody → Task Db Bool
swap user_id now body =
    if body.version == 0
    then insert_vault (row_of user_id now body)
    else update_vault (row_of user_id now body) body.version

abbrev pub version_of : Option VaultRow → ℕ
version_of none = 0
version_of (some row) = row.version

unfoldable pub store_vault : Env → (user_id : String) → (now : ℕ) → VaultBody → Task Db Reply
unfolding insert_vault update_vault get_vault ◌>>=◌
store_vault env user_id now body = do
  won ← await env.others (swap user_id now body)
  if won then pure (Account.stored (body.version + 1)) else do
    current ← await env.others (get_vault user_id)
    pure (Account.stale (version_of current))

abbrev pub is_oversize : Env → Request → Bool
is_oversize env req = elim (text_value "ciphertext" req.body) [
  | none ↦ false
  | some s ↦ not (leb (length (env.utf8 s)) vault_max_bytes)
]

unfoldable pub write_vault : Env → Request → Task Db Reply
unfolding resolve_identity parse_vault_body store_vault ◌>>=◌
write_vault env req = with_identity env req λ user_id.
    if is_oversize env req
    then pure Account.too_large
    else maybe (parse_vault_body req.body) (pure Account.bad_token)
        λ body. store_vault env user_id req.now body

unfoldable pub read_vault : Env → Request → Task Db Reply
unfolding resolve_identity get_vault ◌>>=◌
read_vault env req = with_identity env req λ user_id. do
  row ← await env.others (get_vault user_id)
  pure (elim row [ none ↦ Account.no_vault | some v ↦ Account.vault v ])
