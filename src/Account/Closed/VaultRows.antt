-- ===== src/Account/Closed/VaultRows.antt =====
-- Counting the rows of vaults: of an account, at a version, and at it or below.
use pairfob.Prelude.{
  ℕ, ◌+◌, ◌≤◌, ◌<◌, ◌≡◌, refl, String, Bool, true, false, ◌&&◌, ◌===◌, List, [], ◌∷◌, map, arith,
  count, leb, if◌then◌else◌, eq_iff, count_mono,
}
use pairfob.Account.{VaultRow}
use pairfob.Account.Users.{first, is_some}
use pairfob.Account.Vault.{has_version}

abbrev pub is_of : String → VaultRow → Bool
is_of user_id v = v.user_id === user_id

-- A row of the account at the version or below it.
abbrev pub is_old : String → ℕ → VaultRow → Bool
is_old user_id version v = v.user_id === user_id && leb v.version version

pub none_of :
    (user_id : String) (rows : List VaultRow)
    → is_some (first (is_of user_id) rows) ≡ false
    → count (is_of user_id) rows ≡ 0
none_of user_id [] h = refl
none_of user_id (v ∷ rows) h = ground (arith, none_of user_id rows)

pub some_of :
    (user_id : String) (rows : List VaultRow)
    → is_some (first (is_of user_id) rows) ≡ true
    → 0 < count (is_of user_id) rows
some_of user_id [] h = absurd (ground arith)
some_of user_id (v ∷ rows) h = ground (arith, some_of user_id rows)

-- A swap leaves every account as many rows as it had.
pub count-swap :
    (user_id : String) (row : VaultRow) (expected : ℕ) (rows : List VaultRow)
    → count (is_of user_id) (map (λ v. if has_version row.user_id expected v then row else v) rows)
      ≡ count (is_of user_id) rows
count-swap user_id row expected [] = refl
count-swap user_id row expected (v ∷ rows) = ground (
  arith,
  count-swap user_id row expected rows,
  eq_iff v.user_id row.user_id,
  eq_iff v.user_id user_id,
  eq_iff row.user_id user_id,
)

-- What is past a version stays so under a swap to a later one.
pub past-swap :
    (user_id : String) (version : ℕ) (row : VaultRow) (expected : ℕ) (rows : List VaultRow)
    → row.version ≡ expected + 1
    → count (is_old user_id version) rows ≡ 0
    → count
        (is_old user_id version)
        (map (λ v. if has_version row.user_id expected v then row else v) rows)
      ≡ 0
past-swap user_id version row expected [] e h = refl
past-swap user_id version row expected (v ∷ rows) e h = ground (
  arith,
  past-swap user_id version row expected rows e,
  eq_iff v.user_id row.user_id,
  eq_iff v.user_id user_id,
  eq_iff row.user_id user_id,
)

-- No more rows of a version than rows.
pub versioned_le :
    (user_id : String) (version : ℕ) (rows : List VaultRow)
    → count (has_version user_id version) rows ≤ count (is_of user_id) rows
versioned_le user_id version rows =
    count_mono (has_version user_id version) (is_of user_id) rows (λ v h. ground arith)

pub old_le :
    (user_id : String) (version : ℕ) (rows : List VaultRow)
    → count (is_old user_id version) rows ≤ count (is_of user_id) rows
old_le user_id version rows =
    count_mono (is_old user_id version) (is_of user_id) rows (λ v h. ground arith)

-- Where every row of the account has the version, a swap leaves none at it or below.
pub swap_clears :
    (user_id : String) (version : ℕ) (row : VaultRow) (rows : List VaultRow)
    → row.user_id ≡ user_id
    → row.version ≡ version + 1
    → count (is_of user_id) rows ≤ count (has_version user_id version) rows
    → count
        (is_old user_id version)
        (map (λ v. if has_version user_id version v then row else v) rows)
      ≡ 0
swap_clears user_id version row [] e f h = refl
swap_clears user_id version row (v ∷ rows) e f h = ground (
  arith,
  swap_clears user_id version row rows e f,
  versioned_le user_id version rows,
  eq_iff v.user_id user_id,
  eq_iff row.user_id user_id,
)

pub versioned_of :
    (user_id : String) (version : ℕ) (rows : List VaultRow)
    → is_some (first (has_version user_id version) rows) ≡ true
    → 0 < count (has_version user_id version) rows
versioned_of user_id version [] h = absurd (ground arith)
versioned_of user_id version (v ∷ rows) h = ground (arith, versioned_of user_id version rows)

pub none_versioned :
    (user_id : String) (version : ℕ) (rows : List VaultRow)
    → count (has_version user_id version) rows ≡ 0
    → is_some (first (has_version user_id version) rows) ≡ false
none_versioned user_id version [] h = refl
none_versioned user_id version (v ∷ rows) h = ground (arith, none_versioned user_id version rows)
