-- ===== src/Store/Alarms.antt =====
-- The table of deadlines and the platform alarm (memory-store.ts, alarms.ts).
use pairfob.Prelude.{
  ℕ, ◌+◌, ◌≤◌, ◌<◌, ◌≡◌, refl, String, Bool, false, not, Option, none, some, List, [], ◌∷◌, ◌++◌,
  arith, leb, keep, count, All, min, eq_refl,
}
use pairfob.Store.{
  Store, AlarmRow, AlarmKind, is_alarm, min_at, due_alarms, upsert_alarm, delete_alarms_by_kind_ref,
  delete_alarm_ids, has_id, set_alarm_if_changed,
}

-- Ids rise along the table and stay under the next one to be given.
abbrev pub Rising : ℕ → ℕ → List AlarmRow → Type 0
Rising lo hi [] = lo ≤ hi
Rising lo hi (a ∷ rest) = (lo ≤ a.id) × (a.id < hi) × Rising (a.id + 1) hi rest

abbrev pub IsNumbered : Store → Type 0
IsNumbered s = Rising 0 s.next_alarm_id s.alarms

Rising-weaken : (lo lo' hi : ℕ) (xs : List AlarmRow) → lo' ≤ lo → Rising lo hi xs → Rising lo' hi xs
Rising-weaken lo lo' hi [] h r = omega arith
Rising-weaken lo lo' hi (a ∷ xs) h r = (omega arith, r.1, r.2)

Rising-keep :
    (p : AlarmRow → Bool) (lo hi : ℕ) (xs : List AlarmRow)
    → Rising lo hi xs
    → Rising lo hi (keep p xs)
Rising-keep p lo hi [] r = r
Rising-keep p lo hi (a ∷ xs) r =
    let rest = Rising-keep p (a.id + 1) hi xs r.2 in
    ground (arith, rest, Rising-weaken (a.id + 1) lo hi (keep p xs) (omega arith) rest)

Rising-snoc :
    (lo hi : ℕ) (xs : List AlarmRow) (a : AlarmRow)
    → a.id ≡ hi
    → Rising lo hi xs
    → Rising lo (hi + 1) (xs ++ a ∷ [])
Rising-snoc lo hi [] a e r = omega arith
Rising-snoc lo hi (x ∷ xs) a e r = (r.0, omega arith, Rising-snoc (x.id + 1) hi xs a e r.2)

pub upsert_alarm-IsNumbered :
    (s : Store) (kind : AlarmKind) (ref : String) (at : ℕ)
    → IsNumbered s
    → IsNumbered (upsert_alarm s kind ref at)
unfolding upsert_alarm
upsert_alarm-IsNumbered s kind ref at n =
    Rising-snoc 0 s.next_alarm_id _ _ refl (Rising-keep _ 0 s.next_alarm_id s.alarms n)

pub delete_alarm_ids-IsNumbered :
    (s : Store) (ids : List ℕ) → IsNumbered s → IsNumbered (delete_alarm_ids s ids)
unfolding delete_alarm_ids
delete_alarm_ids-IsNumbered s ids n = Rising-keep _ 0 s.next_alarm_id s.alarms n

pub delete_alarms_by_kind_ref-IsNumbered :
    (s : Store) (kind : AlarmKind) (ref : String)
    → IsNumbered s
    → IsNumbered (delete_alarms_by_kind_ref s kind ref)
unfolding delete_alarms_by_kind_ref
delete_alarms_by_kind_ref-IsNumbered s kind ref n = Rising-keep _ 0 s.next_alarm_id s.alarms n

-- How many rows stand under a kind and a reference.
abbrev pub rows_of : AlarmKind → String → Store → ℕ
rows_of kind ref s = count (is_alarm kind ref) s.alarms

count-keep-not : (p : AlarmRow → Bool) (xs : List AlarmRow) → count p (keep (λ a. not (p a)) xs) ≡ 0
count-keep-not p [] = refl
count-keep-not p (a ∷ xs) = ground (arith, count-keep-not p xs)

count-snoc :
    (p : AlarmRow → Bool) (xs : List AlarmRow) (a : AlarmRow)
    → count p (xs ++ a ∷ []) ≡ count p xs + count p (a ∷ [])
count-snoc p [] a = omega arith
count-snoc p (x ∷ xs) a = ground (arith, count-snoc p xs a)

-- A deadline that is set again replaces the old one: one row stands under its kind and reference.
pub rows_of-upsert_alarm :
    (s : Store) (kind : AlarmKind) (ref : String) (at : ℕ)
    → rows_of kind ref (upsert_alarm s kind ref at) ≡ 1
unfolding upsert_alarm
rows_of-upsert_alarm s kind ref at =
    let row : AlarmRow = record { id = s.next_alarm_id; at = at; kind = kind; ref = ref } in
    ground (
      arith,
      count-snoc (is_alarm kind ref) (keep (λ a. not (is_alarm kind ref a)) s.alarms) row,
      count-keep-not (is_alarm kind ref) s.alarms,
      eq_refl ref,
    )

-- The least deadline is one of the table, and bounds all of it.
abbrev pub IsLeast : Option ℕ → List AlarmRow → Type 0
IsLeast none xs = xs ≡ []
IsLeast (some m) xs = All (λ a. m ≤ a.at) xs

All-le : (m n : ℕ) (xs : List AlarmRow) → m ≤ n → All (λ a. n ≤ a.at) xs → All (λ a. m ≤ a.at) xs
All-le m n [] h v = tt
All-le m n (a ∷ xs) h v = (omega arith, All-le m n xs h v.1)

min_at-cons :
    (a : AlarmRow) (o : Option ℕ) (xs : List AlarmRow)
    → IsLeast o xs
    → IsLeast (elim o [ none ↦ some a.at | some m ↦ some (min a.at m) ]) (a ∷ xs)
min_at-cons a none xs e = (omega arith, subst_all e)
  where
    subst_all : xs ≡ [] → All (λ x. a.at ≤ x.at) xs
    subst_all p = ground arith
min_at-cons a (some m) xs v = (omega arith, All-le (min a.at m) m xs (omega arith) v)

pub min_at-IsLeast : (xs : List AlarmRow) → IsLeast (min_at xs) xs
min_at-IsLeast [] = refl
min_at-IsLeast (a ∷ xs) = min_at-cons a (min_at xs) xs (min_at-IsLeast xs)

pub alarm-set_alarm_if_changed :
    (s : Store) (next : Option ℕ) → (set_alarm_if_changed s next).alarm ≡ next
unfolding set_alarm_if_changed
alarm-set_alarm_if_changed s none = refl
alarm-set_alarm_if_changed s (some at) = ground arith

pub alarms-set_alarm_if_changed :
    (s : Store) (next : Option ℕ) → (set_alarm_if_changed s next).alarms ≡ s.alarms
unfolding set_alarm_if_changed
alarms-set_alarm_if_changed s none = refl
alarms-set_alarm_if_changed s (some at) = ground arith

-- The ids of the due rows, as the harvest collects them.
abbrev pub ids_of : List AlarmRow → List ℕ
ids_of [] = []
ids_of (a ∷ rest) = a.id ∷ ids_of rest

has_id-below :
    (now lo hi i : ℕ) (xs : List AlarmRow)
    → Rising lo hi xs
    → i < lo
    → has_id (ids_of (keep (λ a. leb a.at now) xs)) i ≡ false
has_id-below now lo hi i [] r h = refl
has_id-below now lo hi i (a ∷ xs) r h =
    ground (arith, has_id-below now (a.id + 1) hi i xs r.2 (omega arith))

keep-has_id-cons :
    (j lo hi : ℕ) (ids : List ℕ) (xs : List AlarmRow)
    → Rising lo hi xs
    → j < lo
    → keep (λ a. not (has_id (j ∷ ids) a.id)) xs ≡ keep (λ a. not (has_id ids a.id)) xs
keep-has_id-cons j lo hi ids [] r h = refl
keep-has_id-cons j lo hi ids (a ∷ xs) r h =
    ground (arith, keep-has_id-cons j (a.id + 1) hi ids xs r.2 (omega arith))

pub harvest_rows :
    (now lo hi : ℕ) (xs : List AlarmRow)
    → Rising lo hi xs
    → keep (λ a. not (has_id (ids_of (keep (λ b. leb b.at now) xs)) a.id)) xs
      ≡ keep (λ a. not (leb a.at now)) xs
harvest_rows now lo hi [] r = refl
harvest_rows now lo hi (a ∷ xs) r = ground (
  arith,
  harvest_rows now (a.id + 1) hi xs r.2,
  has_id-below now (a.id + 1) hi a.id xs r.2 (omega arith),
  keep-has_id-cons a.id (a.id + 1) hi (ids_of (keep (λ b. leb b.at now) xs)) xs r.2 (omega arith),
)

-- Deleting the rows found due, by their ids, leaves exactly the rows that are not due.
pub delete_due :
    (s : Store) (now : ℕ)
    → IsNumbered s
    → (delete_alarm_ids s (ids_of (due_alarms s now))).alarms
      ≡ keep (λ a. not (leb a.at now)) s.alarms
unfolding delete_alarm_ids due_alarms
delete_due s now n = harvest_rows now 0 s.next_alarm_id s.alarms n
