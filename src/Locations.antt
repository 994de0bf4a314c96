-- ===== src/Locations.antt =====
-- workers/pairfob-origin/src/index/pairing-index.ts: who holds a pairing location. A durable object
-- keeps its rows in a map and, where it has one, in a table; `now` is the clock at the request.
pub mod Holder
pub mod Table
use pairfob.Prelude.{
  ℕ, ◌+◌, String, Bool, true, false, not, ◌&&◌, ◌||◌, Option, none, some, List, [], ◌∷◌, ◌===◌, leb,
  if◌then◌else◌, Entries, lookup, insert, delete,
}
use pairfob.Crockford.{normalize_text}
use pairfob.Json.{Fields, text_field, number_field}

pub record LocRow : Type 0 where
  pub pair_loc : String
  pub daemon_id : String
  pub pair_ref : String
  pub exp : ℕ

-- The table is keyed by its primary key; without `persist` there is none.
pub record IndexCore : Type 0 where
  pub rows : Entries LocRow
  pub saved : Option (Entries LocRow)

-- persist?.put(row)
abbrev pub persist_put : LocRow → Option (Entries LocRow) → Option (Entries LocRow)
persist_put row none = none
persist_put row (some table) = some (insert row.pair_loc row table)

-- persist?.delete(loc)
abbrev pub persist_delete : String → Option (Entries LocRow) → Option (Entries LocRow)
persist_delete loc none = none
persist_delete loc (some table) = some (delete loc table)

-- The rows of persist.load(), set one by one.
abbrev pub set_all : Entries LocRow → Entries LocRow → Entries LocRow
set_all [] rows = rows
set_all ((key, row) ∷ loaded) rows = set_all loaded (insert key row rows)

-- The constructor, with an empty map.
unfoldable pub new_index : Option (Entries LocRow) → IndexCore
unfolding insert
new_index none = record { rows = []; saved = none }
new_index (some table) = record { rows = set_all table []; saved = some table }

pub record Looked : Type 0 where
  pub core : IndexCore
  pub row : Option LocRow

unfoldable pub lookup_loc : (now : ℕ) → String → IndexCore → Looked
unfolding lookup delete
lookup_loc now loc core = elim (lookup loc core.rows) [
  | none ↦ record { core = core; row = none }
  | some row ↦
      if leb row.exp now
      then record {
        core = record { rows = delete loc core.rows; saved = persist_delete loc core.saved };
        row = none;
      }
      else record { core = core; row = some row }
]

pub record Inserted : Type 0 where
  pub core : IndexCore
  pub ok : Bool

abbrev pub put_row : LocRow → IndexCore → IndexCore
put_row row core = record {
  rows = insert row.pair_loc row core.rows;
  saved = persist_put row core.saved;
}

abbrev pub owns : LocRow → (daemon_id pair_ref : String) → Bool
owns row daemon_id pair_ref = row.daemon_id === daemon_id && row.pair_ref === pair_ref

-- `existing.exp = row.exp` changes the row in the map.
unfoldable pub insert_loc : (now : ℕ) → LocRow → IndexCore → Inserted
unfolding lookup insert
insert_loc now row core = elim (lookup row.pair_loc core.rows) [
  | none ↦ record { core = put_row row core; ok = true }
  | some existing ↦
      if leb existing.exp now
      then record { core = put_row row core; ok = true }
      else if owns existing row.daemon_id row.pair_ref
      then (let renewed : LocRow = record existing { exp = row.exp } in
          record {
            core = record {
              rows = insert row.pair_loc renewed core.rows;
              saved = persist_put renewed core.saved;
            };
            ok = true;
          })
      else record { core = core; ok = false }
]

unfoldable pub remove_loc : String → (daemon_id pair_ref : String) → IndexCore → IndexCore
unfolding lookup delete
remove_loc loc daemon_id pair_ref core = elim (lookup loc core.rows) [
  | none ↦ core
  | some existing ↦
      if owns existing daemon_id pair_ref
      then record { rows = delete loc core.rows; saved = persist_delete loc core.saved }
      else core
]

-- A request with the fields of its body; without a JSON object there are none.
pub record Request : Type 0 where
  pub path : String
  pub method : String
  pub body : Fields
  pub now : ℕ

-- found answers 200 with the row, unpaired and unbound 404, done 200, conflict 409.
pub data Reply : Type 0 where
  found : LocRow → Reply
  unpaired done conflict unbound : Reply

pub record Answer : Type 0 where
  pub core : IndexCore
  pub reply : Reply

abbrev pub loc_of : Request → String
loc_of q =
    let raw = text_field "pair_loc" (some q.body) in
    elim (normalize_text raw) [ none ↦ raw | some loc ↦ loc ]

abbrev pub daemon_of : Request → String
daemon_of q = text_field "daemon_id" (some q.body)

abbrev pub ref_of : Request → String
ref_of q = text_field "pair_ref" (some q.body)

abbrev pub posts : Request → String → Bool
posts q path = q.path === path && q.method === "POST"

abbrev pub row_of : Request → LocRow
row_of q = record {
  pair_loc = loc_of q;
  daemon_id = daemon_of q;
  pair_ref = ref_of q;
  exp = number_field "exp" 0 (some q.body);
}

abbrev pub answer_lookup : Looked → Answer
answer_lookup looked = record {
  core = looked.core;
  reply = elim looked.row [ none ↦ unpaired | some row ↦ found row ];
}

abbrev pub answer_insert : Inserted → Answer
answer_insert inserted = record {
  core = inserted.core;
  reply = if inserted.ok then done else conflict;
}

unfoldable pub fetch : Request → IndexCore → Answer
unfolding lookup_loc insert_loc remove_loc normalize_text text_field number_field
fetch q core =
    if posts q "/lookup"
    then answer_lookup (lookup_loc q.now (loc_of q) core)
    else if posts q "/insert"
    then answer_insert (insert_loc q.now (row_of q) core)
    else if posts q "/delete"
    then record { core = remove_loc (loc_of q) (daemon_of q) (ref_of q) core; reply = done }
    else record { core = core; reply = unbound }

unfoldable pub fetch_all : List Request → IndexCore → IndexCore
unfolding fetch
fetch_all [] core = core
fetch_all (q ∷ rest) core = fetch_all rest (fetch q core).core
