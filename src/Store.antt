-- ===== src/Store.antt =====
-- workers/pairfob-origin/src/room/types.ts (the rows) and memory-store.ts (RoomStore): the durable
-- state of a room. The counters in `stats` and the schema flag, which only tests read, are left out.
pub mod Alarms
pub mod Tickets
use pairfob.Prelude.{
  ℕ, ◌+◌, String, Bool, not, ◌&&◌, Option, none, some, List, [], ◌∷◌, ◌++◌, map, ◌==◌, ◌===◌, leb,
  ltb, if◌then◌else◌, keep, lookup, insert, delete, min,
}

pub data AlarmKind : Type 0 where
  hello_5s resume_15s pair_first_15s pair_confirm_30s pair_ttl ticket_15s : AlarmKind

pub record PairSlot : Type 0 where
  pub pair_ref : String
  pub pair_loc : String
  pub deadline : ℕ

pub record TicketRow : Type 0 where
  pub ticket : String
  pub pair_ref : String
  pub deadline : ℕ

pub record AlarmRow : Type 0 where
  pub id : ℕ
  pub at : ℕ
  pub kind : AlarmKind
  pub ref : String

pub record MetaRow : Type 0 where
  pub daemon_id : String
  pub reconnect_hash : String
  pub grant_id : String
  pub created_at : ℕ

pub record BindRow : Type 0 where
  pub route_id : String
  pub kind : String
  pub created_at : ℕ
  pub pair_ref : String

pub record GateAttempt : Type 0 where
  pub at : ℕ
  pub ok : Bool

-- `alarm` is the one platform alarm; `alarms` is the table of deadlines behind it.
pub record Store : Type 0 where
  pub alarm : Option ℕ
  pub meta : Option MetaRow
  pub slot : Option PairSlot
  pub tickets : List (String × TicketRow)
  pub alarms : List AlarmRow
  pub next_alarm_id : ℕ
  pub binds : List (String × BindRow)
  pub gate_attempts : List GateAttempt

abbrev pub empty_store : Store
empty_store = record {
  alarm = none;
  meta = none;
  slot = none;
  tickets = [];
  alarms = [];
  next_alarm_id = 1;
  binds = [];
  gate_attempts = [];
}

-- `===` on the union of alarm kinds
abbrev pub alarm_code : AlarmKind → ℕ
alarm_code hello_5s = 0
alarm_code resume_15s = 1
alarm_code pair_first_15s = 2
alarm_code pair_confirm_30s = 3
alarm_code pair_ttl = 4
alarm_code ticket_15s = 5

abbrev pub is_alarm : AlarmKind → String → AlarmRow → Bool
is_alarm kind ref a = alarm_code a.kind == alarm_code kind && a.ref === ref

-- A platform alarm is written only where the next deadline differs from it.
unfoldable pub set_alarm_if_changed : Store → Option ℕ → Store
set_alarm_if_changed s none = record s { alarm = none }
set_alarm_if_changed s (some at) = elim s.alarm [
  | none ↦ record s { alarm = some at }
  | some cur ↦ if cur == at then s else record s { alarm = some at }
]

unfoldable pub load_meta : Store → Option MetaRow
load_meta s = s.meta

unfoldable pub put_meta : Store → MetaRow → Store
put_meta s row = record s { meta = some row }

unfoldable pub delete_meta : Store → Store
delete_meta s = record s { meta = none }

unfoldable pub set_reconnect_hash : Store → String → Store
set_reconnect_hash s hash = elim s.meta [
  | none ↦ s
  | some m ↦ record s { meta = some (record m { reconnect_hash = hash }) }
]

unfoldable pub clear_reconnect_hash : Store → Store
clear_reconnect_hash s = elim s.meta [
  | none ↦ s
  | some m ↦ record s { meta = some (record m { reconnect_hash = "" }) }
]

unfoldable pub load_slot : Store → Option PairSlot
load_slot s = s.slot

unfoldable pub put_slot : Store → PairSlot → Store
put_slot s slot = record s { slot = some slot }

unfoldable pub delete_slot : Store → Store
delete_slot s = record s { slot = none }

unfoldable pub insert_ticket : Store → TicketRow → Store
insert_ticket s row = record s { tickets = insert row.ticket row s.tickets }

unfoldable pub consume_ticket : Store → String → ℕ → Store × Option TicketRow
consume_ticket s ticket now = elim (lookup ticket s.tickets) [
  | none ↦ (s, none)
  | some row ↦
      if leb row.deadline now
      then (s, none)
      else (record s { tickets = delete ticket s.tickets }, some row)
]

unfoldable pub expire_tickets : Store → ℕ → Store
expire_tickets s now = record s { tickets = keep (λ kv. ltb now kv.1.deadline) s.tickets }

unfoldable pub upsert_alarm : Store → AlarmKind → String → ℕ → Store
upsert_alarm s kind ref at = record s {
  alarms = keep (λ a. not (is_alarm kind ref a)) s.alarms ++ row ∷ [];
  next_alarm_id = s.next_alarm_id + 1;
}
  where
    row : AlarmRow
    row = record { id = s.next_alarm_id; at = at; kind = kind; ref = ref }

unfoldable pub delete_alarms_by_kind_ref : Store → AlarmKind → String → Store
delete_alarms_by_kind_ref s kind ref = record s {
  alarms = keep (λ a. not (is_alarm kind ref a)) s.alarms;
}

-- new Set(ids).has(id)
abbrev pub has_id : List ℕ → ℕ → Bool
has_id [] i = Bool.false
has_id (j ∷ js) i = if j == i then Bool.true else has_id js i

unfoldable pub delete_alarm_ids : Store → List ℕ → Store
delete_alarm_ids s ids = record s { alarms = keep (λ a. not (has_id ids a.id)) s.alarms }

-- Math.min over the deadlines
abbrev pub min_at : List AlarmRow → Option ℕ
min_at [] = none
min_at (a ∷ rest) = elim (min_at rest) [ none ↦ some a.at | some m ↦ some (min a.at m) ]

unfoldable pub min_alarm_at : Store → Option ℕ
min_alarm_at s = min_at s.alarms

unfoldable pub due_alarms : Store → ℕ → List AlarmRow
due_alarms s now = keep (λ a. leb a.at now) s.alarms

unfoldable pub upsert_bind : Store → BindRow → Store
upsert_bind s row = record s { binds = insert row.route_id row s.binds }

unfoldable pub delete_bind_row : Store → String → Store
delete_bind_row s route_id = record s { binds = delete route_id s.binds }

-- liveRouteIds.has(route)
abbrev pub has_text : List String → String → Bool
has_text [] t = Bool.false
has_text (u ∷ us) t = if u === t then Bool.true else has_text us t

unfoldable pub delete_ghost_binds : Store → List String → Store
delete_ghost_binds s live = record s { binds = keep (λ kv. has_text live kv.0) s.binds }

unfoldable pub record_gate_attempt : Store → ℕ → Bool → Store
record_gate_attempt s at ok = record s {
  gate_attempts = s.gate_attempts ++ record { at = at; ok = ok } ∷ [];
}

pub record Failures : Type 0 where
  pub count : ℕ
  pub last_at : ℕ

-- one round of the loop of `gateFailuresSince`
abbrev pub tally : ℕ → Failures → GateAttempt → Failures
tally since f a =
    if leb since a.at && not a.ok
    then record { count = f.count + 1; last_at = if ltb f.last_at a.at then a.at else f.last_at }
    else f

abbrev pub tally_all : ℕ → Failures → List GateAttempt → Failures
tally_all since f [] = f
tally_all since f (a ∷ rest) = tally_all since (tally since f a) rest

unfoldable pub gate_failures_since : Store → ℕ → Failures
gate_failures_since s since = tally_all since (record { count = 0; last_at = 0 }) s.gate_attempts

unfoldable pub prune_gate_attempts : Store → ℕ → Store
prune_gate_attempts s before = record s {
  gate_attempts = keep (λ a. leb before a.at) s.gate_attempts;
}
