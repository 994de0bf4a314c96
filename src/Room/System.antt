-- ===== src/Room/System.antt =====
-- workers/pairfob-origin/src/room/room.ts: the calls that the platform makes of a room, and the
-- rooms that they reach from a new one.
pub mod Reachable
use pairfob.Prelude.{
  ℕ, zero, suc, ◌+◌, ◌≡◌, String, Bool, true, false, not, Option, none, some, List, [], ◌∷◌, ◌==◌,
  if◌then◌else◌, keep,
}
use pairfob.Store.{Store}
use pairfob.Envelope.{Message}
use pairfob.Room.{Room, Socket, Env, modify}
use pairfob.Room.Core.{cold_start}
use pairfob.Room.Traffic.{on_close}
use pairfob.Room.Alarms.{alarm}
use pairfob.Room.Enrollment.{Answer, enroll, kick, abort_enroll, rekey}
use pairfob.Room.Gates.{issue_ticket, upgrade}
use pairfob.Room.Ws.{on_message}

-- What a new RoomCore holds: nothing but its id, its rows and what the platform gives it.
abbrev pub new_core : Room → Room
new_core r = record r {
  last_prune_at = 0;
  routes = [];
  daemon = none;
  reconnect_hash = "";
  grant_id = "";
  enrolled = false;
  fwd_bytes = 0;
  fwd_since_write = 0;
  close_count = 0;
  alarm_late_max_ms = 0;
  alarm_late_count = 0;
}

-- A room without a row, a socket or a socket's route.
unfoldable pub new_room : (daemon_id : String) → (has_index : Bool) → Room
new_room daemon_id has_index = record {
  daemon_id = daemon_id;
  has_index = has_index;
  clock = 0;
  draw = 0;
  store = record {
    alarm = none;
    meta = none;
    slot = none;
    tickets = [];
    alarms = [];
    next_alarm_id = 1;
    binds = [];
    gate_attempts = [];
  };
  last_prune_at = 0;
  sockets = [];
  routes = [];
  daemon = none;
  reconnect_hash = "";
  grant_id = "";
  enrolled = false;
  fwd_bytes = 0;
  fwd_since_write = 0;
  close_count = 0;
  alarm_late_max_ms = 0;
  alarm_late_count = 0;
  calls = [];
}

-- What the platform does to a room: it calls the room's handlers and methods, lets time pass, breaks
-- a connection, and stops listing a socket.
pub data Event : Type 0 where
  message : (ws : ℕ) → Message → Event
  closed : (ws : ℕ) → (reason : String) → Event
  alarm_fires : Event
  wakes : Event
  upgraded :
      (has_loc : Bool)
      → (role daemon_id : String) → (ticket : Option String) → (account owner : String) → Event
  ticket_wanted : (pair_loc : String) → Event
  enrolled_by : (hash grant_id : String) → Event
  aborted : (hash grant_id : String) → Event
  rekeyed : (old_hash new_hash : String) → Event
  kicked : Event
  passes : (ms : ℕ) → Event
  breaks : (ws : ℕ) → Event
  unlisted : (ws : ℕ) → Event

abbrev pub break_socket : Socket → Socket
break_socket s = record s { broken = true }

abbrev pub is_other : ℕ → Socket → Bool
is_other ws s = not (s.id == ws)

unfoldable pub step : Env → Event → Room → Room
unfolding on_message on_close alarm cold_start upgrade issue_ticket enroll abort_enroll rekey kick
step env (message ws m) r = on_message env ws m r
step env (closed ws reason) r = on_close ws reason r
step env alarm_fires r = alarm env r
step env wakes r = cold_start (new_core r)
step env (upgraded has_loc role daemon_id ticket account owner) r =
    (upgrade env has_loc role daemon_id ticket account owner r).room
step env (ticket_wanted pair_loc) r = (issue_ticket env pair_loc r).room
step env (enrolled_by hash grant_id) r = (enroll hash grant_id r).room
step env (aborted hash grant_id) r = (abort_enroll env hash grant_id r).room
step env (rekeyed old_hash new_hash) r = (rekey env old_hash new_hash r).room
step env kicked r = kick r
step env (passes ms) r = record r { clock = r.clock + ms }
step env (breaks ws) r = record r { sockets = modify ws break_socket r.sockets }
step env (unlisted ws) r = record r { sockets = keep (is_other ws) r.sockets }

-- A sequence of events.
unfoldable pub run : Env → List Event → Room → Room
unfolding step
run env [] r = r
run env (e ∷ es) r = run env es (step env e r)

-- While a handler awaits, the events that `plan` picks run, and while those await the ones it picks at
-- the next lower depth; at the depth 0 an await is not interrupted.
unfoldable pub nested : Env → (plan : ℕ → Room → List Event) → (depth : ℕ) → Env
unfolding run
nested base plan zero = record base { others = λ r. r }
nested base plan (suc depth) = record base {
  others = λ r. run (nested base plan depth) (plan depth r) r;
}
