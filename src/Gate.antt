-- ===== src/Gate.antt =====
-- workers/pairfob-origin/src/room/gate-throttle.ts: the brute-force throttle of a room's gate. A
-- difference of times is compared with the subtrahend moved to the other side, so a clock that
-- steps back gives what the signed numbers of the source give.
pub mod Cooldown
pub mod Window
use pairfob.Prelude.{ℕ, ◌+◌, ◌-◌, ◌*◌, ◌^◌, Bool, true, false, ◌==◌, leb, ltb, min, if◌then◌else◌}
use pairfob.Store.{Store, Failures, gate_failures_since, record_gate_attempt, prune_gate_attempts}

abbrev pub gate_window_ms : ℕ
gate_window_ms = 60000

abbrev pub gate_free_attempts : ℕ
gate_free_attempts = 5

abbrev pub gate_cooldown_base_ms : ℕ
gate_cooldown_base_ms = 1000

abbrev pub gate_cooldown_max_ms : ℕ
gate_cooldown_max_ms = 60000

abbrev pub gate_retain_ms : ℕ
gate_retain_ms = gate_window_ms

abbrev pub gate_prune_interval_ms : ℕ
gate_prune_interval_ms = 60000

pub record GateDecision : Type 0 where
  pub allowed : Bool
  pub retry_after_ms : ℕ

unfoldable pub gate_cooldown_ms : ℕ → ℕ
gate_cooldown_ms failures =
    if leb failures gate_free_attempts
    then 0
    else min (gate_cooldown_base_ms * 2 ^ min (failures - gate_free_attempts - 1) 30)
        gate_cooldown_max_ms

abbrev allow_now : GateDecision
allow_now = record { allowed = true; retry_after_ms = 0 }

abbrev decide_gate : Failures → ℕ → GateDecision
decide_gate f now =
    let cooldown = gate_cooldown_ms f.count in
    if cooldown == 0
    then allow_now
    else if leb (cooldown + f.last_at) now
    then allow_now
    else record { allowed = false; retry_after_ms = cooldown + f.last_at - now }

-- No attempt is earlier than 0, so a window that would begin before 0 holds the same ones.
unfoldable pub check : Store → ℕ → GateDecision
check s now = decide_gate (gate_failures_since s (now - gate_window_ms)) now

-- The throttle of one room: the ledger is in the store, and only the time of the last sweep is its own.
pub record GateThrottle : Type 0 where
  pub store : Store
  pub last_prune_at : ℕ

unfoldable pub maybe_prune : GateThrottle → ℕ → GateThrottle
maybe_prune t now =
    if ltb now (t.last_prune_at + gate_prune_interval_ms)
    then t
    else record { store = prune_gate_attempts t.store (now - gate_retain_ms); last_prune_at = now }

unfoldable pub record_attempt : GateThrottle → ℕ → Bool → GateThrottle
unfolding maybe_prune
record_attempt t now ok = maybe_prune (record t { store = record_gate_attempt t.store now ok }) now
