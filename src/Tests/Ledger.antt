-- ===== src/Tests/Ledger.antt =====
-- Runs of the theorems on the rows and the throttle of a room.
use pairfob.Prelude.{ℕ, ◌+◌, ◌-◌, ◌≡◌, refl, true, false, [], ◌∷◌, ltb}
use pairfob.Store.{Store, GateAttempt, empty_store, gate_failures_since}
use pairfob.Gate.{
  check, GateThrottle, record_attempt, gate_cooldown_ms, gate_window_ms, gate_free_attempts,
}
use pairfob.Gate.Window.{retry_suffices, check-record_failure}

abbrev miss : ℕ → GateAttempt
miss at = record { at = at; ok = false }

-- Seven failures in the window: the room is in cooldown for two seconds.
abbrev pub guessed : Store
guessed = record empty_store {
  gate_attempts =
      miss 100
      ∷ miss 200
      ∷ miss 300
      ∷ miss 400
      ∷ miss 500
      ∷ miss 600
      ∷ miss 70000
      ∷ miss 70100
      ∷ miss 70200
      ∷ miss 70300
      ∷ miss 70400
      ∷ miss 70500
      ∷ miss 70600
      ∷ [];
}

retry_suffices_example :
    (check guessed (71000 + (check guessed 71000).retry_after_ms)).allowed ≡ true
unfolding check gate_failures_since gate_cooldown_ms
retry_suffices_example = retry_suffices guessed 71000 refl

abbrev throttle : GateThrottle
throttle = record { store = guessed; last_prune_at = 0 }

check-record_failure_example :
    (check (record_attempt throttle 71000 false).store 71000).allowed
    ≡ ltb (gate_failures_since guessed (71000 - gate_window_ms)).count gate_free_attempts
check-record_failure_example = check-record_failure throttle 71000
