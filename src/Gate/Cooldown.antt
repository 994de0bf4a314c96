-- ===== src/Gate/Cooldown.antt =====
-- gateCooldownMs: the backoff for a number of failures.
use native.Mathlib.Nat.{one-le-pow, pow-le-pow_right}
use pairfob.Prelude.{ℕ, ◌-◌, ◌^◌, ◌≤◌, ◌<◌, ◌≡◌, arith, min}
use pairfob.Gate.{gate_cooldown_ms, gate_free_attempts, gate_cooldown_max_ms}

two_pow_mono : (a b : ℕ) → a ≤ b → 2 ^ a ≤ 2 ^ b
two_pow_mono a b h = pow-le-pow_right (omega arith) h

pub gate_cooldown_pos : (n : ℕ) → gate_free_attempts < n → 0 < gate_cooldown_ms n
unfolding gate_cooldown_ms
gate_cooldown_pos n h = ground (arith, one-le-pow (min (n - 5 - 1) 30) 2)

pub gate_cooldown-le-max : (n : ℕ) → gate_cooldown_ms n ≤ gate_cooldown_max_ms
unfolding gate_cooldown_ms
gate_cooldown-le-max n = ground arith

pub gate_cooldown_free : (n : ℕ) → n ≤ gate_free_attempts → gate_cooldown_ms n ≡ 0
unfolding gate_cooldown_ms
gate_cooldown_free n h = ground arith

pub gate_cooldown_mono : (m n : ℕ) → m ≤ n → gate_cooldown_ms m ≤ gate_cooldown_ms n
unfolding gate_cooldown_ms
gate_cooldown_mono m n h =
    ground (arith, two_pow_mono (min (m - 5 - 1) 30) (min (n - 5 - 1) 30) (omega arith))

-- Past the sixth failure beyond the free ones the wait is the ceiling.
pub gate_cooldown_cap : (n : ℕ) → 12 ≤ n → gate_cooldown_ms n ≡ gate_cooldown_max_ms
unfolding gate_cooldown_ms
gate_cooldown_cap n h = ground (arith, two_pow_mono 6 (min (n - 5 - 1) 30) (omega arith))
