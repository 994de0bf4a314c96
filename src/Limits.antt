-- ===== src/Limits.antt =====
-- workers/pairfob-origin/src/limits.ts: how often an address may enrol, ask and report. The bucket of
-- a key holds the times of its hits; `now - t < windowMs` is written without a subtraction.
pub mod Log
use pairfob.Prelude.{
  ℕ, ◌+◌, ◌*◌, String, Bool, true, false, Option, none, some, List, [], ◌∷◌, ◌++◌, leb, ltb,
  if◌then◌else◌, length, keep, Entries, lookup, insert,
}

abbrev pub Buckets : Type 0
Buckets = Entries (List ℕ)

pub record Limit : Type 0 where
  pub n : ℕ
  pub window_ms : ℕ

abbrev pub enroll_ip : Limit
enroll_ip = record { n = 5; window_ms = 60 * 60 * 1000 }

abbrev pub intent_ip : Limit
intent_ip = record { n = 10; window_ms = 10 * 60 * 1000 }

abbrev pub session_ip : Limit
session_ip = record { n = 60; window_ms = 60 * 1000 }

abbrev pub events_ip : Limit
events_ip = record { n = 60; window_ms = 60 * 1000 }

abbrev pub auth_ip : Limit
auth_ip = record { n = 120; window_ms = 10 * 60 * 1000 }

abbrev pub is_recent : (window_ms now : ℕ) → ℕ → Bool
is_recent window_ms now t = ltb now (t + window_ms)

-- buckets.get(key) ?? []
unfoldable pub hits_of : String → Buckets → List ℕ
hits_of key buckets = elim (lookup key buckets) [ none ↦ [] | some hits ↦ hits ]

pub record Verdict : Type 0 where
  pub allowed : Bool
  pub buckets : Buckets

unfoldable pub allow : String → (limit window_ms now : ℕ) → Buckets → Verdict
unfolding hits_of lookup insert
allow key limit window_ms now buckets =
    let hits = keep (is_recent window_ms now) (hits_of key buckets) in
    if leb limit (length hits)
    then record { allowed = false; buckets = insert key hits buckets }
    else record { allowed = true; buckets = insert key (hits ++ now ∷ []) buckets }

unfoldable pub reset_limits : Buckets → Buckets
reset_limits buckets = []

-- allowEnrollIP, allowIntentIP, allowSessionIP, allowEventsIP and allowAuthIP: `key` is the address
-- behind the prefix of its limit.
unfoldable pub allow_ip : Limit → (key : String) → (now : ℕ) → Buckets → Verdict
unfolding allow
allow_ip limit key now buckets = allow key limit.n limit.window_ms now buckets
