-- ===== src/Gate/Window.antt =====
-- GateThrottle.check and record: what the ledger decides, and what a sweep may forget.
use pairfob.Prelude.{
  ℕ, ◌+◌, ◌-◌, ◌≤◌, ◌≡◌, refl, ◌∙◌, ap, Bool, true, false, List, [], ◌∷◌, ◌++◌, arith, leb, ltb,
  keep, Bool-cases, inl, inr,
}
use pairfob.Store.{
  Store, GateAttempt, Failures, tally, tally_all, gate_failures_since, record_gate_attempt,
  prune_gate_attempts,
}
use pairfob.Gate.{
  GateThrottle, check, maybe_prune, record_attempt, decide_gate, gate_window_ms, gate_free_attempts,
}
use pairfob.Gate.Cooldown.{gate_cooldown_mono, gate_cooldown_pos, gate_cooldown_free}

tally_all-append :
    (since : ℕ) (f : Failures) (xs ys : List GateAttempt)
    → tally_all since f (xs ++ ys) ≡ tally_all since (tally_all since f xs) ys
tally_all-append since f [] ys = refl
tally_all-append since f (a ∷ xs) ys = tally_all-append since (tally since f a) xs ys

-- Attempts before the window weigh nothing, so dropping some of them changes no tally.
tally_all-keep :
    (before since : ℕ) (f : Failures) (xs : List GateAttempt)
    → before ≤ since
    → tally_all since f (keep (λ a. leb before a.at) xs) ≡ tally_all since f xs
tally_all-keep before since f [] h = refl
tally_all-keep before since f (a ∷ xs) h =
    ground (arith, tally_all-keep before since (tally since f a) xs h)

failures-prune :
    (s : Store) (before since : ℕ)
    → before ≤ since
    → gate_failures_since (prune_gate_attempts s before) since ≡ gate_failures_since s since
unfolding gate_failures_since prune_gate_attempts
failures-prune s before since h = tally_all-keep before since _ s.gate_attempts h

-- A later window holds no more failures, and its last one is no later.
record Fewer (f g : Failures) : Type 0 where
  count : f.count ≤ g.count
  last_at : f.last_at ≤ g.last_at

Fewer-tally :
    (early late : ℕ) (f g : Failures) (a : GateAttempt)
    → early ≤ late
    → Fewer f g
    → Fewer (tally late f a) (tally early g a)
Fewer-tally early late f g a h v = ground arith

Fewer-tally_all :
    (early late : ℕ) (f g : Failures) (xs : List GateAttempt)
    → early ≤ late
    → Fewer f g
    → Fewer (tally_all late f xs) (tally_all early g xs)
Fewer-tally_all early late f g [] h v = v
Fewer-tally_all early late f g (a ∷ xs) h v =
    Fewer-tally_all early late (tally late f a) (tally early g a) xs h
      (Fewer-tally early late f g a h v)

failures_later :
    (s : Store) (early late : ℕ)
    → early ≤ late
    → Fewer (gate_failures_since s late) (gate_failures_since s early)
unfolding gate_failures_since
failures_later s early late h =
    Fewer-tally_all early late _ _ s.gate_attempts h
      (record { count = omega arith; last_at = omega arith })

decide_gate_later :
    (f g : Failures) (now : ℕ)
    → Fewer f g
    → (decide_gate g now).allowed ≡ false
    → (decide_gate f (now + (decide_gate g now).retry_after_ms)).allowed ≡ true
decide_gate_later f g now v h = ground (arith, gate_cooldown_mono f.count g.count v.count)

pub check-prune :
    (s : Store) (swept now : ℕ)
    → swept ≤ now
    → check (prune_gate_attempts s (swept - gate_window_ms)) now ≡ check s now
unfolding check
check-prune s swept now h =
    ap (λ f. decide_gate f now)
      (failures-prune s (swept - gate_window_ms) (now - gate_window_ms) (omega arith))

-- The wait that a refusal names is enough: an attempt after it is allowed, if none is charged between.
pub retry_suffices :
    (s : Store) (now : ℕ)
    → (check s now).allowed ≡ false
    → (check s (now + (check s now).retry_after_ms)).allowed ≡ true
unfolding check
retry_suffices s now h =
    decide_gate_later _ _ now (failures_later s (now - gate_window_ms) _ (omega arith)) h

failures-record :
    (s : Store) (at since : ℕ) (ok : Bool)
    → gate_failures_since (record_gate_attempt s at ok) since
      ≡ tally since (gate_failures_since s since) (record { at = at; ok = ok })
unfolding gate_failures_since record_gate_attempt
failures-record s at since ok = tally_all-append since _ s.gate_attempts _

check-maybe_prune :
    (t : GateThrottle) (now : ℕ) → check (maybe_prune t now).store now ≡ check t.store now
unfolding maybe_prune
check-maybe_prune t now = elim (Bool-cases (ltb now (t.last_prune_at + 60000))) [
  | inl e ↦ rw e
  | inr e ↦ rw e (check-prune t.store now now (omega arith))
]

-- A success is logged and resets nothing: the verdict of the room is what it was.
pub check-record_success :
    (t : GateThrottle) (now : ℕ) → check (record_attempt t now true).store now ≡ check t.store now
unfolding record_attempt
check-record_success t now =
    check-maybe_prune _ now
    ∙ (unfold check in
        ap (λ f. decide_gate f now) (failures-record t.store now _ true ∙ ground arith))

-- A charged failure leaves the room open exactly while fewer than the free ones were in the window.
pub check-record_failure :
    (t : GateThrottle) (now : ℕ)
    → (check (record_attempt t now false).store now).allowed
      ≡ ltb (gate_failures_since t.store (now - gate_window_ms)).count gate_free_attempts
unfolding record_attempt
check-record_failure t now =
    ap (λ d. d.allowed) (check-maybe_prune _ now)
    ∙ (unfold check in
        rw (failures-record t.store now (now - gate_window_ms) false) (
          let n = (gate_failures_since t.store (now - gate_window_ms)).count in
          ground (arith, gate_cooldown_pos (n + 1), gate_cooldown_free (n + 1))))
