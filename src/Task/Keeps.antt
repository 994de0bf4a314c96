-- ===== src/Task/Keeps.antt =====
-- Invariants of handlers, one rule for each way to build one.
use pairfob.Prelude.{◌≡◌, Bool, true, false, if◌then◌else◌, if_rule, Option, none, some, maybe}
use pairfob.Task.{Task, pure, await, ◌>>=◌}

pub record Keeps {ℓ κ} {S A : Type ℓ} (P : S → Type κ) (m : Task S A) : Type (ℓ ⊔ κ) where
  pub at : (s : S) → P s → P (m s).1

module _ {ℓ κ} {S A : Type ℓ} {P : S → Type κ} where
  -- What is answered at once changes nothing.
  pub Keeps-pure : (answer : A) → Keeps P (pure answer)
  unfolding pure
  Keeps-pure answer = record { at = λ s held. held }

  pub Keeps-await :
      (others : S → S) (m : Task S A)
      → Keeps P m
      → ((s : S) → P s → P (others s))
      → Keeps P (await others m)
  unfolding await
  Keeps-await others m km ko = record { at = λ s h. ko (m s).1 (km.at s h) }

  -- Each branch may use how the test came out.
  pub Keeps-if :
      (test : Bool) (met unmet : Task S A)
      → (test ≡ true → Keeps P met)
      → (test ≡ false → Keeps P unmet)
      → Keeps P (if test then met else unmet)
  Keeps-if test met unmet = if_rule (Keeps P) test met unmet

module _ {ℓ κ} {S A B : Type ℓ} {P : S → Type κ} where
  pub Keeps-maybe :
      (o : Option B) (n : Task S A) (f : B → Task S A)
      → Keeps P n
      → ((b : B) → Keeps P (f b))
      → Keeps P (maybe o n f)
  Keeps-maybe none n f kn kf = kn
  Keeps-maybe (some b) n f kn kf = kf b

  -- The rest of the handler may use what the invariant says of the result.
  pub Keeps-bind_result :
      (first : Task S A) (rest : A → Task S B)
      → Keeps P first
      → ((s : S) → P s → Keeps P (rest (first s).0))
      → Keeps P (first >>= rest)
  unfolding ◌>>=◌
  Keeps-bind_result first rest kept then_kept = record {
    at = λ s h. (then_kept s h).at (first s).1 (kept.at s h);
  }

  pub Keeps-bind :
      (first : Task S A) (rest : A → Task S B)
      → Keeps P first
      → ((a : A) → Keeps P (rest a))
      → Keeps P (first >>= rest)
  Keeps-bind first rest kept then_kept =
      Keeps-bind_result first rest kept (λ s h. then_kept (first s).0)

  -- The answer of what keeps no state of ours is the one that was given.
  pub Keeps-answer :
      (others : S → S) (b : A) (f : A → Task S B)
      → Keeps P (f b)
      → ((s : S) → P s → P (others s))
      → Keeps P (await others (pure b) >>= f)
  unfolding await pure ◌>>=◌
  Keeps-answer others b f kept ko = record { at = λ s h. kept.at (others s) (ko s h) }

pub ruleset keeps_rules = (Keeps-pure, Keeps-await, Keeps-if, Keeps-maybe, Keeps-bind)
