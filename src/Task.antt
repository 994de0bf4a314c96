-- ===== src/Task.antt =====
-- Asynchronous handlers over a shared state. A handler runs alone but for its awaits: what another
-- request does in the meantime is a function on the state, put after the awaited statement.
pub mod Keeps
use mathlib.Core.Path.{◌≡◌, refl}

abbrev pub Task {ℓ} : Type ℓ → Type ℓ → Type ℓ
Task S A = S → A × S

module _ {ℓ} {S A : Type ℓ} where
  pub pure : A → Task S A
  pure a s = (a, s)

  -- `await statement`
  unfoldable pub await : (others : S → S) → Task S A → Task S A
  await others m s = let (a, s') = m s in (a, others s')

module _ {ℓ} {S A B : Type ℓ} where
  infixl 10 ◌>>=◌ ◌>>◌
  -- opening this opens `pure` and `await` too
  unfoldable pub ◌>>=◌ : Task S A → (A → Task S B) → Task S B
  unfolding pure await
  ◌>>=◌ m f s = let (a, s') = m s in f a s'

  abbrev pub ◌>>◌ : Task S A → Task S B → Task S B
  m >> n = m >>= λ _. n
