-- ===== src/Base/Outcome.antt =====
-- `Result` of the standard library, and what can become of an asynchronous call.

pub data Result {ℓ κ} (E : Type ℓ) (A : Type κ) : Type (ℓ ⊔ κ) where
  ok : A → Result E A
  err : E → Result E A

-- A call returns, panics, or waits for a lock that is never given free.
pub data Task {ℓ} (A : Type ℓ) : Type ℓ where
  done : A → Task A
  panicked : Task A
  blocked : Task A

infixl 5 ◌>>=◌
abbrev pub ◌>>=◌ {ℓ κ} : {A : Type ℓ} {B : Type κ} → Task A → (A → Task B) → Task B
done a >>= f = f a
panicked >>= f = panicked
blocked >>= f = blocked
