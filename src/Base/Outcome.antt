-- ===== src/Base/Outcome.antt =====
-- Code that changes an object and may throw half-way.
-- `thrown a`: an exception left the object as `a`, with the changes made before it.
pub data Outcome {ℓ} (A : Type ℓ) : Type ℓ where
  ok : A → Outcome A
  thrown : A → Outcome A

infixl 5 ◌>>=◌
abbrev pub ◌>>=◌ {ℓ} : {A : Type ℓ} → Outcome A → (A → Outcome A) → Outcome A
ok a >>= f = f a
thrown a >>= f = thrown a

-- The object, whether or not the call threw.
abbrev pub object_of {ℓ} : {A : Type ℓ} → Outcome A → A
object_of (ok a) = a
object_of (thrown a) = a
