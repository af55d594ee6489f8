-- ===== src/Base/Results.antt =====
-- What a run of C code comes to: it returns, or its behaviour is undefined.

-- `undefined`: the run reads or writes outside an object, or branches on an indeterminate value.
pub data Outcome {ℓ} (A : Type ℓ) : Type ℓ where
  done : A → Outcome A
  undefined : Outcome A

infixl 5 ◌>>=◌
abbrev pub ◌>>=◌ {ℓ κ} : {A : Type ℓ} {B : Type κ} → Outcome A → (A → Outcome B) → Outcome B
done a >>= f = f a
undefined >>= f = undefined
