-- ===== src/Erasure/Outcome.antt =====
-- What the erasure code returns or throws.
use ccn.Prelude.{Option, none, some}

pub data Failure : Type 0 where
  k_below_one m_below_one too_many_shards : Failure
  wrong_data_count unequal_data wrong_slot_count unequal_shards too_few_shards : Failure
  singular field_error : Failure

pub data Outcome {ℓ} (A : Type ℓ) : Type ℓ where
  ok : A → Outcome A
  fail : Failure → Outcome A

infixl 5 ◌>>=◌
abbrev pub ◌>>=◌ {ℓ κ} : {A : Type ℓ} {B : Type κ} → Outcome A → (A → Outcome B) → Outcome B
ok a >>= f = f a
fail e >>= f = fail e

-- A `throw` of gf256.ts passes through.
abbrev pub from_field {ℓ} : {A : Type ℓ} → Option A → Outcome A
from_field none = fail Failure.field_error
from_field (some a) = ok a
