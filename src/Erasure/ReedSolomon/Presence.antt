-- ===== src/Erasure/ReedSolomon/Presence.antt =====
-- The shards that are there: what reconstruct finds of them.
use ccn.Prelude.{ℕ, zero, suc, ◌+◌, ◌≤◌, ◌<◌, ◌≡◌, refl, ap, sym, subst, ◌∙◌, arith, ◌⊎◌, inl, inr}
use ccn.Prelude.{List, [], ◌∷◌, length, All, Option, none, some}
use mathlib.Core.Option.{some-injective}
use ccn.Prelude.{Bool-cases, eqb, eqb_iff, true}
use ccn.Erasure.Outcome.{Outcome, ok}
use ccn.Erasure.Matrix.{matrix_row}
use ccn.Erasure.ReedSolomon.Independence.{Ascends}
use ccn.Erasure.ReedSolomon.{
  Shard, Present, prepend, agree, find_present, with_first, all_data, slot,
}

-- How many shards are there.
abbrev pub present_count : List (Option Shard) → ℕ
present_count [] = 0
present_count (none ∷ shards) = present_count shards
present_count (some s ∷ shards) = suc (present_count shards)

-- Every shard that is there has the length.
abbrev pub HaveLength : ℕ → List (Option Shard) → Type 0
HaveLength len shards = (i : ℕ) (s : Shard) → slot shards i ≡ some s → length s ≡ len

abbrev pub IsHeld : List (Option Shard) → ℕ → Type 0
IsHeld shards i = (s : Shard) × (slot shards i ≡ some s)

-- The indices found from `base` on, and the length noted.
pub record IsFound (base len : ℕ) (shards : List (Option Shard)) (known : ℕ)
    (result : Outcome Present) : Type 0 where
  pub found : Present
  pub returns : result ≡ ok found
  pub count : length found.indices ≡ present_count shards
  pub held : All (λ i. (j : ℕ) × (i ≡ base + j) × IsHeld shards j) found.indices
  pub ascending : Ascends base found.indices
  pub measured : (1 ≤ length found.indices) ⊎ (known ≡ len) → found.shard_len ≡ len

agree_len : (known len n : ℕ) → (known ≡ 0) ⊎ (known ≡ len) → n ≡ len → agree known n ≡ ok len
unfolding agree
agree_len known len n h e = elim (Bool-cases (eqb known 0)) [
  | inl z ↦ rw z (ap ok e)
  | inr z ↦
      let k : known ≡ len = ground (arith, eqb_iff known 0) in
      let s : eqb n known ≡ true = (eqb_iff n known).1 (e ∙ sym k) in rw (z, s) (ap ok k)
]

shift-IsHeld :
    (base : ℕ) (o : Option Shard) (shards : List (Option Shard)) (indices : List ℕ)
    → All (λ i. (j : ℕ) × (i ≡ suc base + j) × IsHeld shards j) indices
    → All (λ i. (j : ℕ) × (i ≡ base + j) × IsHeld (o ∷ shards) j) indices
shift-IsHeld base o shards [] h = tt
shift-IsHeld base o shards (i ∷ indices) ((j, e, s), h) =
    ((suc j, omega arith, s), shift-IsHeld base o shards indices h)

Ascends-pred : (base : ℕ) (indices : List ℕ) → Ascends (suc base) indices → Ascends base indices
Ascends-pred base [] a = tt
Ascends-pred base (i ∷ indices) (l, a) = (omega arith, a)

pub find_present-IsFound :
    (base known len : ℕ) (shards : List (Option Shard))
    → (known ≡ 0) ⊎ (known ≡ len)
    → HaveLength len shards
    → IsFound base len shards known (find_present base known shards)
unfolding find_present prepend
find_present-IsFound base known len [] k h = record {
  found = record { indices = []; shard_len = known };
  returns = refl;
  count = refl;
  held = tt;
  ascending = tt;
  measured = λ w. ground arith;
}
find_present-IsFound base known len (none ∷ shards) k h =
    let rest = find_present-IsFound (suc base) known len shards k (λ i s e. h (suc i) s e) in
    record {
      found = rest.found;
      returns = rest.returns;
      count = rest.count;
      held = shift-IsHeld base none shards rest.found.indices rest.held;
      ascending = Ascends-pred base rest.found.indices rest.ascending;
      measured = rest.measured;
    }
find_present-IsFound base known len (some s ∷ shards) k h =
    let rest = find_present-IsFound (suc base) len len shards (inr refl) (λ i t e. h (suc i) t e) in
    record {
      found = record { indices = base ∷ rest.found.indices; shard_len = rest.found.shard_len };
      returns = rw (agree_len known len (length s) k (h 0 s refl), rest.returns) refl;
      count = ap suc rest.count;
      held = (
        (0, omega arith, (s, refl)),
        shift-IsHeld base (some s) shards rest.found.indices rest.held,
      );
      ascending = (omega arith, rest.ascending);
      measured = λ w. rest.measured (inr refl);
    }

-- The first `k` shards are these.
abbrev pub AreFirst : ℕ → List (Option Shard) → List Shard → Type 0
AreFirst k shards whole =
    (length whole ≡ k) × ((j : ℕ) → j < k → slot shards j ≡ some (matrix_row whole j))

with_first-AreFirst :
    (k : ℕ) (s : Shard) (shards : List (Option Shard)) (o : Option (List Shard))
    (whole : List Shard)
    → ((rest : List Shard) → o ≡ some rest → AreFirst k shards rest)
    → with_first s o ≡ some whole
    → AreFirst (suc k) (some s ∷ shards) whole
unfolding with_first
with_first-AreFirst k s shards none whole h e = absurd (cc)
with_first-AreFirst k s shards (some rest) whole h e =
    subst (AreFirst (suc k) (some s ∷ shards)) (some-injective _ _ e)
      (ap suc (h rest refl).0, λ j l. place j l)
  where
    place : (j : ℕ) → j < suc k → slot (some s ∷ shards) j ≡ some (matrix_row (s ∷ rest) j)
    place zero l = refl
    place (suc j) l = (h rest refl).1 j (omega arith)

-- The fast path finds the first `k` shards, each in its place.
pub all_data-AreFirst :
    (k : ℕ) (shards : List (Option Shard)) (whole : List Shard)
    → all_data k shards ≡ some whole
    → AreFirst k shards whole
unfolding all_data
all_data-AreFirst zero shards whole h =
    subst (AreFirst 0 shards) (some-injective _ _ h) (refl, λ j l. absurd (omega arith))
all_data-AreFirst (suc k) [] whole h = absurd (cc)
all_data-AreFirst (suc k) (none ∷ shards) whole h = absurd (cc)
all_data-AreFirst (suc k) (some s ∷ shards) whole h =
    with_first-AreFirst k s shards (all_data k shards) whole
      (λ rest e. all_data-AreFirst k shards rest e) h
