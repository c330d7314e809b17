-- ===== src/Erasure/ReedSolomon/Loss.antt =====
-- Encoding, losing shards and reconstructing.
use ccn.Prelude.{ℕ, zero, suc, ◌+◌, ◌≤◌, ◌<◌, ◌≡◌, refl, ap, sym, subst, ◌∙◌, arith, ◌⊎◌, inl, inr}
use ccn.Prelude.{List, [], ◌∷◌, length, All, Option}
use ccn.Prelude.{none, some}
use ccn.Erasure.Outcome.{ok}
use ccn.Erasure.Matrix.{Row, matrix_row}
use ccn.Erasure.Matrix.Dot.{dot, dot-unit_row}
use ccn.Erasure.ReedSolomon.{Shard, ReedSolomon, slot, reconstruct}
use ccn.Erasure.ReedSolomon.Samples.{IsShard, column, length-column, at-column}
use ccn.Erasure.ReedSolomon.Code.{IsCode, IsCodeShard, All-matrix_row}
use ccn.Erasure.ReedSolomon.Presence.{present_count}
use ccn.Prelude.{◌++◌, ◌-◌, length-append}
use mathlib.Core.Option.{some-injective}
use ccn.Erasure.Matrix.Elimination.{below_cases}
use ccn.Erasure.ReedSolomon.{RsConfig, encode, new_reed_solomon}
use ccn.Erasure.ReedSolomon.Rebuilding.{column-IsBytes}
use ccn.Erasure.ReedSolomon.Code.{
  IsReedSolomon, new_reed_solomon-IsReedSolomon, encode-IsTabulated, All-get, get_elem?-matrix_row,
  matrix_row-append, matrix_row-append_ge,
}
use ccn.Erasure.ReedSolomon.Recovery.{reconstruct-original}

-- The shards, with some of them lost.
abbrev pub Loses : List Shard → List (Option Shard) → Type 0
Loses [] [] = Unit {0}
Loses [] (o ∷ shards) = ⊥
Loses (s ∷ full) [] = ⊥
Loses (s ∷ full) (o ∷ shards) = ((o ≡ none) ⊎ (o ≡ some s)) × Loses full shards

ok-injective {ℓ} : {A : Type ℓ} (a b : A) → ok a ≡ ok b → a ≡ b
ok-injective a b h = cc

length-Loses :
    (full : List Shard) (shards : List (Option Shard))
    → Loses full shards
    → length shards ≡ length full
length-Loses [] [] h = refl
length-Loses [] (o ∷ shards) h = absurd h
length-Loses (s ∷ full) [] h = absurd h
length-Loses (s ∷ full) (o ∷ shards) (p, h) = ap suc (length-Loses full shards h)

slot-Loses :
    (full : List Shard) (shards : List (Option Shard)) (i : ℕ) (s : Shard)
    → Loses full shards
    → slot shards i ≡ some s
    → (i < length full) × (s ≡ matrix_row full i)
slot-Loses [] [] i s h e = absurd (cc)
slot-Loses [] (o ∷ shards) i s h e = absurd h
slot-Loses (f ∷ full) [] i s h e = absurd h
slot-Loses (f ∷ full) (o ∷ shards) zero s (inl n, h) e = absurd (cc)
slot-Loses (f ∷ full) (o ∷ shards) zero s (inr n, h) e =
    (omega arith, sym (some-injective _ _ (sym n ∙ e)))
slot-Loses (f ∷ full) (o ∷ shards) (suc i) s (p, h) e =
    let (l, q) = slot-Loses full shards i s h e in (omega arith, q)

-- A data shard is the shard of the code in its place.
original-IsCodeShard :
    (k m len j : ℕ) (matrix : List Row) (originals : List Shard)
    → IsCode k m matrix
    → length originals ≡ k
    → All (IsShard len) originals
    → j < k
    → IsCodeShard matrix originals len j (matrix_row originals j)
original-IsCodeShard k m len j matrix originals code e all h = record {
  shard = All-matrix_row (IsShard len) originals j all (omega arith);
  bytes = λ p.
      sym (at-column p originals j)
      ∙ sym (
          dot-unit_row k j (column p originals) h (length-column p originals ∙ e)
            (column-IsBytes len p originals all))
      ∙ ap (λ (row : Row). dot row (column p originals)) (sym (code.top j h));
}

parity-IsTabulated :
    (rs : ReedSolomon) (len : ℕ) (originals parity : List Shard)
    → IsCode rs.k rs.m rs.encoding_matrix
    → 1 ≤ rs.k
    → length originals ≡ rs.k
    → All (IsShard len) originals
    → encode rs originals ≡ ok parity
    → (length parity ≡ rs.m)
      × ((j : ℕ)
          → j < rs.m
          → IsCodeShard rs.encoding_matrix originals len (rs.k + j) (matrix_row parity j))
parity-IsTabulated rs len originals parity code some_data e all made =
    let t = encode-IsTabulated rs originals len code some_data e all in
    subst
      (λ (vs : List Shard).
        (length vs ≡ rs.m)
        × ((j : ℕ)
            → j < rs.m
            → IsCodeShard rs.encoding_matrix originals len (rs.k + j) (matrix_row vs j)))
      (ok-injective t.results parity (sym t.returns ∙ made))
      (
        t.count,
        λ j h.
            let (s, c, g) = t.each j h in
            let same : 0 + j ≡ j = omega arith in
            subst (IsCodeShard rs.encoding_matrix originals len (rs.k + j))
              (sym (get_elem?-matrix_row t.results j s g)) (rw same at c),
      )

full-IsCodeShard :
    (rs : ReedSolomon) (len i : ℕ) (originals parity : List Shard)
    → IsCode rs.k rs.m rs.encoding_matrix
    → 1 ≤ rs.k
    → length originals ≡ rs.k
    → All (IsShard len) originals
    → encode rs originals ≡ ok parity
    → i < length (originals ++ parity)
    → IsCodeShard rs.encoding_matrix originals len i (matrix_row (originals ++ parity) i)
full-IsCodeShard rs len i originals parity code some_data e all made h = elim (below_cases i rs.k) [
  | inl l ↦
      subst (IsCodeShard rs.encoding_matrix originals len i)
        (sym (matrix_row-append originals parity i (omega arith)))
        (original-IsCodeShard rs.k rs.m len i rs.encoding_matrix originals code e all l)
  | inr g ↦
      let (count, each) = parity-IsTabulated rs len originals parity code some_data e all made in
      let bound : i - rs.k < rs.m = omega (arith, length-append originals parity) in
      let place : rs.k + (i - rs.k) ≡ i = omega arith in
      let shifted : length originals + (i - rs.k) ≡ i = omega arith in
      let row : matrix_row (originals ++ parity) i ≡ matrix_row parity (i - rs.k) =
        ap (matrix_row (originals ++ parity)) (sym shifted)
        ∙ matrix_row-append_ge originals parity (i - rs.k) in
      subst (IsCodeShard rs.encoding_matrix originals len i) (sym row) (
        subst
          (λ (t : ℕ). IsCodeShard rs.encoding_matrix originals len t (matrix_row parity (i - rs.k)))
          place (each (i - rs.k) bound))
]

-- Encode k data shards of one length, with at least one data shard, at least one parity shard and
-- at most 256 in all, and lose any shards but at least k of the k + m. Then reconstruct returns the
-- data shards; it does not throw.
pub reconstruct-encode :
    (config : RsConfig) (rs : ReedSolomon) (len : ℕ) (originals parity : List Shard)
    (shards : List (Option Shard))
    → 1 ≤ config.k
    → 1 ≤ config.m
    → config.k + config.m ≤ 256
    → new_reed_solomon config ≡ ok rs
    → length originals ≡ config.k
    → All (IsShard len) originals
    → encode rs originals ≡ ok parity
    → Loses (originals ++ parity) shards
    → config.k ≤ present_count shards
    → reconstruct rs shards ≡ ok originals
reconstruct-encode config rs len originals parity shards a b c built e all made loses enough =
    let (made_rs, returns, is) = new_reed_solomon-IsReedSolomon config a b c in
    let state : IsReedSolomon config rs =
      subst (IsReedSolomon config) (ok-injective made_rs rs (sym returns ∙ built)) is in
    let some_data : 1 ≤ rs.k = omega (arith, state.same_k) in
    let width : length originals ≡ rs.k = e ∙ sym state.same_k in
    let (count, _) =
      parity-IsTabulated rs len originals parity state.code some_data width all made in
    reconstruct-original rs len originals shards record {
      code = state.code;
      some_data = some_data;
      k_originals = width;
      all_shards = all;
      slots =
          length-Loses (originals ++ parity) shards loses
          ∙ omega (arith, length-append originals parity);
      erased = λ i s h.
          let (l, same) = slot-Loses (originals ++ parity) shards i s loses h in
          subst (IsCodeShard rs.encoding_matrix originals len i) (sym same)
            (full-IsCodeShard rs len i originals parity state.code some_data width all made l);
      enough = omega (arith, state.same_k);
    }

-- With at least one data shard, at least one parity shard and at most 256 in all, the constructor
-- and encode of as many data shards of one length throw nothing, and encode returns m shards of
-- that length.
pub encode_returns :
    (config : RsConfig) (len : ℕ) (originals : List Shard)
    → 1 ≤ config.k
    → 1 ≤ config.m
    → config.k + config.m ≤ 256
    → length originals ≡ config.k
    → All (IsShard len) originals
    → (rs : ReedSolomon) × (new_reed_solomon config ≡ ok rs)
      × ((parity : List Shard) × (encode rs originals ≡ ok parity)
          × (length parity ≡ config.m)
          × All (IsShard len) parity)
encode_returns config len originals a b c e all =
    let (rs, returns, is) = new_reed_solomon-IsReedSolomon config a b c in
    let t =
      encode-IsTabulated rs originals len is.code (omega (arith, is.same_k)) (e ∙ sym is.same_k)
        all in
    (
      rs,
      returns,
      (
        t.results,
        t.returns,
        t.count ∙ is.same_m,
        All-get (IsShard len) t.results
            (λ j l. let (s, d, g) = t.each j (omega (arith, t.count)) in (s, d.shard, g)),
      ),
    )
