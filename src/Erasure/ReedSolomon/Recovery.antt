-- ===== src/Erasure/ReedSolomon/Recovery.antt =====
-- reconstruct: from enough shards of a code it gives the data back.
use ccn.Prelude.{ℕ, zero, suc, ◌+◌, ◌≤◌, ◌≡◌, refl, ap, sym, subst, ◌∙◌, arith, inl}
use ccn.Prelude.{List, [], ◌∷◌, length, take, length-take, All, All-mono, Option}
use ccn.Prelude.{none, some, eqb, eqb_iff, ltb, true, false}
use ccn.Erasure.Outcome.{ok}
use ccn.Erasure.Matrix.{matrix_row, try_tabulate}
use ccn.Erasure.ReedSolomon.{
  Shard, ReedSolomon, Present, all_data, slot, data_shard, recover, recover_unless,
  reconstruct_from, reconstruct,
}
use ccn.Erasure.ReedSolomon.Samples.{IsShard}
use ccn.Erasure.ReedSolomon.Code.{IsCode}
use ccn.Erasure.ReedSolomon.Presence.{
  present_count, IsHeld, find_present-IsFound, AreFirst, all_data-AreFirst,
}
use ccn.Erasure.ReedSolomon.Rebuilding.{
  IsErased, rows_ext, try_tabulate-rows, All-take, held-original, data_shard-original,
  sub_matrix_inverted,
}
use ccn.Erasure.ReedSolomon.Independence.{Ascends}

Ascends-take : (base n : ℕ) (xs : List ℕ) → Ascends base xs → Ascends base (take n xs)
Ascends-take base zero xs a = tt
Ascends-take base (suc n) [] a = tt
Ascends-take base (suc n) (x ∷ xs) (l, a) = (l, Ascends-take (suc x) n xs a)

-- The shards that are there are enough.
pub record IsEnough (rs : ReedSolomon) (len : ℕ) (originals : List Shard)
    (shards : List (Option Shard)) : Type 0 where
  pub code : IsCode rs.k rs.m rs.encoding_matrix
  pub some_data : 1 ≤ rs.k
  pub k_originals : length originals ≡ rs.k
  pub all_shards : All (IsShard len) originals
  pub slots : length shards ≡ rs.k + rs.m
  pub erased : IsErased rs.encoding_matrix originals len shards
  pub enough : rs.k ≤ present_count shards

module _ (rs : ReedSolomon) (len : ℕ) (originals : List Shard) (shards : List (Option Shard))
    (is : IsEnough rs len originals shards) where
  recover-original :
      (chosen : List ℕ)
      → length chosen ≡ rs.k
      → Ascends 0 chosen
      → All (IsHeld shards) chosen
      → recover rs shards chosen len ≡ ok originals
  unfolding recover
  recover-original chosen e a h =
      let (inverse, found, i) =
        sub_matrix_inverted rs.k rs.m len rs.encoding_matrix originals shards is.code is.k_originals
          is.all_shards is.erased chosen e is.slots a h in
      let all : try_tabulate (λ j. data_shard inverse chosen shards len j (slot shards j))
            (length originals) 0
          ≡ ok originals =
        try_tabulate-rows _ originals 0 (λ j l.
          ap (λ (t : ℕ). data_shard inverse chosen shards len t (slot shards t)) {x = 0 + j} {y = j}
            (omega arith)
          ∙ data_shard-original rs.k rs.m len rs.encoding_matrix originals shards is.code
              is.k_originals is.all_shards is.erased chosen inverse j _ e h i
              (omega (arith, is.k_originals)) refl) in
      rw found (
        subst
          (λ (n : ℕ).
            try_tabulate (λ j. data_shard inverse chosen shards len j (slot shards j)) n 0
            ≡ ok originals)
          is.k_originals all)

  whole-IsOriginal : (whole : List Shard) → AreFirst rs.k shards whole → whole ≡ originals
  whole-IsOriginal whole (e, h) = rows_ext whole originals (e ∙ sym is.k_originals) (λ j l.
      held-original rs.k rs.m len rs.encoding_matrix originals shards is.code is.k_originals
        is.all_shards is.erased j (matrix_row whole j) (omega (arith, is.k_originals))
        (h j (omega (arith, is.k_originals))))

  recover_unless-original :
      (present : Present) (o : Option (List Shard))
      → all_data rs.k shards ≡ o
      → present.shard_len ≡ len
      → rs.k ≤ length present.indices
      → Ascends 0 present.indices
      → All (IsHeld shards) present.indices
      → recover_unless rs shards present o ≡ ok originals
  unfolding recover_unless
  recover_unless-original present (some whole) e f g a h =
      ap ok (whole-IsOriginal whole (all_data-AreFirst rs.k shards whole e))
  recover_unless-original present none e f g a h = rw f (
      recover-original (take rs.k present.indices) (omega (arith, length-take rs.k present.indices))
        (Ascends-take 0 rs.k present.indices a) (All-take (IsHeld shards) rs.k present.indices h))

-- Let some of the shards of a code be missing, at least k of all be there, and each that is there
-- be the one of its place. Then reconstruct returns the original data shards.
pub reconstruct-original :
    (rs : ReedSolomon) (len : ℕ) (originals : List Shard) (shards : List (Option Shard))
    → IsEnough rs len originals shards
    → reconstruct rs shards ≡ ok originals
unfolding reconstruct reconstruct_from
reconstruct-original rs len originals shards is =
    let e : eqb (length shards) (rs.k + rs.m) ≡ true = (eqb_iff _ _).1 is.slots in
    let found =
      find_present-IsFound 0 0 len shards (inl refl) (λ i s h. (is.erased i s h).shard.0) in
    let present : Present = found.found in
    let n : ltb (length present.indices) rs.k ≡ false = ground (arith, found.count, is.enough) in
    let counted : rs.k ≤ length present.indices = omega (arith, found.count, is.enough) in
    let some_index : 1 ≤ length present.indices = omega (arith, is.some_data) in
    rw (e, found.returns, n)
      (recover_unless-original rs len originals shards is present _ refl
        (found.measured (inl some_index)) counted found.ascending
        (All-mono present.indices
          (λ i (j, f, h). let g : i ≡ j = omega arith in subst (IsHeld shards) (sym g) h)
          found.held))
