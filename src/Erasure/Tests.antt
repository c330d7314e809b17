-- ===== src/Erasure/Tests.antt =====
-- Runs of the erasure code, and its theorems at concrete inputs.
use ccn.Prelude.{zero, suc, ◌≡◌, refl, arith, List, [], ◌∷◌, length}
use ccn.Prelude.{Option, none, some, All, inl, inr}
use ccn.Erasure.Outcome.{ok}
use ccn.Erasure.Gf256.{
  mul, inv, double, fill, mirror_exp, build_tables, exp_at, log_at, mul_add_row, accumulate_row,
  accumulate,
}
use ccn.Erasure.Matrix.{
  Row, tabulate, try_tabulate, unit_row, identity_rows, cauchy_row, build_encoding_matrix,
  invert_matrix,
}
use ccn.Erasure.Matrix.Rows.{Gives}
use ccn.Erasure.Matrix.Inverse.{Maps, Restores, invert_matrix-Restores}
use ccn.Erasure.ReedSolomon.{
  Shard, RsConfig, ReedSolomon, new_reed_solomon, with_matrix, encode, reconstruct, combine,
  equal_lengths, shard_length,
}
use ccn.Erasure.ReedSolomon.Code.{IsReedSolomon, new_reed_solomon-IsReedSolomon}
use ccn.Erasure.ReedSolomon.Samples.{IsShard, IsAdded, mul_add_row-IsAdded}
use ccn.Erasure.ReedSolomon.Loss.{reconstruct-encode, encode_returns}
use ccn.Erasure.Split.{split_into_shards, recombine_shards}
use ccn.Erasure.Split.RoundTrip.{split_into_shards-recombine_shards}

mul_test : (mul 0x53 0xca ≡ 0x8f) × (mul 2 0x80 ≡ 0x1d) × (inv 2 ≡ some 0x8e) × (inv 0 ≡ none)
unfolding mul inv exp_at log_at build_tables fill mirror_exp double
mul_test = (refl, refl, refl, refl)

abbrev two_of_three : RsConfig
two_of_three = record { k = 2; m = 1 }

abbrev code : ReedSolomon
code = record {
  k = 2;
  m = 1;
  encoding_matrix = (1 ∷ 0 ∷ []) ∷ (0 ∷ 1 ∷ []) ∷ (0x8e ∷ 0xf4 ∷ []) ∷ [];
}

new_reed_solomon_test : new_reed_solomon two_of_three ≡ ok code
unfolding new_reed_solomon with_matrix build_encoding_matrix identity_rows cauchy_row tabulate
    try_tabulate unit_row inv exp_at log_at build_tables fill mirror_exp double
new_reed_solomon_test = refl

abbrev originals : List Shard
originals = (1 ∷ 2 ∷ []) ∷ (3 ∷ 4 ∷ []) ∷ []

abbrev parity : List Shard
parity = (0x8f ∷ 0xf6 ∷ []) ∷ []

encode_test : encode code originals ≡ ok parity
unfolding encode combine equal_lengths shard_length mul_add_row accumulate_row accumulate
    try_tabulate exp_at log_at build_tables fill mirror_exp double
encode_test = refl

abbrev after_loss : List (Option Shard)
after_loss = none ∷ some (3 ∷ 4 ∷ []) ∷ some (0x8f ∷ 0xf6 ∷ []) ∷ []

reconstruct-encode_example : reconstruct code after_loss ≡ ok originals
reconstruct-encode_example =
    reconstruct-encode two_of_three code 2 originals parity after_loss (omega arith) (omega arith)
      (omega arith) new_reed_solomon_test refl
      ((refl, (omega arith, (omega arith, tt))), ((refl, (omega arith, (omega arith, tt))), tt))
      encode_test (inl refl, (inr refl, (inr refl, tt))) (omega arith)

new_reed_solomon-IsReedSolomon_test :
    (rs : ReedSolomon) × (new_reed_solomon two_of_three ≡ ok rs) × IsReedSolomon two_of_three rs
new_reed_solomon-IsReedSolomon_test =
    new_reed_solomon-IsReedSolomon two_of_three (omega arith) (omega arith) (omega arith)

mul_add_row-IsAdded_test :
    IsAdded 2 3 (1 ∷ 2 ∷ []) (3 ∷ 4 ∷ []) (mul_add_row 3 (1 ∷ 2 ∷ []) (3 ∷ 4 ∷ []))
mul_add_row-IsAdded_test =
    mul_add_row-IsAdded 3 2 (1 ∷ 2 ∷ []) (3 ∷ 4 ∷ []) (omega arith)
      (refl, (omega arith, (omega arith, tt))) (refl, (omega arith, (omega arith, tt)))

split_into_shards-recombine_shards_example :
    (length (split_into_shards (1 ∷ 2 ∷ 3 ∷ []) 2).shards ≡ 2)
    × (recombine_shards
          (split_into_shards (1 ∷ 2 ∷ 3 ∷ []) 2).shards
          (split_into_shards (1 ∷ 2 ∷ 3 ∷ []) 2).original_length
        ≡ some (1 ∷ 2 ∷ 3 ∷ []))
split_into_shards-recombine_shards_example =
    split_into_shards-recombine_shards (1 ∷ 2 ∷ 3 ∷ []) 2 (omega arith)

abbrev swap_matrix : List Row
swap_matrix = (0 ∷ 2 ∷ []) ∷ (1 ∷ 0 ∷ []) ∷ []

swap_matrix-Maps : Maps swap_matrix 0 (5 ∷ 7 ∷ []) (14 ∷ 5 ∷ [])
unfolding mul exp_at log_at build_tables fill mirror_exp double
swap_matrix-Maps zero h = refl
swap_matrix-Maps (suc zero) h = refl
swap_matrix-Maps (suc (suc j)) h = absurd (omega arith)

invert_matrix-Restores_example :
    Gives (Restores 2 (5 ∷ 7 ∷ []) (14 ∷ 5 ∷ [])) (invert_matrix swap_matrix)
invert_matrix-Restores_example =
    invert_matrix-Restores swap_matrix (5 ∷ 7 ∷ []) (14 ∷ 5 ∷ [])
      ((refl, (omega arith, (omega arith, tt))), ((refl, (omega arith, (omega arith, tt))), tt))
      (omega arith, (omega arith, tt)) (omega arith, (omega arith, tt)) refl refl swap_matrix-Maps

encode_returns_example :
    (rs : ReedSolomon) × (new_reed_solomon two_of_three ≡ ok rs)
    × ((p : List Shard) × (encode rs originals ≡ ok p) × (length p ≡ 1) × All (IsShard 2) p)
encode_returns_example =
    encode_returns two_of_three 2 originals (omega arith) (omega arith) (omega arith) refl
      ((refl, (omega arith, (omega arith, tt))), ((refl, (omega arith, (omega arith, tt))), tt))
