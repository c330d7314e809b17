-- ===== src/Erasure/ReedSolomon/Samples.antt =====
-- One byte position at a time: what adding a multiple of a shard, and a whole row of them, does.
use Prim.Native.Nat.{bit_xor}
use ccn.Prelude.{ℕ, zero, suc, ◌<◌, ◌≡◌, refl, ap, sym, ◌∙◌, arith}
use ccn.Prelude.{List, [], ◌∷◌, map, length, All, Option, some, eqb, eqb_iff, true, false}
use ccn.Erasure.Outcome.{Outcome, ok, ◌>>=◌, from_field}
use ccn.Erasure.Gf256.{at, mul, log_at, accumulate, accumulate_row, mul_add_row}
use ccn.Erasure.Gf256.Xor.{xor-zero, xor_assoc, xor-lt}
use ccn.Erasure.Gf256.Laws.{mul-zero, mul-lt}
use ccn.Erasure.Matrix.{Row, matrix_row}
use ccn.Erasure.Matrix.Dot.{IsBytes, dot, zero-mul}
use ccn.Erasure.ReedSolomon.{Shard, combine}

-- A shard of `len` bytes.
abbrev pub IsShard : ℕ → Shard → Type 0
IsShard len s = (length s ≡ len) × IsBytes s

accumulate-mul : (c s d : ℕ) → accumulate (log_at (suc c)) s d ≡ bit_xor d (mul (suc c) s)
unfolding accumulate mul
accumulate-mul c zero d = sym (xor-zero d)
accumulate-mul c (suc s) d = refl

accumulate-row :
    (c len : ℕ) (src dst : Shard)
    → suc c < 256
    → IsShard len src
    → IsShard len dst
    → IsShard len (accumulate_row (log_at (suc c)) src dst)
      × ((p : ℕ)
          → at (accumulate_row (log_at (suc c)) src dst) p
            ≡ bit_xor (at dst p) (mul (suc c) (at src p)))
unfolding accumulate_row
accumulate-row c len [] [] h (e, b) (f, d) = ((f, tt), λ p. rw (mul-zero (suc c)) refl)
accumulate-row c len [] (d ∷ dst) h (e, b) (f, k) = absurd (omega arith)
accumulate-row c len (s ∷ src) [] h (e, b) (f, k) = absurd (omega arith)
accumulate-row c zero (s ∷ src) (d ∷ dst) h (e, b) (f, k) = absurd (omega arith)
accumulate-row c (suc len) (s ∷ src) (d ∷ dst) h (e, (q, b)) (f, (r, k)) =
    let ((l, w), at_rest) = accumulate-row c len src dst h (omega arith, b) (omega arith, k) in
    (
      (
        ap suc l,
        (rw (accumulate-mul c s d) (xor-lt 8 d (mul (suc c) s) r (mul-lt (suc c) s h q)), w),
      ),
      λ p.
          elim p
            as (λ (p : ℕ).
              at (accumulate (log_at (suc c)) s d ∷ accumulate_row (log_at (suc c)) src dst) p
              ≡ bit_xor (at (d ∷ dst) p) (mul (suc c) (at (s ∷ src) p))) [
                | zero ↦ accumulate-mul c s d
                | suc p ↦ at_rest p
              ],
    )

-- What mulAddRow leaves of a row of its length: to each byte the product is added.
pub record IsAdded (len c : ℕ) (src dst : Shard) (result : Option Shard) : Type 0 where
  pub out : Shard
  pub returns : result ≡ some out
  pub shard : IsShard len out
  pub bytes : (p : ℕ) → at out p ≡ bit_xor (at dst p) (mul c (at src p))

-- mulAddRow on two rows of bytes of one length returns, and adds to each byte of the second the
-- product of the constant with that of the first.
pub mul_add_row-IsAdded :
    (c len : ℕ) (src dst : Shard)
    → c < 256
    → IsShard len src
    → IsShard len dst
    → IsAdded len c src dst (mul_add_row c src dst)
unfolding mul_add_row
mul_add_row-IsAdded zero len src dst h a b =
    let e : eqb (length src) (length dst) ≡ true = (eqb_iff _ _).1 (a.0 ∙ sym b.0) in
    rw e record {
      out = dst;
      returns = refl;
      shard = b;
      bytes = λ p. rw (zero-mul (at src p), xor-zero) refl;
    }
mul_add_row-IsAdded (suc c) len src dst h a b =
    let e : eqb (length src) (length dst) ≡ true = (eqb_iff _ _).1 (a.0 ∙ sym b.0) in
    let z : eqb (suc c) 0 ≡ false = ground (arith, eqb_iff (suc c) 0) in
    let (s, w) = accumulate-row c len src dst h a b in
    rw (e, z)
      record { out = accumulate_row (log_at (suc c)) src dst; returns = refl; shard = s; bytes = w }

-- Byte `p` of each shard.
abbrev pub column : ℕ → List Shard → List ℕ
column p shards = map (λ s. at s p) shards

pub length-column : (p : ℕ) (shards : List Shard) → length (column p shards) ≡ length shards
length-column p [] = refl
length-column p (s ∷ shards) = ap suc (length-column p shards)

pub at-column :
    (p : ℕ) (shards : List Shard) (j : ℕ) → at (column p shards) j ≡ at (matrix_row shards j) p
at-column p [] j = refl
at-column p (s ∷ shards) zero = refl
at-column p (s ∷ shards) (suc j) = at-column p shards j

-- A shard made from a row of the matrix, added to what there was.
pub record IsCombined (len : ℕ) (row : Row) (sources : ℕ → List ℕ) (start : Shard)
    (result : Outcome Shard) : Type 0 where
  pub out : Shard
  pub returns : result ≡ ok out
  pub shard : IsShard len out
  pub bytes : (p : ℕ) → at out p ≡ bit_xor (at start p) (dot row (sources p))

-- One more source in front.
pub IsCombined-cons :
    (len c : ℕ) (row : Row) (src start : Shard) (sources : ℕ → List ℕ) (first : Option Shard)
    (rest : Shard → Outcome Shard)
    → (a : IsAdded len c src start first) → IsCombined len row sources a.out (rest a.out)
    → IsCombined len (c ∷ row) (λ p. at src p ∷ sources p) start (from_field first >>= rest)
IsCombined-cons len c row src start sources first rest a b = record {
  out = b.out;
  returns = rw a.returns b.returns;
  shard = b.shard;
  bytes = λ p.
      b.bytes p
      ∙ ap (λ (x : ℕ). bit_xor x (dot row (sources p))) (a.bytes p)
      ∙ xor_assoc (at start p) (mul c (at src p)) (dot row (sources p));
}

pub combine-IsCombined :
    (len : ℕ) (row : Row) (shards : List Shard) (start : Shard)
    → IsBytes row
    → length row ≡ length shards
    → All (IsShard len) shards
    → IsShard len start
    → IsCombined len row (λ p. column p shards) start (combine row shards start)
unfolding combine
combine-IsCombined len [] shards start h e k b = record {
  out = start;
  returns = refl;
  shard = b;
  bytes = λ p. sym (xor-zero (at start p));
}
combine-IsCombined len (c ∷ row) [] start h e k b = absurd (omega arith)
combine-IsCombined len (c ∷ row) (s ∷ shards) start (q, h) e (r, k) b =
    let a = mul_add_row-IsAdded c len s start q r b in
    IsCombined-cons len c row s start (λ p. column p shards) _ _ a
      (combine-IsCombined len row shards a.out h (omega arith) k a.shard)
