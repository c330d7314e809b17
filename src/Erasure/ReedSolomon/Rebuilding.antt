-- ===== src/Erasure/ReedSolomon/Rebuilding.antt =====
-- The data shards that reconstruct rebuilds from those that are there.
use ccn.Prelude.{ℕ, zero, suc, ◌+◌, ◌<◌, ◌≡◌, refl, ap, sym, subst, ◌∙◌, arith}
use ccn.Prelude.{List, [], ◌∷◌, map, length, take, replicate, All, All-mono, Option}
use ccn.Prelude.{none, some}
use ccn.Erasure.Outcome.{Outcome, ok, fail, ◌>>=◌}
use ccn.Erasure.Gf256.{at}
use ccn.Erasure.Gf256.Xor.{zero-xor, xor-zero}
use ccn.Erasure.Matrix.{Row, matrix_row, try_tabulate, invert_matrix}
use ccn.Erasure.Matrix.Dot.{
  IsBytes, dot, zero-mul, at_ext, at-IsByte, dot-unit_row, length-zeros, zeros-IsBytes, at-zeros,
}
use ccn.Erasure.Matrix.Rows.{Gives, Gives-all}
use ccn.Erasure.Matrix.Inverse.{IsRow, Maps, Restores, invert_matrix-Restores}
use ccn.Erasure.Matrix.Kernel.{Traces}
use ccn.Erasure.Matrix.Failing.{IsDependent, invert_matrix-Traces}
use ccn.Erasure.ReedSolomon.Independence.{Ascends, independent}
use ccn.Erasure.ReedSolomon.{Shard, slot, add_source, rebuild, data_shard}
use ccn.Erasure.ReedSolomon.Samples.{
  IsShard, column, length-column, at-column, IsCombined, IsCombined-cons, mul_add_row-IsAdded,
}
use ccn.Erasure.ReedSolomon.Code.{IsCode, IsCodeShard, All-matrix_row}
use ccn.Erasure.ReedSolomon.Presence.{IsHeld}

-- Byte `p` of the shard in a slot.
abbrev byte_of : ℕ → Option Shard → ℕ
byte_of p none = 0
byte_of p (some s) = at s p

abbrev samples : List (Option Shard) → List ℕ → ℕ → List ℕ
samples shards chosen p = map (λ i. byte_of p (slot shards i)) chosen

length-samples :
    (shards : List (Option Shard)) (chosen : List ℕ) (p : ℕ)
    → length (samples shards chosen p) ≡ length chosen
length-samples shards [] p = refl
length-samples shards (i ∷ chosen) p = ap suc (length-samples shards chosen p)

pub column-IsBytes :
    (len p : ℕ) (shards : List Shard) → All (IsShard len) shards → IsBytes (column p shards)
column-IsBytes len p [] h = tt
column-IsBytes len p (s ∷ shards) ((e, b), h) = (at-IsByte s p b, column-IsBytes len p shards h)

-- Lists of rows of one length with the same rows are one.
pub rows_ext :
    (xs ys : List Row)
    → length xs ≡ length ys
    → ((j : ℕ) → j < length ys → matrix_row xs j ≡ matrix_row ys j)
    → xs ≡ ys
rows_ext [] [] e h = refl
rows_ext [] (y ∷ ys) e h = absurd (omega arith)
rows_ext (x ∷ xs) [] e h = absurd (omega arith)
rows_ext (x ∷ xs) (y ∷ ys) e h =
    rw (h 0 (omega arith), rows_ext xs ys (omega arith) (λ j l. h (suc j) (omega arith))) refl

-- A loop that gives the rows of a list in turn gives that list.
pub try_tabulate-rows :
    (f : ℕ → Outcome Row) (rows : List Row) (i : ℕ)
    → ((j : ℕ) → j < length rows → f (i + j) ≡ ok (matrix_row rows j))
    → try_tabulate f (length rows) i ≡ ok rows
unfolding try_tabulate
try_tabulate-rows f [] i h = refl
try_tabulate-rows f (r ∷ rows) i h =
    let first : f i ≡ ok r = ap f {x = i} {y = i + 0} (omega arith) ∙ h 0 (omega arith) in
    let rest : try_tabulate f (length rows) (suc i) ≡ ok rows =
      try_tabulate-rows f rows (suc i)
        (λ j l. ap f {x = suc i + j} {y = i + suc j} (omega arith) ∙ h (suc j) (omega arith)) in
    rw (first, rest) refl

-- Every shard that is there is the one of the code in its place.
abbrev pub IsErased : List Row → List Shard → ℕ → List (Option Shard) → Type 0
IsErased matrix data_shards len shards =
    (i : ℕ) (s : Shard) → slot shards i ≡ some s → IsCodeShard matrix data_shards len i s

pub All-take : (P : ℕ → Type 0) (n : ℕ) (xs : List ℕ) → All P xs → All P (take n xs)
All-take P zero xs h = tt
All-take P (suc n) [] h = tt
All-take P (suc n) (x ∷ xs) (p, h) = (p, All-take P n xs h)

slot-lt :
    (shards : List (Option Shard)) (i : ℕ) (s : Shard) → slot shards i ≡ some s → i < length shards
slot-lt [] i s h = absurd (cc)
slot-lt (o ∷ shards) zero s h = omega arith
slot-lt (o ∷ shards) (suc i) s h = omega (arith, slot-lt shards i s h)

module _ (k m len : ℕ) (matrix : List Row) (originals : List Shard) (shards : List (Option Shard))
    (code : IsCode k m matrix) (k_originals : length originals ≡ k)
    (all_shards : All (IsShard len) originals) (erased : IsErased matrix originals len shards) where
  -- A data shard that is there is the original.
  pub held-original :
      (j : ℕ) (s : Shard) → j < k → slot shards j ≡ some s → s ≡ matrix_row originals j
  held-original j s h e =
      let c = erased j s e in
      let (w, b) = All-matrix_row (IsShard len) originals j all_shards (omega arith) in
      at_ext s (matrix_row originals j) (c.shard.0 ∙ sym w) (λ p.
        c.bytes p
        ∙ ap (λ (row : Row). dot row (column p originals)) (code.top j h)
        ∙ dot-unit_row k j (column p originals) h (length-column p originals ∙ k_originals)
            (column-IsBytes len p originals all_shards)
        ∙ at-column p originals j)

  samples-IsBytes :
      (chosen : List ℕ) (p : ℕ) → All (IsHeld shards) chosen → IsBytes (samples shards chosen p)
  samples-IsBytes [] p h = tt
  samples-IsBytes (i ∷ chosen) p ((s, e), h) =
      (rw e (at-IsByte s p (erased i s e).shard.1), samples-IsBytes chosen p h)

  chosen-Maps :
      (chosen : List ℕ) (p : ℕ)
      → All (IsHeld shards) chosen
      → Maps (map (matrix_row matrix) chosen) 0 (column p originals) (samples shards chosen p)
  chosen-Maps [] p h j l = absurd (omega arith)
  chosen-Maps (i ∷ chosen) p ((s, e), h) zero l = rw e (sym ((erased i s e).bytes p))
  chosen-Maps (i ∷ chosen) p ((s, e), h) (suc j) l =
      let e : 0 + suc j ≡ suc j = omega arith in
      rw e (
        chosen-Maps chosen p h j (omega arith)
        ∙ ap (at (samples shards chosen p)) {x = 0 + j} {y = j} (omega arith))

  rebuild-IsCombined :
      (row : Row) (chosen : List ℕ) (buf : Shard)
      → IsBytes row
      → length row ≡ length chosen
      → All (IsHeld shards) chosen
      → IsShard len buf
      → IsCombined len row (samples shards chosen) buf (rebuild row chosen shards buf)
  unfolding rebuild add_source
  rebuild-IsCombined [] chosen buf h e k b = record {
    out = buf;
    returns = refl;
    shard = b;
    bytes = λ p. sym (xor-zero (at buf p));
  }
  rebuild-IsCombined (c ∷ row) [] buf h e k b = absurd (omega arith)
  rebuild-IsCombined (zero ∷ row) (i ∷ chosen) buf (q, h) e (u, k) b =
      let rest = rebuild-IsCombined row chosen buf h (omega arith) k b in
      record {
        out = rest.out;
        returns = rest.returns;
        shard = rest.shard;
        bytes = λ p. rest.bytes p ∙ rw (zero-mul, zero-xor) refl;
      }
  rebuild-IsCombined (suc c ∷ row) (i ∷ chosen) buf (q, h) e ((s, f), k) b =
      let a = mul_add_row-IsAdded (suc c) len s buf q (erased i s f).shard b in
      let rest = rebuild-IsCombined row chosen a.out h (omega arith) k a.shard in
      subst
        (λ (o : Option Shard).
          IsCombined len (suc c ∷ row) (λ p. byte_of p o ∷ samples shards chosen p) buf
            (add_source (suc c) o buf >>= λ next. rebuild row chosen shards next))
        (sym f)
        (IsCombined-cons len (suc c) row s buf (samples shards chosen) _
          (λ next. rebuild row chosen shards next) a rest)

  abbrev sub_matrix : List ℕ → List Row
  sub_matrix chosen = map (matrix_row matrix) chosen

  -- For every byte position the inverse takes what was received to the data.
  abbrev pub IsInverse : List ℕ → List Row → Type 0
  IsInverse chosen inverse =
      (p : ℕ) → Restores k (column p originals) (samples shards chosen p) inverse

  pub data_shard-original :
      (chosen : List ℕ) (inverse : List Row) (j : ℕ) (o : Option Shard)
      → length chosen ≡ k
      → All (IsHeld shards) chosen
      → IsInverse chosen inverse
      → j < k
      → slot shards j ≡ o
      → data_shard inverse chosen shards len j o ≡ ok (matrix_row originals j)
  unfolding data_shard
  data_shard-original chosen inverse j (some s) e h i l f = ap ok (held-original j s l f)
  data_shard-original chosen inverse j none e h i l f =
      let ((w, b), _) = i 0 j l in
      let c =
        rebuild-IsCombined (matrix_row inverse j) chosen (replicate len 0) b (w ∙ sym e) h
          (length-zeros len, zeros-IsBytes len) in
      let (v, u) = All-matrix_row (IsShard len) originals j all_shards (omega arith) in
      c.returns
      ∙ ap ok (
          at_ext c.out (matrix_row originals j) (c.shard.0 ∙ sym v) (λ p.
            c.bytes p ∙ rw (at-zeros len p) (zero-xor _) ∙ (i p j l).1 ∙ at-column p originals j))

  length-sub_matrix : (chosen : List ℕ) → length (sub_matrix chosen) ≡ length chosen
  length-sub_matrix [] = refl
  length-sub_matrix (i ∷ chosen) = ap suc (length-sub_matrix chosen)

  held-in_matrix :
      (chosen : List ℕ)
      → length shards ≡ k + m
      → All (IsHeld shards) chosen
      → All (IsRow k) (sub_matrix chosen)
  held-in_matrix [] e h = tt
  held-in_matrix (i ∷ chosen) e ((s, f), h) = (
    All-matrix_row (IsRow k) matrix i code.rows (omega (arith, code.count, slot-lt shards i s f)),
    held-in_matrix chosen e h,
  )

  pub sub_matrix-IsInverse :
      (chosen : List ℕ)
      → length chosen ≡ k
      → length shards ≡ k + m
      → All (IsHeld shards) chosen
      → Gives (IsInverse chosen) (invert_matrix (sub_matrix chosen))
  sub_matrix-IsInverse chosen e f h =
      Gives-all (λ p. Restores k (column p originals) (samples shards chosen p)) _
        λ p.
          let n : length (sub_matrix chosen) ≡ k = length-sub_matrix chosen ∙ e in
          subst
            (λ (t : ℕ).
              Gives (Restores t (column p originals) (samples shards chosen p))
                (invert_matrix (sub_matrix chosen)))
            n
            (invert_matrix-Restores (sub_matrix chosen) (column p originals)
              (samples shards chosen p)
              (subst (λ (t : ℕ). All (IsRow t) (sub_matrix chosen)) (sym n)
                (held-in_matrix chosen f h))
              (column-IsBytes len p originals all_shards) (samples-IsBytes chosen p h)
              (length-column p originals ∙ k_originals ∙ sym n)
              (length-samples shards chosen p ∙ e ∙ sym n) (chosen-Maps chosen p h))

  each_zero :
      (chosen ds : List ℕ)
      → ((j : ℕ) → j < length (sub_matrix chosen) → dot (matrix_row (sub_matrix chosen) j) ds ≡ 0)
      → All (λ i. dot (matrix_row matrix i) ds ≡ 0) chosen
  each_zero [] ds h = tt
  each_zero (i ∷ chosen) ds h =
      (h 0 (omega arith), each_zero chosen ds (λ j l. h (suc j) (omega arith)))

  held-below :
      (chosen : List ℕ)
      → length shards ≡ k + m
      → All (IsHeld shards) chosen
      → All (λ i. i < k + m) chosen
  held-below chosen e h = All-mono chosen (λ i (s, f). omega (arith, slot-lt shards i s f)) h

  -- The rows of k shards that are there are not found singular.
  pub sub_matrix_inverted :
      (chosen : List ℕ)
      → length chosen ≡ k
      → length shards ≡ k + m
      → Ascends 0 chosen
      → All (IsHeld shards) chosen
      → (inverse : List Row) × (invert_matrix (sub_matrix chosen) ≡ ok inverse)
        × IsInverse chosen inverse
  sub_matrix_inverted chosen e f a h =
      let n : length (sub_matrix chosen) ≡ k = length-sub_matrix chosen ∙ e in
      succeeds (invert_matrix (sub_matrix chosen)) refl (sub_matrix-IsInverse chosen e f h) (
        invert_matrix-Traces (sub_matrix chosen) (
          subst (λ (t : ℕ). All (IsRow t) (sub_matrix chosen)) (sym n) (held-in_matrix chosen f h)))
    where
      impossible : IsDependent (sub_matrix chosen) → ⊥
      impossible d =
          let n : length (sub_matrix chosen) ≡ k = length-sub_matrix chosen ∙ e in
          let z : at d.dead d.place ≡ 0 =
            independent k m matrix chosen d.dead code a (held-below chosen f h) e d.bytes
              (d.width ∙ n) (each_zero chosen d.dead d.zeros) d.place (omega (arith, d.inside)) in
          omega (arith, z, d.one)

      succeeds :
          (o : Outcome (List Row))
          → invert_matrix (sub_matrix chosen) ≡ o
          → Gives (IsInverse chosen) o
          → Traces (IsDependent (sub_matrix chosen)) (λ done. Unit {0}) o
          → (inverse : List Row) × (invert_matrix (sub_matrix chosen) ≡ ok inverse)
            × IsInverse chosen inverse
      succeeds (ok inverse) q g t = (inverse, q, g)
      succeeds (fail w) q g t = absurd (impossible t)
