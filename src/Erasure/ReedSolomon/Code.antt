-- ===== src/Erasure/ReedSolomon/Code.antt =====
-- The constructor and encode: what the shards of a code are.
use Prim.Native.Nat.{bit_xor}
use ccn.Prelude.{ℕ, zero, suc, ◌+◌, ◌≤◌, ◌<◌, ◌≡◌, ◌≢◌, refl, ap, sym, subst, ◌∙◌, arith}
use ccn.Prelude.{List, [], ◌∷◌, ◌++◌, length, replicate, All, All-append, some}
use ccn.Prelude.{eqb, eqb_iff, ltb, get_elem?, true, false, length-append}
use mathlib.Core.Option.{some-injective}
use ccn.Erasure.Outcome.{Outcome, ok, from_field}
use ccn.Erasure.Gf256.{at, inv}
use ccn.Erasure.Gf256.Xor.{zero-xor, xor-zero, xor_assoc, xor_self, xor-lt}
use ccn.Erasure.Gf256.Laws.{inv-mul}
use ccn.Erasure.Gf256.Cauchy.{recip, recip_of}
use ccn.Erasure.Matrix.{
  Row, matrix_row, unit_row, tabulate, try_tabulate, identity_rows, cauchy_row,
  build_encoding_matrix,
}
use ccn.Erasure.Matrix.Dot.{
  dot, length-unit_row, unit_row-IsBytes, length-zeros, zeros-IsBytes, at-zeros,
}
use ccn.Erasure.Matrix.Inverse.{IsRow}
use ccn.Erasure.ReedSolomon.{
  Shard, RsConfig, ReedSolomon, with_matrix, new_reed_solomon, combine, equal_lengths, shard_length,
  encode,
}
use ccn.Erasure.ReedSolomon.Samples.{IsShard, column, combine-IsCombined}

-- The loop returns when every round does, with one value for each round.
pub record IsTabulated {ℓ} {A : Type ℓ} (P : ℕ → A → Type 0) (i n : ℕ) (result : Outcome (List A))
    : Type ℓ where
  pub results : List A
  pub returns : result ≡ ok results
  pub count : length results ≡ n
  pub each : (j : ℕ) → j < n → (a : A) × (P (i + j) a) × (get_elem? results j ≡ some a)

module _ {ℓ} {A : Type ℓ} (P : ℕ → A → Type 0) (f : ℕ → Outcome A) where
  pub try_tabulate-IsTabulated :
      (n i : ℕ)
      → ((j : ℕ) → i ≤ j → j < i + n → (a : A) × (f j ≡ ok a) × P j a)
      → IsTabulated P i n (try_tabulate f n i)
  unfolding try_tabulate
  try_tabulate-IsTabulated zero i h = record {
    results = [];
    returns = refl;
    count = refl;
    each = λ j l. absurd (omega arith);
  }
  try_tabulate-IsTabulated (suc n) i h =
      let (a, e, p) = h i (omega arith) (omega arith) in
      let rest = try_tabulate-IsTabulated n (suc i) (λ j k l. h j (omega arith) (omega arith)) in
      record {
        results = a ∷ rest.results;
        returns = rw (e, rest.returns) refl;
        count = ap suc rest.count;
        each = λ j l.
            elim j
                as (λ (j : ℕ).
                  j < suc n
                  → (a' : A) × (P (i + j) a') × (get_elem? (a ∷ rest.results) j ≡ some a')) [
                    | zero ↦ λ _. (a, subst (λ (t : ℕ). P t a) (omega arith) p, refl)
                    | suc j ↦ λ l.
                        let (b, q, g) = rest.each j (omega arith) in
                        (b, subst (λ (t : ℕ). P t b) (omega arith) q, g)
                  ]
              l;
      }

pub All-get {ℓ} :
    {A : Type ℓ} (P : A → Type 0) (xs : List A)
    → ((j : ℕ) → j < length xs → (a : A) × P a × (get_elem? xs j ≡ some a))
    → All P xs
All-get P [] h = tt
All-get P (x ∷ xs) h =
    let (a, p, e) = h 0 (omega arith) in
    (subst P (sym (some-injective _ _ e)) p, All-get P xs (λ j l. h (suc j) (omega arith)))

pub get_elem?-matrix_row :
    (rows : List Row) (j : ℕ) (row : Row) → get_elem? rows j ≡ some row → matrix_row rows j ≡ row
get_elem?-matrix_row [] j row h = absurd (cc)
get_elem?-matrix_row (r ∷ rows) zero row h = some-injective _ _ h
get_elem?-matrix_row (r ∷ rows) (suc j) row h = get_elem?-matrix_row rows j row h

-- Different bytes have a sum that can be inverted.
inv-xor : (x j : ℕ) → x < 256 → j < 256 → x ≢ j → (b : ℕ) × (inv (bit_xor x j) ≡ some b) × (b < 256)
inv-xor x j p q n = inv_of (bit_xor x j) refl (xor-lt 8 x j p q)
  where
    same : bit_xor x j ≡ 0 → x ≡ j
    same e =
        sym (xor-zero x)
        ∙ ap (bit_xor x) (sym (xor_self j))
        ∙ sym (xor_assoc x j j)
        ∙ ap (λ (t : ℕ). bit_xor t j) e
        ∙ zero-xor j

    inv_of : (y : ℕ) → y ≡ bit_xor x j → y < 256 → (b : ℕ) × (inv y ≡ some b) × (b < 256)
    inv_of zero e l = absurd (n (same (sym e)))
    inv_of (suc y) e l = let (b, f, r, _) = inv-mul y l in (b, f, r)

-- Row `x` of the Cauchy matrix.
pub record IsCauchy (k x : ℕ) (row : Row) : Type 0 where
  pub is_row : IsRow k row
  pub entries : (j : ℕ) → j < k → at row j ≡ recip (bit_xor x j)

get_elem?-at : (xs : List ℕ) (j b : ℕ) → get_elem? xs j ≡ some b → at xs j ≡ b
get_elem?-at [] j b h = absurd (cc)
get_elem?-at (x ∷ xs) zero b h = some-injective _ _ h
get_elem?-at (x ∷ xs) (suc j) b h = get_elem?-at xs j b h

cauchy_row-IsCauchy :
    (k x : ℕ) → k ≤ x → x < 256 → (row : Row) × (cauchy_row k x ≡ ok row) × IsCauchy k x row
unfolding cauchy_row
cauchy_row-IsCauchy k x l h =
    let t =
      try_tabulate-IsTabulated (λ j b. (b < 256) × (b ≡ recip (bit_xor x j)))
        (λ j. from_field (inv (bit_xor x j))) k 0
        (λ j p q.
          let (b, e, r) = inv-xor x j h (omega arith) (λ w. omega arith) in
          (b, rw e refl, (r, sym (ap recip_of e)))) in
    (
      t.results,
      t.returns,
      record {
        is_row = (
          t.count,
          All-get (λ b. b < 256) t.results
              (λ j p. let (b, q, g) = t.each j (omega (arith, t.count)) in (b, q.0, g)),
        );
        entries = λ j p.
            let (b, q, g) = t.each j p in
            let same : 0 + j ≡ j = omega arith in
            get_elem?-at t.results j b g ∙ q.1 ∙ ap (λ (i : ℕ). recip (bit_xor x i)) same;
      },
    )

-- An encoding matrix: `k` rows of the identity, then `m` rows of the Cauchy matrix.
pub record IsCode (k m : ℕ) (matrix : List Row) : Type 0 where
  pub few : k + m ≤ 256
  pub count : length matrix ≡ k + m
  pub rows : All (IsRow k) matrix
  pub top : (j : ℕ) → j < k → matrix_row matrix j ≡ unit_row k j
  pub bottom : (i : ℕ) → i < m → IsCauchy k (k + i) (matrix_row matrix (k + i))

pub matrix_row-append_ge :
    (xs ys : List Row) (i : ℕ) → matrix_row (xs ++ ys) (length xs + i) ≡ matrix_row ys i
matrix_row-append_ge [] ys i = let e : 0 + i ≡ i = omega arith in rw e refl
matrix_row-append_ge (x ∷ xs) ys i =
    let e : suc (length xs) + i ≡ suc (length xs + i) = omega arith in
    rw e (matrix_row-append_ge xs ys i)

matrix_row-tabulate : (f : ℕ → Row) (n i j : ℕ) → j < n → matrix_row (tabulate f n i) j ≡ f (i + j)
unfolding tabulate
matrix_row-tabulate f zero i j h = absurd (omega arith)
matrix_row-tabulate f (suc n) i zero h = ap f {x = i} {y = i + 0} (omega arith)
matrix_row-tabulate f (suc n) i (suc j) h =
    matrix_row-tabulate f n (suc i) j (omega arith)
    ∙ ap f {x = suc i + j} {y = i + suc j} (omega arith)

length-tabulate : (f : ℕ → Row) (n i : ℕ) → length (tabulate f n i) ≡ n
unfolding tabulate
length-tabulate f zero i = refl
length-tabulate f (suc n) i = ap suc (length-tabulate f n (suc i))

unit_rows-IsRow : (k n i : ℕ) → All (IsRow k) (tabulate (unit_row k) n i)
unfolding tabulate
unit_rows-IsRow k zero i = tt
unit_rows-IsRow k (suc n) i =
    ((length-unit_row k i, unit_row-IsBytes k i), unit_rows-IsRow k n (suc i))

pub matrix_row-append :
    (xs ys : List Row) (j : ℕ) → j < length xs → matrix_row (xs ++ ys) j ≡ matrix_row xs j
matrix_row-append [] ys j h = absurd (omega arith)
matrix_row-append (x ∷ xs) ys zero h = refl
matrix_row-append (x ∷ xs) ys (suc j) h = matrix_row-append xs ys j (omega arith)

build_encoding_matrix-IsCode :
    (k m : ℕ)
    → k + m ≤ 256
    → (matrix : List Row) × (build_encoding_matrix k m ≡ ok matrix) × IsCode k m matrix
unfolding build_encoding_matrix identity_rows
build_encoding_matrix-IsCode k m h =
    let t =
      try_tabulate-IsTabulated (λ i row. IsCauchy k (k + i) row) (λ i. cauchy_row k (k + i)) m 0
        (λ j p q. cauchy_row-IsCauchy k (k + j) (omega arith) (omega arith)) in
    let tops = tabulate (unit_row k) k 0 in
    (
      tops ++ t.results,
      rw t.returns refl,
      record {
        few = h;
        count =
            length-append tops t.results ∙ omega (arith, length-tabulate (unit_row k) k 0, t.count);
        rows = All-append (IsRow k) tops t.results (unit_rows-IsRow k k 0) (
            All-get (IsRow k) t.results
              (λ j p. let (r, c, g) = t.each j (omega (arith, t.count)) in (r, c.is_row, g)));
        top = λ j l.
            matrix_row-append tops t.results j (omega (arith, length-tabulate (unit_row k) k 0))
            ∙ matrix_row-tabulate (unit_row k) k 0 j l
            ∙ ap (unit_row k) {x = 0 + j} {y = j} (omega arith);
        bottom = λ i l.
            let (r, c, g) = t.each i l in
            let same : 0 + i ≡ i = omega arith in
            let place : matrix_row (tops ++ t.results) (k + i) ≡ r =
              ap (λ (n : ℕ). matrix_row (tops ++ t.results) (n + i))
                (sym (length-tabulate (unit_row k) k 0))
              ∙ matrix_row-append_ge tops t.results i
              ∙ get_elem?-matrix_row t.results i r g in
            subst (IsCauchy k (k + i)) (sym place) (rw same at c);
      },
    )

-- The state that the constructor leaves.
pub record IsReedSolomon (config : RsConfig) (rs : ReedSolomon) : Type 0 where
  pub same_k : rs.k ≡ config.k
  pub same_m : rs.m ≡ config.m
  pub code : IsCode rs.k rs.m rs.encoding_matrix

-- With at least one data shard, at least one parity shard and at most 256 in all, the constructor
-- throws nothing: no entry of the Cauchy rows is the inverse of 0, and the matrix has the identity
-- on top and a row of bytes for each shard.
pub new_reed_solomon-IsReedSolomon :
    (config : RsConfig)
    → 1 ≤ config.k
    → 1 ≤ config.m
    → config.k + config.m ≤ 256
    → (rs : ReedSolomon) × (new_reed_solomon config ≡ ok rs) × IsReedSolomon config rs
unfolding new_reed_solomon with_matrix
new_reed_solomon-IsReedSolomon config a b c =
    let (matrix, e, code) = build_encoding_matrix-IsCode config.k config.m c in
    let p : ltb config.k 1 ≡ false = ground arith in
    let q : ltb config.m 1 ≡ false = ground arith in
    let r : ltb 256 (config.k + config.m) ≡ false = ground arith in
    (
      record { k = config.k; m = config.m; encoding_matrix = matrix },
      rw (p, q, r, e) refl,
      record { same_k = refl; same_m = refl; code = code },
    )

equal_lengths-true :
    (len : ℕ) (shards : List Shard) → All (IsShard len) shards → equal_lengths len shards ≡ true
unfolding equal_lengths
equal_lengths-true len [] h = refl
equal_lengths-true len (s ∷ shards) ((e, b), h) =
    let t : eqb (length s) len ≡ true = (eqb_iff _ _).1 e in rw t (equal_lengths-true len shards h)

shard_length-lem :
    (len : ℕ) (shards : List Shard)
    → 1 ≤ length shards
    → All (IsShard len) shards
    → shard_length shards ≡ len
unfolding shard_length
shard_length-lem len [] h k = absurd (omega arith)
shard_length-lem len (s ∷ shards) h ((e, b), k) = e

pub All-matrix_row :
    (P : Row → Type 0) (rows : List Row) (j : ℕ)
    → All P rows
    → j < length rows
    → P (matrix_row rows j)
All-matrix_row P [] j h l = absurd (omega arith)
All-matrix_row P (r ∷ rows) zero (p, h) l = p
All-matrix_row P (r ∷ rows) (suc j) (p, h) l = All-matrix_row P rows j h (omega arith)

-- Shard `i` of the code: each byte is the product of row `i` of the matrix with the bytes of the
-- data in its place.
pub record IsCodeShard (matrix : List Row) (shards : List Shard) (len i : ℕ) (s : Shard)
    : Type 0 where
  pub shard : IsShard len s
  pub bytes : (p : ℕ) → at s p ≡ dot (matrix_row matrix i) (column p shards)

parity-IsCodeShard :
    (k m len i : ℕ) (matrix : List Row) (shards : List Shard)
    → IsCode k m matrix
    → i < k + m
    → length shards ≡ k
    → All (IsShard len) shards
    → (s : Shard) × (combine (matrix_row matrix i) shards (replicate len 0) ≡ ok s)
      × IsCodeShard matrix shards len i s
parity-IsCodeShard k m len i matrix shards code h e all =
    let (w, b) = All-matrix_row (IsRow k) matrix i code.rows (omega (arith, code.count)) in
    let c =
      combine-IsCombined len (matrix_row matrix i) shards (replicate len 0) b (w ∙ sym e) all
        (length-zeros len, zeros-IsBytes len) in
    (
      c.out,
      c.returns,
      record { shard = c.shard; bytes = λ p. c.bytes p ∙ rw (at-zeros len p) (zero-xor _) },
    )

-- encode of as many data shards as the code has, all of one length, returns the parity shards of
-- the code.
pub encode-IsTabulated :
    (rs : ReedSolomon) (shards : List Shard) (len : ℕ)
    → IsCode rs.k rs.m rs.encoding_matrix
    → 1 ≤ rs.k
    → length shards ≡ rs.k
    → All (IsShard len) shards
    → IsTabulated
        (λ i s. IsCodeShard rs.encoding_matrix shards len (rs.k + i) s)
        0
        rs.m
        (encode rs shards)
unfolding encode
encode-IsTabulated rs shards len code h e all =
    let p : eqb (length shards) rs.k ≡ true = (eqb_iff _ _).1 e in
    rw (shard_length-lem len shards (omega arith) all, p, equal_lengths-true len shards all)
      (try_tabulate-IsTabulated (λ i s. IsCodeShard rs.encoding_matrix shards len (rs.k + i) s)
        (λ i. combine (matrix_row rs.encoding_matrix (rs.k + i)) shards (replicate len 0)) rs.m 0
        (λ j l u.
          parity-IsCodeShard rs.k rs.m len (rs.k + j) rs.encoding_matrix shards code (omega arith) e
            all))
