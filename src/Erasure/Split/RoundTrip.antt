-- ===== src/Erasure/Split/RoundTrip.antt =====
-- Splitting a buffer and putting the shards together again.
use ccn.Prelude.{ℕ, zero, suc, ◌+◌, ◌-◌, ◌*◌, ◌/◌, ◌≤◌, ◌≡◌, refl, ap, sym, subst, ◌∙◌, arith}
use ccn.Prelude.{List, [], ◌∷◌, ◌++◌, length, take, drop, replicate, All, some, true}
use ccn.Prelude.{leb, length-append, length-take, length-drop, append_assoc}
use ccn.Prelude.{take-append-drop, drop-drop, append-nil}
use ccn.Erasure.ReedSolomon.{Shard, shard_length}
use ccn.Erasure.Split.{pieces, split_into_shards, paste, paste_all, trimmed, recombine_shards}

abbrev concat : List Shard → List ℕ
concat [] = []
concat (s ∷ shards) = s ++ concat shards

abbrev pub HasWidth : ℕ → Shard → Type 0
HasWidth n s = length s ≡ n

suc-mul : (i n : ℕ) → suc i * n ≡ i * n + n
suc-mul i n = grind arith

cover : (len k : ℕ) → 1 ≤ k → len ≤ (len + (k - 1)) / k * k
cover len k h = grind arith

length-concat :
    (n : ℕ) (shards : List Shard)
    → All (HasWidth n) shards
    → length (concat shards) ≡ length shards * n
length-concat n [] h = grind arith
length-concat n (s ∷ shards) (e, h) =
    length-append s (concat shards)
    ∙ omega (arith, length-concat n shards h, suc-mul (length shards) n)

module _ {ℓ} {A : Type ℓ} where
  drop_all : (n : ℕ) (xs : List A) → length xs ≤ n → drop n xs ≡ []
  drop_all zero [] h = refl
  drop_all (suc n) [] h = refl
  drop_all zero (x ∷ xs) h = absurd (omega arith)
  drop_all (suc n) (x ∷ xs) h = drop_all n xs (omega arith)

  take_all : (n : ℕ) (xs : List A) → length xs ≤ n → take n xs ≡ xs
  take_all zero [] h = refl
  take_all (suc n) [] h = refl
  take_all zero (x ∷ xs) h = absurd (omega arith)
  take_all (suc n) (x ∷ xs) h = ap (◌∷◌ x) (take_all n xs (omega arith))

  take-append_exact : (xs ys : List A) (n : ℕ) → n ≡ length xs → take n (xs ++ ys) ≡ xs
  take-append_exact [] ys zero h = refl
  take-append_exact [] ys (suc n) h = absurd (omega arith)
  take-append_exact (x ∷ xs) ys zero h = absurd (omega arith)
  take-append_exact (x ∷ xs) ys (suc n) h = ap (◌∷◌ x) (take-append_exact xs ys n (omega arith))

length-zeros : (n : ℕ) → length {A = ℕ} (replicate n 0) ≡ n
length-zeros zero = refl
length-zeros (suc n) = ap suc (length-zeros n)

pub length-pieces : (k i n : ℕ) (buf : List ℕ) → length (pieces k i n buf) ≡ k
unfolding pieces
length-pieces zero i n buf = refl
length-pieces (suc k) i n buf = ap suc (length-pieces k (suc i) n buf)

pub pieces-HasWidth :
    (k i n : ℕ) (buf : List ℕ) → (i + k) * n ≤ length buf → All (HasWidth n) (pieces k i n buf)
unfolding pieces
pieces-HasWidth zero i n buf h = tt
pieces-HasWidth (suc k) i n buf h = (
  length-take n (drop (i * n) buf) ∙ omega (arith, length-drop (i * n) buf, fits),
  pieces-HasWidth k (suc i) n buf
      (subst (λ (t : ℕ). t * n ≤ length buf) {x = i + suc k} {y = suc i + k} (omega arith) h),
)
  where
    fits : i * n + n ≤ length buf
    fits = grind (arith, suc-mul)

concat-pieces :
    (k i n : ℕ) (buf : List ℕ)
    → length buf ≡ (i + k) * n
    → concat (pieces k i n buf) ≡ drop (i * n) buf
unfolding pieces
concat-pieces zero i n buf h = sym (drop_all (i * n) buf (grind arith))
concat-pieces (suc k) i n buf h = rw (concat-pieces k (suc i) n buf (grind arith)) (
    ap (λ (t : List ℕ). take n (drop (i * n) buf) ++ t)
      (sym (drop-drop (i * n) n (suc i * n) buf (suc-mul i n)))
    ∙ take-append-drop n (drop (i * n) buf))

paste_all-concat :
    (i n : ℕ) (shards : List Shard) (out : List ℕ)
    → All (HasWidth n) shards
    → length out ≡ (i + length shards) * n
    → paste_all i n shards out ≡ some (take (i * n) out ++ concat shards)
unfolding paste_all paste
paste_all-concat i n [] out h e =
    ap some (sym (rw (append-nil (take (i * n) out)) (take_all (i * n) out (grind arith))))
paste_all-concat i n (s ∷ shards) out (w, h) e =
    let fits : i * n + length s ≤ length out = grind arith in
    let test : leb (i * n + length s) (length out) ≡ true = ground arith in
    let front : List ℕ = take (i * n) out ++ s in
    let next : List ℕ = take (i * n) out ++ (s ++ drop (i * n + length s) out) in
    let whole : next ≡ front ++ drop (i * n + length s) out =
      sym (append_assoc (take (i * n) out) s (drop (i * n + length s) out)) in
    let width : suc i * n ≡ length front =
      omega (arith, length-append (take (i * n) out) s, length-take (i * n) out, suc-mul i n) in
    let kept : take (suc i * n) next ≡ front =
      ap (take (suc i * n)) whole
      ∙ take-append_exact front (drop (i * n + length s) out) (suc i * n) width in
    let same_length : length next ≡ length out = omega (
      arith,
      length-append (take (i * n) out) (s ++ drop (i * n + length s) out),
      length-append s (drop (i * n + length s) out),
      length-take (i * n) out,
      length-drop (i * n + length s) out,
    ) in
    rw test (
      paste_all-concat (suc i) n shards next h (
        same_length
        ∙ e
        ∙ ap (λ (t : ℕ). t * n) {x = i + suc (length shards)} {y = suc i + length shards}
            (omega arith))
      ∙ ap some (
          ap (λ (t : List ℕ). t ++ concat shards) kept
          ∙ append_assoc (take (i * n) out) s (concat shards)))

recombine_shards-concat :
    (n len : ℕ) (shards : List Shard)
    → 1 ≤ length shards
    → All (HasWidth n) shards
    → recombine_shards shards len ≡ some (take len (concat shards))
unfolding recombine_shards trimmed shard_length
recombine_shards-concat n len [] h k = absurd (omega arith)
recombine_shards-concat n len (s ∷ shards) h (e, k) =
    let z : 0 * n ≡ 0 = omega arith in
    rw
      (
        e,
        paste_all-concat 0 n (s ∷ shards) (replicate (n * suc (length shards)) 0) (e, k)
            (length-zeros (n * suc (length shards)) ∙ grind arith),
        z,
      )
      refl

commuted : (n k : ℕ) → n * k ≡ (0 + k) * n
commuted n k = grind arith

-- The padded buffer has room for k shards exactly.
pub length-padded :
    (bytes : List ℕ) (k : ℕ)
    → 1 ≤ k
    → let n = (length bytes + (k - 1)) / k in
      length (bytes ++ replicate (n * k - length bytes) 0) ≡ (0 + k) * n
length-padded bytes k h =
    let n : ℕ = (length bytes + (k - 1)) / k in
    length-append bytes (replicate (n * k - length bytes) 0)
    ∙ omega (arith, length-zeros (n * k - length bytes), cover (length bytes) k h, commuted n k)

-- A buffer that is split into at least one shard and put together again, trimmed to its original
-- length, is the buffer; the shards are as many as were asked for.
pub split_into_shards-recombine_shards :
    (bytes : List ℕ) (k : ℕ)
    → 1 ≤ k
    → let parts = split_into_shards bytes k in
      (length parts.shards ≡ k) × (recombine_shards parts.shards parts.original_length ≡ some bytes)
unfolding split_into_shards
split_into_shards-recombine_shards bytes k h =
    let n : ℕ = (length bytes + (k - 1)) / k in
    let buf : List ℕ = bytes ++ replicate (n * k - length bytes) 0 in
    let full : length buf ≡ (0 + k) * n = length-padded bytes k h in
    let count : length (pieces k 0 n buf) ≡ k = length-pieces k 0 n buf in
    (
      count,
      recombine_shards-concat n (length bytes) (pieces k 0 n buf) (omega arith)
            (pieces-HasWidth k 0 n buf (omega arith))
          ∙ ap (λ (t : List ℕ). some (take (length bytes) t))
              (concat-pieces k 0 n buf full
                ∙ ap (λ (t : ℕ). drop t buf) {x = 0 * n} {y = 0} (omega arith))
          ∙ ap some
              (take-append_exact bytes (replicate (n * k - length bytes) 0) (length bytes) refl),
    )
