-- ===== src/Erasure/Matrix/Dot.antt =====
-- The product of a row with a column, and what the operations on rows do to it.
use Prim.Native.Nat.{bit_xor}
use ccn.Prelude.{ℕ, zero, suc, ◌≤◌, ◌<◌, ◌≡◌, ◌≢◌, refl, ap, sym, ◌∙◌, arith}
use ccn.Prelude.{List, [], ◌∷◌, map, length, replicate, All}
use ccn.Erasure.Gf256.{at, store, mul, add}
use ccn.Erasure.Gf256.Xor.{zero-xor, xor-zero, xor-lt, xor_swap}
use ccn.Erasure.Gf256.Laws.{mul-lt, mul_comm, mul-xor, mul_assoc, mul-zero, one-mul}
use ccn.Erasure.Matrix.{Row, unit_row, add_scaled}

abbrev pub IsByte : ℕ → Type 0
IsByte x = x < 256

abbrev pub IsBytes : List ℕ → Type 0
IsBytes xs = All IsByte xs

abbrev pub dot : Row → List ℕ → ℕ
dot [] ds = 0
dot (c ∷ row) [] = 0
dot (c ∷ row) (d ∷ ds) = bit_xor (mul c d) (dot row ds)

abbrev pub scaled : ℕ → Row → Row
scaled p row = map (λ c. mul c p) row

pub zero-mul : (a : ℕ) → mul 0 a ≡ 0
zero-mul a = mul_comm 0 a ∙ mul-zero a

pub mul-one : (a : ℕ) → a < 256 → mul a 1 ≡ a
mul-one a h = mul_comm a 1 ∙ one-mul a h

pub xor-mul :
    (a b c : ℕ) → a < 256 → b < 256 → c < 256 → mul (bit_xor a b) c ≡ bit_xor (mul a c) (mul b c)
xor-mul a b c p q r =
    mul_comm (bit_xor a b) c ∙ mul-xor c a b r p q ∙ rw (mul_comm c a, mul_comm c b) refl

mul_rotate : (p c d : ℕ) → p < 256 → c < 256 → d < 256 → mul (mul c p) d ≡ mul p (mul c d)
mul_rotate p c d hp hc hd = rw (mul_comm c p) (mul_assoc p c d hp hc hd)

pub dot-lt : (row ds : List ℕ) → IsBytes row → IsBytes ds → dot row ds < 256
dot-lt [] ds h k = omega arith
dot-lt (c ∷ row) [] h k = omega arith
dot-lt (c ∷ row) (d ∷ ds) (p, h) (q, k) =
    xor-lt 8 (mul c d) (dot row ds) (mul-lt c d p q) (dot-lt row ds h k)

pub scaled-IsBytes : (p : ℕ) (row : Row) → p < 256 → IsBytes row → IsBytes (scaled p row)
scaled-IsBytes p [] h k = tt
scaled-IsBytes p (c ∷ row) h (q, k) = (mul-lt c p q h, scaled-IsBytes p row h k)

pub length-scaled : (p : ℕ) (row : Row) → length (scaled p row) ≡ length row
length-scaled p [] = refl
length-scaled p (c ∷ row) = ap suc (length-scaled p row)

pub at-scaled : (p : ℕ) (row : Row) (i : ℕ) → at (scaled p row) i ≡ mul (at row i) p
at-scaled p [] i = sym (zero-mul p)
at-scaled p (c ∷ row) zero = refl
at-scaled p (c ∷ row) (suc i) = at-scaled p row i

pub dot-scaled :
    (p : ℕ) (row ds : List ℕ)
    → p < 256
    → IsBytes row
    → IsBytes ds
    → dot (scaled p row) ds ≡ mul p (dot row ds)
dot-scaled p [] ds h k l = sym (mul-zero p)
dot-scaled p (c ∷ row) [] h k l = sym (mul-zero p)
dot-scaled p (c ∷ row) (d ∷ ds) h (q, k) (r, l) =
    rw (mul_rotate p c d h q r, dot-scaled p row ds h k l)
      (sym (mul-xor p (mul c d) (dot row ds) h (mul-lt c d q r) (dot-lt row ds k l)))

pub add_scaled-IsBytes :
    (f : ℕ) (xs ps : Row) → f < 256 → IsBytes xs → IsBytes ps → IsBytes (add_scaled f xs ps)
unfolding add_scaled add
add_scaled-IsBytes f [] ps h k l = tt
add_scaled-IsBytes f (x ∷ xs) [] h k l = tt
add_scaled-IsBytes f (x ∷ xs) (p ∷ ps) h (q, k) (r, l) =
    (xor-lt 8 x (mul f p) q (mul-lt f p h r), add_scaled-IsBytes f xs ps h k l)

pub length-add_scaled :
    (f : ℕ) (xs ps : Row) → length xs ≡ length ps → length (add_scaled f xs ps) ≡ length xs
unfolding add_scaled
length-add_scaled f [] ps h = refl
length-add_scaled f (x ∷ xs) [] h = absurd (omega arith)
length-add_scaled f (x ∷ xs) (p ∷ ps) h = ap suc (length-add_scaled f xs ps (omega arith))

pub at-add_scaled :
    (f : ℕ) (xs ps : Row) (i : ℕ)
    → length xs ≡ length ps
    → at (add_scaled f xs ps) i ≡ bit_xor (at xs i) (mul f (at ps i))
unfolding add_scaled add
at-add_scaled f [] [] i h = rw (mul-zero f) refl
at-add_scaled f [] (p ∷ ps) i h = absurd (omega arith)
at-add_scaled f (x ∷ xs) [] i h = absurd (omega arith)
at-add_scaled f (x ∷ xs) (p ∷ ps) zero h = refl
at-add_scaled f (x ∷ xs) (p ∷ ps) (suc i) h = at-add_scaled f xs ps i (omega arith)

pub dot-add_scaled :
    (f : ℕ) (xs ps ds : List ℕ)
    → length xs ≡ length ps
    → f < 256
    → IsBytes xs
    → IsBytes ps
    → IsBytes ds
    → dot (add_scaled f xs ps) ds ≡ bit_xor (dot xs ds) (mul f (dot ps ds))
unfolding add_scaled add
dot-add_scaled f [] [] ds e h k l m = rw (mul-zero f) refl
dot-add_scaled f [] (p ∷ ps) ds e h k l m = absurd (omega arith)
dot-add_scaled f (x ∷ xs) [] ds e h k l m = absurd (omega arith)
dot-add_scaled f (x ∷ xs) (p ∷ ps) [] e h k l m = rw (mul-zero f) refl
dot-add_scaled f (x ∷ xs) (p ∷ ps) (d ∷ ds) e h (q, k) (r, l) (s, m) =
    let first : mul (bit_xor x (mul f p)) d ≡ bit_xor (mul x d) (mul f (mul p d)) =
      xor-mul x (mul f p) d q (mul-lt f p h r) s ∙ rw (mul_assoc f p d h r s) refl in
    rw
      (
        first,
        dot-add_scaled f xs ps ds (omega arith) h k l m,
        mul-xor f (mul p d) (dot ps ds) h (mul-lt p d r s) (dot-lt ps ds l m),
      )
      (xor_swap (mul x d) (mul f (mul p d)) (dot xs ds) (mul f (dot ps ds)))

dot-zeros : (n : ℕ) (ds : List ℕ) → dot (replicate n 0) ds ≡ 0
dot-zeros zero ds = refl
dot-zeros (suc n) [] = refl
dot-zeros (suc n) (d ∷ ds) = rw (zero-mul d, dot-zeros n ds) refl

-- A row of the identity picks one entry.
pub dot-unit_row :
    (n i : ℕ) (ds : List ℕ) → i < n → length ds ≡ n → IsBytes ds → dot (unit_row n i) ds ≡ at ds i
unfolding unit_row
dot-unit_row zero i ds h e k = absurd (omega arith)
dot-unit_row (suc n) i [] h e k = absurd (omega arith)
dot-unit_row (suc n) zero (d ∷ ds) h e (q, k) = rw (one-mul d q, dot-zeros n ds) (xor-zero d)
dot-unit_row (suc n) (suc i) (d ∷ ds) h e (q, k) =
    rw (zero-mul d, zero-xor (dot (store (replicate n 0) i 1) ds))
      (dot-unit_row n i ds (omega arith) (omega arith) k)

pub length-zeros : (n : ℕ) → length {A = ℕ} (replicate n 0) ≡ n
length-zeros zero = refl
length-zeros (suc n) = ap suc (length-zeros n)

pub length-unit_row : (n i : ℕ) → length (unit_row n i) ≡ n
unfolding unit_row
length-unit_row zero i = refl
length-unit_row (suc n) zero = ap suc (length-zeros n)
length-unit_row (suc n) (suc i) = ap suc (length-unit_row n i)

pub zeros-IsBytes : (n : ℕ) → IsBytes (replicate n 0)
zeros-IsBytes zero = tt
zeros-IsBytes (suc n) = (omega arith, zeros-IsBytes n)

pub unit_row-IsBytes : (n i : ℕ) → IsBytes (unit_row n i)
unfolding unit_row
unit_row-IsBytes zero i = tt
unit_row-IsBytes (suc n) zero = (omega arith, zeros-IsBytes n)
unit_row-IsBytes (suc n) (suc i) = (omega arith, unit_row-IsBytes n i)

pub at-zeros : (n i : ℕ) → at (replicate n 0) i ≡ 0
at-zeros zero i = refl
at-zeros (suc n) zero = refl
at-zeros (suc n) (suc i) = at-zeros n i

pub at-unit_row_self : (n i : ℕ) → i < n → at (unit_row n i) i ≡ 1
unfolding unit_row
at-unit_row_self zero i h = absurd (omega arith)
at-unit_row_self (suc n) zero h = refl
at-unit_row_self (suc n) (suc i) h = at-unit_row_self n i (omega arith)

pub at-unit_row_ne : (n i j : ℕ) → i ≢ j → at (unit_row n i) j ≡ 0
unfolding unit_row
at-unit_row_ne zero i j h = refl
at-unit_row_ne (suc n) zero zero h = absurd (h refl)
at-unit_row_ne (suc n) zero (suc j) h = at-zeros n j
at-unit_row_ne (suc n) (suc i) zero h = refl
at-unit_row_ne (suc n) (suc i) (suc j) h = at-unit_row_ne n i j (λ e. h (ap suc e))

-- Lists of one length with the same values are one.
pub at_ext : (xs ys : List ℕ) → length xs ≡ length ys → ((i : ℕ) → at xs i ≡ at ys i) → xs ≡ ys
at_ext [] [] e h = refl
at_ext [] (y ∷ ys) e h = absurd (omega arith)
at_ext (x ∷ xs) [] e h = absurd (omega arith)
at_ext (x ∷ xs) (y ∷ ys) e h = rw (h 0, at_ext xs ys (omega arith) (λ i. h (suc i))) refl

pub at-IsByte : (xs : List ℕ) (i : ℕ) → IsBytes xs → at xs i < 256
at-IsByte [] i h = omega arith
at-IsByte (x ∷ xs) zero (p, h) = p
at-IsByte (x ∷ xs) (suc i) (p, h) = at-IsByte xs i h

pub at-ge : (xs : List ℕ) (i : ℕ) → length xs ≤ i → at xs i ≡ 0
at-ge [] i h = refl
at-ge (x ∷ xs) zero h = absurd (omega arith)
at-ge (x ∷ xs) (suc i) h = at-ge xs i (omega arith)
