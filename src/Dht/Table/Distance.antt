-- ===== src/Dht/Table/Distance.antt =====
-- `byteCmp` on the XOR distances of kbucket.ts: an order on identifiers of one length.
use Prim.Native.Nat.{bit_xor, compare, Ordering}
use native.Mathlib.Omega.{compare-lt, compare-eq, compare-gt}
use ccn.Prelude.{
  ℕ, suc, ◌<◌, ◌≡◌, refl, sym, ◌∙◌, ap, ◌⊎◌, inl, inr, Bool, true, false, [], ◌∷◌, length, arith,
}
use ccn.Dht.NodeId.{NodeId, xor, byte_cmp}

-- The order of bytes, the first ones first.
abbrev pub IsBelow : NodeId → NodeId → Type 0
IsBelow [] b = Unit
IsBelow (x ∷ a) [] = IsBelow a []
IsBelow (x ∷ a) (y ∷ b) = (x < y) ⊎ ((x ≡ y) × IsBelow a b)

compare-cases :
    (x y : ℕ)
    → ((compare x y ≡ Ordering.lt) × (x < y))
      ⊎ (((compare x y ≡ Ordering.eq) × (x ≡ y)) ⊎ ((compare x y ≡ Ordering.gt) × (y < x)))
compare-cases x y = by_answer (compare x y) refl
  where
    by_answer :
        (o : Ordering)
        → compare x y ≡ o
        → ((compare x y ≡ Ordering.lt) × (x < y))
          ⊎ (((compare x y ≡ Ordering.eq) × (x ≡ y)) ⊎ ((compare x y ≡ Ordering.gt) × (y < x)))
    by_answer Ordering.lt e = inl (e, compare-lt x y e)
    by_answer Ordering.eq e = inr (inl (e, compare-eq x y e))
    by_answer Ordering.gt e = inr (inr (e, compare-gt x y e))

abbrev pub is_not_gt : Ordering → Bool
is_not_gt o = elim o [ Ordering.gt ↦ false | _ ↦ true ]

pub byte_cmp-IsBelow :
    (a b : NodeId)
    → length a ≡ length b
    → ((is_not_gt (byte_cmp a b) ≡ true) × IsBelow a b)
      ⊎ ((is_not_gt (byte_cmp a b) ≡ false) × IsBelow b a)
unfolding byte_cmp
byte_cmp-IsBelow [] b l = inl (refl, tt)
byte_cmp-IsBelow (x ∷ a) [] l = absurd (omega (arith, l))
byte_cmp-IsBelow (x ∷ a) (y ∷ b) l = elim (compare-cases x y) [
  | inl (e, h) ↦ rw (e, is_not_gt, byte_cmp) (inl (refl, inl h))
  | inr (inl (e, h)) ↦
      rw (e, is_not_gt, byte_cmp)
        (elim (byte_cmp-IsBelow a b (omega (arith, l))) [
          | inl (t, r) ↦ inl (t, inr (h, r))
          | inr (f, r) ↦ inr (f, inr (sym h, r))
        ])
  | inr (inr (e, h)) ↦ rw (e, is_not_gt, byte_cmp) (inr (refl, inl h))
]

pub IsBelow-trans :
    (a b c : NodeId)
    → length a ≡ length b
    → length b ≡ length c
    → IsBelow a b
    → IsBelow b c
    → IsBelow a c
IsBelow-trans [] b c l m h k = tt
IsBelow-trans (x ∷ a) [] c l m h k = absurd (omega (arith, l))
IsBelow-trans (x ∷ a) (y ∷ b) [] l m h k = absurd (omega (arith, m))
IsBelow-trans (x ∷ a) (y ∷ b) (z ∷ c) l m (inl h) (inl k) = inl (omega (arith, h, k))
IsBelow-trans (x ∷ a) (y ∷ b) (z ∷ c) l m (inl h) (inr (k, s)) = inl (omega (arith, h, k))
IsBelow-trans (x ∷ a) (y ∷ b) (z ∷ c) l m (inr (h, r)) (inl k) = inl (omega (arith, h, k))
IsBelow-trans (x ∷ a) (y ∷ b) (z ∷ c) l m (inr (h, r)) (inr (k, s)) =
    inr (h ∙ k, IsBelow-trans a b c (omega (arith, l)) (omega (arith, m)) r s)

pub length-xor : (a b : NodeId) → length (xor a b) ≡ length a
unfolding xor
length-xor [] b = refl
length-xor (x ∷ a) [] = ap suc (length-xor a [])
length-xor (x ∷ a) (y ∷ b) = ap suc (length-xor a b)

-- `a` is no farther from the target than `b`: of the bytes of the two XOR distances, the highest
-- first, the first that differ are less for `a`. Past its end the target counts as zeros.
abbrev pub IsNoFarther : NodeId → NodeId → NodeId → Type 0
IsNoFarther target [] b = Unit
IsNoFarther target (x ∷ a) [] = ⊥
IsNoFarther [] (x ∷ a) (y ∷ b) =
    (bit_xor x 0 < bit_xor y 0) ⊎ ((bit_xor x 0 ≡ bit_xor y 0) × IsNoFarther [] a b)
IsNoFarther (t ∷ ts) (x ∷ a) (y ∷ b) =
    (bit_xor x t < bit_xor y t) ⊎ ((bit_xor x t ≡ bit_xor y t) × IsNoFarther ts a b)

pub IsBelow-IsNoFarther :
    (target a b : NodeId)
    → length a ≡ length b
    → IsBelow (xor a target) (xor b target)
    → IsNoFarther target a b
unfolding xor
IsBelow-IsNoFarther target [] b l h = tt
IsBelow-IsNoFarther target (x ∷ a) [] l h = absurd (omega (arith, l))
IsBelow-IsNoFarther [] (x ∷ a) (y ∷ b) l (inl h) = inl h
IsBelow-IsNoFarther [] (x ∷ a) (y ∷ b) l (inr (e, h)) =
    inr (e, IsBelow-IsNoFarther [] a b (omega (arith, l)) h)
IsBelow-IsNoFarther (t ∷ ts) (x ∷ a) (y ∷ b) l (inl h) = inl h
IsBelow-IsNoFarther (t ∷ ts) (x ∷ a) (y ∷ b) l (inr (e, h)) =
    inr (e, IsBelow-IsNoFarther ts a b (omega (arith, l)) h)
