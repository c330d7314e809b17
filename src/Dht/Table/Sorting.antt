-- ===== src/Dht/Table/Sorting.antt =====
-- The sort of `closest` in kbucket.ts: it orders by the distance, and keeps the elements.
use mathlib.Core.List.{Perm}
use mathlib.Core.List.Perm
use ccn.Prelude.{
  ℕ, suc, ◌≡◌, refl, ◌∙◌, ap, inl, inr, List, [], ◌∷◌, length, All, Bool-cases, arith,
}
use ccn.Dht.NodeId.{NodeId, xor}
use ccn.Dht.Table.{is_nearer, insert, sort}
use ccn.Dht.Table.Distance.{IsBelow, byte_cmp-IsBelow, IsBelow-trans, length-xor}

module _ {A : Type 0} (id_of : A → NodeId) (target : NodeId) where
  abbrev pub distance : A → NodeId
  distance a = xor (id_of a) target

  abbrev pub IsNearer : A → A → Type 0
  IsNearer a b = IsBelow (distance a) (distance b)

  abbrev pub IsSorted : List A → Type 0
  IsSorted [] = Unit
  IsSorted (a ∷ bs) = All (IsNearer a) bs × IsSorted bs

  abbrev pub IsWide : ℕ → A → Type 0
  IsWide n a = length (id_of a) ≡ n

  insert-All :
      (P : A → Type 0) (c : A) (ds : List A) → P c → All P ds → All P (insert id_of target c ds)
  unfolding insert
  insert-All P c [] p h = (p, tt)
  insert-All P c (d ∷ ds) p (q, h) = elim (Bool-cases (is_nearer target (id_of c) (id_of d))) [
    | inl e ↦ rw e (p, (q, h))
    | inr e ↦ rw e (q, insert-All P c ds p h)
  ]

  pub sort-All : (P : A → Type 0) (cs : List A) → All P cs → All P (sort id_of target cs)
  unfolding sort
  sort-All P [] h = tt
  sort-All P (c ∷ cs) (p, h) = insert-All P c (sort id_of target cs) p (sort-All P cs h)

  insert-IsSorted :
      (n : ℕ) (c : A) (ds : List A)
      → IsWide n c
      → All (IsWide n) ds
      → IsSorted ds
      → IsSorted (insert id_of target c ds)
  unfolding insert
  insert-IsSorted n c [] w ws s = (tt, tt)
  insert-IsSorted n c (d ∷ ds) w (v, ws) (h, s) =
      let lc = length-xor (id_of c) target in
      let ld = length-xor (id_of d) target in
      elim (byte_cmp-IsBelow (distance c) (distance d) (omega (arith, lc, ld, w, v))) [
        | inl (e, b) ↦ rw e (((b, behind ds (omega (arith, lc, ld, w, v)) b ws h), (h, s)))
        | inr (e, b) ↦ rw e (insert-All (IsNearer d) c ds b h, insert-IsSorted n c ds w ws s)
      ]
    where
      behind :
          (es : List A)
          → length (distance c) ≡ length (distance d)
          → IsNearer c d
          → All (IsWide n) es
          → All (IsNearer d) es
          → All (IsNearer c) es
      behind [] l b ws h = tt
      behind (e ∷ es) l b (u, ws) (k, h) =
          let ld = length-xor (id_of d) target in
          let le = length-xor (id_of e) target in
          (
            IsBelow-trans (distance c) (distance d) (distance e) l (omega (arith, ld, le, u, v)) b
                k,
            behind es l b ws h,
          )

  pub sort-IsSorted : (n : ℕ) (cs : List A) → All (IsWide n) cs → IsSorted (sort id_of target cs)
  unfolding sort
  sort-IsSorted n [] h = tt
  sort-IsSorted n (c ∷ cs) (w, h) =
      insert-IsSorted n c (sort id_of target cs) w (sort-All (IsWide n) cs h) (sort-IsSorted n cs h)

  length-insert : (c : A) (ds : List A) → length (insert id_of target c ds) ≡ suc (length ds)
  unfolding insert
  length-insert c [] = refl
  length-insert c (d ∷ ds) = elim (Bool-cases (is_nearer target (id_of c) (id_of d))) [
    | inl e ↦ rw e refl
    | inr e ↦ rw e (ap suc (length-insert c ds))
  ]

  pub length-sort : (cs : List A) → length (sort id_of target cs) ≡ length cs
  unfolding sort
  length-sort [] = refl
  length-sort (c ∷ cs) = length-insert c (sort id_of target cs) ∙ ap suc (length-sort cs)

  insert-perm : (c : A) (ds : List A) → Perm (insert id_of target c ds) (c ∷ ds)
  unfolding insert
  insert-perm c [] = Perm.rfl
  insert-perm c (d ∷ ds) = elim (Bool-cases (is_nearer target (id_of c) (id_of d))) [
    | inl e ↦ rw e Perm.rfl
    | inr e ↦ rw e (Perm.trans (Perm.cons d (insert-perm c ds)) (Perm.swap c d ds))
  ]

  pub sort-perm : (cs : List A) → Perm (sort id_of target cs) cs
  unfolding sort
  sort-perm [] = Perm.rfl
  sort-perm (c ∷ cs) =
      Perm.trans (insert-perm c (sort id_of target cs)) (Perm.cons c (sort-perm cs))
