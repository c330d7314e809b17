-- ===== src/Arp/Session/Segments.antt =====
-- `send` cuts a message into segments that the sender takes, and cuts off nothing.
use ccn.Prelude.{
  ℕ, zero, suc, ◌+◌, ◌-◌, ◌<◌, ◌≤◌, min, ◌≡◌, refl, ap, sym, ◌∙◌, List, [], ◌∷◌, ◌++◌, length, take,
  drop, ltb, arith, All, inl, inr, Bool-cases, length-take, length-drop, take-append-drop,
  drop-drop, append-nil, ltb→lt,
}
use native.Mathlib.Decide.{dec_le}
use ccn.Arp.SenderState.{Payload}
use ccn.Arp.Session.{segments, segments_from, subarray, arp_mss}

-- A segment that `enqueue` accepts and that fits the maximum size.
abbrev pub IsSegment : Payload → Type 0
IsSegment p = (0 < length p) × (length p ≤ arp_mss)

abbrev pub concat : List Payload → List ℕ
concat [] = []
concat (p ∷ ps) = p ++ concat ps

take_all : (n : ℕ) (xs : List ℕ) → length xs ≤ n → take n xs ≡ xs
take_all zero [] h = refl
take_all zero (x ∷ xs) h = absurd (omega arith)
take_all (suc n) [] h = refl
take_all (suc n) (x ∷ xs) h = ap (◌∷◌ x) (take_all n xs (omega arith))

drop_all : (n : ℕ) (xs : List ℕ) → length xs ≤ n → drop n xs ≡ []
drop_all zero [] h = refl
drop_all zero (x ∷ xs) h = absurd (omega arith)
drop_all (suc n) [] h = refl
drop_all (suc n) (x ∷ xs) h = drop_all n xs (omega arith)

-- A cut at the end of the bytes or before it, and what is behind the cut.
subarray_rest :
    (off : ℕ) (bytes : List ℕ)
    → off < length bytes
    → subarray off (min (off + arp_mss) (length bytes)) bytes ++ drop (off + arp_mss) bytes
      ≡ drop off bytes
subarray_rest off bytes h = elim (dec_le (off + arp_mss) (length bytes)) [
  | yes fits ↦
      let full : min (off + arp_mss) (length bytes) - off ≡ arp_mss = omega arith in
      rw full (
        ap (◌++◌ (take arp_mss (drop off bytes)))
          (sym (drop-drop off arp_mss (off + arp_mss) bytes refl))
        ∙ take-append-drop arp_mss (drop off bytes))
  | no over ↦
      let behind = drop_all (off + arp_mss) bytes (omega arith) in
      let short =
        take_all (min (off + arp_mss) (length bytes) - off) (drop off bytes)
          (omega (arith, length-drop off bytes)) in
      rw (behind, short) (append-nil (drop off bytes))
]

subarray-IsSegment :
    (off : ℕ) (bytes : List ℕ)
    → off < length bytes
    → IsSegment (subarray off (min (off + arp_mss) (length bytes)) bytes)
subarray-IsSegment off bytes h =
    let n = length-take (min (off + arp_mss) (length bytes) - off) (drop off bytes) in
    (omega (arith, n, length-drop off bytes), omega (arith, n, length-drop off bytes))

segments_from-concat :
    (fuel off : ℕ) (bytes : List ℕ)
    → length bytes ≤ off + fuel
    → (concat (segments_from fuel off bytes) ≡ drop off bytes)
      × All IsSegment (segments_from fuel off bytes)
unfolding segments_from
segments_from-concat zero off bytes h = (sym (drop_all off bytes (omega arith)), tt)
segments_from-concat (suc fuel) off bytes h = elim (Bool-cases (ltb off (length bytes))) [
  | inl e ↦ rw e (
      let (joined, cut) = segments_from-concat fuel (off + arp_mss) bytes (omega arith) in
      (
        ap (◌++◌ (subarray off (min (off + arp_mss) (length bytes)) bytes)) joined
            ∙ subarray_rest off bytes (ltb→lt _ _ e),
        (subarray-IsSegment off bytes (ltb→lt _ _ e), cut),
      ))
  | inr e ↦ rw e (sym (drop_all off bytes (ground arith)), tt)
]

-- The segments of a message, joined, are the message; none is empty or longer than the maximum.
pub segments-concat :
    (bytes : List ℕ) → (concat (segments bytes) ≡ bytes) × All IsSegment (segments bytes)
unfolding segments
segments-concat bytes = segments_from-concat (length bytes) 0 bytes (omega arith)
