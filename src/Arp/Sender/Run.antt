-- ===== src/Arp/Sender/Run.antt =====
-- The segments in flight are one run of sequence numbers, in order.
use ccn.Prelude.{
  nat_key, ℕ, zero, suc, ◌+◌, ◌-◌, ◌≤◌, ◌<◌, ◌≡◌, refl, ap, sym, ◌∙◌, In, true, false, List, [],
  ◌∷◌, ◌++◌, some, JsMap, map_get, map_set, map_has, length, drop, get_elem?, arith, eqb_iff, eqb,
  inl, inr, Bool-cases,
}
use ccn.Number.{Number}
use ccn.Arp.SenderState.{Payload, InFlight}

module _ {N : Number} where
  -- The keys count up from `i`, and each segment carries its key.
  abbrev pub IsRun : ℕ → JsMap ℕ (InFlight N) → Type 0
  IsRun i [] = Unit {0}
  IsRun i ((k, seg) ∷ m) = (k ≡ i) × (seg.seq ≡ i) × IsRun (suc i) m

  abbrev pub payloads : JsMap ℕ (InFlight N) → List Payload
  payloads [] = []
  payloads ((k, seg) ∷ m) = seg.payload ∷ payloads m

  pub length-payloads : (m : JsMap ℕ (InFlight N)) → length (payloads m) ≡ length m
  length-payloads [] = refl
  length-payloads (e ∷ m) = ap suc (length-payloads m)

  pub IsRun-has_above :
      (i k : ℕ) (m : JsMap ℕ (InFlight N)) → IsRun i m → i + length m ≤ k → map_has k m ≡ false
  unfolding map_has
  IsRun-has_above i k [] r h = refl
  IsRun-has_above i k ((j, seg) ∷ m) r h = ground (arith, IsRun-has_above (suc i) k m)

  pub IsRun-has_below :
      (i k : ℕ) (m : JsMap ℕ (InFlight N)) → IsRun i m → k < i → map_has k m ≡ false
  unfolding map_has
  IsRun-has_below i k [] r h = refl
  IsRun-has_below i k ((j, seg) ∷ m) r h = ground (arith, IsRun-has_below (suc i) k m)

  pub IsRun-append :
      (i k : ℕ) (m : JsMap ℕ (InFlight N)) (seg : InFlight N)
      → IsRun i m
      → k ≡ i + length m
      → seg.seq ≡ k
      → IsRun i (m ++ ((k, seg) ∷ []))
  IsRun-append i k [] seg r e h = (omega arith, omega arith, tt)
  IsRun-append i k ((j, s) ∷ m) seg (a, b, r) e h =
      (a, b, IsRun-append (suc i) k m seg r (omega arith) h)

  pub payloads-append :
      (m : JsMap ℕ (InFlight N)) (k : ℕ) (seg : InFlight N)
      → payloads (m ++ ((k, seg) ∷ [])) ≡ payloads m ++ (seg.payload ∷ [])
  payloads-append [] k seg = refl
  payloads-append ((j, s) ∷ m) k seg = ap (◌∷◌ s.payload) (payloads-append m k seg)

  pub payloads-drop : (n : ℕ) (m : JsMap ℕ (InFlight N)) → payloads (drop n m) ≡ drop n (payloads m)
  payloads-drop zero m = refl
  payloads-drop (suc n) [] = refl
  payloads-drop (suc n) (e ∷ m) = payloads-drop n m

  pub IsRun-drop :
      (n i j : ℕ) (m : JsMap ℕ (InFlight N))
      → IsRun i m
      → n ≤ length m
      → j ≡ n + i
      → IsRun j (drop n m)
  IsRun-drop zero i j m r h e = let same : j ≡ i = omega arith in rw same r
  IsRun-drop (suc n) i j [] r h e = absurd (omega arith)
  IsRun-drop (suc n) i j (x ∷ m) r h e = IsRun-drop n (suc i) j m r.2 (omega arith) (omega arith)

  -- What the map holds under a key is in its place in the run.
  pub IsRun-get :
      (i k : ℕ) (m : JsMap ℕ (InFlight N)) {seg : InFlight N}
      → IsRun i m
      → map_get k m ≡ some seg
      → (seg.seq ≡ k) × (i ≤ k) × (get_elem? (payloads m) (k - i) ≡ some seg.payload)
  unfolding map_get
  IsRun-get i k [] r e = absurd (cc)
  IsRun-get i k ((j, s) ∷ m) {seg} r e = elim (Bool-cases (eqb j k)) [
    | inl h ↦ here (ground arith) (ground arith)
    | inr h ↦ there (IsRun-get (suc i) k m r.2 (rw h at e))
  ]
    where
      here :
          k ≡ i
          → s ≡ seg
          → (seg.seq ≡ k)
            × (i ≤ k)
            × (get_elem? (s.payload ∷ payloads m) (k - i) ≡ some seg.payload)
      here p q =
          let z : k - i ≡ 0 = omega arith in
          rw z (ground arith, omega arith, ap (λ t. some t.payload) q)

      there :
          (seg.seq ≡ k) × (suc i ≤ k) × (get_elem? (payloads m) (k - suc i) ≡ some seg.payload)
          → (seg.seq ≡ k)
            × (i ≤ k)
            × (get_elem? (s.payload ∷ payloads m) (k - i) ≡ some seg.payload)
      there (a, b, c) = let z : k - i ≡ suc (k - suc i) = omega arith in rw z (a, omega arith, c)

  -- Writing a segment under its own key, with its payload, keeps the run and the payloads.
  pub IsRun-set :
      (i k : ℕ) (m : JsMap ℕ (InFlight N)) (old new : InFlight N)
      → IsRun i m
      → map_get k m ≡ some old
      → new.seq ≡ old.seq
      → new.payload ≡ old.payload
      → IsRun i (map_set k new m)
        × (payloads (map_set k new m) ≡ payloads m)
        × (length (map_set k new m) ≡ length m)
  unfolding map_get map_set
  IsRun-set i k [] old new r e h p = absurd (cc)
  IsRun-set i k ((j, s) ∷ m) old new r e h p = ground (arith, IsRun-set (suc i) k m old new)

  abbrev pub segments : JsMap ℕ (InFlight N) → List (InFlight N)
  segments [] = []
  segments ((k, seg) ∷ m) = seg ∷ segments m

  -- A segment of the run stands under its own number.
  pub IsRun-In :
      (i : ℕ) (m : JsMap ℕ (InFlight N)) (seg : InFlight N)
      → IsRun i m
      → In seg (segments m)
      → map_get seg.seq m ≡ some seg
  unfolding map_get
  IsRun-In i [] seg r h = absurd h
  IsRun-In i ((k, s) ∷ m) seg r (inl e) =
      let here : eqb k seg.seq ≡ true =
        (eqb_iff k seg.seq).1 (r.0 ∙ sym r.1 ∙ ap (λ t. t.seq) (sym e)) in
      rw here (ap some (sym e))
  IsRun-In i ((k, s) ∷ m) seg r (inr h) =
      let later = IsRun-In (suc i) m seg r.2 h in
      let above = IsRun-get (suc i) seg.seq m r.2 later in ground (arith, above.1)
