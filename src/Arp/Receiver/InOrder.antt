-- ===== src/Arp/Receiver/InOrder.antt =====
-- The receiver delivers the stream in order, each segment once, whatever the channel does.
use ccn.Prelude.{
  nat_key, ℕ, zero, suc, ◌≤◌, ◌<◌, ◌≡◌, refl, ap, sym, ◌∙◌, false, List, [], ◌∷◌, ◌++◌, none, some,
  JsMap, map_get, map_has, map_delete, length, take, get_elem?, arith, eqb_iff, eqb, inl, inr,
  Bool-cases, Option-cases, All, take-suc, IsDistinct, map_delete-IsDistinct, map_has-delete_self,
}
use mathlib.Core.Path.{subst₂}
use ccn.Number.{Number}
use ccn.Arp.Frame.{ArpFrame, arp_frame_ack}
use ccn.Arp.SenderState.{Payload}
use ccn.Arp.Receiver.{Receiver, advance, drain}

-- A buffered entry at or above `low` that the sender sent.
abbrev pub IsBuffered : List Payload → ℕ → ℕ × Payload → Type 0
IsBuffered sent low (seq, payload) = (low ≤ seq) × (get_elem? sent seq ≡ some payload)

-- An acknowledgement of no more than was received.
abbrev pub IsAck : ℕ → ArpFrame → Type 0
IsAck limit f = (f.type ≡ arp_frame_ack) × (f.ack ≤ limit)

-- `low` is the least number that the buffer may hold.
pub record Ordered {N : Number} (r : Receiver N) (sent : List Payload) (low : ℕ) : Type 0 where
  pub prefix : r.delivered ≡ take r.expected_seq sent
  pub received : r.expected_seq ≤ length sent
  pub buffered : All (IsBuffered sent low) r.out_of_order
  pub distinct : IsDistinct r.out_of_order

-- What is delivered is the beginning of what was sent, and the buffer holds only later segments.
pub record IsInOrder {N : Number} (r : Receiver N) (sent : List Payload) : Type 0 where
  pub prefix : r.delivered ≡ take r.expected_seq sent
  pub received : r.expected_seq ≤ length sent
  pub buffered : All (IsBuffered sent (suc r.expected_seq)) r.out_of_order
  pub distinct : IsDistinct r.out_of_order
  pub acks : All (IsAck r.expected_seq) r.acks

pub get_elem?-below :
    (sent : List Payload) (i : ℕ) {p : Payload} → get_elem? sent i ≡ some p → i < length sent
get_elem?-below [] i e = absurd (cc)
get_elem?-below (x ∷ sent) zero e = omega arith
get_elem?-below (x ∷ sent) (suc i) e = omega (arith, get_elem?-below sent i e)

All-delete :
    (P : ℕ × Payload → Type 0) (k : ℕ) (m : JsMap ℕ Payload) → All P m → All P (map_delete k m)
unfolding map_delete
All-delete P k [] h = tt
All-delete P k ((j, v) ∷ m) (p, h) = elim (Bool-cases (eqb j k)) [
  | inl e ↦ rw e h
  | inr e ↦ rw e (p, All-delete P k m h)
]

All-get :
    (P : ℕ × Payload → Type 0) (k : ℕ) (m : JsMap ℕ Payload) {p : Payload}
    → All P m
    → map_get k m ≡ some p
    → P (k, p)
unfolding map_get
All-get P k [] h e = absurd (cc)
All-get P k ((j, v) ∷ m) {p} (q, h) e = elim (Bool-cases (eqb j k)) [
  | inl s ↦ subst₂ (λ a b. P (a, b)) ((eqb_iff j k).0 s) (ground arith) q
  | inr s ↦ All-get P k m h (rw s at e)
]

-- Where the least number is not there, the others are above it.
raise :
    (sent : List Payload) (low : ℕ) (m : JsMap ℕ Payload)
    → All (IsBuffered sent low) m
    → map_has low m ≡ false
    → All (IsBuffered sent (suc low)) m
unfolding map_has
raise sent low [] h e = tt
raise sent low ((j, v) ∷ m) ((a, b), h) e = ((ground arith, b), raise sent low m h (ground arith))

length-delete :
    (k : ℕ) (m : JsMap ℕ Payload) {p : Payload}
    → map_get k m ≡ some p
    → length m ≡ suc (length (map_delete k m))
unfolding map_get map_delete
length-delete k [] e = absurd (cc)
length-delete k ((j, v) ∷ m) {p} e = ground (arith, length-delete k m {p = p})

empty-map_has : (k : ℕ) (m : JsMap ℕ Payload) → length m ≤ 0 → map_has k m ≡ false
unfolding map_has
empty-map_has k [] h = refl
empty-map_has k (e ∷ m) h = absurd (omega arith)

map_get-none_has : (k : ℕ) (m : JsMap ℕ Payload) → map_get k m ≡ none → map_has k m ≡ false
unfolding map_get map_has
map_get-none_has k [] e = refl
map_get-none_has k ((j, v) ∷ m) e = ground (arith, map_get-none_has k m)

module _ {N : Number} where
  -- A step that acknowledges nothing and takes nothing back.
  pub record Grows (r r' : Receiver N) : Type 0 where
    pub acks : r'.acks ≡ r.acks
    pub further : r.expected_seq ≤ r'.expected_seq

  pub advance-Ordered :
      (p : Payload) (r : Receiver N) (sent : List Payload)
      → Ordered r sent (suc r.expected_seq)
      → get_elem? sent r.expected_seq ≡ some p
      → Ordered (advance p r) sent (advance p r).expected_seq
  unfolding advance
  advance-Ordered p r sent o e = record {
    prefix = ap (λ t. t ++ (p ∷ [])) o.prefix ∙ sym (take-suc sent r.expected_seq e);
    received = get_elem?-below sent r.expected_seq e;
    buffered = o.buffered;
    distinct = o.distinct;
  }

  -- One round of the drain, up to the call of `deliver`.
  delete-Ordered :
      (r : Receiver N) (sent : List Payload)
      → Ordered r sent r.expected_seq
      → Ordered
          (record r { out_of_order = map_delete r.expected_seq r.out_of_order })
          sent
          (suc r.expected_seq)
  delete-Ordered r sent o = record {
    prefix = o.prefix;
    received = o.received;
    buffered =
        raise sent r.expected_seq _
          (All-delete (IsBuffered sent r.expected_seq) r.expected_seq r.out_of_order o.buffered)
          (map_has-delete_self r.expected_seq r.out_of_order o.distinct);
    distinct = map_delete-IsDistinct r.expected_seq r.out_of_order o.distinct;
  }

  raised :
      (r : Receiver N) (sent : List Payload)
      → Ordered r sent r.expected_seq
      → map_has r.expected_seq r.out_of_order ≡ false
      → Ordered r sent (suc r.expected_seq)
  raised r sent o h = record {
    prefix = o.prefix;
    received = o.received;
    buffered = raise sent r.expected_seq r.out_of_order o.buffered h;
    distinct = o.distinct;
  }

  -- With fuel for the entries of the buffer the drain ends because the next segment is not there.
  pub drain-Ordered :
      (fuel : ℕ) (r : Receiver N) (sent : List Payload)
      → Ordered r sent r.expected_seq
      → length r.out_of_order ≤ fuel
      → Ordered (drain fuel r) sent (suc (drain fuel r).expected_seq)
  unfolding drain
  drain-Ordered zero r sent o h = raised r sent o (empty-map_has r.expected_seq r.out_of_order h)
  drain-Ordered (suc fuel) r sent o h =
      elim (Option-cases (map_get r.expected_seq r.out_of_order)) [
        | inl e ↦ rw (e, drain) (raised r sent o (map_get-none_has r.expected_seq r.out_of_order e))
        | inr (p, e) ↦
            rw (e, drain)
              (drain-Ordered fuel _ sent
                (advance-Ordered p _ sent (delete-Ordered r sent o)
                  (All-get (IsBuffered sent r.expected_seq) r.expected_seq r.out_of_order o.buffered
                    e).1)
                (unfold advance in omega (arith, length-delete r.expected_seq r.out_of_order e)))
      ]

  pub drain-Grows : (fuel : ℕ) (r : Receiver N) → Grows r (drain fuel r)
  unfolding drain advance
  drain-Grows zero r = record { acks = refl; further = omega arith }
  drain-Grows (suc fuel) r = elim (Option-cases (map_get r.expected_seq r.out_of_order)) [
    | inl e ↦ rw (e, drain) (record { acks = refl; further = omega arith })
    | inr (p, e) ↦ rw (e, drain) (further p (drain-Grows fuel _))
  ]
    where
      further :
          {r' : Receiver N} (p : Payload)
          → Grows
              (advance p (record r { out_of_order = map_delete r.expected_seq r.out_of_order }))
              r'
          → Grows r r'
      further p g = record { acks = g.acks; further = omega (arith, g.further) }
