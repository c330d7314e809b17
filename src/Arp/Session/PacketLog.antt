-- ===== src/Arp/Session/PacketLog.antt =====
-- The packet log of the visualizer is a ring buffer of the newest entries.
use ccn.Prelude.{
  ◌-◌, ◌≤◌, ◌≡◌, sym, List, [], ◌∷◌, ◌++◌, length, drop, arith, ltb, inl, inr, Bool-cases,
  drop-append_le, drop-drop, ap, ltb→lt, append-nil, append_assoc, ◌∙◌, length-append, length-drop,
}
use ccn.Arp.Session.{log_all, log_packet, packet_log_max}

-- The newest entries of a history, as many as the buffer has room for.
abbrev pub recent {ℓ} : {A : Type ℓ} → List A → List A
recent xs = drop (length xs - packet_log_max) xs

log_packet-recent :
    {A : Type 0} (h : List A) (e : A) → log_packet e (recent h) ≡ recent (h ++ (e ∷ []))
unfolding log_packet
log_packet-recent h e =
    let k = length h - packet_log_max in
    let grown = drop-append_le h (e ∷ []) k (omega arith) in
    let size = length-drop k (h ++ (e ∷ [])) in
    let all = length-append h (e ∷ []) in
    rw (sym grown) (elim (Bool-cases (ltb packet_log_max (length (drop k (h ++ (e ∷ [])))))) [
      | inl more ↦ rw more (
          drop-drop k (length (drop k (h ++ (e ∷ []))) - packet_log_max) _ (h ++ (e ∷ []))
            (omega (arith, size, all, ltb→lt _ _ more)))
      | inr few ↦
          let same : k ≡ length (h ++ (e ∷ [])) - packet_log_max = ground (arith, size, all) in
          rw few (ap (λ n. drop n (h ++ (e ∷ []))) same)
    ])

from_recent : {A : Type 0} (h es : List A) → log_all es (recent h) ≡ recent (h ++ es)
unfolding log_all
from_recent h [] = ap recent (sym (append-nil h))
from_recent h (e ∷ es) =
    ap (log_all es) (log_packet-recent h e)
    ∙ from_recent (h ++ (e ∷ [])) es
    ∙ ap recent (append_assoc h (e ∷ []) es)

-- After any number of packets the log is the newest of them, in order, and never longer than its
-- maximum.
pub log_all-recent :
    {A : Type 0} (es : List A)
    → (log_all es [] ≡ recent es) × (length (log_all es []) ≤ packet_log_max)
log_all-recent es =
    let e = from_recent [] es in
    (e, omega (arith, ap length e, length-drop (length es - packet_log_max) es))
