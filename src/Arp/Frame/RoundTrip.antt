-- ===== src/Arp/Frame/RoundTrip.antt =====
-- Decoding undoes encoding on the values that the header has room for.
use ccn.Prelude.{
  ℕ, ◌%◌, List, ◌∷◌, ◌↔◌, none, length, All, refl, ap, sym, ◌∙◌, ◌<◌, ◌^◌, ◌≡◌, some, arith,
}
use mathlib.Core.Option.{some-injective}
use ccn.Arp.Frame.{ArpFrame, encode_frame, decode_frame, arp_header_bytes, uint32, uint16}

-- The fields fit the header: a byte, two words of 32 bits and one of 16.
pub record Fits (f : ArpFrame) : Type 0 where
  pub type : f.type < 256
  pub seq : f.seq < 2 ^ 32
  pub ack : f.ack < 2 ^ 32
  pub window : f.window < 2 ^ 16

-- What a frame becomes on the wire: each field modulo its width.
abbrev pub truncated : ArpFrame → ArpFrame
truncated f = record {
  type = f.type % 256;
  seq = f.seq % 2 ^ 32;
  ack = f.ack % 2 ^ 32;
  window = f.window % 2 ^ 16;
  payload = f.payload;
}

-- Every frame is decoded to its fields modulo their widths.
pub decode_frame-encode_frame : (f : ArpFrame) → decode_frame (encode_frame f) ≡ some (truncated f)
unfolding encode_frame decode_frame
decode_frame-encode_frame f = ground arith

-- A frame whose fields fit the header is decoded to itself.
pub decode_frame-encode_frame-Fits :
    (f : ArpFrame) → Fits f → decode_frame (encode_frame f) ≡ some f
decode_frame-encode_frame-Fits f h = ground (arith, decode_frame-encode_frame f)

-- Exactly the buffers that are shorter than the header are refused.
pub decode_frame_short : (b : List ℕ) → (decode_frame b ≡ none) ↔ (length b < arp_header_bytes)
unfolding decode_frame
decode_frame_short (t ∷ s3 ∷ s2 ∷ s1 ∷ s0 ∷ a3 ∷ a2 ∷ a1 ∷ a0 ∷ w1 ∷ w0 ∷ payload) =
    (λ e. absurd (cc), λ h. absurd (omega arith))
decode_frame_short _ = (λ e. omega arith, λ h. refl)

-- A buffer of bytes that is decoded is the encoding of its frame: no two buffers are one frame.
pub encode_frame-decode_frame :
    (b : List ℕ) {f : ArpFrame}
    → All (λ x. x < 256) b
    → decode_frame b ≡ some f
    → encode_frame f ≡ b
unfolding encode_frame decode_frame
encode_frame-decode_frame (t ∷ s3 ∷ s2 ∷ s1 ∷ s0 ∷ a3 ∷ a2 ∷ a1 ∷ a0 ∷ w1 ∷ w0 ∷ payload) {f} h e =
    ap encode_frame (sym (some-injective _ _ e)) ∙ header
  where
    header :
        encode_frame (record {
          type = t;
          seq = uint32 s3 s2 s1 s0;
          ack = uint32 a3 a2 a1 a0;
          window = uint16 w1 w0;
          payload = payload;
        })
        ≡ t ∷ s3 ∷ s2 ∷ s1 ∷ s0 ∷ a3 ∷ a2 ∷ a1 ∷ a0 ∷ w1 ∷ w0 ∷ payload
    header = ground arith
encode_frame-decode_frame _ h e = absurd (cc)
