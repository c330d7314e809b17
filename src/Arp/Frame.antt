-- ===== src/Arp/Frame.antt =====
-- frontend/src/lib/arpProtocol.ts: the frame and its codec. A byte is a number below 256.
pub mod RoundTrip
use ccn.Prelude.{
  ℕ, zero, suc, ◌+◌, ◌*◌, ◌/◌, ◌%◌, ◌^◌, List, [], ◌∷◌, ◌++◌, Option, none, some, length, take,
  drop,
}

abbrev pub arp_header_bytes : ℕ
arp_header_bytes = 11

abbrev pub arp_frame_data : ℕ
arp_frame_data = 0

abbrev pub arp_frame_ack : ℕ
arp_frame_ack = 1

pub record ArpFrame : Type 0 where
  pub type : ℕ
  pub seq : ℕ
  pub ack : ℕ
  pub window : ℕ
  pub payload : List ℕ

-- `DataView.setUint32` and `setUint16`, big-endian.
abbrev pub put_uint32 : ℕ → List ℕ
put_uint32 n = (n / 2 ^ 24 % 256) ∷ (n / 2 ^ 16 % 256) ∷ (n / 2 ^ 8 % 256) ∷ (n % 256) ∷ []

abbrev pub put_uint16 : ℕ → List ℕ
put_uint16 n = (n / 2 ^ 8 % 256) ∷ (n % 256) ∷ []

-- `DataView.getUint32` and `getUint16` on the bytes that they read.
abbrev pub uint32 : ℕ → ℕ → ℕ → ℕ → ℕ
uint32 a b c d = a * 2 ^ 24 + b * 2 ^ 16 + c * 2 ^ 8 + d

abbrev pub uint16 : ℕ → ℕ → ℕ
uint16 a b = a * 2 ^ 8 + b

-- `seq >>> 0` is the value modulo 2 ^ 32, and `window & 0xffff` the value modulo 2 ^ 16.
unfoldable pub encode_frame : ArpFrame → List ℕ
encode_frame f =
    (f.type % 256)
    ∷ (put_uint32 (f.seq % 2 ^ 32)
        ++ (put_uint32 (f.ack % 2 ^ 32) ++ (put_uint16 (f.window % 2 ^ 16) ++ f.payload)))

-- `null` on a buffer that is shorter than the header.
unfoldable pub decode_frame : List ℕ → Option ArpFrame
decode_frame (t ∷ s3 ∷ s2 ∷ s1 ∷ s0 ∷ a3 ∷ a2 ∷ a1 ∷ a0 ∷ w1 ∷ w0 ∷ payload) = some (record {
  type = t;
  seq = uint32 s3 s2 s1 s0;
  ack = uint32 a3 a2 a1 a0;
  window = uint16 w1 w0;
  payload = payload;
})
decode_frame _ = none
