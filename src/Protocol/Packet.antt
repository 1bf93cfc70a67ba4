-- ===== src/Protocol/Packet.antt =====
-- internal/protocol/packet.go: the packets of the data plane. The cipher of crypto/cipher is an
-- argument, and so is the nonce that crypto/rand draws.
use sulink_lan.Base.{
  ℕ, ◌+◌, ◌-◌, ◌^◌, ◌≤◌, ◌<◌, ◌≡◌, [], ◌∷◌, ◌++◌, Option, none, some, Result, ok, err, ◌>>=◌, ltb,
  if◌then◌else◌, length, length-append, arith,
}
use sulink_lan.Base.Bytes.{
  Bytes, byte_at, slice, take_all, be32, uint32_at, uint32_at-be32, drop-append, take-append,
}

-- `cipher.AEAD` under a fixed key: nonce, text, additional data. `Open` (`unseal`) gives back what `Seal` made,
-- and a sealed text is `overhead` longer.
pub record Aead : Type 0 where
  pub overhead : ℕ
  pub seal : Bytes → Bytes → Bytes → Bytes
  pub unseal : Bytes → Bytes → Bytes → Option Bytes
  pub unseal-seal :
      (nonce text extra : Bytes) → unseal nonce (seal nonce text extra) extra ≡ some text
  pub length-seal :
      (nonce text extra : Bytes) → length (seal nonce text extra) ≡ length text + overhead

abbrev pub flag_data : ℕ
flag_data = 0x10

abbrev pub flag_probe : ℕ
flag_probe = 0x20

abbrev pub flag_reply : ℕ
flag_reply = 0x30

abbrev pub nonce_len : ℕ
nonce_len = 12

abbrev pub header_len : ℕ
header_len = 21

abbrev pub max_payload : ℕ
max_payload = 1500

abbrev pub max_packet : ℕ
max_packet = header_len + max_payload + 16

pub record Packet : Type 0 where
  pub flags : ℕ
  pub source : ℕ
  pub dest : ℕ
  pub payload : Bytes

pub data PacketError : Type 0 where
  payload_too_large packet_too_short not_authentic : PacketError

-- The first `headerLen` bytes of a packet.
abbrev pub header : ℕ → ℕ → ℕ → Bytes → Bytes
header flag src dst nonce = flag ∷ be32 src ++ be32 dst ++ nonce

unfoldable pub encrypt : Aead → Bytes → ℕ → ℕ → ℕ → Bytes → Result PacketError Bytes
encrypt aead nonce flag src dst payload =
    if ltb max_payload (length payload)
    then err payload_too_large
    else ok (header flag src dst nonce ++ aead.seal nonce payload (header flag src dst nonce))

unfoldable pub decrypt : Aead → Bytes → Result PacketError Packet
decrypt aead buf =
    if ltb (length buf) header_len
    then err packet_too_short
    else elim (aead.unseal (slice 9 21 buf) (slice 21 (length buf) buf) (slice 0 21 buf)) [
      | none ↦ err not_authentic
      | some text ↦ ok (record {
        flags = byte_at buf 0;
        source = uint32_at buf 1;
        dest = uint32_at buf 5;
        payload = text;
      })
    ]

-- A packet that `Encrypt` makes comes back from `Decrypt` with its flag, its addresses and its
-- payload, if the payload fits.
pub decrypt-encrypt :
    (aead : Aead) (nonce : Bytes) (flag src dst : ℕ) (payload : Bytes)
    → length nonce ≡ nonce_len
    → src < 2 ^ 32
    → dst < 2 ^ 32
    → length payload ≤ max_payload
    → (encrypt aead nonce flag src dst payload >>= decrypt aead)
      ≡ ok (record { flags = flag; source = src; dest = dst; payload = payload })
unfolding encrypt decrypt
decrypt-encrypt aead nonce flag src dst payload n s d p =
    let sealed = aead.seal nonce payload (header flag src dst nonce) in
    grind (
      arith,
      take-append nonce sealed 12 n,
      drop-append nonce sealed 12 n,
      take_all sealed (length (nonce ++ sealed) - 12)
          (omega (arith, n, length-append nonce sealed)),
      length-append nonce sealed,
      aead.unseal-seal nonce payload (header flag src dst nonce),
      uint32_at-be32 src [] s,
      uint32_at-be32 dst [] d,
    )
