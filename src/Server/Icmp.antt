-- ===== src/Server/Icmp.antt =====
-- internal/server/icmp.go: the answer to a ping of the server's own address.
pub mod Checksum
pub mod Writes
pub mod Reply
pub mod Rfc
pub mod Unchanged
pub mod Answer
mod Tests
use Prim.Native.Nat.{bit_and}
use sulink_lan.Base.{
  ℕ, zero, suc, ◌+◌, ◌-◌, ◌*◌, ◌/◌, ◌%◌, ◌^◌, Bool, true, false, not, ◌&&◌, ◌||◌, List, [], ◌∷◌,
  ◌++◌, Option, none, some, ltb, ◌==◌, if◌then◌else◌, length, take, drop,
}
use sulink_lan.Base.Bytes.{Bytes, byte_at, slice, be16, uint16_at, uint32_at}

-- 0 for a packet that is not IPv4 or has a bad header length.
unfoldable pub ipv4_header_len : Bytes → ℕ
ipv4_header_len pkt =
    let ihl = byte_at pkt 0 % 16 * 4 in
    if ltb (length pkt) 20 || not (byte_at pkt 0 / 16 == 4)
    then 0
    else if ltb ihl 20 || ltb (length pkt) ihl
    then 0
    else ihl

-- The first loop of `checksum`, on words of 32 bits.
unfoldable pub sum_words : ℕ → Bytes → ℕ
sum_words sum [] = sum
sum_words sum (a ∷ []) = (sum + a * 256) % 2 ^ 32
sum_words sum (a ∷ b ∷ s) = sum_words ((sum + (a * 256 + b)) % 2 ^ 32) s

-- The second loop, while the sum has more than 16 bits, for at most `fuel` rounds.
unfoldable pub fold_carry : ℕ → ℕ → ℕ
fold_carry zero sum = sum
fold_carry (suc fuel) sum =
    let rest = fold_carry fuel ((sum % 2 ^ 16 + sum / 2 ^ 16) % 2 ^ 32) in
    if sum / 2 ^ 16 == 0 then sum else rest

-- Three rounds bring every number of 32 bits below 2 ^ 16.
unfoldable pub checksum : Bytes → ℕ
unfolding sum_words fold_carry
checksum buf = 2 ^ 16 - 1 - fold_carry 3 (sum_words 0 buf) % 2 ^ 16

-- `copy(s[i:], part)`, for a part that fits.
unfoldable pub put : ℕ → Bytes → Bytes → Bytes
put i part s = take i s ++ (part ++ drop (i + length part) s)

-- The guards of `echoReply`, after the header length `ihl` and the total length are known.
unfoldable pub is_echo_request : Bytes → ℕ → ℕ → ℕ → Bool
is_echo_request pkt ihl total vip =
    not (ihl == 0)
    && bit_and (uint16_at pkt 6) 0x3FFF == 0
    && not (ltb total (ihl + 8) || ltb (length pkt) total)
    && byte_at pkt 9 == 1
    && uint32_at pkt 16 == vip
    && byte_at pkt ihl == 8
    && byte_at pkt (ihl + 1) == 0

-- Addresses swapped, the type an echo reply, both checksums zero.
unfoldable pub swapped : Bytes → ℕ → ℕ → Bytes
unfolding put
swapped pkt ihl total =
    let r0 = take total pkt in
    let r1 = put 12 (slice 16 20 pkt) r0 in
    let r2 = put 16 (slice 12 16 pkt) r1 in put (ihl + 2) (0 ∷ 0 ∷ []) (put ihl (0 ∷ []) r2)

-- The ICMP checksum, and then the one of the header.
unfoldable pub sealed : Bytes → ℕ → ℕ → Bytes
unfolding put checksum
sealed r ihl total =
    let r1 = put (ihl + 2) (be16 (checksum (slice ihl total r))) r in
    let r2 = put 10 (0 ∷ 0 ∷ []) r1 in put 10 (be16 (checksum (slice 0 ihl r2))) r2

unfoldable pub echo_reply : Bytes → ℕ → Option Bytes
unfolding ipv4_header_len is_echo_request swapped sealed
echo_reply pkt vip =
    let ihl = ipv4_header_len pkt in
    let total = uint16_at pkt 2 in
    if is_echo_request pkt ihl total vip
    then some (sealed (swapped pkt ihl total) ihl total)
    else none
