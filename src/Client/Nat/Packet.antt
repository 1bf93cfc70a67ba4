-- ===== src/Client/Nat/Packet.antt =====
-- internal/client/nat.go: the reading and the rewriting of an IPv4 packet.
use sulink_lan.Base.{
  ℕ, ◌+◌, ◌*◌, ◌/◌, ◌%◌, ◌^◌, Bool, true, not, ◌&&◌, ◌||◌, [], ◌∷◌, ◌++◌, Option, none, some, ltb,
  ◌==◌, if◌then◌else◌, length, take,
}
use sulink_lan.Base.Eq.{nat_eq}
use sulink_lan.Base.Bytes.{Bytes, byte_at, slice, be16, be32, uint16_at, uint32_at}
use sulink_lan.Server.Icmp.{checksum, put}

-- `ipv4Pkt`, without the buffer.
pub record Ipv4Pkt : Type 0 where
  pub proto : ℕ
  pub src : ℕ
  pub dst : ℕ
  pub ihl : ℕ
  pub total : ℕ

unfoldable pub parse_ipv4 : Bytes → Option Ipv4Pkt
parse_ipv4 buf =
    let ihl = byte_at buf 0 % 16 * 4 in
    let claimed = uint16_at buf 2 in
    let total = (if ltb (length buf) claimed then length buf else claimed) in
    if ltb (length buf) 20 || not (byte_at buf 0 / 16 == 4)
    then none
    else if ltb ihl 20 || ltb (length buf) ihl
    then none
    else if ltb total ihl
    then none
    else some (record {
      proto = byte_at buf 9;
      src = uint32_at buf 12;
      dst = uint32_at buf 16;
      ihl = ihl;
      total = total;
    })

abbrev pub tcp_or_udp : Ipv4Pkt → Bool
tcp_or_udp p = p.proto == 6 || p.proto == 17

unfoldable pub transport_ok : Ipv4Pkt → Bool
transport_ok p =
    if p.proto == 6
    then not (ltb p.total (p.ihl + 20))
    else if p.proto == 17
    then not (ltb p.total (p.ihl + 8))
    else true

unfoldable pub src_port : Ipv4Pkt → Bytes → ℕ
src_port p buf = if not (tcp_or_udp p) || ltb p.total (p.ihl + 4) then 0 else uint16_at buf p.ihl

unfoldable pub dst_port : Ipv4Pkt → Bytes → ℕ
dst_port p buf =
    if not (tcp_or_udp p) || ltb p.total (p.ihl + 4) then 0 else uint16_at buf (p.ihl + 2)

unfoldable pub set_src : ℕ → Bytes → Bytes
unfolding put
set_src ip buf = put 12 (be32 ip) buf

unfoldable pub set_dst : ℕ → Bytes → Bytes
unfolding put
set_dst ip buf = put 16 (be32 ip) buf

unfoldable pub set_src_port : Ipv4Pkt → ℕ → Bytes → Bytes
unfolding put
set_src_port p port buf =
    if not (tcp_or_udp p) || ltb p.total (p.ihl + 4) then buf else put p.ihl (be16 port) buf

unfoldable pub set_dst_port : Ipv4Pkt → ℕ → Bytes → Bytes
unfolding put
set_dst_port p port buf =
    if not (tcp_or_udp p) || ltb p.total (p.ihl + 4) then buf else put (p.ihl + 2) (be16 port) buf

-- The pseudo header of a segment, and the segment.
unfoldable pub pseudo : Ipv4Pkt → Bytes → Bytes
pseudo p seg = be32 p.src ++ be32 p.dst ++ (0 ∷ p.proto ∷ be16 (length seg % 2 ^ 16)) ++ seg

-- The TCP or UDP checksum, of the segment of `buf` from `ihl` to `total`.
unfoldable pub rewrite_segment : Ipv4Pkt → Bytes → Bytes
unfolding put pseudo
rewrite_segment p buf =
    let seg = slice p.ihl p.total buf in
    let off = (if p.proto == 6 then 16 else 6) in
    let cleared = put (p.ihl + off) (0 ∷ 0 ∷ []) buf in
    let word = be16 (checksum (pseudo p (slice p.ihl p.total cleared))) in
    if not (tcp_or_udp p)
    then buf
    else if p.proto == 17 && not (ltb (length seg) 8) && byte_at seg 6 == 0 && byte_at seg 7 == 0
    then buf
    else if ltb (length seg) (off + 2)
    then buf
    else put (p.ihl + off) word cleared

unfoldable pub rewrite_checksums : Bytes → Bytes
unfolding put rewrite_segment
rewrite_checksums buf = elim (parse_ipv4 buf) [
  | none ↦ buf
  | some p ↦
      let cleared = put 10 (0 ∷ 0 ∷ []) buf in
      rewrite_segment p (put 10 (be16 (checksum (take p.ihl cleared))) cleared)
]
