-- ===== src/Server/Icmp/Answer.antt =====
-- internal/server/icmp.go: which packets are answered, and with what.
use Prim.Native.Nat.{bit_and}
use mathlib.Core.Path.{subst}
use sulink_lan.Base.{
  ℕ, ◌+◌, ◌-◌, ◌*◌, ◌/◌, ◌%◌, ◌≤◌, ◌≡◌, ◌∙◌, inl, inr, sym, true, [], ◌∷◌, Option, none, some,
  length, drop, length-take, arith, if_cases,
}
use sulink_lan.Base.Bytes.{Bytes, AreBytes, byte_at, slice, uint16_at, uint32_at, be16}
use sulink_lan.Server.Icmp.{
  ipv4_header_len, is_echo_request, swapped, sealed, echo_reply, put, checksum,
}
use sulink_lan.Server.Icmp.Writes.{All-take, All-drop, AreBytes-put}
use sulink_lan.Server.Icmp.Reply.{
  Answers, Fits, sealed-Answers, zero_word, turned, turned_facts, request-Fits,
}
use sulink_lan.Server.Icmp.Rfc.{IsSummed, checksum-IsSummed}
use sulink_lan.Server.Icmp.Unchanged.{sealed-Away, turned_type, reply_of, kept, kept_options}

-- The length of the header that the first byte gives.
abbrev pub header_of : Bytes → ℕ
header_of pkt = byte_at pkt 0 % 16 * 4

-- An IPv4 packet, not a fragment, with a whole ICMP echo request to the address.
pub record IsPing (pkt : Bytes) (vip : ℕ) : Type 0 where
  pub version : byte_at pkt 0 / 16 ≡ 4
  pub header : 20 ≤ header_of pkt
  pub room : header_of pkt + 8 ≤ uint16_at pkt 2
  pub inside : uint16_at pkt 2 ≤ length pkt
  pub whole : bit_and (uint16_at pkt 6) 0x3FFF ≡ 0
  pub icmp : byte_at pkt 9 ≡ 1
  pub dest : uint32_at pkt 16 ≡ vip
  pub echo : byte_at pkt (header_of pkt) ≡ 8
  pub code : byte_at pkt (header_of pkt + 1) ≡ 0

-- An echo reply for a request: both checksums add up, the addresses are swapped, the type is that of a
-- reply, and the start of the header, its options, the code and what follows the ICMP checksum are those of
-- the request.
pub record IsReply (pkt r : Bytes) : Type 0 where
  pub size : length r ≡ uint16_at pkt 2
  pub header_sum : IsSummed (slice 0 (header_of pkt) r)
  pub icmp_sum : IsSummed (slice (header_of pkt) (uint16_at pkt 2) r)
  pub from_dest : slice 12 16 r ≡ slice 16 20 pkt
  pub to_source : slice 16 20 r ≡ slice 12 16 pkt
  pub start : slice 0 10 r ≡ slice 0 10 pkt
  pub options : slice 20 (header_of pkt) r ≡ slice 20 (header_of pkt) pkt
  pub reply_type : slice (header_of pkt) (header_of pkt + 1) r ≡ 0 ∷ []
  pub same_code :
      slice (header_of pkt + 1) (header_of pkt + 2) r
      ≡ slice (header_of pkt + 1) (header_of pkt + 2) pkt
  pub same_data :
      slice (header_of pkt + 4) (uint16_at pkt 2) r
      ≡ slice (header_of pkt + 4) (uint16_at pkt 2) pkt

-- A ping is answered with a reply, and nothing else is answered.
pub data Answered (pkt : Bytes) (vip : ℕ) : Option Bytes → Type 0 where
  ignored : (IsPing pkt vip → ⊥) → Answered pkt vip none
  replied : (r : Bytes) → IsPing pkt vip → IsReply pkt r → Answered pkt vip (some r)

guards-IsPing :
    (pkt : Bytes) (vip : ℕ)
    → is_echo_request pkt (ipv4_header_len pkt) (uint16_at pkt 2) vip ≡ true
    → IsPing pkt vip × (ipv4_header_len pkt ≡ header_of pkt)
unfolding is_echo_request ipv4_header_len
guards-IsPing pkt vip e = (
  record {
    version = ground arith;
    header = ground arith;
    room = ground arith;
    inside = ground arith;
    whole = ground arith;
    icmp = ground arith;
    dest = ground arith;
    echo = ground arith;
    code = ground arith;
  },
  ground arith,
)

IsPing-guards :
    (pkt : Bytes) (vip : ℕ)
    → IsPing pkt vip
    → is_echo_request pkt (ipv4_header_len pkt) (uint16_at pkt 2) vip ≡ true
unfolding is_echo_request ipv4_header_len
IsPing-guards pkt vip x =
    ground (arith, x.version, x.header, x.room, x.inside, x.whole, x.icmp, x.dest, x.echo, x.code)

word-AreBytes : (v : ℕ) → AreBytes (be16 v)
word-AreBytes v = (omega arith, (omega arith, tt))

sealed-AreBytes :
    (ihl total : ℕ) (t : Bytes)
    → AreBytes t
    → AreBytes (sealed (put (ihl + 2) zero_word t) ihl total)
unfolding sealed
sealed-AreBytes ihl total t bs =
    let r = put (ihl + 2) zero_word t in
    let w1 = be16 (checksum (slice ihl total r)) in
    let r1 = put (ihl + 2) w1 r in
    let r2 = put 10 zero_word r1 in
    let w2 = be16 (checksum (slice 0 ihl r2)) in
    let z : AreBytes zero_word = (omega arith, (omega arith, tt)) in
    let b = AreBytes-put (ihl + 2) zero_word t z bs in
    let b1 = AreBytes-put (ihl + 2) w1 r (word-AreBytes (checksum (slice ihl total r))) b in
    AreBytes-put 10 w2 r2 (word-AreBytes (checksum (slice 0 ihl r2)))
      (AreBytes-put 10 zero_word r1 z b1)

reply_of-IsReply :
    (pkt : Bytes)
    → AreBytes pkt
    → Fits pkt (header_of pkt) (uint16_at pkt 2)
    → IsReply pkt (reply_of pkt (header_of pkt) (uint16_at pkt 2))
reply_of-IsReply pkt bs x =
    let ihl = header_of pkt in
    let total = uint16_at pkt 2 in
    let low = x.low in
    let high = x.high in
    let small = x.small in
    let r = reply_of pkt ihl total in
    let (len, bytes, src, dst) = turned_facts pkt ihl total bs x in
    let out = sealed-AreBytes ihl total (turned pkt ihl total) bytes in
    let y : Answers pkt r ihl total =
      sealed-Answers pkt (turned pkt ihl total) ihl total x len bytes src dst in
    record {
      size = y.size;
      header_sum =
          checksum-IsSummed (slice 0 ihl r) (All-take (ihl - 0) r out)
            (omega (arith, length-take (ihl - 0) r, y.size)) y.header_valid;
      icmp_sum =
          checksum-IsSummed (slice ihl total r)
            (All-take (total - ihl) (drop ihl r) (All-drop ihl r out))
            (omega (arith, length-take (total - ihl) (drop ihl r), y.size)) y.body_valid;
      from_dest = y.from_server;
      to_source = y.to_sender;
      start = kept 0 10 ihl total pkt (omega arith) (omega arith) bs x (inl (omega arith));
      options = kept_options ihl total pkt bs x;
      reply_type =
          sealed-Away ihl (ihl + 1) ihl total (turned pkt ihl total) (omega arith) low high
            (turned_facts pkt ihl total bs x).0 (inr (omega arith)) (inl (omega arith))
          ∙ turned_type ihl total pkt x;
      same_code =
          kept (ihl + 1) (ihl + 2) ihl total pkt (omega arith) (omega arith) bs x
            (inr (omega arith, inl (omega arith)));
      same_data =
          kept (ihl + 4) total ihl total pkt (omega arith) (omega arith) bs x
            (inr (omega arith, inr (omega arith)));
    }

-- A packet is answered exactly if it is a ping of the address, and then with its reply: both checksums add
-- up as RFC 1071 says, the addresses are swapped, the type is that of an echo reply, and the rest is that of the
-- request. The packet is a list of bytes.
pub echo_reply-Answered :
    (pkt : Bytes) (vip : ℕ) → AreBytes pkt → Answered pkt vip (echo_reply pkt vip)
unfolding echo_reply swapped turned
echo_reply-Answered pkt vip bs =
    if_cases (Answered pkt vip) (is_echo_request pkt (ipv4_header_len pkt) (uint16_at pkt 2) vip)
      (λ asked.
        let (ping, same) = guards-IsPing pkt vip asked in
        let x = request-Fits pkt vip bs asked in
        let y = reply_of-IsReply pkt bs (subst (λ n. Fits pkt n (uint16_at pkt 2)) same x) in
        replied _ ping (subst (λ n. IsReply pkt (reply_of pkt n (uint16_at pkt 2))) (sym same) y))
      λ not_asked. ignored λ ping. ground (arith, not_asked, IsPing-guards pkt vip ping)
