-- ===== src/Server/Icmp/Reply.antt =====
-- internal/server/icmp.go: the checksums and the addresses of the answer to a ping.
use sulink_lan.Base.{
  ℕ, zero, suc, ◌+◌, ◌-◌, ◌*◌, ◌≤◌, ◌<◌, ◌≡◌, ◌∙◌, refl, ap, sym, true, [], ◌∷◌, length, take, drop,
  length-take, length-drop, arith,
}
use sulink_lan.Base.Bytes.{Bytes, AreBytes, byte_at, slice, be16, uint16_at}
use sulink_lan.Server.Icmp.{ipv4_header_len, is_echo_request, sealed, put, checksum}
use sulink_lan.Server.Icmp.Writes.{
  All-take, All-drop, length-put, AreBytes-put, filled, take_after-put, drop_before-put,
  slice_below-put, slice_above-put, slice_at-put,
}

abbrev pub zero_word : Bytes
zero_word = 0 ∷ 0 ∷ []

-- `filled`, for a text that is known to be one with a zero word.
filled_at :
    (i k : ℕ) (s y : Bytes)
    → y ≡ put i zero_word s
    → i ≡ 2 * k
    → i + 2 ≤ length s
    → length s ≤ 65535
    → AreBytes s
    → checksum (put i (be16 (checksum y)) y) ≡ 0
filled_at i k s y e even fits small bs =
    ap (λ x. checksum (put i (be16 (checksum x)) x)) e ∙ filled i k s even fits small bs

slice_start : (n : ℕ) (s : Bytes) → slice 0 n s ≡ take n s
slice_start n s = ap (λ x. take x s) (omega arith)

header_sum :
    (ihl : ℕ) (s : Bytes)
    → 20 ≤ ihl
    → ihl ≤ length s
    → length s ≤ 65535
    → AreBytes s
    → checksum (
        slice 0 ihl
          (put 10 (be16 (checksum (slice 0 ihl (put 10 zero_word s)))) (put 10 zero_word s)))
      ≡ 0
header_sum ihl s low high small bs =
    let y = put 10 zero_word s in
    let same : slice 0 ihl y ≡ put 10 zero_word (take ihl s) =
      slice_start ihl y ∙ take_after-put 10 ihl zero_word s (omega arith) high in
    let word = be16 (checksum (slice 0 ihl y)) in
    let len : length y ≡ length s = length-put 10 zero_word s (omega arith) in
    ap checksum (
      slice_start ihl (put 10 word y)
      ∙ take_after-put 10 ihl word y (omega arith) (omega (arith, len))
      ∙ ap (put 10 word) (sym (slice_start ihl y)))
    ∙ filled_at 10 5 (take ihl s) (slice 0 ihl y) same refl (omega (arith, length-take ihl s))
        (omega (arith, length-take ihl s)) (All-take ihl s bs)

-- The part of a text from `ihl` on, in which the third and fourth byte are written.
body_part :
    (ihl total : ℕ) (w s : Bytes)
    → length w ≡ 2
    → ihl + 8 ≤ total
    → length s ≡ total
    → slice ihl total (put (ihl + 2) w s) ≡ put 2 w (slice ihl total s)
body_part ihl total w s two high len =
    ap (take (total - ihl)) (drop_before-put (ihl + 2) ihl 2 w s refl (omega arith))
    ∙ take_after-put 2 (total - ihl) w (drop ihl s) (omega arith) (omega (arith, length-drop ihl s))

body_sum :
    (ihl total : ℕ) (s : Bytes)
    → ihl + 8 ≤ total
    → length s ≡ total
    → total ≤ 65535
    → AreBytes s
    → let y = put (ihl + 2) zero_word s in
      checksum (slice ihl total (put (ihl + 2) (be16 (checksum (slice ihl total y))) y)) ≡ 0
body_sum ihl total s high len small bs =
    let y = put (ihl + 2) zero_word s in
    let part = slice ihl total s in
    let word = be16 (checksum (slice ihl total y)) in
    let len_y : length y ≡ total = length-put (ihl + 2) zero_word s (omega arith) ∙ len in
    let size : length part ≡ total - ihl =
      omega (arith, length-take (total - ihl) (drop ihl s), length-drop ihl s) in
    ap checksum (body_part ihl total word y refl high len_y)
    ∙ filled_at 2 1 part (slice ihl total y) (body_part ihl total zero_word s refl high len) refl
        (omega arith) (omega arith) (All-take (total - ihl) (drop ihl s) (All-drop ihl s bs))

byte_bound : (s : Bytes) (i : ℕ) → AreBytes s → byte_at s i < 256
byte_bound [] i bs = omega arith
byte_bound (b ∷ s) zero bs = bs.0
byte_bound (b ∷ s) (suc i) bs = byte_bound s i bs.1

-- The request as it is copied, with the addresses swapped and the type of a reply.
unfoldable pub turned : Bytes → ℕ → ℕ → Bytes
turned pkt ihl total =
    put ihl (0 ∷ []) (put 16 (slice 12 16 pkt) (put 12 (slice 16 20 pkt) (take total pkt)))

-- What the guards of `echoReply` say of a request.
pub record Fits (pkt : Bytes) (ihl total : ℕ) : Type 0 where
  pub low : 20 ≤ ihl
  pub high : ihl + 8 ≤ total
  pub inside : total ≤ length pkt
  pub small : total ≤ 65535

pub request-Fits :
    (pkt : Bytes) (vip : ℕ)
    → AreBytes pkt
    → is_echo_request pkt (ipv4_header_len pkt) (uint16_at pkt 2) vip ≡ true
    → Fits pkt (ipv4_header_len pkt) (uint16_at pkt 2)
unfolding is_echo_request ipv4_header_len
request-Fits pkt vip bs e = record {
  low = grind arith;
  high = grind arith;
  inside = grind arith;
  small = omega (arith, byte_bound pkt 2 bs, byte_bound pkt 3 bs);
}

pub length-slice : (i : ℕ) (s : Bytes) → i + 4 ≤ length s → length (slice i (i + 4) s) ≡ 4
length-slice i s le = omega (arith, length-take (i + 4 - i) (drop i s), length-drop i s)

pub turned_facts :
    (pkt : Bytes) (ihl total : ℕ)
    → AreBytes pkt
    → Fits pkt ihl total
    → (length (turned pkt ihl total) ≡ total)
      × AreBytes (turned pkt ihl total)
      × (slice 12 16 (turned pkt ihl total) ≡ slice 16 20 pkt)
      × (slice 16 20 (turned pkt ihl total) ≡ slice 12 16 pkt)
unfolding turned
turned_facts pkt ihl total bs x =
    let low = x.low in
    let high = x.high in
    let inside = x.inside in
    let s0 = take total pkt in
    let src = slice 12 16 pkt in
    let dst = slice 16 20 pkt in
    let len_src : length src ≡ 4 = length-slice 12 pkt (omega arith) in
    let len_dst : length dst ≡ 4 = length-slice 16 pkt (omega arith) in
    let len0 : length s0 ≡ total = omega (arith, length-take total pkt) in
    let s1 = put 12 dst s0 in
    let len1 : length s1 ≡ total = length-put 12 dst s0 (omega arith) ∙ len0 in
    let s2 = put 16 src s1 in
    let len2 : length s2 ≡ total = length-put 16 src s1 (omega arith) ∙ len1 in
    let bytes0 = All-take total pkt bs in
    let bytes1 = AreBytes-put 12 dst s0 (All-take 4 (drop 16 pkt) (All-drop 16 pkt bs)) bytes0 in
    let bytes2 = AreBytes-put 16 src s1 (All-take 4 (drop 12 pkt) (All-drop 12 pkt bs)) bytes1 in
    (
      length-put ihl (0 ∷ []) s2 (omega arith) ∙ len2,
      AreBytes-put ihl (0 ∷ []) s2 (omega arith, tt) bytes2,
      slice_below-put 12 16 ihl (ihl - 12) (0 ∷ []) s2 (omega arith) (omega arith) (omega arith)
          ∙ slice_below-put 12 16 16 4 src s1 refl (omega arith) (omega arith)
          ∙ slice_at-put 12 16 dst s0 (omega arith) (omega arith),
      slice_below-put 16 20 ihl (ihl - 16) (0 ∷ []) s2 (omega arith) (omega arith) (omega arith)
          ∙ slice_at-put 16 20 src s1 (omega arith) (omega arith),
    )

-- What a sealed reply says: its length, its two checksums, and its addresses.
pub record Answers (pkt r : Bytes) (ihl total : ℕ) : Type 0 where
  pub size : length r ≡ total
  pub header_valid : checksum (slice 0 ihl r) ≡ 0
  pub body_valid : checksum (slice ihl total r) ≡ 0
  pub from_server : slice 12 16 r ≡ slice 16 20 pkt
  pub to_sender : slice 16 20 r ≡ slice 12 16 pkt

pub sealed-Answers :
    (pkt s : Bytes) (ihl total : ℕ)
    → Fits pkt ihl total
    → length s ≡ total
    → AreBytes s
    → slice 12 16 s ≡ slice 16 20 pkt
    → slice 16 20 s ≡ slice 12 16 pkt
    → Answers pkt (sealed (put (ihl + 2) zero_word s) ihl total) ihl total
unfolding sealed
sealed-Answers pkt s ihl total x len bs src dst =
    let low = x.low in
    let high = x.high in
    let small = x.small in
    let r = put (ihl + 2) zero_word s in
    let len_r : length r ≡ total = length-put (ihl + 2) zero_word s (omega arith) ∙ len in
    let w1 = be16 (checksum (slice ihl total r)) in
    let r1 = put (ihl + 2) w1 r in
    let len1 : length r1 ≡ total = length-put (ihl + 2) w1 r (omega arith) ∙ len_r in
    let bytes1 =
      AreBytes-put (ihl + 2) w1 r (omega arith, (omega arith, tt))
        (AreBytes-put (ihl + 2) zero_word s (omega arith, (omega arith, tt)) bs) in
    let r2 = put 10 zero_word r1 in
    let len2 : length r2 ≡ total = length-put 10 zero_word r1 (omega arith) ∙ len1 in
    let w2 = be16 (checksum (slice 0 ihl r2)) in
    let keeps_body : slice ihl total (put 10 w2 r2) ≡ slice ihl total r1 =
      slice_above-put ihl total 10 w2 r2 (omega arith) (omega arith)
      ∙ slice_above-put ihl total 10 zero_word r1 (omega arith) (omega arith) in
    record {
      size = length-put 10 w2 r2 (omega arith) ∙ len2;
      header_valid = header_sum ihl r1 low (omega arith) (omega arith) bytes1;
      body_valid = ap checksum keeps_body ∙ body_sum ihl total s high len small bs;
      from_server =
          slice_above-put 12 16 10 w2 r2 (omega arith) (omega arith)
          ∙ slice_above-put 12 16 10 zero_word r1 (omega arith) (omega arith)
          ∙ slice_below-put 12 16 (ihl + 2) (ihl - 10) w1 r (omega arith) (omega arith)
              (omega arith)
          ∙ slice_below-put 12 16 (ihl + 2) (ihl - 10) zero_word s (omega arith) (omega arith)
              (omega arith)
          ∙ src;
      to_sender =
          slice_above-put 16 20 10 w2 r2 (omega arith) (omega arith)
          ∙ slice_above-put 16 20 10 zero_word r1 (omega arith) (omega arith)
          ∙ slice_below-put 16 20 (ihl + 2) (ihl - 14) w1 r (omega arith) (omega arith)
              (omega arith)
          ∙ slice_below-put 16 20 (ihl + 2) (ihl - 14) zero_word s (omega arith) (omega arith)
              (omega arith)
          ∙ dst;
    }
