-- ===== src/Server/Icmp/Unchanged.antt =====
-- internal/server/icmp.go: the parts of the packet that the reply keeps.
use mathlib.Core.Path.{subst}
use sulink_lan.Base.{
  ℕ, ◌+◌, ◌-◌, ◌≤◌, ◌≡◌, ◌∙◌, ◌⊎◌, inl, inr, refl, ap, sym, [], ◌∷◌, length, take, drop,
  length-take, arith,
}
use sulink_lan.Base.Bytes.{Bytes, AreBytes, slice, be16}
use sulink_lan.Server.Icmp.{sealed, put, checksum}
use sulink_lan.Server.Icmp.Writes.{
  length-put, take-take, drop-take, slice_below-put, slice_above-put, slice_at-put,
}
use sulink_lan.Server.Icmp.Reply.{Fits, zero_word, turned, turned_facts, length-slice}

slice-take : (a b n : ℕ) (s : Bytes) → a ≤ b → b ≤ n → slice a b (take n s) ≡ slice a b s
slice-take a b n s ab bn =
    ap (take (b - a)) (drop-take a n (n - a) s (omega arith))
    ∙ take-take (b - a) (n - a) (drop a s) (omega arith)

-- A part ends before the place of a write of `n` bytes, or begins after it.
abbrev Away : ℕ → ℕ → ℕ → ℕ → Type 0
Away a b i n = (b ≤ i) ⊎ (i + n ≤ a)

Away-put :
    (a b i : ℕ) (w s : Bytes)
    → a ≤ b
    → i + length w ≤ length s
    → Away a b i (length w)
    → slice a b (put i w s) ≡ slice a b s
Away-put a b i w s ab fits (inl before) =
    slice_below-put a b i (i - a) w s (omega arith) before (omega arith)
Away-put a b i w s ab fits (inr after) = slice_above-put a b i w s after (omega arith)

-- The checksums leave the rest of a reply alone.
pub sealed-Away :
    (a b ihl total : ℕ) (t : Bytes)
    → a ≤ b
    → 20 ≤ ihl
    → ihl + 8 ≤ total
    → length t ≡ total
    → Away a b 10 2
    → Away a b (ihl + 2) 2
    → slice a b (sealed (put (ihl + 2) zero_word t) ihl total) ≡ slice a b t
unfolding sealed
sealed-Away a b ihl total t ab low high len d e =
    let r = put (ihl + 2) zero_word t in
    let n : length r ≡ total = length-put (ihl + 2) zero_word t (omega arith) ∙ len in
    let w1 = be16 (checksum (slice ihl total r)) in
    let r1 = put (ihl + 2) w1 r in
    let n1 : length r1 ≡ total = length-put (ihl + 2) w1 r (omega arith) ∙ n in
    let r2 = put 10 zero_word r1 in
    let n2 : length r2 ≡ total = length-put 10 zero_word r1 (omega arith) ∙ n1 in
    let w2 = be16 (checksum (slice 0 ihl r2)) in
    Away-put a b 10 w2 r2 ab (omega arith) d
    ∙ Away-put a b 10 zero_word r1 ab (omega arith) d
    ∙ Away-put a b (ihl + 2) w1 r ab (omega arith) e
    ∙ Away-put a b (ihl + 2) zero_word t ab (omega arith) e

-- The swapped addresses and the type leave the rest of the packet alone.
turned-Away :
    (a b ihl total : ℕ) (pkt : Bytes)
    → a ≤ b
    → b ≤ total
    → Fits pkt ihl total
    → Away a b 12 4
    → Away a b 16 4
    → Away a b ihl 1
    → slice a b (turned pkt ihl total) ≡ slice a b pkt
unfolding turned
turned-Away a b ihl total pkt ab bt x d e f =
    let low = x.low in
    let high = x.high in
    let inside = x.inside in
    let s0 = take total pkt in
    let src = slice 12 16 pkt in
    let dst = slice 16 20 pkt in
    let len_src : length src ≡ 4 = length-slice 12 pkt (omega arith) in
    let len_dst : length dst ≡ 4 = length-slice 16 pkt (omega arith) in
    let n0 : length s0 ≡ total = omega (arith, length-take total pkt) in
    let s1 = put 12 dst s0 in
    let n1 : length s1 ≡ total = length-put 12 dst s0 (omega arith) ∙ n0 in
    let s2 = put 16 src s1 in
    let n2 : length s2 ≡ total = length-put 16 src s1 (omega arith) ∙ n1 in
    Away-put a b ihl (0 ∷ []) s2 ab (omega arith) f
    ∙ Away-put a b 16 src s1 ab (omega arith) (subst (Away a b 16) (sym len_src) e)
    ∙ Away-put a b 12 dst s0 ab (omega arith) (subst (Away a b 12) (sym len_dst) d)
    ∙ slice-take a b total pkt ab bt

pub turned_type :
    (ihl total : ℕ) (pkt : Bytes)
    → Fits pkt ihl total
    → slice ihl (ihl + 1) (turned pkt ihl total) ≡ 0 ∷ []
unfolding turned
turned_type ihl total pkt x =
    let low = x.low in
    let high = x.high in
    let inside = x.inside in
    let s0 = take total pkt in
    let len_src = length-slice 12 pkt (omega arith) in
    let len_dst = length-slice 16 pkt (omega arith) in
    let n0 : length s0 ≡ total = omega (arith, length-take total pkt) in
    let s1 = put 12 (slice 16 20 pkt) s0 in
    let n1 : length s1 ≡ total = length-put 12 (slice 16 20 pkt) s0 (omega arith) ∙ n0 in
    let s2 = put 16 (slice 12 16 pkt) s1 in
    let n2 : length s2 ≡ total = length-put 16 (slice 12 16 pkt) s1 (omega arith) ∙ n1 in
    slice_at-put ihl (ihl + 1) (0 ∷ []) s2 refl (omega arith)

abbrev pub reply_of : Bytes → ℕ → ℕ → Bytes
reply_of pkt ihl total = sealed (put (ihl + 2) zero_word (turned pkt ihl total)) ihl total

pub kept :
    (a b ihl total : ℕ) (pkt : Bytes)
    → a ≤ b
    → b ≤ total
    → AreBytes pkt
    → Fits pkt ihl total
    → (b ≤ 10) ⊎ ((ihl + 1 ≤ a) × Away a b (ihl + 2) 2)
    → slice a b (reply_of pkt ihl total) ≡ slice a b pkt
kept a b ihl total pkt ab bt bs x (inl before) =
    let low = x.low in
    sealed-Away a b ihl total (turned pkt ihl total) ab low x.high
      (turned_facts pkt ihl total bs x).0 (inl before) (inl (omega arith))
    ∙ turned-Away a b ihl total pkt ab bt x (inl (omega arith)) (inl (omega arith))
        (inl (omega arith))
kept a b ihl total pkt ab bt bs x (inr (after, e)) =
    let low = x.low in
    sealed-Away a b ihl total (turned pkt ihl total) ab low x.high
      (turned_facts pkt ihl total bs x).0 (inr (omega arith)) e
    ∙ turned-Away a b ihl total pkt ab bt x (inr (omega arith)) (inr (omega arith)) (inr after)

pub kept_options :
    (ihl total : ℕ) (pkt : Bytes)
    → AreBytes pkt
    → Fits pkt ihl total
    → slice 20 ihl (reply_of pkt ihl total) ≡ slice 20 ihl pkt
kept_options ihl total pkt bs x =
    let low = x.low in
    let high = x.high in
    sealed-Away 20 ihl ihl total (turned pkt ihl total) low low high
      (turned_facts pkt ihl total bs x).0 (inr (omega arith)) (inl (omega arith))
    ∙ turned-Away 20 ihl ihl total pkt low (omega arith) x (inr (omega arith)) (inr (omega arith))
        (inl (omega arith))
