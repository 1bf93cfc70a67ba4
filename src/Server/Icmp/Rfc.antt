-- ===== src/Server/Icmp/Rfc.antt =====
-- The Internet checksum of RFC 1071, without the loops of internal/server/icmp.go.
use sulink_lan.Base.{
  ℕ, suc, ◌+◌, ◌*◌, ◌^◌, ◌≤◌, ◌<◌, ◌≡◌, refl, Bool, true, false, [], ◌∷◌, length, arith,
}
use sulink_lan.Base.Bytes.{Bytes, AreBytes}
use sulink_lan.Server.Icmp.{checksum}
use sulink_lan.Server.Icmp.Checksum.{
  words, words_bound, checksum-words, fold_carry_rest, fold_carry_bound,
}

-- A byte at an even place counts 256 times, one at an odd place once.
unfoldable pub byte_sum : Bool → Bytes → ℕ
byte_sum even [] = 0
byte_sum true (b ∷ s) = b * 256 + byte_sum false s
byte_sum false (b ∷ s) = b + byte_sum true s

-- The one's complement sum of the words, with their checksum, is all ones.
pub record IsSummed (s : Bytes) : Type 0 where
  pub rounds : ℕ
  pub total : byte_sum true s ≡ 65535 * suc rounds

words_lem : (s : Bytes) → words s ≡ byte_sum true s
unfolding words byte_sum
words_lem [] = refl
words_lem (a ∷ []) = omega arith
words_lem (a ∷ b ∷ s) = omega (arith, words_lem s)

pub checksum-IsSummed : (s : Bytes) → AreBytes s → length s ≤ 65535 → checksum s ≡ 0 → IsSummed s
checksum-IsSummed s bs small e =
    let low : words s < 2 ^ 32 = omega (arith, words_bound s bs) in
    let (k, f) = fold_carry_rest 3 (words s) low in
    let bound = fold_carry_bound 1 (words s) low in
    record { rounds = k; total = omega (arith, words_lem s, checksum-words s low, e, f, bound) }
