-- ===== src/Server/Icmp/Checksum.antt =====
-- The Internet checksum of internal/server/icmp.go, as a sum modulo 65535.
use sulink_lan.Base.{
  ℕ, zero, suc, ◌+◌, ◌-◌, ◌*◌, ◌/◌, ◌%◌, ◌^◌, ◌≤◌, ◌<◌, ◌≡◌, ◌∙◌, refl, ap, [], ◌∷◌, ◌++◌, length,
  Bool-cases, inl, inr, ◌==◌, arith,
}
use sulink_lan.Base.Bytes.{Bytes, AreBytes, be16}
use sulink_lan.Server.Icmp.{sum_words, fold_carry, checksum}

-- The sum of the words of a text, of an odd byte as the high byte of a word.
unfoldable pub words : Bytes → ℕ
words [] = 0
words (a ∷ []) = a * 256
words (a ∷ b ∷ s) = a * 256 + b + words s

sum_words_lem : (acc : ℕ) (s : Bytes) → acc < 2 ^ 32 → sum_words acc s ≡ (acc + words s) % 2 ^ 32
unfolding sum_words words
sum_words_lem acc [] lt = omega arith
sum_words_lem acc (a ∷ []) lt = omega arith
sum_words_lem acc (a ∷ b ∷ s) lt =
    omega (arith, sum_words_lem ((acc + (a * 256 + b)) % 2 ^ 32) s (omega arith))

pub words_bound : (s : Bytes) → AreBytes s → words s ≤ 65535 * length s
unfolding words
words_bound [] bs = omega arith
words_bound (a ∷ []) bs = let lt : a < 256 = bs.0 in omega arith
words_bound (a ∷ b ∷ s) bs =
    let lt : a < 256 = bs.0 in let lt' : b < 256 = bs.1.0 in omega (arith, words_bound s bs.1.1)

fold_carry_small : (fuel n : ℕ) → n < 2 ^ 16 → fold_carry fuel n ≡ n
unfolding fold_carry
fold_carry_small zero n lt = refl
fold_carry_small (suc fuel) n lt = ground arith

fold_carry_once : (fuel n : ℕ) → n < 2 ^ 17 - 1 → fold_carry (suc fuel) n < 2 ^ 16
unfolding fold_carry
fold_carry_once fuel n lt =
    ground (arith, fold_carry_small fuel ((n % 2 ^ 16 + n / 2 ^ 16) % 2 ^ 32))

-- Two rounds leave at most 16 bits.
pub fold_carry_bound : (fuel n : ℕ) → n < 2 ^ 32 → fold_carry (suc (suc fuel)) n < 2 ^ 16
unfolding fold_carry
fold_carry_bound fuel n lt =
    ground (arith, fold_carry_once fuel ((n % 2 ^ 16 + n / 2 ^ 16) % 2 ^ 32))

-- A round changes the sum by a multiple of 65535 and does not bring it to 0.
pub fold_carry_rest : (fuel n : ℕ) → n < 2 ^ 32 → (k : ℕ) × (n ≡ fold_carry fuel n + 65535 * k)
unfolding fold_carry
fold_carry_rest zero n lt = (0, omega arith)
fold_carry_rest (suc fuel) n lt = elim (Bool-cases (n / 2 ^ 16 == 0)) [
  | inl small ↦ (0, ground arith)
  | inr large ↦
      let (k, e) = fold_carry_rest fuel ((n % 2 ^ 16 + n / 2 ^ 16) % 2 ^ 32) (omega arith) in
      (k + n / 2 ^ 16, ground arith)
]

fold_carry_positive : (fuel n : ℕ) → n < 2 ^ 32 → 0 < n → 0 < fold_carry fuel n
unfolding fold_carry
fold_carry_positive zero n lt pos = pos
fold_carry_positive (suc fuel) n lt pos =
    ground (arith, fold_carry_positive fuel ((n % 2 ^ 16 + n / 2 ^ 16) % 2 ^ 32))

fold_carry_multiple : (n k : ℕ) → n < 2 ^ 32 → n ≡ 65535 * suc k → fold_carry 3 n ≡ 65535
fold_carry_multiple n k lt e =
    let (j, f) = fold_carry_rest 3 n lt in
    omega (arith, fold_carry_bound 1 n lt, fold_carry_positive 3 n lt (omega arith))

words-even : (k : ℕ) (s t : Bytes) → length s ≡ 2 * k → words (s ++ t) ≡ words s + words t
unfolding words
words-even k [] t e = omega arith
words-even k (a ∷ []) t e = absurd (omega arith)
words-even zero (a ∷ b ∷ s) t e = absurd (omega arith)
words-even (suc k) (a ∷ b ∷ s) t e = omega (arith, words-even k s t (omega arith))

fold_sum :
    (sum n : ℕ)
    → sum ≡ n
    → n < 2 ^ 32
    → 2 ^ 16 - 1 - fold_carry 3 sum % 2 ^ 16 ≡ 65535 - fold_carry 3 n
fold_sum sum n e lt =
    ap (λ x. 2 ^ 16 - 1 - fold_carry 3 x % 2 ^ 16) e ∙ omega (arith, fold_carry_bound 1 n lt)

pub checksum-words : (s : Bytes) → words s < 2 ^ 32 → checksum s ≡ 65535 - fold_carry 3 (words s)
unfolding checksum
checksum-words s lt =
    fold_sum (sum_words 0 s) (words s) (omega (arith, sum_words_lem 0 s (omega arith))) lt

words-be16 :
    (k c : ℕ) (s t : Bytes)
    → length s ≡ 2 * k
    → c < 2 ^ 16
    → words (s ++ (be16 c ++ t)) ≡ words s + words t + c
unfolding words
words-be16 k c s t e lt = omega (arith, words-even k s (be16 c ++ t) e)

words-zeros : (k : ℕ) (s t : Bytes) → length s ≡ 2 * k → words (s ++ 0 ∷ 0 ∷ t) ≡ words s + words t
unfolding words
words-zeros k s t e = omega (arith, words-even k s (0 ∷ 0 ∷ t) e)

-- A text with its checksum in a word that was zero before has the checksum 0.
pub checksum_closes :
    (k : ℕ) (s t : Bytes)
    → length s ≡ 2 * k
    → AreBytes s
    → AreBytes t
    → length s + (2 + length t) ≤ 65535
    → checksum (s ++ (be16 (checksum (s ++ 0 ∷ 0 ∷ t)) ++ t)) ≡ 0
checksum_closes k s t e bs bt fits =
    let n = words s + words t in
    let small : n < 2 ^ 32 - 2 ^ 16 = omega (arith, words_bound s bs, words_bound t bt) in
    let (j, f) = fold_carry_rest 3 n (omega arith) in
    let bound = fold_carry_bound 1 n (omega arith) in
    let zeros = words-zeros k s t e in
    let c = checksum (s ++ 0 ∷ 0 ∷ t) in
    let is_c : c ≡ 65535 - fold_carry 3 n =
      checksum-words (s ++ 0 ∷ 0 ∷ t) (omega (arith, zeros))
      ∙ ap (λ x. 65535 - fold_carry 3 x) zeros in
    let full = words-be16 k c s t e (omega (arith, is_c)) in
    let whole = s ++ (be16 c ++ t) in
    let folded : fold_carry 3 (words whole) ≡ 65535 =
      fold_carry_multiple (words whole) j (omega (arith, full, is_c))
        (omega (arith, full, is_c, f, bound)) in
    checksum-words whole (omega (arith, full, is_c)) ∙ omega (arith, folded)
