-- ===== src/Base/Bytes.antt =====
-- Byte strings, and the big-endian words of `encoding/binary`. A byte is a number below 256.
use Prim.Native.Nat.{ℕ, zero, suc, ◌+◌, ◌-◌, ◌*◌, ◌/◌, ◌%◌, ◌^◌, ◌<◌}
use mathlib.Core.Path.{◌≡◌, refl, ap}
use mathlib.Core.List.{List, [], ◌∷◌, ◌++◌}
use native.Mathlib.Omega.{arith}
use sulink_lan.Base.Lists.{length, get_or, take, drop, All}

abbrev pub Bytes : Type 0
Bytes = List ℕ

-- The byte at an index, for an index that the code has checked.
abbrev pub byte_at : Bytes → ℕ → ℕ
byte_at s i = get_or s i 0

-- `s[i:j]`.
abbrev pub slice : ℕ → ℕ → Bytes → Bytes
slice i j s = take (j - i) (drop i s)

-- `PutUint16` and `PutUint32`.
abbrev pub be16 : ℕ → Bytes
be16 v = v / 256 % 256 ∷ v % 256 ∷ []

abbrev pub be32 : ℕ → Bytes
be32 v = v / 2 ^ 24 % 256 ∷ v / 2 ^ 16 % 256 ∷ v / 2 ^ 8 % 256 ∷ v % 256 ∷ []

-- `Uint16(s[i:])` and `Uint32(s[i:])`.
abbrev pub uint16_at : Bytes → ℕ → ℕ
uint16_at s i = byte_at s i * 256 + byte_at s (i + 1)

abbrev pub uint32_at : Bytes → ℕ → ℕ
uint32_at s i =
    byte_at s i * 2 ^ 24
    + byte_at s (i + 1) * 2 ^ 16
    + byte_at s (i + 2) * 2 ^ 8
    + byte_at s (i + 3)

abbrev pub AreBytes : Bytes → Type 0
AreBytes s = All (λ b. b < 256) s

pub uint32_at-be32 : (v : ℕ) (s : Bytes) → v < 2 ^ 32 → uint32_at (be32 v ++ s) 0 ≡ v
uint32_at-be32 v s lt = omega arith

pub uint16_at-be16 : (v : ℕ) (s : Bytes) → v < 2 ^ 16 → uint16_at (be16 v ++ s) 0 ≡ v
uint16_at-be16 v s lt = omega arith

pub be32-uint32_at :
    (a b c d : ℕ)
    → a < 256
    → b < 256
    → c < 256
    → d < 256
    → be32 (uint32_at (a ∷ b ∷ c ∷ d ∷ []) 0) ≡ a ∷ b ∷ c ∷ d ∷ []
be32-uint32_at a b c d ha hb hc hd = ground arith

pub drop-append {ℓ} : {A : Type ℓ} (xs ys : List A) (n : ℕ) → length xs ≡ n → drop n (xs ++ ys) ≡ ys
drop-append [] ys zero e = refl
drop-append [] ys (suc n) e = absurd (omega arith)
drop-append (x ∷ xs) ys zero e = absurd (omega arith)
drop-append (x ∷ xs) ys (suc n) e = drop-append xs ys n (omega arith)

pub take-append {ℓ} : {A : Type ℓ} (xs ys : List A) (n : ℕ) → length xs ≡ n → take n (xs ++ ys) ≡ xs
take-append [] ys zero e = refl
take-append [] ys (suc n) e = absurd (omega arith)
take-append (x ∷ xs) ys zero e = absurd (omega arith)
take-append (x ∷ xs) ys (suc n) e = ap (◌∷◌ x) (take-append xs ys n (omega arith))

pub take_all {ℓ} : {A : Type ℓ} (xs : List A) (n : ℕ) → length xs ≡ n → take n xs ≡ xs
take_all [] zero e = refl
take_all [] (suc n) e = refl
take_all (x ∷ xs) zero e = absurd (omega arith)
take_all (x ∷ xs) (suc n) e = ap (◌∷◌ x) (take_all xs n (omega arith))
