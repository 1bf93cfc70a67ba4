-- ===== src/Base/Eq.antt =====
-- Boolean equality as an instance. A Go string is the list of its code points.
use Prim.Native.Char.{code}
use Prim.Native.String.{String}
use Prim.Native.Nat.{ℕ}
use mathlib.Core.Path.{◌≡◌}
use mathlib.Core.Logic.{◌↔◌}
use mathlib.Core.Bool.{Bool, true, false, ◌&&◌}
use mathlib.Core.List.{List, [], ◌∷◌}
use native.Mathlib.Omega.{arith}
use sulink_lan.Base.Tests.{◌==◌, ==_iff}

pub record Eq {ℓ} (A : Type ℓ) : Type ℓ where
  pub beq : A → A → Bool
  pub beq_iff : (a b : A) → (beq a b ≡ true) ↔ (a ≡ b)

abbrev pub Str : Type 0
Str = List ℕ

-- The code points of a literal.
abbrev pub codes : String → Str
codes String.[] = []
codes (String.◌∷◌ c s) = code c ∷ codes s

infix 50 ◌==ₛ◌
unfoldable pub ◌==ₛ◌ : Str → Str → Bool
[] ==ₛ [] = true
[] ==ₛ (b ∷ t) = false
(a ∷ s) ==ₛ [] = false
(a ∷ s) ==ₛ (b ∷ t) = (a == b) && (s ==ₛ t)

pub ==ₛ_iff : (s t : Str) → ((s ==ₛ t) ≡ true) ↔ (s ≡ t)
unfolding ◌==ₛ◌
==ₛ_iff [] [] = ground arith
==ₛ_iff [] (b ∷ t) = ground arith
==ₛ_iff (a ∷ s) [] = ground arith
==ₛ_iff (a ∷ s) (b ∷ t) = ground (arith, ==ₛ_iff s t)

instance abbrev pub nat_eq : Eq ℕ
nat_eq = record { beq = ◌==◌; beq_iff = ==_iff }

instance abbrev pub str_eq : Eq Str
str_eq = record { beq = ◌==ₛ◌; beq_iff = ==ₛ_iff }
