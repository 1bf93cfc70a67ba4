-- ===== src/Base/Sort.antt =====
-- `sort.Slice` as an insertion sort, and the order of Go strings.
use mathlib.Core.Bool.{Bool, true, false}
use mathlib.Core.List.{List, [], ◌∷◌}
use sulink_lan.Base.Tests.{ltb, ◌==◌, if◌then◌else◌}
use sulink_lan.Base.Eq.{Str}

unfoldable pub str_ltb : Str → Str → Bool
str_ltb s [] = false
str_ltb [] (b ∷ t) = true
str_ltb (a ∷ s) (b ∷ t) = let rest = str_ltb s t in if a == b then rest else ltb a b

module _ {ℓ} {A : Type ℓ} (less : A → A → Bool) where
  unfoldable pub insert_sorted : A → List A → List A
  insert_sorted a [] = a ∷ []
  insert_sorted a (b ∷ bs) = if less a b then a ∷ b ∷ bs else b ∷ insert_sorted a bs

  unfoldable pub sort_slice : List A → List A
  unfolding insert_sorted
  sort_slice [] = []
  sort_slice (a ∷ as') = insert_sorted a (sort_slice as')
