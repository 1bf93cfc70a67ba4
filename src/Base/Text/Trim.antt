-- ===== src/Base/Text/Trim.antt =====
-- `strings.TrimSpace` and the last occurrence of a separator.
use Prim.Native.Nat.{ℕ}
use mathlib.Core.Path.{◌≡◌, refl, ap, ◌∙◌}
use mathlib.Core.Bool.{false, ◌||◌}
use mathlib.Core.List.{[], ◌∷◌, ◌++◌, reverse, reverse-append, reverse-reverse, append_assoc}
use mathlib.Core.Option.{some}
use native.Mathlib.Omega.{arith}
use sulink_lan.Base.Lists.{All, All-append}
use sulink_lan.Base.Eq.{Str}
use sulink_lan.Base.Text.{is_space, trim_left, trim_space, split_first, split_last, contains}

abbrev pub NotSpace : ℕ → Type 0
NotSpace c = is_space c ≡ false

pub trim_left-All : (s : Str) → All NotSpace s → trim_left s ≡ s
unfolding trim_left
trim_left-All [] h = refl
trim_left-All (c ∷ s) h = ground (arith, h.0)

pub All-reverse : (s : Str) → All NotSpace s → All NotSpace (reverse s)
All-reverse [] h = tt
All-reverse (c ∷ s) h =
    rw (reverse-append (c ∷ []) s)
      (All-append NotSpace (reverse s) (c ∷ []) (All-reverse s h.1) (h.0, tt))

-- A text without spaces is left alone, and a line feed behind it goes.
pub trim_space-All : (s : Str) → All NotSpace s → trim_space s ≡ s
unfolding trim_space
trim_space-All s h =
    rw (trim_left-All s h, trim_left-All (reverse s) (All-reverse s h)) (reverse-reverse s)

pub trim_space_line :
    (c : ℕ) (s : Str) → All NotSpace (c ∷ s) → trim_space ((c ∷ s) ++ 10 ∷ []) ≡ c ∷ s
unfolding trim_space
trim_space_line c s h =
    rw
      (
        first,
        reverse-append (c ∷ s) (10 ∷ []),
        line,
        trim_left-All (reverse (c ∷ s)) (All-reverse (c ∷ s) h),
      )
      (reverse-reverse (c ∷ s))
  where
    first : trim_left ((c ∷ s) ++ 10 ∷ []) ≡ (c ∷ s) ++ 10 ∷ []
    first = unfold trim_left in ground (arith, h.0)

    line : trim_left (10 ∷ reverse (c ∷ s)) ≡ trim_left (reverse (c ∷ s))
    line = unfold trim_left is_space in refl

pub split_first-append :
    (sep : ℕ) (s t : Str) → contains sep s ≡ false → split_first sep (s ++ sep ∷ t) ≡ some (s, t)
unfolding split_first contains
split_first-append sep [] t h = ground arith
split_first-append sep (c ∷ s) t h = ground (arith, split_first-append sep s t)

contains-append : (c : ℕ) (s t : Str) → contains c (s ++ t) ≡ (contains c s || contains c t)
unfolding contains
contains-append c [] t = refl
contains-append c (d ∷ s) t = ground (arith, contains-append c s t)

contains-reverse : (c : ℕ) (s : Str) → contains c (reverse s) ≡ contains c s
unfolding contains
contains-reverse c [] = refl
contains-reverse c (d ∷ s) =
    rw (reverse-append (d ∷ []) s, contains-append c (reverse s) (d ∷ []), contains-reverse c s)
      (ground arith)

-- A text is split at its last separator.
pub split_last-append :
    (sep : ℕ) (s t : Str) → contains sep t ≡ false → split_last sep (s ++ sep ∷ t) ≡ some (s, t)
unfolding split_last
split_last-append sep s t h =
    let flip : reverse (s ++ sep ∷ t) ≡ reverse t ++ sep ∷ reverse s =
      reverse-append s (sep ∷ t)
      ∙ ap (λ (r : Str). r ++ reverse s) (reverse-append (sep ∷ []) t)
      ∙ append_assoc (reverse t) (sep ∷ []) (reverse s) in
    let found = split_first-append sep (reverse t) (reverse s) (contains-reverse sep t ∙ h) in
    ground (arith, flip, found, reverse-reverse s, reverse-reverse t)
