-- ===== src/Base/Text.antt =====
-- The functions of Go's `strings`, `unicode` and `strconv` that the code calls, over code points.
pub mod Decimal
pub mod Trim
use Prim.Native.Nat.{ℕ, zero, suc, ◌+◌, ◌-◌, ◌*◌, ◌/◌, ◌%◌, ◌^◌}
use mathlib.Core.Bool.{Bool, true, false, ◌&&◌, ◌||◌}
use mathlib.Core.List.{[], ◌∷◌, reverse}
use mathlib.Core.Option.{Option, none, some}
use sulink_lan.Base.Tests.{ltb, leb, ◌==◌, if◌then◌else◌}
use sulink_lan.Base.Eq.{Str}

-- `unicode.IsSpace`.
unfoldable pub is_space : ℕ → Bool
is_space c =
    (leb 9 c && leb c 13)
    || c == 32
    || c == 0x85
    || c == 0xa0
    || c == 0x1680
    || (leb 0x2000 c && leb c 0x200a)
    || c == 0x2028
    || c == 0x2029
    || c == 0x202f
    || c == 0x205f
    || c == 0x3000

unfoldable pub trim_left : Str → Str
trim_left [] = []
trim_left (c ∷ s) = if is_space c then trim_left s else c ∷ s

-- `strings.TrimSpace`.
unfoldable pub trim_space : Str → Str
unfolding is_space trim_left
trim_space s = reverse (trim_left (reverse (trim_left s)))

-- `strings.SplitN(s, sep, 2)`: `none` if `sep` does not occur.
unfoldable pub split_first : ℕ → Str → Option (Str × Str)
split_first sep [] = none
split_first sep (c ∷ s) = elim (c == sep) [
  | true ↦ some ([], s)
  | false ↦ elim (split_first sep s) [ none ↦ none | some (a, b) ↦ some (c ∷ a, b) ]
]

unfoldable pub split_last : ℕ → Str → Option (Str × Str)
unfolding split_first
split_last sep s = elim (split_first sep (reverse s)) [
  | none ↦ none
  | some (b, a) ↦ some (reverse a, reverse b)
]

unfoldable pub contains : ℕ → Str → Bool
contains c [] = false
contains c (d ∷ s) = c == d || contains c s

unfoldable pub is_digit : ℕ → Bool
is_digit c = leb 48 c && leb c 57

unfoldable pub digits_value : ℕ → Str → Option ℕ
unfolding is_digit
digits_value acc [] = some acc
digits_value acc (c ∷ s) =
    let rest = digits_value (acc * 10 + (c - 48)) s in if is_digit c then rest else none

-- A number with its sign, `true` for a minus.
unfoldable pub unsigned : Bool → Str → Option (Bool × ℕ)
unfolding digits_value
unsigned neg [] = none
unsigned neg (c ∷ s) = elim (digits_value 0 (c ∷ s)) [
  | none ↦ none
  | some n ↦ if ltb n (2 ^ 63) || (neg && n == 2 ^ 63) then some (neg, n) else none
]

-- `strconv.Atoi`: an optional sign and decimal digits, in the range of int64.
unfoldable pub atoi : Str → Option (Bool × ℕ)
unfolding unsigned
atoi [] = none
atoi (c ∷ s) =
    if c == b'-'
    then unsigned true s
    else if c == b'+'
    then unsigned false s
    else unsigned false (c ∷ s)

unfoldable pub decimal_loop : ℕ → ℕ → Str → Str
decimal_loop zero n acc = acc
decimal_loop (suc fuel) n acc =
    let acc' = (48 + n % 10) ∷ acc in
    elim (ltb n 10) [ true ↦ acc' | false ↦ decimal_loop fuel (n / 10) acc' ]

-- `%d` of a number; a number has at most as many digits as its successor.
unfoldable pub decimal : ℕ → Str
unfolding decimal_loop
decimal n = decimal_loop (suc n) n []

unfoldable pub lower : ℕ → ℕ
lower c = if leb 65 c && leb c 90 then c + 32 else c

unfoldable pub has_prefix : Str → Str → Bool
has_prefix [] s = true
has_prefix (a ∷ t) [] = false
has_prefix (a ∷ t) (b ∷ s) = a == b && has_prefix t s

-- `strings.Contains`: `t` is a part of `s`.
unfoldable pub contains_text : Str → Str → Bool
unfolding has_prefix
contains_text t [] = has_prefix t []
contains_text t (c ∷ s) = has_prefix t (c ∷ s) || contains_text t s
