-- ===== src/Server/Hub/Names.antt =====
-- internal/server/server.go: the search of `register` for a free name.
use sulink_lan.Base.{
  ℕ, zero, suc, ◌+◌, ◌≤◌, ◌<◌, ◌≡◌, ◌≢◌, refl, ◌∙◌, sym, ap, inl, inr, [], ◌∷◌, ◌++◌, none, some,
  Str, codes, length, drop, arith, Option-cases,
}
use sulink_lan.Base.Eq.{nat_eq, str_eq, ==ₛ_iff}
use sulink_lan.Base.Map.{Map, lookup, delete, lookup-delete}
use sulink_lan.Base.Text.{decimal}
use sulink_lan.Base.Text.Decimal.{decimal_injective}
use sulink_lan.Server.Hub.{numbered, free_name, choose_name}

length-delete : (k : Str) (m : Map Str ℕ) → length (delete k m) ≤ length m
unfolding delete
length-delete k [] = omega arith
length-delete k ((j, v) ∷ m) = grind (arith, length-delete k m)

length-delete_lt : (k : Str) (m : Map Str ℕ) → lookup k m ≢ none → length (delete k m) < length m
unfolding lookup delete
length-delete_lt k [] h = grind arith
length-delete_lt k ((j, v) ∷ m) h = grind (arith, length-delete k m, length-delete_lt k m)

drop_last : Str → Str
drop_last [] = []
drop_last (c ∷ []) = []
drop_last (c ∷ d ∷ s) = c ∷ drop_last (d ∷ s)

drop_last-append : (s : Str) (c : ℕ) → drop_last (s ++ c ∷ []) ≡ s
unfolding drop_last
drop_last-append [] c = refl
drop_last-append (a ∷ []) c = refl
drop_last-append (a ∷ b ∷ s) c = ap (◌∷◌ a) (drop_last-append (b ∷ s) c)

strip : Str → Str → Str
strip [] t = t
strip (c ∷ s) [] = []
strip (c ∷ s) (d ∷ t) = strip s t

strip-append : (s t : Str) → strip s (s ++ t) ≡ t
unfolding strip
strip-append [] t = refl
strip-append (c ∷ s) t = strip-append s t

decimal_tail : Str → Str
decimal_tail s = drop 2 s

strip-numbered :
    (base : Str) (i : ℕ) → decimal_tail (strip base (numbered base i)) ≡ decimal i ++ codes ")"
unfolding numbered decimal_tail
strip-numbered base i = ap decimal_tail (strip-append base (codes " (" ++ (decimal i ++ codes ")")))

pub numbered_injective : (base : Str) (i j : ℕ) → numbered base i ≡ numbered base j → i ≡ j
numbered_injective base i j e =
    let inner : decimal i ++ codes ")" ≡ decimal j ++ codes ")" =
      sym (strip-numbered base i)
      ∙ ap (λ s. decimal_tail (strip base s)) e
      ∙ strip-numbered base j in
    decimal_injective i j (
      sym (drop_last-append (decimal i) b')')
      ∙ ap drop_last inner
      ∙ drop_last-append (decimal j) b')')

free_name-numbered :
    (base : Str) (i left : ℕ) (names : Map Str ℕ)
    → (k : ℕ) × (i ≤ k) × (k ≤ i + left) × (free_name base i left names ≡ numbered base k)
unfolding free_name
free_name-numbered base i zero names = (i, omega arith, omega arith, refl)
free_name-numbered base i (suc left) names = elim (Option-cases (lookup (numbered base i) names)) [
  | inl free ↦ (i, omega arith, omega arith, grind arith)
  | inr (v, taken) ↦
      let (k, lo, hi, e) = free_name-numbered base (suc i) left names in
      (k, omega arith, omega arith, grind arith)
]

free_name-delete :
    (base : Str) (i j left : ℕ) (names : Map Str ℕ)
    → i < j
    → free_name base j left (delete (numbered base i) names) ≡ free_name base j left names
unfolding free_name
free_name-delete base i j zero names lt = refl
free_name-delete base i j (suc left) names lt = grind (
  arith,
  lookup-delete (numbered base j) (numbered base i) names,
  ==ₛ_iff (numbered base i) (numbered base j),
  numbered_injective base i j,
  free_name-delete base i (suc j) left names,
)

-- With at least as many further candidates as there are names, the loop ends at a free one.
pub free_name_free :
    (base : Str) (i left : ℕ) (names : Map Str ℕ)
    → length names ≤ left
    → lookup (free_name base i left names) names ≡ none
unfolding free_name lookup
free_name_free base i zero [] le = refl
free_name_free base i zero (e ∷ names) le = absurd (omega arith)
free_name_free base i (suc left) names le = elim (Option-cases (lookup (numbered base i) names)) [
  | inl free ↦ grind arith
  | inr (v, taken) ↦
      let (k, lo, hi, e) = free_name-numbered base (suc i) left names in
      grind (
        arith,
        length-delete_lt (numbered base i) names,
        free_name-delete base i (suc i) left names,
        free_name_free base (suc i) left (delete (numbered base i) names),
        lookup-delete (numbered base k) (numbered base i) names,
        ==ₛ_iff (numbered base i) (numbered base k),
        numbered_injective base i k,
      )
]

-- The name that `register` gives a device, which has none yet, is nobody's.
pub choose_name_free :
    (id : ℕ) (name : Str) (names : Map Str ℕ)
    → lookup name names ≢ some id
    → lookup (choose_name id name names) names ≡ none
unfolding choose_name lookup
choose_name_free id name names own =
    grind (arith, free_name_free name 2 (length names) names (omega arith))
