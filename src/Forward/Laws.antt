-- ===== src/Forward/Laws.antt =====
-- internal/forward/forward.go: the rules that are accepted.
use sulink_lan.Base.{
  ℕ, ◌≤◌, ◌≡◌, ◌≢◌, List, [], ◌∷◌, none, some, ok, Str, arith, All, All-map, OnOk, done, OnOk-bind,
  OnOk-when, OnOk-value,
}
use sulink_lan.Base.Eq.{nat_eq}
use sulink_lan.Base.Map.{Map, lookup, insert, lookup-insert}
use sulink_lan.Forward.{
  Rule, rule_text, port_of, parse_port, parse_parts, parse, parse_list, check_ports, parse_set,
}

-- No two rules of the list have one port.
abbrev pub PortsDiffer : List Rule → Type 0
PortsDiffer [] = Unit
PortsDiffer (r ∷ rs) = All (λ (q : Rule). q.vport ≢ r.vport) rs × PortsDiffer rs

-- A rule whose ports are ports.
abbrev pub IsRule : Rule → Type 0
IsRule r = (1 ≤ r.vport) × (r.vport ≤ 65535) × (1 ≤ r.target_port) × (r.target_port ≤ 65535)

parse_port-range : (s : Str) (n : ℕ) → parse_port s ≡ some n → (1 ≤ n) × (n ≤ 65535)
unfolding parse_port port_of
parse_port-range s n e = grind arith

parse_parts-IsRule : (left right : Str) (r : Rule) → parse_parts left right ≡ ok r → IsRule r
unfolding parse_parts
parse_parts-IsRule left right r e = grind (arith, parse_port-range)

parse-IsRule : (s : Str) (r : Rule) → parse s ≡ ok r → IsRule r
unfolding parse
parse-IsRule s r e = grind (arith, parse_parts-IsRule)

parse_list-IsRule : (l : List Str) → OnOk (All IsRule) (parse_list l)
unfolding parse_list
parse_list-IsRule [] = done [] tt
parse_list-IsRule (s ∷ l) =
    OnOk-bind (OnOk-when IsRule (parse s) (parse-IsRule s))
      λ r p. OnOk-bind (parse_list-IsRule l) λ rs ps. done (r ∷ rs) (p, ps)

check_ports-cons :
    (seen : Map ℕ Str) (r : Rule) (rs : List Rule)
    → check_ports seen (r ∷ rs) ≡ ok tt
    → (lookup r.vport seen ≡ none) × (check_ports (insert r.vport (rule_text r) seen) rs ≡ ok tt)
unfolding check_ports
check_ports-cons seen r rs e = grind arith

-- A port that the loop has seen does not come again.
check_ports-PortsDiffer :
    (seen : Map ℕ Str) (rs : List Rule)
    → check_ports seen rs ≡ ok tt
    → All (λ (q : Rule). lookup q.vport seen ≡ none) rs × PortsDiffer rs
check_ports-PortsDiffer seen [] e = (tt, tt)
check_ports-PortsDiffer seen (r ∷ rs) e =
    let text = rule_text r in
    let (free, rest) = check_ports-cons seen r rs e in
    let (unseen, differ) = check_ports-PortsDiffer (insert r.vport text seen) rs rest in
    let Unseen : Rule → Type 0 = λ q. lookup q.vport (insert r.vport text seen) ≡ none in
    (
      (
        free,
        All-map Unseen (λ q. lookup q.vport seen ≡ none) rs
            (λ q u. grind (arith, lookup-insert q.vport r.vport text seen)) unseen,
      ),
      (
        All-map Unseen (λ q. q.vport ≢ r.vport) rs
            (λ q u same. grind (arith, lookup-insert q.vport r.vport text seen)) unseen,
        differ,
      ),
    )

-- The rules of a set that `ParseSet` accepts have ports between 1 and 65535, and no two of them have
-- one virtual port.
pub parse_set_lem :
    (l : List Str) {rs : List Rule} → parse_set l ≡ ok rs → All IsRule rs × PortsDiffer rs
unfolding parse_set
parse_set_lem l {rs} e =
    let Good : List Rule → Type 0 = λ rules. All IsRule rules × PortsDiffer rules in
    let accepted : OnOk Good (parse_set l) = OnOk-bind (parse_list-IsRule l) λ rules ps.
      OnOk-bind
        (OnOk-when (λ _. PortsDiffer rules) (check_ports [] rules)
          λ u f. (check_ports-PortsDiffer [] rules f).1)
        λ u d. done rules (ps, d) in
    OnOk-value Good rs accepted e
