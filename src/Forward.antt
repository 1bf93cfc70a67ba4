-- ===== src/Forward.antt =====
-- internal/forward/forward.go: the rules that expose a service of a device's own network.
pub mod Laws
mod Tests
use mathlib.Core.List.{reverse}
use sulink_lan.Base.{
  ℕ, zero, suc, ◌+◌, ◌-◌, ◌≤◌, Bool, true, false, ◌&&◌, ◌||◌, List, [], ◌∷◌, ◌++◌, Option, none,
  some, Result, ok, err, ◌>>=◌, ltb, leb, ◌==◌, if◌then◌else◌, Str,
}
use sulink_lan.Base.Eq.{nat_eq}
use sulink_lan.Base.Map.{Map, lookup, insert}
use sulink_lan.Base.Text.{trim_space, split_first, atoi, decimal, is_space}
use sulink_lan.Base.Net.{parse_ip4, ip4_text, split_host_port}

pub record Rule : Type 0 where
  pub vport : ℕ
  pub target_ip : ℕ
  pub target_port : ℕ

pub data RuleError : Type 0 where
  bad_format bad_vport bad_target bad_ip bad_port : Str → RuleError
  duplicate : ℕ → Str → Str → RuleError

-- `Rule.Target`.
unfoldable pub target : Rule → Str
target r = ip4_text r.target_ip ++ b':' ∷ decimal r.target_port

-- `Rule.String`.
unfoldable pub rule_text : Rule → Str
unfolding target
rule_text r = decimal r.vport ++ b'=' ∷ target r

abbrev or_fail {ℓ} : {A : Type ℓ} → Option A → RuleError → Result RuleError A
or_fail none e = err e
or_fail (some a) e = ok a

unfoldable pub port_of : Option (Bool × ℕ) → Option ℕ
port_of none = none
port_of (some (neg, n)) = if neg || ltb n 1 || ltb 65535 n then none else some n

unfoldable pub parse_port : Str → Option ℕ
unfolding port_of
parse_port s = port_of (atoi (trim_space s))

-- `Parse`, after the text was split at the first `=`.
unfoldable pub parse_parts : Str → Str → Result RuleError Rule
parse_parts left right = do
  vport ← or_fail (parse_port (trim_space left)) (bad_vport left)
  (host, port) ← or_fail (split_host_port (trim_space right)) (bad_target right)
  ip ← or_fail (parse_ip4 (trim_space host)) (bad_ip host)
  tport ← or_fail (parse_port port) (bad_port port)
  ok (record { vport = vport; target_ip = ip; target_port = tport })

unfoldable pub parse : Str → Result RuleError Rule
unfolding parse_parts
parse s = do (left, right) ← or_fail (split_first b'=' s) (bad_format s); parse_parts left right

unfoldable pub parse_list : List Str → Result RuleError (List Rule)
parse_list [] = ok []
parse_list (s ∷ rest) = do r ← parse s; rs ← parse_list rest; ok (r ∷ rs)

-- The loop of `ParseSet`: the texts of the rules seen so far, by port.
unfoldable pub check_ports : Map ℕ Str → List Rule → Result RuleError (Unit {0})
check_ports seen [] = ok tt
check_ports seen (r ∷ rs) =
    let rest = check_ports (insert r.vport (rule_text r) seen) rs in
    elim (lookup r.vport seen) [
      | some prev ↦ err (duplicate r.vport prev (rule_text r))
      | none ↦ rest
    ]

unfoldable pub parse_set : List Str → Result RuleError (List Rule)
unfolding check_ports
parse_set list = do rules ← parse_list list; _ ← check_ports [] rules; ok rules

-- The separators of `SplitConfig`.
is_separator : ℕ → Bool
is_separator c = c == 10 || c == 13 || c == b',' || c == b';' || is_space c

flush : Str → List Str → List Str
flush [] fields = fields
flush (c ∷ s) fields = reverse (c ∷ s) ∷ fields

-- `strings.FieldsFunc`: the current field in reverse, then the fields of the rest.
unfoldable pub fields : Str → Str → List Str
unfolding is_separator flush
fields cur [] = flush cur []
fields cur (c ∷ s) =
    let split = flush cur (fields [] s) in
    let more = fields (c ∷ cur) s in if is_separator c then split else more

drop_empty : List Str → List Str
drop_empty [] = []
drop_empty (f ∷ fs) = elim (trim_space f) [ [] ↦ drop_empty fs | c ∷ s ↦ (c ∷ s) ∷ drop_empty fs ]

unfoldable pub split_config : Str → List Str
unfolding drop_empty
split_config v = drop_empty (fields [] v)

pub parse_config : Str → Result RuleError (List Rule)
parse_config v = parse_list (split_config v)
