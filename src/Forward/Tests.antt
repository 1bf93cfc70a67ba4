-- ===== src/Forward/Tests.antt =====
-- Rules of internal/forward/forward.go at concrete inputs.
use sulink_lan.Base.{◌≡◌, refl, some, ok, Str, codes, List, [], ◌∷◌, All}
use sulink_lan.Base.Map.{lookup, insert}
use sulink_lan.Forward.Laws.{IsRule, PortsDiffer, parse_set_lem}
use sulink_lan.Forward.{Rule, rule_text, parse, parse_port, parse_list, parse_set}
use sulink_lan.Base.Text.{trim_space, split_first, split_last, contains, atoi, decimal}
use sulink_lan.Base.Net.{parse_ip4, split_host_port, ip4_text}

parsed :
    parse (codes " 8080 = 192.168.1.5:80")
    ≡ ok (record { vport = 8080; target_ip = 3232235781; target_port = 80 })
unfolding parse trim_space split_first split_last contains atoi parse_ip4 split_host_port parse_port
parsed = refl

mapped : parse_ip4 (codes "::ffff:1.2.3.4") ≡ some 16909060
unfolding parse_ip4 contains decimal
mapped = refl

printed :
    rule_text (record { vport = 8080; target_ip = 3232235781; target_port = 80 })
    ≡ codes "8080=192.168.1.5:80"
unfolding rule_text ip4_text decimal
printed = refl

abbrev lines : List Str
lines = codes "80=10.1.1.1:8080" ∷ codes "443=10.1.1.1:8443" ∷ []

abbrev rules : List Rule
rules =
    record { vport = 80; target_ip = 167837953; target_port = 8080 }
    ∷ record { vport = 443; target_ip = 167837953; target_port = 8443 }
    ∷ []

accepted : parse_set lines ≡ ok rules
unfolding parse_set parse trim_space split_first split_last contains atoi parse_ip4 split_host_port
    parse_port parse_list lookup insert
accepted = refl

parse_set_lem_example : All IsRule rules × PortsDiffer rules
parse_set_lem_example = parse_set_lem lines accepted
