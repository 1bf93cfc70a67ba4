-- ===== src/Client/Peers/Laws.antt =====
-- internal/client/client.go: what the functions on the map of the peers do to the direct addresses.
use sulink_lan.Base.{ℕ, ◌≡◌, ◌↔◌, true, none, some, ◌==◌, if◌then◌else◌, Str, arith}
use sulink_lan.Base.Eq.{nat_eq, ==ₛ_iff}
use sulink_lan.Base.Map.{lookup-insert, lookup-delete, delete}
use sulink_lan.Protocol.{Addr}
use sulink_lan.Client.Peers.{Peers, ensure_peer, set_candidate, set_p2p, direct_addr, same_addr}

pub same_addr_iff : (a b : Addr) → (same_addr a b ≡ true) ↔ (a ≡ b)
unfolding same_addr
same_addr_iff a b = grind (arith, ==ₛ_iff a.ip b.ip)

pub direct_addr-ensure_peer :
    (j vip : ℕ) (name : Str) (m : Peers) → direct_addr j (ensure_peer vip name m) ≡ direct_addr j m
unfolding direct_addr ensure_peer
direct_addr-ensure_peer j vip name m = grind (arith, lookup-insert)

pub direct_addr-set_candidate :
    (j vip : ℕ) (a : Addr) (m : Peers) → direct_addr j (set_candidate vip a m) ≡ direct_addr j m
unfolding direct_addr set_candidate
direct_addr-set_candidate j vip a m = grind (arith, lookup-insert)

pub direct_addr-set_p2p :
    (j vip : ℕ) (a : Addr) (m : Peers)
    → direct_addr j (set_p2p vip a m) ≡ (if vip == j then some a else direct_addr j m)
unfolding direct_addr set_p2p
direct_addr-set_p2p j vip a m = grind (arith, lookup-insert)

pub direct_addr-delete :
    (j vip : ℕ) (m : Peers)
    → direct_addr j (delete vip m) ≡ (if vip == j then none else direct_addr j m)
unfolding direct_addr
direct_addr-delete j vip m = grind (arith, lookup-delete)
