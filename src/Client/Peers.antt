-- ===== src/Client/Peers.antt =====
-- internal/client/client.go: the map of the peers, `peers`, whose functions run under `peersMu`.
pub mod Laws
use sulink_lan.Base.{
  ℕ, ◌+◌, Bool, true, false, ◌&&◌, [], ◌∷◌, Option, none, some, ◌==◌, if◌then◌else◌, Str, ◌==ₛ◌,
}
use sulink_lan.Base.Eq.{nat_eq}
use sulink_lan.Base.Map.{Map, lookup, insert}
use sulink_lan.Protocol.{Addr}

-- `peer`.
pub record PeerState : Type 0 where
  pub vip : ℕ
  pub name : Str
  pub addr : Option Addr
  pub cand : Option Addr
  pub p2p : Bool

abbrev pub Peers : Type 0
Peers = Map ℕ PeerState

-- `&peer{vip: vip, name: name}`.
abbrev pub new_peer : ℕ → Str → PeerState
new_peer vip name = record { vip = vip; name = name; addr = none; cand = none; p2p = false }

-- The peer of an address, or the new one that the code puts there.
unfoldable pub peer_of : ℕ → Str → Peers → PeerState
peer_of vip name m = elim (lookup vip m) [ none ↦ new_peer vip name | some p ↦ p ]

unfoldable pub ensure_peer : ℕ → Str → Peers → Peers
unfolding peer_of
ensure_peer vip name m =
    let p = peer_of vip name m in
    insert vip (record p { name = if name ==ₛ [] then p.name else name }) m

unfoldable pub set_candidate : ℕ → Addr → Peers → Peers
unfolding peer_of
set_candidate vip addr m = insert vip (record (peer_of vip [] m) { cand = some addr }) m

-- `setP2P`, whose callers all have an address.
unfoldable pub set_p2p : ℕ → Addr → Peers → Peers
unfolding peer_of
set_p2p vip addr m = insert vip (record (peer_of vip [] m) { addr = some addr; p2p = true }) m

unfoldable pub is_p2p : ℕ → Peers → Bool
is_p2p vip m = elim (lookup vip m) [ none ↦ false | some p ↦ p.p2p ]

-- The address that `sendEnc` prefers to the server's.
unfoldable pub direct_addr : ℕ → Peers → Option Addr
direct_addr vip m = elim (lookup vip m) [ none ↦ none | some p ↦ if p.p2p then p.addr else none ]

-- `PeerStats`: the peers that are reached directly, and all.
pub peer_stats : Peers → ℕ × ℕ
peer_stats [] = (0, 0)
peer_stats ((vip, p) ∷ m) =
    let (direct, total) = peer_stats m in ((if p.p2p then direct + 1 else direct), total + 1)

-- `sameUDPAddr`.
unfoldable pub same_addr : Addr → Addr → Bool
same_addr a b = a.port == b.port && a.ip ==ₛ b.ip
