-- ===== src/Client/Session/Signals/Punching.antt =====
-- internal/client/client.go: the goroutines of `startPunch`.
use sulink_lan.Base.{ℕ, ◌+◌, ◌≡◌, false, [], ◌∷◌, Option, some, or_else, arith}
use sulink_lan.Base.Eq.{nat_eq}
use sulink_lan.Base.Map.{lookup, lookup-insert, lookup-delete}
use sulink_lan.Protocol.{Addr, message, msg_hole_notify, msg_peer_offline}
use sulink_lan.Client.Session.{Client}
use sulink_lan.Client.Session.Signals.{start_punch, try_addrs, peer_offline, by_type, on_message}

-- That a peer goes offline and is announced again while its goroutine still runs starts a second one for the
-- same peer.
pub two_punchers :
    (c : Client) (vip : ℕ) (a to : Addr) (resolve : Addr → Option Addr)
    → c.no_punch ≡ false
    → or_else (lookup vip c.punching) false ≡ false
    → resolve a ≡ some to
    → let found = record (message msg_hole_notify) { peer_vip = vip; addrs = a ∷ [] } in
      let lost = record (message msg_peer_offline) { peer_vip = vip } in
      let c1 = (on_message resolve found c).0 in
      let c3 = (on_message resolve found (on_message resolve lost c1).0).0 in
      (lookup c.next_puncher c3.punchers ≡ some (record { vip = vip; left = 20 }))
      × (lookup (c.next_puncher + 1) c3.punchers ≡ some (record { vip = vip; left = 20 }))
unfolding on_message by_type try_addrs start_punch peer_offline
two_punchers c vip a to resolve on idle e = grind (arith, lookup-insert, lookup-delete)
