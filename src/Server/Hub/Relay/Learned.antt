-- ===== src/Server/Hub/Relay/Learned.antt =====
-- internal/server/server.go: how `relayLoop` learns the addresses that it sends to.
use sulink_lan.Base.{
  ℕ, ◌≤◌, ◌≡◌, ◌≢◌, ◌∙◌, refl, All-map, List, [], ◌∷◌, Option, none, some, ok, length, arith, All,
}
use sulink_lan.Base.Eq.{nat_eq}
use sulink_lan.Base.Map.{lookup, lookup-insert}
use sulink_lan.Base.Bytes.{Bytes}
use sulink_lan.Protocol.{Addr, vnet_broadcast}
use sulink_lan.Protocol.Packet.{Aead, Packet, header_len, flag_data, decrypt}
use sulink_lan.Server.Pool.{server_vip}
use sulink_lan.Server.Hub.{Server, update, device_at}
use sulink_lan.Server.Hub.Relay.{
  address_of, learn, kind, relay_data, relay_ping, relay, dispatch, send_to,
}
use sulink_lan.Server.Hub.Relay.Laws.{relay_unicast}

-- A datagram that arrives, with the nonce of a reply to it.
pub record Round : Type 0 where
  pub nonce : Bytes
  pub buf : Bytes
  pub from : Addr

-- Rounds of `relayLoop`.
unfoldable pub rounds : Aead → List Round → Server → Server
rounds aead [] s = s
rounds aead (x ∷ xs) s = rounds aead xs (relay aead x.nonce x.buf x.from s).0

-- The datagram is not an authentic one of the device with number `id`.
abbrev pub NotFrom : Aead → ℕ → Server → Round → Type 0
NotFrom aead id s x = (q : Packet) → decrypt aead x.buf ≡ ok q → lookup q.source s.devices ≢ some id

-- The address of a device.
abbrev udp_of : ℕ → Server → Option Addr
udp_of id s = elim (lookup id s.conns) [ none ↦ none | some d ↦ d.udp_addr ]

-- What rounds without a datagram of device `id` leave as it is.
record Goes (id : ℕ) (s s' : Server) : Type 0 where
  devices : s'.devices ≡ s.devices
  leases : s'.leases ≡ s.leases
  here : (i : ℕ) → lookup i s.conns ≢ none → lookup i s'.conns ≢ none
  udp : udp_of id s' ≡ udp_of id s

dispatch_keeps :
    (aead : Aead) (nonce buf : Bytes) (addr : Addr) (pkt : Packet) (s : Server)
    → let s' = (dispatch aead nonce buf addr pkt s).0 in
      (s'.devices ≡ s.devices) × (s'.leases ≡ s.leases) × (s'.conns ≡ s.conns)
unfolding dispatch relay_ping relay_data
dispatch_keeps aead nonce buf addr pkt s = grind arith

learn_keeps :
    (src : ℕ) (addr : Addr) (s : Server)
    → ((learn src addr s).devices ≡ s.devices) × ((learn src addr s).leases ≡ s.leases)
unfolding learn update
learn_keeps src addr s = grind arith

learn_here :
    (src : ℕ) (addr : Addr) (s : Server) (i : ℕ)
    → lookup i s.conns ≢ none
    → lookup i (learn src addr s).conns ≢ none
unfolding learn update
learn_here src addr s i h = grind (arith, lookup-insert)

learn_other :
    (src : ℕ) (addr : Addr) (s : Server) (id : ℕ)
    → lookup src s.devices ≢ some id
    → udp_of id (learn src addr s) ≡ udp_of id s
unfolding learn update
learn_other src addr s id h = grind (arith, lookup-insert)

learn_own :
    (src : ℕ) (addr : Addr) (s : Server) (id : ℕ)
    → lookup src s.devices ≡ some id
    → lookup id s.conns ≢ none
    → udp_of id (learn src addr s) ≡ some addr
unfolding learn update
learn_own src addr s id e h = grind (arith, lookup-insert)

relay_keeps :
    (aead : Aead) (nonce buf : Bytes) (addr : Addr) (s : Server)
    → let s' = (relay aead nonce buf addr s).0 in (s'.devices ≡ s.devices) × (s'.leases ≡ s.leases)
unfolding relay
relay_keeps aead nonce buf addr s = grind (arith, learn_keeps, dispatch_keeps aead nonce buf addr)

relay_here :
    (aead : Aead) (nonce buf : Bytes) (addr : Addr) (s : Server) (i : ℕ)
    → lookup i s.conns ≢ none
    → lookup i (relay aead nonce buf addr s).0.conns ≢ none
unfolding relay
relay_here aead nonce buf addr s i h = grind (arith, learn_here, dispatch_keeps aead nonce buf addr)

relay_other :
    (aead : Aead) (nonce buf : Bytes) (addr : Addr) (s : Server) (id : ℕ)
    → ((q : Packet) → decrypt aead buf ≡ ok q → lookup q.source s.devices ≢ some id)
    → udp_of id (relay aead nonce buf addr s).0 ≡ udp_of id s
unfolding relay
relay_other aead nonce buf addr s id other =
    grind (arith, learn_other, dispatch_keeps aead nonce buf addr)

relay_own :
    (aead : Aead) (nonce buf : Bytes) (addr : Addr) (s : Server) (id : ℕ) (pkt : Packet)
    → header_len ≤ length buf
    → decrypt aead buf ≡ ok pkt
    → lookup pkt.source s.devices ≡ some id
    → lookup id s.conns ≢ none
    → udp_of id (relay aead nonce buf addr s).0 ≡ some addr
unfolding relay
relay_own aead nonce buf addr s id pkt long open_ok listed here =
    let own = learn_own pkt.source addr s id listed here in
    grind (arith, own, dispatch_keeps aead nonce buf addr pkt)

rounds-Goes :
    (aead : Aead) (xs : List Round) (s : Server) (id : ℕ)
    → All (NotFrom aead id s) xs
    → Goes id s (rounds aead xs s)
unfolding rounds
rounds-Goes aead [] s id a = record { devices = refl; leases = refl; here = λ i h. h; udp = refl }
rounds-Goes aead (x ∷ xs) s id a =
    let s1 = (relay aead x.nonce x.buf x.from s).0 in
    let (same, kept) = relay_keeps aead x.nonce x.buf x.from s in
    let later : All (NotFrom aead id s1) xs =
      All-map (NotFrom aead id s) (NotFrom aead id s1) xs (λ y f q e. rw same (f q e)) a.1 in
    let rest = rounds-Goes aead xs s1 id later in
    record {
      devices = rest.devices ∙ same;
      leases = rest.leases ∙ kept;
      here = λ i h. rest.here i (relay_here aead x.nonce x.buf x.from s i h);
      udp = rest.udp ∙ relay_other aead x.nonce x.buf x.from s id a.0;
    }

-- A device that is in the maps, under its address and under its number.
abbrev Online : ℕ → ℕ → Server → Type 0
Online vip id s = (lookup vip s.devices ≡ some id) × (lookup id s.conns ≢ none)

sends :
    (aead : Aead) (nonce buf : Bytes) (addr to : Addr) (s : Server) (pkt : Packet) (from id : ℕ)
    → header_len ≤ length buf
    → decrypt aead buf ≡ ok pkt
    → Online pkt.source from s
    → kind pkt.flags ≡ flag_data
    → pkt.dest ≢ server_vip s.leases.pool
    → pkt.dest ≢ vnet_broadcast
    → lookup pkt.dest s.devices ≡ some id
    → from ≢ id
    → udp_of id s ≡ some to
    → (relay aead nonce buf addr s).1 ≡ record { to = to; bytes = buf } ∷ []
unfolding address_of device_at send_to
sends aead nonce buf addr to s pkt from id long open_ok online is_data other single dest ne at =
    let s1 = learn pkt.source addr s in
    let known = learn_other pkt.source addr s id (λ e. ground (arith, e, online, ne)) in
    let keeps = learn_keeps pkt.source addr s in
    let there = learn_here pkt.source addr s from online.1 in
    let source : device_at pkt.source s1 ≢ none = grind (arith, keeps, online, there) in
    let dest_at : address_of pkt.dest s1 ≡ some to = grind (arith, keeps, dest, known, at) in
    relay_unicast aead nonce buf addr s pkt long open_ok source is_data other single
    ∙ ground (arith, dest_at)

-- The relay sends a data packet to where its destination was last heard: device B sends an authentic
-- datagram of any kind from address `b`; then come any datagrams, of which none is an authentic one of B; then
-- device A sends a data packet to B, which goes out once, unchanged, to `b`. A and B are online and two
-- connections, B's address is neither the server's nor the broadcast address, and nobody joins or leaves.
pub relay_learned :
    (aead : Aead) (hello data' : Round) (between : List Round) (s : Server) (pb pa : Packet)
    (id_b id_a : ℕ)
    → header_len ≤ length hello.buf
    → decrypt aead hello.buf ≡ ok pb
    → Online pb.source id_b s
    → All (NotFrom aead id_b s) between
    → header_len ≤ length data'.buf
    → decrypt aead data'.buf ≡ ok pa
    → Online pa.source id_a s
    → id_a ≢ id_b
    → kind pa.flags ≡ flag_data
    → pa.dest ≡ pb.source
    → pa.dest ≢ server_vip s.leases.pool
    → pa.dest ≢ vnet_broadcast
    → let s' = rounds aead (hello ∷ between) s in
      (relay aead data'.nonce data'.buf data'.from s').1
      ≡ record { to = hello.from; bytes = data'.buf } ∷ []
unfolding rounds
relay_learned aead hello data' between s pb pa id_b id_a long_b open_b on_b quiet long_a open_a on_a
      ne is_data to_b other single =
    let s1 = (relay aead hello.nonce hello.buf hello.from s).0 in
    let (same, kept) = relay_keeps aead hello.nonce hello.buf hello.from s in
    let own =
      relay_own aead hello.nonce hello.buf hello.from s id_b pb long_b open_b on_b.0 on_b.1 in
    let later : All (NotFrom aead id_b s1) between =
      All-map (NotFrom aead id_b s) (NotFrom aead id_b s1) between (λ y f q e. rw same (f q e))
        quiet in
    let goes = rounds-Goes aead between s1 id_b later in
    let s2 = rounds aead between s1 in
    let devices : s2.devices ≡ s.devices = goes.devices ∙ same in
    let leases : s2.leases ≡ s.leases = goes.leases ∙ kept in
    let here = relay_here aead hello.nonce hello.buf hello.from s id_a on_a.1 in
    sends aead data'.nonce data'.buf data'.from hello.from s2 pa id_a id_b long_a open_a
      (rw devices on_a.0, goes.here id_a here) is_data (rw leases other) single
      (rw (devices, to_b) on_b.0) ne (goes.udp ∙ own)
