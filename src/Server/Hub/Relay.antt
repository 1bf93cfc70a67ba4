-- ===== src/Server/Hub/Relay.antt =====
-- internal/server/server.go: `relayLoop` and `flood`. One datagram is one step; what goes out is a
-- list of datagrams with their receivers, all of which are taken to be sent.
pub mod Laws
pub mod Learned
use Prim.Native.Nat.{bit_and}
use sulink_lan.Base.{
  ℕ, zero, suc, ◌+◌, ◌%◌, ◌^◌, Bool, true, false, ◌&&◌, ◌||◌, List, [], ◌∷◌, ◌++◌, Option, none,
  some, Result, ok, err, ltb, ◌==◌, if◌then◌else◌, length,
}
use sulink_lan.Base.Eq.{nat_eq}
use sulink_lan.Base.Map.{Map, lookup}
use sulink_lan.Base.Bytes.{Bytes}
use sulink_lan.Protocol.{Addr, vnet_broadcast}
use sulink_lan.Protocol.Packet.{
  Aead, Packet, header_len, flag_data, flag_probe, flag_reply, encrypt, decrypt,
}
use sulink_lan.Server.Pool.{server_vip}
use sulink_lan.Server.Icmp.{echo_reply}
use sulink_lan.Server.Hub.{Server, Device, Counters, update, device_at}

pub record Datagram : Type 0 where
  pub to : Addr
  pub bytes : Bytes

-- `Add` on a counter of 64 bits.
abbrev pub add64 : ℕ → ℕ → ℕ
add64 a b = (a + b) % 2 ^ 64

-- The receivers of `flood`.
unfoldable pub flood_addrs : ℕ → Map ℕ Device → Map ℕ ℕ → List Addr
flood_addrs except conns [] = []
flood_addrs except conns ((vip, id) ∷ m) =
    let rest = flood_addrs except conns m in
    if vip == except then rest else elim (lookup id conns) [
      | none ↦ rest
      | some d ↦ elim d.udp_addr [ none ↦ rest | some a ↦ a ∷ rest ]
    ]

unfoldable pub send_to : List Addr → Bytes → List Datagram
send_to [] buf = []
send_to (a ∷ rest) buf = record { to = a; bytes = buf } ∷ send_to rest buf

unfoldable pub flood : Bytes → ℕ → Server → List Datagram
unfolding flood_addrs send_to
flood buf except s = send_to (flood_addrs except s.conns s.devices) buf

-- The UDP address of an online device.
unfoldable pub address_of : ℕ → Server → Option Addr
unfolding device_at
address_of vip s = elim (device_at vip s) [ none ↦ none | some (id, d) ↦ d.udp_addr ]

-- The sender's address is recorded if it is online.
unfoldable pub learn : ℕ → Addr → Server → Server
unfolding update
learn src addr s = elim (lookup src s.devices) [
  | none ↦ s
  | some id ↦ update id (λ d. record d { udp_addr = some addr }) s
]

unfoldable pub kind : ℕ → ℕ
kind flags = bit_and flags 0xF0

abbrev pub count : (Counters → Counters) → Server → Server
count f s = record s { counters = f s.counters }

-- A probe goes to its destination, or back to where it came from.
unfoldable pub relay_probe : Bytes → Addr → Packet → Server → List Datagram
relay_probe buf addr pkt s = elim (address_of pkt.dest s) [
  | some to ↦ send_to (to ∷ []) buf
  | none ↦ send_to (addr ∷ []) buf
]

-- A ping of the server is answered to the address it came from.
unfoldable pub relay_ping : Aead → Bytes → Addr → Packet → ℕ → Server → Server × List Datagram
relay_ping aead nonce addr pkt vip s = elim (echo_reply pkt.payload vip) [
  | none ↦ (s, [])
  | some reply ↦ elim (encrypt aead nonce flag_data vip pkt.source reply) [
    | err _ ↦ (s, [])
    | ok enc ↦
        (count (λ c. record c { icmp = add64 c.icmp 1 }) s, record { to = addr; bytes = enc } ∷ [])
  ]
]

unfoldable pub relay_data : Bytes → Packet → Server → Server × List Datagram
relay_data buf pkt s = elim (address_of pkt.dest s) [
  | none ↦ (s, [])
  | some to ↦ (
    count (λ c. record c { pkts = add64 c.pkts 1; bytes = add64 c.bytes (length buf) }) s,
    record { to = to; bytes = buf } ∷ [],
  )
]

-- What becomes of an authentic packet from a device that is online.
unfoldable pub dispatch : Aead → Bytes → Bytes → Addr → Packet → Server → Server × List Datagram
unfolding kind relay_probe relay_ping relay_data
dispatch aead nonce buf addr pkt s =
    let k = kind pkt.flags in
    let vip = server_vip s.leases.pool in
    if k == flag_probe || k == flag_reply
    then (s, relay_probe buf addr pkt s)
    else if k == flag_data && pkt.dest == vip
    then relay_ping aead nonce addr pkt vip s
    else if k == flag_data && pkt.dest == vnet_broadcast
    then (count (λ c. record c { flooded = add64 c.flooded 1 }) s, flood buf pkt.source s)
    else relay_data buf pkt s

-- One round of `relayLoop`: the datagram `buf` came from `addr`.
unfoldable pub relay : Aead → Bytes → Bytes → Addr → Server → Server × List Datagram
unfolding learn dispatch device_at
relay aead nonce buf addr s =
    if ltb (length buf) header_len then (s, []) else elim (decrypt aead buf) [
      | err _ ↦ (count (λ c. record c { rejected = add64 c.rejected 1 }) s, [])
      | ok pkt ↦
          let s1 = learn pkt.source addr s in
          elim (device_at pkt.source s1) [
            | none ↦ (s1, [])
            | some _ ↦ dispatch aead nonce buf addr pkt s1
          ]
    ]
