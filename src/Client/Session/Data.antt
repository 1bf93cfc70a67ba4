-- ===== src/Client/Session/Data.antt =====
-- internal/client/client.go: one datagram of `udpLoop` and one packet of `tunLoop`. Both loops run
-- only in a session, which has a cipher and the address of the server.
pub mod Delivery
use Prim.Native.Nat.{bit_and}
use sulink_lan.Base.{
  ℕ, ◌/◌, ◌^◌, Bool, true, false, not, ◌&&◌, ◌||◌, List, [], ◌∷◌, Option, none, some, Result, ok,
  err, ltb, ◌==◌, if◌then◌else◌, length, take,
}
use sulink_lan.Base.Bytes.{Bytes, byte_at, uint32_at}
use sulink_lan.Protocol.{Addr, vnet_broadcast}
use sulink_lan.Protocol.Credentials.{Primitives}
use sulink_lan.Protocol.Packet.{
  Packet, encrypt, decrypt, flag_data, flag_probe, flag_reply, max_packet,
}
use sulink_lan.Client.Nat.{Nat, dnat, snat, rewrite_dst_to_self}
use sulink_lan.Client.Peers.{set_p2p, direct_addr, same_addr}
use sulink_lan.Client.Session.{Client, Out, datagram, to_card}

unfoldable pub from_server : Addr → Client → Bool
from_server from c = elim c.srv_udp [ none ↦ false | some srv ↦ same_addr from srv ]

-- The packet comes from another device, and not by way of the server.
unfoldable pub came_directly : Packet → Addr → Client → Bool
unfolding from_server
came_directly pkt from c = not (pkt.source == c.self) && not (from_server from c)

unfoldable pub note_direct : Packet → Addr → Client → Client
unfolding came_directly
note_direct pkt from c =
    if came_directly pkt from c then record c { peers = set_p2p pkt.source from c.peers } else c

-- A packet for this device, behind the NAT.
unfoldable pub to_self : ℕ → Bytes → Client → Client × List Out
to_self now payload c = elim c.nat [
  | none ↦ (c, to_card payload ∷ [])
  | some n ↦
      let (hit, packet, n1) = dnat now payload n in
      (record c { nat = some n1 }, to_card packet ∷ [])
]

unfoldable pub broadcast_to_self : Bytes → Client → List Out
broadcast_to_self payload c =
    let (fits, packet) = rewrite_dst_to_self payload c.self in
    if fits then to_card packet ∷ [] else []

-- A data packet.
unfoldable pub deliver : ℕ → Packet → Client → Client × List Out
unfolding to_self broadcast_to_self
deliver now pkt c =
    if pkt.source == c.self
    then (c, [])
    else if pkt.dest == c.self
    then to_self now pkt.payload c
    else if pkt.dest == vnet_broadcast
    then (c, broadcast_to_self pkt.payload c)
    else (c, [])

-- `sendEnc`: to the peer itself if it is reached directly, or else to the server.
unfoldable pub send_enc : Bytes → ℕ → Client → List Out
send_enc enc dst c = elim c.srv_udp [
  | none ↦ []
  | some srv ↦ elim (direct_addr dst c.peers) [
    | none ↦ datagram srv enc ∷ []
    | some to ↦ datagram to enc ∷ []
  ]
]

-- The destinations that the card's packets may have: 10.0.0.0/8.
abbrev pub in_vnet : ℕ → Bool
in_vnet dst = dst / 2 ^ 24 == 10

module _ (p : Primitives) where
  -- `Encrypt` with the cipher of the session.
  unfoldable pub seal : Bytes → ℕ → ℕ → Bytes → Client → Option Bytes
  seal nonce flag dst payload c = elim c.crypto [
    | none ↦ none
    | some k ↦ elim (encrypt (p.gcm k.net_key) nonce flag c.self dst payload) [
      | err _ ↦ none
      | ok enc ↦ some enc
    ]
  ]

  unfoldable pub unseal : Bytes → Client → Option Packet
  unseal buf c = elim c.crypto [
    | none ↦ none
    | some k ↦ elim (decrypt (p.gcm k.net_key) buf) [ err _ ↦ none | ok pkt ↦ some pkt ]
  ]

  -- The answer to a probe.
  unfoldable pub answer_probe : Bytes → Packet → Addr → Client → List Out
  unfolding seal came_directly
  answer_probe nonce pkt from c =
      if came_directly pkt from c
      then elim (seal nonce flag_reply pkt.source [] c) [
        | none ↦ []
        | some enc ↦ datagram from enc ∷ []
      ]
      else []

  -- An authentic packet, by its flag.
  unfoldable pub on_packet : ℕ → Bytes → Packet → Addr → Client → Client × List Out
  unfolding note_direct answer_probe deliver
  on_packet now nonce pkt from c =
      let k = bit_and pkt.flags 0xF0 in
      if k == flag_probe
      then (note_direct pkt from c, answer_probe nonce pkt from c)
      else if k == flag_reply
      then (note_direct pkt from c, [])
      else if k == flag_data
      then deliver now pkt (note_direct pkt from c)
      else (c, [])

  -- One round of `udpLoop`: the datagram `buf` came from `from`.
  unfoldable pub on_udp : ℕ → Bytes → Bytes → Addr → Client → Client × List Out
  unfolding unseal on_packet
  on_udp now nonce buf from c = elim (unseal (take max_packet buf) c) [
    | none ↦ (c, [])
    | some pkt ↦ on_packet now nonce pkt from c
  ]

  unfoldable pub send_sealed : Option Bytes → ℕ → Client → List Out
  unfolding send_enc
  send_sealed none dst c = []
  send_sealed (some enc) dst c = send_enc enc dst c

  -- The packet of the card with what the NAT makes of it.
  unfoldable pub translate : ℕ → Bytes → Client → Bytes × Client
  translate now pkt c = elim c.nat [
    | none ↦ (pkt, c)
    | some n ↦ let (hit, packet, n1) = snat now pkt n in (packet, record c { nat = some n1 })
  ]

  -- One round of `tunLoop`.
  unfoldable pub on_card : ℕ → Bytes → Bytes → Client → Client × List Out
  unfolding seal send_sealed translate
  on_card now nonce pkt c =
      if ltb (length pkt) 20 || not (byte_at pkt 0 / 16 == 4)
      then (c, [])
      else (let dst = uint32_at pkt 16 in
          if not (in_vnet dst)
          then (c, [])
          else (let (packet, c1) = translate now pkt c in
              (c1, send_sealed (seal nonce flag_data dst packet c1) dst c1)))
