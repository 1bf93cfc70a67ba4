-- ===== src/Client/Session/Data/Delivery.antt =====
-- internal/client/client.go and internal/server/server.go: a packet on its way from the card of one
-- client through the relay to the card of another.
use sulink_lan.Base.{
  ℕ, zero, suc, ◌+◌, ◌/◌, ◌^◌, ◌≤◌, ◌<◌, ◌≡◌, ◌≢◌, refl, ap, List, [], ◌∷◌, ◌++◌, none, some, ok,
  length, take, length-append, arith,
}
use sulink_lan.Base.Eq.{nat_eq}
use sulink_lan.Base.Bytes.{Bytes, byte_at, uint32_at}
use sulink_lan.Protocol.{Addr, vnet_broadcast}
use sulink_lan.Protocol.Credentials.{Primitives}
use sulink_lan.Protocol.Packet.{
  Aead, encrypt, decrypt, decrypt-encrypt, flag_data, max_packet, max_payload, header_len,
  nonce_len, header,
}
use sulink_lan.Server.Pool.{server_vip}
use sulink_lan.Server.Hub.{Server, device_at}
use sulink_lan.Server.Hub.Relay.{relay, learn, address_of, kind, send_to}
use sulink_lan.Server.Hub.Relay.Laws.{relay_unicast}
use sulink_lan.Client.Nat.{dnat}
use sulink_lan.Client.Peers.{direct_addr}
use sulink_lan.Client.Peers.Laws.{same_addr_iff}
use sulink_lan.Client.Session.{Client, Crypto, datagram, to_card}
use sulink_lan.Client.Session.Data.{
  from_server, came_directly, note_direct, to_self, deliver, seal, unseal, on_packet, on_udp,
  send_enc, send_sealed, translate, on_card,
}

take_short {ℓ} : {A : Type ℓ} (n : ℕ) (xs : List A) → length xs ≤ n → take n xs ≡ xs
take_short zero [] h = refl
take_short zero (x ∷ xs) h = absurd (omega arith)
take_short (suc n) [] h = refl
take_short (suc n) (x ∷ xs) h = ap (◌∷◌ x) (take_short n xs (omega arith))

-- What the NAT of a client makes of a packet that is delivered to it.
abbrev pub received : ℕ → Bytes → Client → Bytes
received now payload c = elim c.nat [ none ↦ payload | some n ↦ (dnat now payload n).1 ]

length-encrypt :
    (aead : Aead) (nonce : Bytes) (flag src dst : ℕ) (payload : Bytes) {enc : Bytes}
    → length nonce ≡ nonce_len
    → encrypt aead nonce flag src dst payload ≡ ok enc
    → length enc ≡ header_len + length payload + aead.overhead
unfolding encrypt
length-encrypt aead nonce flag src dst payload n e =
    let head = header flag src dst nonce in
    let sealed = aead.seal nonce payload head in
    grind (arith, length-append head sealed, aead.length-seal nonce payload head)

encrypt_fits :
    (aead : Aead) (nonce : Bytes) (flag src dst : ℕ) (payload : Bytes)
    → length payload ≤ max_payload
    → (enc : Bytes) × (encrypt aead nonce flag src dst payload ≡ ok enc)
unfolding encrypt
encrypt_fits aead nonce flag src dst payload h =
    (header flag src dst nonce ++ aead.seal nonce payload (header flag src dst nonce), ground arith)

module _ (p : Primitives) where
  on_card_sends :
      (now : ℕ) (nonce pkt : Bytes) (c : Client) (k : Crypto) (srv : Addr) {enc : Bytes}
      → c.crypto ≡ some k
      → c.srv_udp ≡ some srv
      → 20 ≤ length pkt
      → byte_at pkt 0 / 16 ≡ 4
      → uint32_at pkt 16 / 2 ^ 24 ≡ 10
      → direct_addr (uint32_at pkt 16) c.peers ≡ none
      → encrypt
          (p.gcm k.net_key)
          nonce
          flag_data
          c.self
          (uint32_at pkt 16)
          (translate p now pkt c).0
        ≡ ok enc
      → (on_card p now nonce pkt c).1 ≡ datagram srv enc ∷ []
  unfolding on_card translate seal send_sealed send_enc
  on_card_sends now nonce pkt c k srv crypto server long v4 inside relayed e = grind arith

  on_udp_delivers :
      (now : ℕ) (nonce buf payload : Bytes) (src : ℕ) (srv : Addr) (c : Client) (k : Crypto)
      → c.crypto ≡ some k
      → c.srv_udp ≡ some srv
      → length buf ≤ max_packet
      → src ≢ c.self
      → decrypt (p.gcm k.net_key) buf
        ≡ ok (record { flags = flag_data; source = src; dest = c.self; payload = payload })
      → (on_udp p now nonce buf srv c).1 ≡ to_card (received now payload c) ∷ []
  unfolding on_udp unseal on_packet deliver note_direct came_directly from_server to_self
  on_udp_delivers now nonce buf payload src srv c k crypto server short other e =
      grind (arith, take_short max_packet buf short, same_addr_iff srv srv)

  -- A packet that the card of client `a` reads for client `b`, which is not reached directly, is sealed and
  -- sent to the server; the relay passes it on to `b` alone and unchanged, and `b` writes what the two
  -- NATs make of it to its card, nothing else. It needs an IPv4 header, a destination in 10.0.0.0/8 that
  -- is neither the server's nor the broadcast address, at most 1500 bytes, and both clients
  -- online with the network key.
  pub on_card-relay-on_udp :
      (a b : Client) (s : Server) (k l : Crypto) (srv from to : Addr) (now later : ℕ)
      (nonce nonce' nonce'' pkt : Bytes)
      → a.crypto ≡ some k
      → b.crypto ≡ some l
      → l.net_key ≡ k.net_key
      → a.srv_udp ≡ some srv
      → b.srv_udp ≡ some srv
      → (p.gcm k.net_key).overhead ≤ 16
      → length nonce ≡ nonce_len
      → 20 ≤ length pkt
      → byte_at pkt 0 / 16 ≡ 4
      → uint32_at pkt 16 ≡ b.self
      → b.self / 2 ^ 24 ≡ 10
      → b.self ≢ server_vip s.leases.pool
      → b.self ≢ vnet_broadcast
      → a.self ≢ b.self
      → a.self < 2 ^ 32
      → length (translate p now pkt a).0 ≤ max_payload
      → direct_addr b.self a.peers ≡ none
      → device_at a.self (learn a.self from s) ≢ none
      → address_of b.self (learn a.self from s) ≡ some to
      → (enc : Bytes) × ((on_card p now nonce pkt a).1 ≡ datagram srv enc ∷ [])
        × ((relay (p.gcm k.net_key) nonce' enc from s).1 ≡ record { to = to; bytes = enc } ∷ [])
        × ((on_udp p later nonce'' enc srv b).1
            ≡ to_card (received later (translate p now pkt a).0 b) ∷ [])
  unfolding send_to kind
  on_card-relay-on_udp a b s k l srv from to now later nonce nonce' nonce'' pkt ca cb same sa sb tag
        n long v4 dst inside other single apart small fits relayed online addr =
      let payload = (translate p now pkt a).0 in
      let aead = p.gcm k.net_key in
      let (enc, e) = encrypt_fits aead nonce flag_data a.self b.self payload fits in
      let size = length-encrypt aead nonce flag_data a.self b.self payload n e in
      let opened : decrypt aead enc
          ≡ ok (record { flags = flag_data; source = a.self; dest = b.self; payload = payload }) =
        ground (
          arith,
          decrypt-encrypt aead nonce flag_data a.self b.self payload n small (omega arith) fits,
          e,
        ) in
      (
        enc,
        on_card_sends now nonce pkt a k srv ca sa long v4 (rw dst inside) (rw dst relayed)
            (rw dst e),
        ground (
          arith,
          relay_unicast aead nonce' enc from s
              (record { flags = flag_data; source = a.self; dest = b.self; payload = payload })
              (omega (arith, size)) opened online refl other single,
          addr,
        ),
        on_udp_delivers later nonce'' enc payload a.self srv b l cb sb
            (omega (arith, size, tag, fits)) apart (rw same opened),
      )
