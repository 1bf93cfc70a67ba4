-- ===== src/Client/Session/Run/Heard.antt =====
-- internal/client/client.go: when a datagram or another event gives a peer a direct address.
use sulink_lan.Base.{
  ℕ, ◌≡◌, ◌≢◌, ◌⊎◌, inl, inr, true, ◌==◌, List, some, take, arith, Bool-cases, Option-cases, ap,
}
use sulink_lan.Base.Eq.{nat_eq}
use sulink_lan.Base.Bytes.{Bytes}
use sulink_lan.Protocol.{Addr}
use sulink_lan.Protocol.Credentials.{Primitives}
use sulink_lan.Protocol.Packet.{Packet, max_packet}
use sulink_lan.Client.Peers.Laws.{same_addr_iff, direct_addr-set_p2p}
use sulink_lan.Client.Session.{Client, Out}
use sulink_lan.Client.Session.Signals.{on_message}
use sulink_lan.Client.Session.Data.{
  from_server, came_directly, note_direct, unseal, on_packet, on_udp, on_card,
}
use sulink_lan.Client.Session.Run.{
  Running, Event, Stage, udp, card, happen, in_session, heartbeat, take_closed, take_session,
  take_pause,
}
use sulink_lan.Client.Session.Run.Kept.{
  direct, direct-by_type, punch_round_peers, connect_peers, on_card_peers, deliver_peers,
}

-- A sealed packet of the device `vip` came straight from the address `a`, which is not the server's.
pub record Heard (p : Primitives) (vip : ℕ) (a : Addr) (e : Event) (r : Running) : Type 0 where
  pub now : ℕ
  pub nonce : Bytes
  pub buf : Bytes
  pub pkt : Packet
  pub received : e ≡ udp now nonce buf a
  pub authentic : unseal p (take max_packet buf) r.client ≡ some pkt
  pub sent : pkt.source ≡ vip
  pub foreign : vip ≢ r.client.self
  pub straight : r.client.srv_udp ≢ some a

pub came_directly_iff :
    (pkt : Packet) (a : Addr) (c : Client)
    → came_directly pkt a c ≡ true
    → (pkt.source ≢ c.self) × (c.srv_udp ≢ some a)
unfolding came_directly from_server
came_directly_iff pkt a c e = grind (arith, same_addr_iff)

pub note_direct_new :
    (pkt : Packet) (from : Addr) (c : Client) (j : ℕ) {a : Addr}
    → direct j (note_direct pkt from c) ≡ some a
    → (direct j c ≡ some a) ⊎ ((came_directly pkt from c ≡ true) × (pkt.source ≡ j) × (from ≡ a))
unfolding note_direct
note_direct_new pkt from c j {a} e = elim (Bool-cases (came_directly pkt from c)) [
  | inl yes' ↦ elim (Bool-cases (pkt.source == j)) [
    | inl here ↦
        inr (yes', ground arith, ground (arith, direct_addr-set_p2p j pkt.source from c.peers))
    | inr there ↦ inl (ground (arith, direct_addr-set_p2p j pkt.source from c.peers))
  ]
  | inr no' ↦ inl (ground arith)
]

pub on_packet-direct :
    (p : Primitives) (now : ℕ) (nonce : Bytes) (pkt : Packet) (from : Addr) (c : Client) (j : ℕ)
    → (direct j (on_packet p now nonce pkt from c).0 ≡ direct j c)
      ⊎ (direct j (on_packet p now nonce pkt from c).0 ≡ direct j (note_direct pkt from c))
unfolding on_packet
on_packet-direct p now nonce pkt from c j =
    grind (arith, deliver_peers now pkt (note_direct pkt from c))

pub on_udp-direct :
    (p : Primitives) (now : ℕ) (nonce buf : Bytes) (from : Addr) (r : Running) (j : ℕ) {a : Addr}
    → direct j (on_udp p now nonce buf from r.client).0 ≡ some a
    → (direct j r.client ≡ some a) ⊎ Heard p j a (udp now nonce buf from) r
unfolding on_udp
on_udp-direct p now nonce buf from r j {a} e =
    elim (Option-cases (unseal p (take max_packet buf) r.client)) [
      | inl none' ↦ inl (ground arith)
      | inr (pkt, open') ↦
          let q : direct j (on_packet p now nonce pkt from r.client).0 ≡ some a = ground arith in
          elim (on_packet-direct p now nonce pkt from r.client j) [
            | inl same ↦ inl (ground arith)
            | inr noted ↦ elim (note_direct_new pkt from r.client j {a = a} (ground arith)) [
              | inl old ↦ inl old
              | inr new ↦ inr (heard pkt open' new.0 new.1 new.2)
            ]
          ]
    ]
  where
    heard :
        (pkt : Packet)
        → unseal p (take max_packet buf) r.client ≡ some pkt
        → came_directly pkt from r.client ≡ true
        → pkt.source ≡ j
        → from ≡ a
        → Heard p j a (udp now nonce buf from) r
    heard pkt open' straight sent here =
        let far = came_directly_iff pkt from r.client straight in
        record {
          now = now;
          nonce = nonce;
          buf = buf;
          pkt = pkt;
          received = ap (udp now nonce buf) here;
          authentic = open';
          sent = sent;
          foreign = ground arith;
          straight = ground arith;
        }

pub in_session-direct :
    (f : Client → Client × List Out) (r : Running) (j : ℕ)
    → (direct j (in_session f r).0.client ≡ direct j r.client)
      ⊎ (direct j (in_session f r).0.client ≡ direct j (f r.client).0)
unfolding in_session
in_session-direct f r j = grind arith

pub take_peers :
    (t : Stage) (r : Running)
    → ((take_closed t r).client ≡ r.client)
      × ((take_session t r).client ≡ r.client)
      × ((take_pause t r).client ≡ r.client)
unfolding take_closed take_session take_pause
take_peers _ r = ground arith

-- One event adds no direct address that is not heard from.
pub happen-direct :
    (p : Primitives) (e : Event) (r : Running) (j : ℕ) {a : Addr}
    → direct j (happen p e r).0.client ≡ some a
    → (direct j r.client ≡ some a) ⊎ Heard p j a e r
unfolding happen
happen-direct p (Event.attempt os challenge answer) r j h =
    inl (ground (arith, connect_peers p r.stage os challenge answer r))
happen-direct p (Event.message resolve m) r j h =
    elim (in_session-direct (on_message resolve m) r j) [
      | inl same ↦ inl (ground arith)
      | inr new ↦
          inl (direct-by_type m.type resolve m r.client j (unfold on_message in ground arith))
    ]
happen-direct p (udp now nonce buf from) r j {a} h =
    elim (in_session-direct (on_udp p now nonce buf from) r j) [
      | inl same ↦ inl (ground arith)
      | inr new ↦ on_udp-direct p now nonce buf from r j {a = a} (ground arith)
    ]
happen-direct p (card now nonce pkt) r j h =
    elim (in_session-direct (on_card p now nonce pkt) r j) [
      | inl same ↦ inl (ground arith)
      | inr new ↦ inl (ground (arith, on_card_peers p now nonce pkt r.client))
    ]
happen-direct p (Event.punch nonce g) r j h =
    inl (ground (arith, punch_round_peers p nonce g r.client))
happen-direct p (Event.timer vip) r j h = inl h
happen-direct p Event.tick r j h = elim (in_session-direct heartbeat r j) [
  | inl same ↦ inl (ground arith)
  | inr new ↦ inl (unfold heartbeat in ground arith)
]
happen-direct p Event.lose r j h = inl h
happen-direct p Event.close r j h = inl h
happen-direct p Event.see_closed r j h = inl (ground (arith, take_peers r.stage r))
happen-direct p Event.see_session r j h = inl (ground (arith, take_peers r.stage r))
happen-direct p Event.see_pause r j h = inl (ground (arith, take_peers r.stage r))
