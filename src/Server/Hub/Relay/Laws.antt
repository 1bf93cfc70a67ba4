-- ===== src/Server/Hub/Relay/Laws.antt =====
-- internal/server/server.go: what the relay lets through, and where to.
use sulink_lan.Base.{
  ℕ, ◌≤◌, ◌≡◌, ◌≢◌, refl, inl, inr, List, [], ◌∷◌, none, some, ok, ◌==◌, length, arith, if_cases,
  option_cases, Has, All, All-map,
}
use sulink_lan.Base.Eq.{nat_eq}
use sulink_lan.Base.Map.{Map, lookup}
use sulink_lan.Base.Bytes.{Bytes}
use sulink_lan.Protocol.{Addr, vnet_broadcast}
use sulink_lan.Protocol.Packet.{Aead, Packet, header_len, flag_data, decrypt}
use sulink_lan.Server.Pool.{server_vip}
use sulink_lan.Server.Hub.{Server, Device, update, device_at}
use sulink_lan.Server.Hub.Relay.{
  Datagram, flood_addrs, send_to, flood, address_of, learn, kind, relay_data, relay, dispatch,
}

flood_addrs_every :
    (except : ℕ) (conns : Map ℕ Device) (m : Map ℕ ℕ) (vip : ℕ) {id : ℕ} {d : Device} {a : Addr}
    → lookup vip m ≡ some id
    → lookup id conns ≡ some d
    → d.udp_addr ≡ some a
    → vip ≢ except
    → Has a (flood_addrs except conns m)
unfolding lookup flood_addrs
flood_addrs_every except conns [] vip {id} e f g ne = grind arith
flood_addrs_every except conns ((v, i) ∷ m) vip {id} {d} {a} e f g ne =
    grind (arith, flood_addrs_every except conns m vip {id = id} {d = d} {a = a})

-- Address `a` belongs to a device of the map `m` under another address than `except`.
pub record Receives (except : ℕ) (conns : Map ℕ Device) (m : Map ℕ ℕ) (a : Addr) : Type 0 where
  pub vip : ℕ
  pub id : ℕ
  pub dev : Device
  pub listed : Has (vip, id) m
  pub not_sender : vip ≢ except
  pub found : lookup id conns ≡ some dev
  pub known : dev.udp_addr ≡ some a

Receives-cons :
    (except : ℕ) (conns : Map ℕ Device) (m : Map ℕ ℕ) (e : ℕ × ℕ) (a : Addr)
    → Receives except conns m a
    → Receives except conns (e ∷ m) a
Receives-cons except conns m e a r = record {
  vip = r.vip;
  id = r.id;
  dev = r.dev;
  listed = inr r.listed;
  not_sender = r.not_sender;
  found = r.found;
  known = r.known;
}

flood_addrs_sound :
    (except : ℕ) (conns : Map ℕ Device) (m : Map ℕ ℕ)
    → All (Receives except conns m) (flood_addrs except conns m)
unfolding flood_addrs
flood_addrs_sound except conns [] = tt
flood_addrs_sound except conns ((v, i) ∷ m) =
    let R = Receives except conns ((v, i) ∷ m) in
    let rest : All R (flood_addrs except conns m) =
      All-map (Receives except conns m) R (flood_addrs except conns m)
        (Receives-cons except conns m (v, i)) (flood_addrs_sound except conns m) in
    if_cases (All R) (v == except) (λ _. rest)
      λ n.
        option_cases (All R) (lookup i conns) (λ _. rest)
          λ d e.
            option_cases (All R) d.udp_addr (λ _. rest)
              λ a f. (
                record {
                  vip = v;
                  id = i;
                  dev = d;
                  listed = inl refl;
                  not_sender = ground arith;
                  found = e;
                  known = f;
                },
                rest,
              )

-- A datagram leaves the relay only for a packet that decrypts and whose source is online.
pub relay_authentic :
    (aead : Aead) (nonce buf : Bytes) (addr : Addr) (s : Server)
    → (relay aead nonce buf addr s).1 ≢ []
    → (pkt : Packet) × (decrypt aead buf ≡ ok pkt) × (lookup pkt.source s.devices ≢ none)
unfolding relay device_at learn update
relay_authentic aead nonce buf addr s out = grind arith

-- A data packet of an online device to another device goes out once, unchanged, to the address of
-- that device, and not at all if the device is not online or has no address yet.
pub relay_unicast :
    (aead : Aead) (nonce buf : Bytes) (addr : Addr) (s : Server) (pkt : Packet)
    → header_len ≤ length buf
    → decrypt aead buf ≡ ok pkt
    → device_at pkt.source (learn pkt.source addr s) ≢ none
    → kind pkt.flags ≡ flag_data
    → pkt.dest ≢ server_vip s.leases.pool
    → pkt.dest ≢ vnet_broadcast
    → (relay aead nonce buf addr s).1 ≡ elim (address_of pkt.dest (learn pkt.source addr s)) [
      | none ↦ []
      | some to ↦ send_to (to ∷ []) buf
    ]
unfolding relay dispatch relay_data send_to
relay_unicast aead nonce buf addr s pkt long open_ok online is_data other single = grind arith

Has-send_to :
    (a : Addr) (addrs : List Addr) (buf : Bytes)
    → Has a addrs
    → Has (record { to = a; bytes = buf }) (send_to addrs buf)
unfolding send_to
Has-send_to a [] buf h = grind arith
Has-send_to a (b ∷ rest) buf h = grind (arith, Has-send_to a rest buf)

All-send_to :
    (P : Addr → Type 0) (addrs : List Addr) (buf : Bytes)
    → All P addrs
    → All (λ (g : Datagram). P g.to × (g.bytes ≡ buf)) (send_to addrs buf)
unfolding send_to
All-send_to P [] buf h = tt
All-send_to P (a ∷ rest) buf h = ((h.0, refl), All-send_to P rest buf h.1)

relay-flood :
    (aead : Aead) (nonce buf : Bytes) (addr : Addr) (s : Server) (pkt : Packet)
    → header_len ≤ length buf
    → decrypt aead buf ≡ ok pkt
    → device_at pkt.source (learn pkt.source addr s) ≢ none
    → kind pkt.flags ≡ flag_data
    → pkt.dest ≡ vnet_broadcast
    → server_vip s.leases.pool ≢ vnet_broadcast
    → (relay aead nonce buf addr s).1 ≡ flood buf pkt.source (learn pkt.source addr s)
unfolding relay dispatch learn update
relay-flood aead nonce buf addr s pkt long open_ok online is_data dest own = grind arith

-- A broadcast of an online device reaches every other device that is online and has an address.
relay_broadcast_reaches :
    (aead : Aead) (nonce buf : Bytes) (addr : Addr) (s : Server) (pkt : Packet)
    → header_len ≤ length buf
    → decrypt aead buf ≡ ok pkt
    → device_at pkt.source (learn pkt.source addr s) ≢ none
    → kind pkt.flags ≡ flag_data
    → pkt.dest ≡ vnet_broadcast
    → server_vip s.leases.pool ≢ vnet_broadcast
    → (vip : ℕ) {to : Addr} → vip ≢ pkt.source
    → address_of vip (learn pkt.source addr s) ≡ some to
    → Has (record { to = to; bytes = buf }) (relay aead nonce buf addr s).1
unfolding address_of device_at flood
relay_broadcast_reaches aead nonce buf addr s pkt long open_ok online is_data dest own vip {to} ne
      e =
    grind (
      arith,
      relay-flood aead nonce buf addr s pkt long open_ok online is_data dest own,
      flood_addrs_every,
      Has-send_to,
    )

-- A broadcast of an online device goes, unchanged, to online devices other than its sender alone.
relay_broadcast_only :
    (aead : Aead) (nonce buf : Bytes) (addr : Addr) (s : Server) (pkt : Packet)
    → header_len ≤ length buf
    → decrypt aead buf ≡ ok pkt
    → device_at pkt.source (learn pkt.source addr s) ≢ none
    → kind pkt.flags ≡ flag_data
    → pkt.dest ≡ vnet_broadcast
    → server_vip s.leases.pool ≢ vnet_broadcast
    → let s1 = learn pkt.source addr s in
      All
        (λ (g : Datagram). Receives pkt.source s1.conns s1.devices g.to × (g.bytes ≡ buf))
        (relay aead nonce buf addr s).1
unfolding flood
relay_broadcast_only aead nonce buf addr s pkt long open_ok online is_data dest own =
    let s1 = learn pkt.source addr s in
    rw (relay-flood aead nonce buf addr s pkt long open_ok online is_data dest own) (
      All-send_to (Receives pkt.source s1.conns s1.devices)
        (flood_addrs pkt.source s1.conns s1.devices) buf
        (flood_addrs_sound pkt.source s1.conns s1.devices))

-- A broadcast of an online device goes, unchanged, to every other device that is online and has an
-- address, and to nobody else.
pub relay_broadcast_exact :
    (aead : Aead) (nonce buf : Bytes) (addr : Addr) (s : Server) (pkt : Packet)
    → header_len ≤ length buf
    → decrypt aead buf ≡ ok pkt
    → device_at pkt.source (learn pkt.source addr s) ≢ none
    → kind pkt.flags ≡ flag_data
    → pkt.dest ≡ vnet_broadcast
    → server_vip s.leases.pool ≢ vnet_broadcast
    → let s1 = learn pkt.source addr s in
      let sent = (relay aead nonce buf addr s).1 in
      All (λ (g : Datagram). Receives pkt.source s1.conns s1.devices g.to × (g.bytes ≡ buf)) sent
      × ((vip : ℕ) (to : Addr)
          → vip ≢ pkt.source
          → address_of vip s1 ≡ some to
          → Has (record { to = to; bytes = buf }) sent)
relay_broadcast_exact aead nonce buf addr s pkt long open_ok online is_data dest own = (
  relay_broadcast_only aead nonce buf addr s pkt long open_ok online is_data dest own,
  λ vip to.
      relay_broadcast_reaches aead nonce buf addr s pkt long open_ok online is_data dest own vip
        {to = to},
)
