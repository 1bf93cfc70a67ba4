-- ===== src/Client/Session/Samples.antt =====
-- Two clients in a session, their server, and what passes between them.
use sulink_lan.Base.{ℕ, ◌+◌, ◌*◌, ◌^◌, true, false, [], ◌∷◌, ◌++◌, none, some, codes}
use sulink_lan.Base.Eq.{nat_eq, str_eq}
use sulink_lan.Base.Bytes.{Bytes}
use sulink_lan.Protocol.{Addr, Message, message, msg_challenge, msg_welcome}
use sulink_lan.Protocol.Packet.{flag_probe, header}
use sulink_lan.Protocol.Samples.{tag}
use sulink_lan.Server.Pool.{vnet_pool}
use sulink_lan.Server.Devices.{Disk, DeviceTable}
use sulink_lan.Server.Hub.{Server, Device, serves}
use sulink_lan.Client.Nat.{new_nat}
use sulink_lan.Client.Session.{Config, Crypto, Client}
use sulink_lan.Client.Session.Connect.{Setup}
use sulink_lan.Client.Session.Run.{Event, attempt, new_client}

abbrev pub nonce : Bytes
nonce = 1 ∷ 2 ∷ 3 ∷ 4 ∷ 5 ∷ 6 ∷ 7 ∷ 8 ∷ 9 ∷ 10 ∷ 11 ∷ 12 ∷ []

abbrev pub key : Bytes
key = tag ++ tag

abbrev pub keys : Crypto
keys = record { net_key = key; auth_key = key }

abbrev pub cfg : Config
cfg = record {
  server = codes "1.2.3.4";
  name = codes "laptop";
  no_punch = false;
  device_id = codes "ABC";
  device_key = codes "00";
  network_key = codes "00";
  hwid = [];
  persists = true;
}

abbrev pub vip_a : ℕ
vip_a = 10 * 2 ^ 24 + 2

abbrev pub vip_b : ℕ
vip_b = 10 * 2 ^ 24 + 3

abbrev pub at_server : Addr
at_server = record { ip = codes "1.2.3.4"; port = 9000 }

abbrev pub at_a : Addr
at_a = record { ip = codes "5.6.7.8"; port = 1000 }

abbrev pub at_b : Addr
at_b = record { ip = codes "9.9.9.9"; port = 2000 }

abbrev pub fresh : Client
fresh = new_client cfg (codes "machine") (some keys)

-- A client in a session.
abbrev pub online : ℕ → Client
online vip = record fresh { self = vip; srv_udp = some at_server; nat = some (new_nat vip []) }

abbrev pub os : Setup
os = record {
  dials = true;
  writes = true;
  listens = true;
  resolve = λ host port. some at_server;
  card_opens = true;
  configures = λ ip. true;
  nonce = nonce;
  probe_sent = true;
}

abbrev pub challenge : Message
challenge = record (message msg_challenge) { nonce = nonce }

abbrev pub welcome_a : Message
welcome_a = record (message msg_welcome) { vip = vip_a }

abbrev pub enter_a : Event
enter_a = attempt os (some challenge) (λ m. some welcome_a)

-- A packet of IP from the first client to the second.
abbrev pub packet : Bytes
packet = 0x45 ∷ 0 ∷ 0 ∷ 20 ∷ 0 ∷ 1 ∷ 0 ∷ 0 ∷ 64 ∷ 1 ∷ 0 ∷ 0 ∷ 10 ∷ 0 ∷ 0 ∷ 2 ∷ 10 ∷ 0 ∷ 0 ∷ 3 ∷ []

-- A sealed probe of the second client.
abbrev pub probe_b : Bytes
probe_b = header flag_probe vip_b vip_a nonce ++ tag

-- The server with both devices online.
abbrev pub device : ℕ → Addr → Device
device vip a = record {
  name = codes "laptop";
  vip = vip;
  hwid = [];
  udp_addr = some a;
  online_at = 0;
  queue = [];
  queue_open = true;
  writer_done = false;
  conn_closed = false;
  phase = serves;
}

abbrev pub disk : Disk
disk = record { file = none; writable = true }

abbrev pub server_with : DeviceTable → Server
server_with t = record {
  leases = record { table = t; pool = vnet_pool };
  network_key = key;
  conns = (1, device vip_a at_a) ∷ (2, device vip_b at_b) ∷ [];
  devices = (vip_a, 1) ∷ (vip_b, 2) ∷ [];
  by_id = [];
  pushed = [];
  counters = record { pkts = 0; bytes = 0; flooded = 0; icmp = 0; rejected = 0 };
  written = [];
  announced = [];
}

abbrev pub server : Server
server =
    server_with (record { path = []; by_hwid = []; by_vip = []; by_device_id = []; disk = disk })
