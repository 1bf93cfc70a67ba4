-- ===== src/Server/Hub/Online.antt =====
-- internal/server/server.go: who is online, after events from the start of the server.
use sulink_lan.Base.{ℕ, ◌≡◌, ◌≢◌, List, [], some, Str, arith}
use sulink_lan.Base.Eq.{nat_eq, str_eq}
use sulink_lan.Base.Map.{Map, lookup}
use sulink_lan.Base.Bytes.{Bytes}
use sulink_lan.Protocol.Packet.{Aead}
use sulink_lan.Protocol.Credentials.{Primitives}
use sulink_lan.Server.Pool.{vnet_pool}
use sulink_lan.Server.Devices.{DeviceTable}
use sulink_lan.Server.Hub.{Server}
use sulink_lan.Server.Hub.Events.{Event, run}
use sulink_lan.Server.Hub.Valid.{run-IsValid}
use sulink_lan.Server.Hub.Invariant.{vip_of, name_of, phase_of, IsValid}

-- `New`, with the table and the settings that it has loaded.
unfoldable pub new : DeviceTable → Map Str Str → Bytes → Server
new t pushed network_key = record {
  leases = record { table = t; pool = vnet_pool };
  network_key = network_key;
  conns = [];
  devices = [];
  by_id = [];
  pushed = pushed;
  counters = record { pkts = 0; bytes = 0; flooded = 0; icmp = 0; rejected = 0 };
  written = [];
  announced = [];
}

pub new-IsValid :
    (t : DeviceTable) (pushed : Map Str Str) (key : Bytes) → IsValid (new t pushed key)
unfolding new lookup vip_of phase_of
new-IsValid t pushed key = record {
  listed = record { online = λ vip id e. grind arith; named = λ n id e. grind arith };
  positive = omega arith;
  waiting = λ i c e. grind arith;
}

module _ (p : Primitives) (aead : Aead) where
  -- The server after events from its start.
  abbrev pub after : List Event → DeviceTable → Map Str Str → Bytes → Server
  after es t pushed key = run p aead es (new t pushed key)

  -- After any events from the start of the server, the device that is online under an address has
  -- this address, which is not 0, and is listed under its own name.
  pub run_online :
      (es : List Event) (t : DeviceTable) (pushed : Map Str Str) (key : Bytes) (vip id : ℕ)
      → lookup vip (after es t pushed key).devices ≡ some id
      → (vip_of id (after es t pushed key) ≡ vip)
        × (vip ≢ 0)
        × (lookup (name_of id (after es t pushed key)) (after es t pushed key).by_id ≡ some id)
  run_online es t pushed key vip id e =
      (run-IsValid p aead es (new-IsValid t pushed key)).listed.online vip id e

  -- After any events from the start of the server, two addresses that are online belong to two
  -- connections with different names.
  pub run_names_differ :
      (es : List Event) (t : DeviceTable) (pushed : Map Str Str) (key : Bytes) (v w i j : ℕ)
      → lookup v (after es t pushed key).devices ≡ some i
      → lookup w (after es t pushed key).devices ≡ some j
      → v ≢ w
      → (i ≢ j) × (name_of i (after es t pushed key) ≢ name_of j (after es t pushed key))
  run_names_differ es t pushed key v w i j e f ne = (
    λ q. grind (arith, run_online es t pushed key v i e, run_online es t pushed key w j f),
    λ q. grind (arith, run_online es t pushed key v i e, run_online es t pushed key w j f),
  )
