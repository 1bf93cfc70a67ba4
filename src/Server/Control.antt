-- ===== src/Server/Control.antt =====
-- internal/server/control.go and settings.go: the actions of the management page on the server, and
-- the file of the global configuration. Loops over a map go through its entries in list order.
use sulink_lan.Base.{
  ℕ, ◌-◌, ◌/◌, ◌^◌, Bool, true, false, List, [], ◌∷◌, Option, none, some, Result, ok, err, ◌==◌,
  if◌then◌else◌, Str, ◌==ₛ◌, length, or_else,
}
use sulink_lan.Base.Eq.{nat_eq, str_eq}
use sulink_lan.Base.Map.{Map, keys, lookup, insert, delete}
use sulink_lan.Base.Text.{trim_space}
use sulink_lan.Base.Sort.{str_ltb, sort_slice}
use sulink_lan.Protocol.{Message, message, Addr, msg_config_push, msg_forward_push, ip4, ip4_string}
use sulink_lan.Server.Devices.{DeviceError, forward_of, set_forward, block, unblock}
use sulink_lan.Server.Devices.Leasing.{set_ip}
use sulink_lan.Server.Devices.File.{LeaseInfo, snapshot}
use sulink_lan.Server.Hub.{Server, Device, Counters, send_msg, send_all, close_conn, ids_of}

-- One entry of the loop of `Push`.
unfoldable pub merge_one : Str → Str → Map Str Str → Map Str Str
merge_one k v pushed =
    let key = trim_space k in
    if key ==ₛ []
    then pushed
    else if trim_space v ==ₛ []
    then delete key pushed
    else insert key v pushed

unfoldable pub merge : Map Str Str → Map Str Str → Map Str Str
unfolding merge_one
merge [] pushed = pushed
merge ((k, v) ∷ cfg) pushed = merge cfg (merge_one k v pushed)

-- The number of receivers, and the state.
unfoldable pub broadcast : Message → Server → ℕ × Server
broadcast m s = (length s.devices, send_all m (ids_of s.devices) s)

-- The settings file: `none` if there is none. `path` is the file's name, and `writable` tells whether
-- a write succeeds.
pub record Settings : Type 0 where
  pub path : Str
  pub writable : Bool
  pub file : Option (Map Str Str)

unfoldable pub save_settings : Settings → Map Str Str → Settings
save_settings f cfg =
    if f.path ==ₛ [] then f else if f.writable then record f { file = some cfg } else f

-- One entry of the loop of `loadSettings`.
unfoldable pub load_entry : Str → Str → Map Str Str → Map Str Str
load_entry k v out =
    let key = trim_space k in
    if key ==ₛ [] then out else if trim_space v ==ₛ [] then out else insert key v out

unfoldable pub load_entries : Map Str Str → Map Str Str → Map Str Str
unfolding load_entry
load_entries [] out = out
load_entries ((k, v) ∷ cfg) out = load_entries cfg (load_entry k v out)

-- A file that cannot be read counts as none.
unfoldable pub load_settings : Settings → Map Str Str
unfolding load_entries
load_settings f = if f.path ==ₛ [] then [] else load_entries (or_else f.file []) []

unfoldable pub sorted_keys : Map Str Str → List Str
sorted_keys m = sort_slice str_ltb (keys m)

-- `Push`: the number of devices that the new configuration is sent to, the file and the state.
unfoldable pub push : Map Str Str → Settings → Server → ℕ × Settings × Server
unfolding merge broadcast save_settings
push cfg f s =
    let merged = merge cfg s.pushed in
    let (n, s1) =
      broadcast (record (message msg_config_push) { config = merged })
        (record s { pushed = merged }) in
    (n, save_settings f merged, s1)

unfoldable pub find_in : Str → Map ℕ Device → Map ℕ ℕ → Option ℕ
find_in h conns [] = none
find_in h conns ((vip, id) ∷ m) =
    let rest = find_in h conns m in
    elim (lookup id conns) [ none ↦ rest | some d ↦ if d.hwid ==ₛ h then some id else rest ]

unfoldable pub find_by_hwid : Str → Server → Option ℕ
unfolding find_in
find_by_hwid h s = if h ==ₛ [] then none else find_in h s.conns s.devices

-- Whether the rules went to an online device.
unfoldable pub set_device_forward : Str → List Str → Server → Result DeviceError Bool × Server
unfolding find_by_hwid
set_device_forward h rules s =
    let (done, t) = set_forward s.leases.table h rules in
    let s1 = record s { leases = record s.leases { table = t } } in
    elim done [
      | err e ↦ (err e, s1)
      | ok _ ↦ elim (find_by_hwid h s1) [
        | none ↦ (ok false, s1)
        | some id ↦
            (ok true, send_msg (record (message msg_forward_push) { rules = forward_of t h }) id s1)
      ]
    ]

-- An address that cannot be read, or the table's error.
pub data SetIpError : Type 0 where
  bad_address : Str → SetIpError
  refused : DeviceError → SetIpError

-- Whether the device was online and its connection was closed.
unfoldable pub set_device_ip : Str → Str → Server → Result SetIpError Bool × Server
unfolding find_by_hwid
set_device_ip h text s = elim (ip4 text) [
  | none ↦ (err (bad_address text), s)
  | some vip ↦
      let (done, l) = set_ip h vip s.leases in
      let s1 = record s { leases = l } in
      elim done [
        | err e ↦ (err (refused e), s1)
        | ok _ ↦ elim (find_by_hwid h s1) [
          | none ↦ (ok false, s1)
          | some id ↦ (ok true, close_conn id s1)
        ]
      ]
]

unfoldable pub close_found : Option ℕ → Server → Server
close_found none s = s
close_found (some id) s = close_conn id s

unfoldable pub revoke_device_credential : Str → Server → Bool × Server
unfolding find_by_hwid close_found
revoke_device_credential h s =
    let (done, changed) = block s.leases.table h in
    let s1 = record s { leases = record s.leases { table = done } } in
    if changed then (true, close_found (find_by_hwid h s1) s1) else (false, s1)

unfoldable pub unblock_device : Str → Server → Bool × Server
unblock_device h s =
    let (t, changed) = unblock s.leases.table h in
    (changed, record s { leases = record s.leases { table = t } })

-- `DeviceInfo`; the UDP address is empty before the first packet.
pub record DeviceInfo : Type 0 where
  pub name : Str
  pub hwid : Str
  pub vip : Str
  pub udp_addr : Option Addr
  pub online_secs : ℕ

unfoldable pub device_infos : ℕ → Map ℕ Device → Map ℕ ℕ → List DeviceInfo
device_infos now conns [] = []
device_infos now conns ((vip, id) ∷ m) =
    let rest = device_infos now conns m in
    elim (lookup id conns) [
      | none ↦ rest
      | some d ↦
          record {
            name = d.name;
            hwid = d.hwid;
            vip = ip4_string d.vip;
            udp_addr = d.udp_addr;
            online_secs = (now - d.online_at) / 10 ^ 9;
          }
          ∷ rest
    ]

-- Whether the address is the `VIP` of a device of the map.
unfoldable pub online_vip : Map ℕ Device → Map ℕ ℕ → ℕ → Bool
online_vip conns [] vip = false
online_vip conns ((v, id) ∷ m) vip =
    let rest = online_vip conns m vip in
    elim (lookup id conns) [ none ↦ rest | some d ↦ if d.vip == vip then true else rest ]

-- What the management page shows, without the listening addresses and the uptime.
pub record Snapshot : Type 0 where
  pub devices : List DeviceInfo
  pub leases : List LeaseInfo
  pub pushed : Map Str Str
  pub stats : Counters

unfoldable pub server_snapshot : ℕ → Server → Snapshot
unfolding device_infos online_vip
server_snapshot now s = record {
  devices = device_infos now s.conns s.devices;
  leases = snapshot s.leases.table now (online_vip s.conns s.devices);
  pushed = s.pushed;
  stats = s.counters;
}
