-- ===== src/Server/Devices/File.antt =====
-- internal/server/devices.go: `NewDeviceTable`, `Snapshot` and `Len`; internal/server/store.go:
-- the outcome of `readJSON`.
use sulink_lan.Base.{
  ℕ, ◌-◌, ◌/◌, ◌^◌, Bool, true, false, not, List, [], ◌∷◌, Option, none, some, ltb, ◌==◌,
  if◌then◌else◌, length, Str, ◌==ₛ◌,
}
use sulink_lan.Base.Eq.{nat_eq, str_eq}
use sulink_lan.Base.Map.{Map, lookup, insert}
use sulink_lan.Base.Sort.{str_ltb, sort_slice}
use sulink_lan.Base.Net.{ip4_text, parse_ip4}
use sulink_lan.Server.Devices.{DeviceRecord, DeviceJson, DeviceFile, Disk, DeviceTable}

-- `readJSON`: no file, a file that is not read or parsed, or its content.
pub data ReadOutcome : Type 0 where
  missing failed : ReadOutcome
  loaded : DeviceFile → ReadOutcome

unfoldable pub empty_table : Str → Disk → DeviceTable
empty_table path disk = record {
  path = path;
  by_hwid = [];
  by_vip = [];
  by_device_id = [];
  disk = disk;
}

unfoldable pub from_json : DeviceJson → ℕ → DeviceRecord
from_json d vip = record {
  hwid = d.hwid;
  name = d.name;
  vip = vip;
  expire_at = d.expire_at;
  forward = d.forward;
  device_id = d.device_id;
  device_key = d.device_key;
  blocked = d.blocked;
}

-- A credential index that is there already stays.
unfoldable pub index_id : Str → Str → Map Str Str → Map Str Str
index_id device_id hwid m =
    if device_id ==ₛ []
    then m
    else elim (lookup device_id m) [ some _ ↦ m | none ↦ insert device_id hwid m ]

-- The address of an entry: `none` if there is none or it does not parse.
unfoldable pub json_vip : DeviceJson → Option ℕ
json_vip d = if d.vip ==ₛ [] then none else parse_ip4 d.vip

-- One round of the loop of `NewDeviceTable`.
unfoldable pub load_one : DeviceJson → DeviceTable → DeviceTable
unfolding from_json index_id json_vip
load_one d t =
    if d.hwid ==ₛ []
    then t
    else (let t' = record t { by_device_id = index_id d.device_id d.hwid t.by_device_id } in
        elim (json_vip d) [
          | none ↦ record t' { by_hwid = insert d.hwid (from_json d 0) t.by_hwid }
          | some vip ↦ record t' {
            by_vip = insert vip d.hwid t.by_vip;
            by_hwid = insert d.hwid (from_json d vip) t.by_hwid;
          }
        ])

unfoldable pub load_all : List DeviceJson → DeviceTable → DeviceTable
unfolding load_one
load_all [] t = t
load_all (d ∷ ds) t = load_all ds (load_one d t)

unfoldable pub new_device_table : Str → Disk → ReadOutcome → DeviceTable
unfolding empty_table load_all
new_device_table path disk missing = empty_table path disk
new_device_table path disk failed = empty_table path disk
new_device_table path disk (loaded f) =
    if path ==ₛ [] then empty_table path disk else load_all f.devices (empty_table path disk)

-- `LeaseInfo` of internal/server/control.go. `expire_at` is the instant itself, and `remaining` the
-- seconds that are left, with a flag for a lease that ran out.
pub record LeaseInfo : Type 0 where
  pub hwid : Str
  pub name : Str
  pub vip : Str
  pub online : Bool
  pub expire_at : ℕ
  pub late : Bool
  pub remaining : ℕ
  pub forward : List Str
  pub registered : Bool
  pub blocked : Bool

abbrev seconds : ℕ → ℕ
seconds t = t / 10 ^ 9

lease_info : ℕ → (ℕ → Bool) → DeviceRecord → LeaseInfo
lease_info now online r =
    let at = if r.vip == 0 then 0 else r.expire_at in
    record {
      hwid = r.hwid;
      name = r.name;
      vip = if r.vip == 0 then [] else ip4_text r.vip;
      online = if r.vip == 0 then false else online r.vip;
      expire_at = at;
      late = if at == 0 then false else ltb at now;
      remaining =
          if at == 0 then 0 else if ltb at now then seconds (now - at) else seconds (at - now);
      forward = r.forward;
      registered = not (r.device_id ==ₛ []);
      blocked = r.blocked;
    }

is_empty : Str → Bool
is_empty [] = true
is_empty (c ∷ s) = false

-- Records with an address come first.
less_info : LeaseInfo → LeaseInfo → Bool
less_info a b =
    if is_empty a.vip
    then (if is_empty b.vip then str_ltb a.hwid b.hwid else false)
    else if is_empty b.vip
    then true
    else if a.vip ==ₛ b.vip
    then str_ltb a.hwid b.hwid
    else str_ltb a.vip b.vip

infos : ℕ → (ℕ → Bool) → Map Str DeviceRecord → List LeaseInfo
infos now online [] = []
infos now online ((h, r) ∷ m) = lease_info now online r ∷ infos now online m

-- `DeviceTable.Snapshot`.
unfoldable pub snapshot : DeviceTable → ℕ → (ℕ → Bool) → List LeaseInfo
unfolding lease_info less_info infos is_empty
snapshot t now online = sort_slice less_info (infos now online t.by_hwid)

-- `DeviceTable.Len`.
unfoldable pub len : DeviceTable → ℕ
len t = length t.by_hwid
