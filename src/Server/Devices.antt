-- ===== src/Server/Devices.antt =====
-- internal/server/devices.go: the device table, with its IP leases, credentials and forward rules.
-- A time is a number of nanoseconds since Go's zero time. A record that the code reads through a
-- pointer is read from the map by its key, and written back.
pub mod Leasing
pub mod File
pub mod Invariant
pub mod Runs
pub mod Promises
pub mod Terms
pub mod Restart
mod Tests
use sulink_lan.Base.{
  ℕ, zero, suc, ◌+◌, ◌*◌, ◌^◌, Bool, true, false, not, ◌&&◌, ◌||◌, List, [], ◌∷◌, Option, none,
  some, Result, ok, err, ltb, leb, ◌==◌, if◌then◌else◌, or_else, Str, ◌==ₛ◌,
}
use sulink_lan.Base.Eq.{nat_eq, str_eq}
use sulink_lan.Base.Map.{Map, keys, lookup, insert, delete}
use sulink_lan.Base.Sort.{str_ltb, sort_slice}
use sulink_lan.Base.Net.{ip4_text, parse_ip4}
use sulink_lan.Forward.{RuleError, parse_set}
use sulink_lan.Server.Pool.{IpPool, PoolError, alloc, alloc_at, held, in_range, release}

pub record DeviceRecord : Type 0 where
  pub hwid : Str
  pub name : Str
  pub vip : ℕ
  pub expire_at : ℕ
  pub forward : List Str
  pub device_id : Str
  pub device_key : Str
  pub blocked : Bool

-- `deviceJSON`.
pub record DeviceJson : Type 0 where
  pub hwid : Str
  pub name : Str
  pub vip : Str
  pub expire_at : ℕ
  pub forward : List Str
  pub device_id : Str
  pub device_key : Str
  pub blocked : Bool

-- `deviceFile`.
pub record DeviceFile : Type 0 where
  pub version : ℕ
  pub devices : List DeviceJson

-- What `writeJSON` reaches: the file at `path`, and whether a write succeeds.
pub record Disk : Type 0 where
  pub file : Option DeviceFile
  pub writable : Bool

pub record DeviceTable : Type 0 where
  pub path : Str
  pub by_hwid : Map Str DeviceRecord
  pub by_vip : Map ℕ Str
  pub by_device_id : Map Str Str
  pub disk : Disk

pub data DeviceError : Type 0 where
  empty_credential credential_in_use missing_hwid no_device : DeviceError
  already_registered : Str → DeviceError
  bad_rules : RuleError → DeviceError
  not_assignable : ℕ → DeviceError
  assigned_to : ℕ → Str → DeviceError
  pool_error : PoolError → DeviceError

-- The table with the pool that its operations are given.
pub record Leases : Type 0 where
  pub table : DeviceTable
  pub pool : IpPool

-- `LeaseDuration`, 31 days.
abbrev pub lease_duration : ℕ
lease_duration = 31 * 24 * 3600 * 10 ^ 9

-- `&deviceRecord{HWID: hwid}`.
unfoldable pub blank : Str → DeviceRecord
blank h = record {
  hwid = h;
  name = [];
  vip = 0;
  expire_at = 0;
  forward = [];
  device_id = [];
  device_key = [];
  blocked = false;
}

-- `t.byHWID[h]`, or the blank record that the code makes for a missing one.
unfoldable pub rec_of : DeviceTable → Str → DeviceRecord
unfolding blank
rec_of t h = or_else (lookup h t.by_hwid) (blank h)

unfoldable pub put : DeviceTable → Str → DeviceRecord → DeviceTable
put t h r = record t { by_hwid = insert h r t.by_hwid }

-- One entry of the file that `saveLocked` writes.
unfoldable pub to_json : DeviceRecord → DeviceJson
to_json r = record {
  hwid = r.hwid;
  name = r.name;
  vip = if r.vip == 0 then [] else ip4_text r.vip;
  expire_at = if r.vip == 0 then 0 else r.expire_at;
  forward = r.forward;
  device_id = r.device_id;
  device_key = r.device_key;
  blocked = r.blocked;
}

values : Map Str DeviceRecord → List DeviceJson
unfolding to_json
values [] = []
values ((h, r) ∷ m) = to_json r ∷ values m

unfoldable pub to_file : DeviceTable → DeviceFile
unfolding values
to_file t = record {
  version = 1;
  devices = sort_slice (λ a b. str_ltb a.hwid b.hwid) (values t.by_hwid);
}

-- `writeJSON`: the new content replaces the old one, or the write fails and the old one stays.
unfoldable pub write_json : Disk → DeviceFile → Disk
write_json d f = if d.writable then record d { file = some f } else d

unfoldable pub save_locked : DeviceTable → DeviceTable
unfolding write_json
save_locked t = record t { disk = if t.path ==ₛ [] then t.disk else write_json t.disk (to_file t) }

unfoldable pub taken_by_other : Option Str → Str → Bool
taken_by_other none h = false
taken_by_other (some owner) h = not (owner ==ₛ h)

unfoldable pub set_credential :
    DeviceTable → Str → Str → Str → Str → Result DeviceError (Unit {0}) × DeviceTable
unfolding taken_by_other rec_of put save_locked
set_credential t hwid name device_id device_key =
    if hwid ==ₛ [] || device_id ==ₛ [] || device_key ==ₛ []
    then (err empty_credential, t)
    else if taken_by_other (lookup device_id t.by_device_id) hwid
    then (err credential_in_use, t)
    else (let r = rec_of t hwid in
        if not (r.device_id ==ₛ [])
        then (err (already_registered hwid), put t hwid r)
        else (let r' = record r {
          device_id = device_id;
          device_key = device_key;
          name = if name ==ₛ [] then r.name else name;
        } in
            let t' = put t hwid r' in
            (
              ok tt,
              save_locked (record t' { by_device_id = insert device_id hwid t'.by_device_id }),
            )))

-- `DeviceKeyByID`.
unfoldable pub device_key_by_id : DeviceTable → Str → Str
device_key_by_id t device_id =
    if device_id ==ₛ []
    then []
    else (let hwid = or_else (lookup device_id t.by_device_id) [] in
        if hwid ==ₛ []
        then []
        else elim (lookup hwid t.by_hwid) [ none ↦ [] | some r ↦ r.device_key ])

-- `Credential`: the device's id and key, if it is registered.
unfoldable pub credential : DeviceTable → Str → Option (Str × Str)
credential t hwid = if hwid ==ₛ [] then none else elim (lookup hwid t.by_hwid) [
  | none ↦ none
  | some r ↦ if r.device_id ==ₛ [] then none else some (r.device_id, r.device_key)
]

-- The record without its credential, out of the index too.
unfoldable pub drop_credential : DeviceTable → Str → DeviceRecord → DeviceTable
unfolding put
drop_credential t hwid r =
    put (record t { by_device_id = delete r.device_id t.by_device_id }) hwid
      (record r { device_id = []; device_key = [] })

unfoldable pub clear_credential : DeviceTable → Str → DeviceTable × Bool
unfolding drop_credential save_locked
clear_credential t hwid = if hwid ==ₛ [] then (t, false) else elim (lookup hwid t.by_hwid) [
  | none ↦ (t, false)
  | some r ↦
      if r.device_id ==ₛ [] then (t, false) else (save_locked (drop_credential t hwid r), true)
]

unfoldable pub is_blocked : DeviceTable → Str → Bool
is_blocked t hwid =
    if hwid ==ₛ []
    then false
    else elim (lookup hwid t.by_hwid) [ none ↦ false | some r ↦ r.blocked ]

-- The part of `Block` behind the early returns.
unfoldable pub block_record : DeviceTable → Str → DeviceRecord → DeviceTable
unfolding put
block_record t hwid r =
    if r.device_id ==ₛ []
    then put t hwid (record r { blocked = true })
    else put (record t { by_device_id = delete r.device_id t.by_device_id }) hwid
        (record r { device_id = []; device_key = []; blocked = true })

unfoldable pub block : DeviceTable → Str → DeviceTable × Bool
unfolding rec_of put block_record save_locked
block t hwid =
    if hwid ==ₛ []
    then (t, false)
    else (let r = rec_of t hwid in
        if r.blocked && r.device_id ==ₛ []
        then (put t hwid r, false)
        else (save_locked (block_record t hwid r), true))

unfoldable pub unblock : DeviceTable → Str → DeviceTable × Bool
unfolding put save_locked
unblock t hwid = if hwid ==ₛ [] then (t, false) else elim (lookup hwid t.by_hwid) [
  | none ↦ (t, false)
  | some r ↦
      if r.blocked
      then (save_locked (put t hwid (record r { blocked = false })), true)
      else (t, false)
]

-- `Forward`, the rules of a device.
unfoldable pub forward_of : DeviceTable → Str → List Str
forward_of t hwid =
    if hwid ==ₛ [] then [] else elim (lookup hwid t.by_hwid) [ none ↦ [] | some r ↦ r.forward ]

unfoldable pub set_forward :
    DeviceTable → Str → List Str → Result DeviceError (Unit {0}) × DeviceTable
unfolding rec_of put save_locked
set_forward t hwid rules = if hwid ==ₛ [] then (err missing_hwid, t) else elim (parse_set rules) [
  | err e ↦ (err (bad_rules e), t)
  | ok _ ↦ (ok tt, save_locked (put t hwid (record (rec_of t hwid) { forward = rules })))
]
