-- ===== src/Server/Devices/Restart.antt =====
-- internal/server/devices.go: the table after a restart, when the leases come back from the file
-- and the pool starts empty.
use sulink_lan.Base.{
  ℕ, ◌<◌, ◌≡◌, ◌≢◌, ◌∙◌, refl, ap, sym, List, [], ◌∷◌, ◌++◌, some, ok, Str, codes, arith, All,
}
use sulink_lan.Base.Eq.{nat_eq, str_eq, ==ₛ_iff}
use sulink_lan.Base.Map.{lookup, lookup-insert, delete, keys}
use sulink_lan.Base.Net.{parse_ip4}
use sulink_lan.Server.Pool.{IpPool, new_pool, vnet_pool, alloc, alloc_loop, held, take_ip, release}
use sulink_lan.Server.Pool.Laws.{new_pool_lem}
use sulink_lan.Server.Devices.{DeviceTable, DeviceJson, DeviceFile, Disk, Leases, rec_of}
use sulink_lan.Server.Devices.Leasing.{
  expired, prune_one, prune_keys, prune_locked, give_up, assign,
}
use sulink_lan.Server.Devices.File.{
  from_json, json_vip, load_one, load_all, empty_table, new_device_table, loaded,
}
use sulink_lan.Server.Devices.Promises.{prune_locked_live}

ruleset writes = (arith, lookup-insert)

not_known :
    (before after : List DeviceJson) (d : DeviceJson) (j : Str)
    → All (λ e. e.hwid ≢ j) (before ++ d ∷ after)
    → d.hwid ≢ j
not_known [] after d j a = a.0
not_known (b ∷ before) after d j a = not_known before after d j a.1

load_one_other :
    (e : DeviceJson) (k : Str) (t : DeviceTable) → e.hwid ≢ k → rec_of (load_one e t) k ≡ rec_of t k
unfolding load_one from_json rec_of
load_one_other e k t n = grind (writes, ==ₛ_iff e.hwid k)

load_all_other :
    (es : List DeviceJson) (k : Str) (t : DeviceTable)
    → All (λ e. e.hwid ≢ k) es
    → rec_of (load_all es t) k ≡ rec_of t k
unfolding load_all
load_all_other [] k t a = refl
load_all_other (e ∷ es) k t a = load_all_other es k (load_one e t) a.1 ∙ load_one_other e k t a.0

lowest : parse_ip4 (codes "10.0.0.2") ≡ some vnet_pool.start
unfolding parse_ip4
lowest = refl

-- The record of the lowest address is in the table, with the end of its lease.
record Leased (d : DeviceJson) (t : DeviceTable) : Type 0 where
  vip : (rec_of t d.hwid).vip ≡ vnet_pool.start
  until : (rec_of t d.hwid).expire_at ≡ d.expire_at

load_one-Leased :
    (d : DeviceJson) (t : DeviceTable)
    → d.hwid ≢ []
    → d.vip ≡ codes "10.0.0.2"
    → Leased d (load_one d t)
unfolding load_one from_json json_vip rec_of
load_one-Leased d t n e = record {
  vip = grind (writes, e, lowest, ==ₛ_iff d.hwid d.hwid, ==ₛ_iff d.hwid [], ==ₛ_iff d.vip []);
  until = grind (writes, e, lowest, ==ₛ_iff d.hwid d.hwid, ==ₛ_iff d.hwid [], ==ₛ_iff d.vip []);
}

load_all-Leased :
    (before after : List DeviceJson) (d : DeviceJson) (t : DeviceTable)
    → d.hwid ≢ []
    → d.vip ≡ codes "10.0.0.2"
    → All (λ e. e.hwid ≢ d.hwid) after
    → Leased d (load_all (before ++ d ∷ after) t)
unfolding load_all
load_all-Leased [] after d t n e a =
    let here = load_one-Leased d t n e in
    let same = load_all_other after d.hwid (load_one d t) a in
    record { vip = rw same here.vip; until = rw same here.until }
load_all-Leased (b ∷ before) after d t n e a = load_all-Leased before after d (load_one b t) n e a

first_free : alloc vnet_pool ≡ ok (vnet_pool.start, take_ip vnet_pool vnet_pool.start)
unfolding alloc alloc_loop held lookup take_ip
first_free = refl

release_none : (ip : ℕ) → release vnet_pool ip ≡ vnet_pool
unfolding release delete
release_none ip = refl

prune_keys_empty :
    (now : ℕ) (hs : List Str) (s : Leases)
    → s.pool ≡ vnet_pool
    → (prune_keys now hs s).pool ≡ vnet_pool
unfolding prune_keys prune_one give_up
prune_keys_empty now [] s e = e
prune_keys_empty now (h ∷ hs) s e =
    prune_keys_empty now hs (prune_one now h s) (grind (arith, e, release_none))

unknown :
    (es : List DeviceJson) (j path : Str) (disk : Disk)
    → All (λ e. e.hwid ≢ j) es
    → (rec_of (load_all es (empty_table path disk)) j).vip ≡ 0
unfolding rec_of empty_table lookup
unknown es j path disk a = ap (λ r. r.vip) (load_all_other es j (empty_table path disk) a)

-- Two devices, one with a running lease of the lowest address and one that is not known, get one address.
assign_lowest :
    (t : DeviceTable) (h j name : Str) (now : ℕ)
    → j ≢ h
    → (rec_of t h).vip ≡ vnet_pool.start
    → now < (rec_of t h).expire_at
    → (rec_of t j).vip ≡ 0
    → let u = (assign j name now (record { table = t; pool = vnet_pool })).1.table in
      ((rec_of u j).vip ≡ vnet_pool.start) × ((rec_of u h).vip ≡ vnet_pool.start)
unfolding assign prune_locked rec_of expired
assign_lowest t h j name now n e live z =
    let s : Leases = record { table = t; pool = vnet_pool } in
    grind (
      writes,
      prune_locked_live now h s (ground (arith, e, live)),
      prune_locked_live now j s (ground (arith, z)),
      prune_keys_empty now (keys t.by_hwid) s refl,
      first_free,
      ==ₛ_iff j h,
      ==ₛ_iff j j,
    )

-- After a restart a new device is given an address that another device leases. The table is what
-- `NewDeviceTable` makes of a file in which a device with a running lease has 10.0.0.2, in the last entry
-- with its HWID; the pool is the one that `NewIPPool` makes; the new device is not in the file.
pub restart_shares :
    (path : Str) (disk : Disk) (f : DeviceFile) (before after : List DeviceJson) (d : DeviceJson)
    (j name : Str) (now : ℕ) {p : IpPool}
    → path ≢ []
    → f.devices ≡ before ++ d ∷ after
    → d.hwid ≢ []
    → d.vip ≡ codes "10.0.0.2"
    → now < d.expire_at
    → All (λ e. e.hwid ≢ d.hwid) after
    → All (λ e. e.hwid ≢ j) f.devices
    → new_pool ≡ ok p
    → let t = new_device_table path disk (loaded f) in
      let u = (assign j name now (record { table = t; pool = p })).1.table in
      ((rec_of u j).vip ≡ (rec_of u d.hwid).vip)
      × ((rec_of u d.hwid).vip ≡ (rec_of t d.hwid).vip)
      × ((rec_of t d.hwid).vip ≡ p.start)
unfolding new_device_table new_pool
restart_shares path disk f before after d j name now {p} there listed n e live last fresh made =
    let all : All (λ e. e.hwid ≢ j) (before ++ d ∷ after) = rw (sym listed) fresh in
    let ne : j ≢ d.hwid = λ q. not_known before after d j all (sym q) in
    let t = load_all f.devices (empty_table path disk) in
    let is_t : new_device_table path disk (loaded f) ≡ t = ground (arith, ==ₛ_iff path [], there) in
    let y : Leased d t =
      rw listed (load_all-Leased before after d (empty_table path disk) n e last) in
    let z = unknown f.devices j path disk fresh in
    let w = assign_lowest t d.hwid j name now ne y.vip (rw y.until live) z in
    let q : p ≡ vnet_pool = cc (made, new_pool_lem) in
    rw (q, is_t) (w.0 ∙ sym w.1, w.1 ∙ sym y.vip, y.vip)
