-- ===== src/Server/Devices/Leasing.antt =====
-- internal/server/devices.go: `Assign`, `SetIP`, `Prune`, which also change the address pool.
use sulink_lan.Base.{
  ℕ, suc, ◌+◌, Bool, not, ◌||◌, List, [], ◌∷◌, none, some, Result, ok, err, ltb, ◌==◌,
  if◌then◌else◌, Str, ◌==ₛ◌,
}
use sulink_lan.Base.Eq.{nat_eq, str_eq}
use sulink_lan.Base.Map.{keys, lookup, insert, delete}
use sulink_lan.Server.Pool.{IpPool, PoolError, alloc, alloc_at, held, in_range, release}
use sulink_lan.Server.Devices.{
  DeviceRecord, DeviceTable, DeviceError, missing_hwid, no_device, not_assignable, assigned_to,
  pool_error, Leases, lease_duration, rec_of, put, save_locked,
}

-- Whether `pruneLocked` takes the record's address back.
unfoldable pub expired : ℕ → DeviceRecord → Bool
expired now r = not (r.vip == 0 || r.expire_at == 0 || ltb now r.expire_at)

-- The record of `h` gives up its address.
unfoldable pub give_up : Str → Leases → Leases
unfolding rec_of put
give_up h s =
    let r = rec_of s.table h in
    record {
      table =
          put (record s.table { by_vip = delete r.vip s.table.by_vip }) h
            (record r { vip = 0; expire_at = 0 });
      pool = release s.pool r.vip;
    }

unfoldable pub prune_one : ℕ → Str → Leases → Leases
unfolding rec_of expired give_up
prune_one now h s = if expired now (rec_of s.table h) then give_up h s else s

-- The loop of `pruneLocked` over the keys of the map.
unfoldable pub prune_keys : ℕ → List Str → Leases → Leases
unfolding prune_one
prune_keys now [] s = s
prune_keys now (h ∷ hs) s = prune_keys now hs (prune_one now h s)

-- The number that `pruneLocked` returns.
unfoldable pub count_expired : ℕ → List Str → DeviceTable → ℕ
unfolding rec_of expired
count_expired now [] t = 0
count_expired now (h ∷ hs) t =
    let rest = count_expired now hs t in if expired now (rec_of t h) then suc rest else rest

unfoldable pub prune_locked : ℕ → Leases → Leases
unfolding prune_keys
prune_locked now s = prune_keys now (keys s.table.by_hwid) s

unfoldable pub prune : ℕ → Leases → ℕ × Leases
unfolding prune_locked count_expired save_locked
prune now s =
    let n = count_expired now (keys s.table.by_hwid) s.table in
    let s' = prune_locked now s in
    (n, if ltb 0 n then record s' { table = save_locked s'.table } else s')

-- `rec.VIP = vip; t.byVIP[vip] = hwid`, with the pool that holds `vip`.
unfoldable pub give_vip : Str → DeviceRecord → ℕ → IpPool → DeviceTable → Leases
unfolding put
give_vip h r vip pool t = record {
  table = put (record t { by_vip = insert vip h t.by_vip }) h (record r { vip = vip });
  pool = pool;
}

-- The `switch` of `Assign`.
unfoldable pub place : Str → Leases → Result PoolError Leases
unfolding rec_of give_vip
place h s =
    let t = s.table in
    let r = rec_of t h in
    if r.vip == 0
    then elim (alloc s.pool) [ err e ↦ err e | ok (vip, pool) ↦ ok (give_vip h r vip pool t) ]
    else if held s.pool r.vip
    then ok s
    else elim (alloc_at s.pool r.vip) [
      | ok pool ↦ ok (record s { pool = pool })
      | err _ ↦ elim (alloc s.pool) [
        | err e ↦ err e
        | ok (vip, pool) ↦ ok (give_vip h r vip pool (record t { by_vip = delete r.vip t.by_vip }))
      ]
    ]

-- The end of `Assign`: name and expiry are renewed, and the table is saved.
unfoldable pub renew : Str → Str → ℕ → Leases → Leases
unfolding rec_of put save_locked
renew h name now s = record s {
  table =
      save_locked (
        put s.table h
          (record (rec_of s.table h) { name = name; expire_at = now + lease_duration }));
}

-- `rec := t.byHWID[hwid]`, made and stored if it is missing.
unfoldable pub ensure : Str → Leases → Leases
unfolding rec_of put
ensure h s = record s { table = put s.table h (rec_of s.table h) }

-- `Assign`: the address with its expiry, or the pool's error, and the new state.
unfoldable pub assign : Str → Str → ℕ → Leases → Result PoolError (ℕ × ℕ) × Leases
unfolding prune_locked ensure place renew
assign h name now s =
    let s1 = ensure h (prune_locked now s) in
    elim (place h s1) [
      | err e ↦ (err e, s1)
      | ok s2 ↦
          let s3 = renew h name now s2 in
          (ok ((rec_of s3.table h).vip, (rec_of s3.table h).expire_at), s3)
    ]

-- `SetIP`, once the new address is taken from the pool.
unfoldable pub move_vip : Str → DeviceRecord → ℕ → IpPool → DeviceTable → Leases
unfolding give_vip
move_vip h r vip pool t =
    if r.vip == 0
    then give_vip h r vip pool t
    else give_vip h r vip (release pool r.vip) (record t { by_vip = delete r.vip t.by_vip })

unfoldable pub set_vip : Str → DeviceRecord → ℕ → Leases → Result DeviceError (Unit {0}) × Leases
unfolding move_vip save_locked
set_vip h r vip s = if r.vip == vip then (ok tt, s) else elim (alloc_at s.pool vip) [
  | err e ↦ (err (pool_error e), s)
  | ok pool ↦
      let s' = move_vip h r vip pool s.table in (ok tt, record s' { table = save_locked s'.table })
]

unfoldable pub set_ip : Str → ℕ → Leases → Result DeviceError (Unit {0}) × Leases
unfolding set_vip
set_ip h vip s = if h ==ₛ [] then (err missing_hwid, s) else elim (lookup h s.table.by_hwid) [
  | none ↦ (err no_device, s)
  | some r ↦
      if not (in_range s.pool vip)
      then (err (not_assignable vip), s)
      else elim (lookup vip s.table.by_vip) [
        | none ↦ set_vip h r vip s
        | some owner ↦ if owner ==ₛ h then set_vip h r vip s else (err (assigned_to vip owner), s)
      ]
]
