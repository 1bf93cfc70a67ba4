-- ===== src/Server/Devices/Invariant.antt =====
-- The agreement of the reverse indices of internal/server/devices.go with the records and the
-- pool.
pub mod Vips
pub mod Writes
pub mod Ids
pub mod Frames
use sulink_lan.Base.{ℕ, ◌≤◌, ◌<◌, ◌≡◌, ◌≢◌, refl, true, [], some, if◌then◌else◌, Str, ◌==ₛ◌, arith}
use sulink_lan.Base.Eq.{nat_eq, str_eq, ==ₛ_iff}
use sulink_lan.Base.Map.{lookup, lookup-insert}
use sulink_lan.Server.Pool.{IpPool, held, in_range}
use sulink_lan.Server.Devices.{DeviceRecord, DeviceTable, Leases, rec_of, put, blank}

-- `byVIP` maps exactly the leased addresses to their devices, and the pool holds them.
pub record VipIndex (t : DeviceTable) (p : IpPool) : Type 0 where
  pub positive : 0 < p.start
  pub index : (v : ℕ) (h : Str) → lookup v t.by_vip ≡ some h → ((rec_of t h).vip ≡ v) × (v ≢ 0)
  pub entry : (h : Str) → (rec_of t h).vip ≢ 0 → lookup (rec_of t h).vip t.by_vip ≡ some h
  pub kept :
      (h : Str)
      → (rec_of t h).vip ≢ 0
      → (held p (rec_of t h).vip ≡ true) × (in_range p (rec_of t h).vip ≡ true)

-- `byDeviceID` maps exactly the issued credentials to their devices.
pub record IdIndex (t : DeviceTable) : Type 0 where
  pub index :
      (d h : Str) → lookup d t.by_device_id ≡ some h → ((rec_of t h).device_id ≡ d) × (d ≢ [])
  pub entry :
      (h : Str)
      → (rec_of t h).device_id ≢ []
      → lookup (rec_of t h).device_id t.by_device_id ≡ some h

pub rec_of-put :
    (t : DeviceTable) (h j : Str) (r : DeviceRecord)
    → rec_of (put t h r) j ≡ (if h ==ₛ j then r else rec_of t j)
unfolding rec_of put
rec_of-put t h j r = ground (arith, lookup-insert j h r t.by_hwid, ==ₛ_iff h j)

-- The record that a lookup finds is the one that `rec_of` reads.
pub rec_of-lookup :
    (t : DeviceTable) (h : Str) {r : DeviceRecord} → lookup h t.by_hwid ≡ some r → rec_of t h ≡ r
unfolding rec_of
rec_of-lookup t h e = rw e

-- No address is leased to two devices.
pub vip_unique :
    {t : DeviceTable} {p : IpPool} (h j : Str)
    → VipIndex t p
    → (rec_of t h).vip ≢ 0
    → (rec_of t h).vip ≡ (rec_of t j).vip
    → h ≡ j
vip_unique h j x n e = ground (arith, x.entry h, x.entry j)
