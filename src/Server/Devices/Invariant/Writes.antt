-- ===== src/Server/Devices/Invariant/Writes.antt =====
-- The address index of internal/server/devices.go under single writes.
use sulink_lan.Base.{ℕ, ◌≡◌, ◌≢◌, true, false, Str, arith}
use sulink_lan.Base.Eq.{nat_eq, str_eq, ==ₛ_iff}
use sulink_lan.Base.Map.{lookup-insert, lookup-delete, delete, Map}
use sulink_lan.Server.Pool.{IpPool, held, in_range, take_ip, release}
use sulink_lan.Server.Pool.Laws.{held-take_ip, held-release}
use sulink_lan.Server.Devices.{DeviceRecord, DeviceTable, rec_of, put, save_locked}
use sulink_lan.Server.Devices.Leasing.{give_vip}
use sulink_lan.Server.Devices.Invariant.{VipIndex, rec_of-put}

-- A write that leaves the record's address alone.
pub VipIndex-put :
    {t : DeviceTable} {p : IpPool} (h : Str) (r : DeviceRecord)
    → VipIndex t p
    → r.vip ≡ (rec_of t h).vip
    → VipIndex (put t h r) p
unfolding put
VipIndex-put {t} {p} h r x e = record {
  positive = x.positive;
  index = λ v j l. ground (arith, rec_of-put t h j r, ==ₛ_iff h j, x.index v j);
  entry = λ j n. ground (arith, rec_of-put t h j r, ==ₛ_iff h j, x.entry j);
  kept = λ j n. ground (arith, rec_of-put t h j r, ==ₛ_iff h j, x.kept j);
}

-- A device without an address is given one that nobody holds.
pub VipIndex-give_vip :
    {t : DeviceTable} {p : IpPool} (h : Str) (r : DeviceRecord) (vip : ℕ)
    → VipIndex t p
    → (rec_of t h).vip ≡ 0
    → held p vip ≡ false
    → in_range p vip ≡ true
    → VipIndex (give_vip h r vip (take_ip p vip) t).table (take_ip p vip)
unfolding give_vip rec_of in_range take_ip
VipIndex-give_vip {t} {p} h r vip x e free fits = record {
  positive = x.positive;
  index = λ v j l. ground (
    arith,
    lookup-insert j h (record r { vip = vip }) t.by_hwid,
    lookup-insert v vip h t.by_vip,
    ==ₛ_iff h j,
    x.positive,
    x.index v j,
  );
  entry = λ j n. ground (
    arith,
    lookup-insert j h (record r { vip = vip }) t.by_hwid,
    lookup-insert vip vip h t.by_vip,
    lookup-insert (rec_of t j).vip vip h t.by_vip,
    ==ₛ_iff h j,
    x.entry j,
    x.kept j,
  );
  kept = λ j n. ground (
    arith,
    lookup-insert j h (record r { vip = vip }) t.by_hwid,
    held-take_ip p vip vip,
    held-take_ip p vip (rec_of t j).vip,
    ==ₛ_iff h j,
    x.kept j,
  );
}

-- A device gives its address up.
pub VipIndex-drop :
    {t : DeviceTable} {p : IpPool} (h : Str) (r : DeviceRecord)
    → VipIndex t p
    → r.vip ≡ 0
    → (rec_of t h).vip ≢ 0
    → VipIndex
        (put (record t { by_vip = delete (rec_of t h).vip t.by_vip }) h r)
        (release p (rec_of t h).vip)
unfolding put rec_of in_range release
VipIndex-drop {t} {p} h r x e n = record {
  positive = x.positive;
  index = λ v j l. ground (
    arith,
    lookup-insert j h r t.by_hwid,
    lookup-delete v (rec_of t h).vip t.by_vip,
    ==ₛ_iff h j,
    x.index v j,
    x.entry h,
  );
  entry = λ j m. ground (
    arith,
    lookup-insert j h r t.by_hwid,
    lookup-delete (rec_of t j).vip (rec_of t h).vip t.by_vip,
    ==ₛ_iff h j,
    x.entry j,
    x.entry h,
  );
  kept = λ j m. ground (
    arith,
    lookup-insert j h r t.by_hwid,
    held-release p (rec_of t h).vip (rec_of t j).vip,
    ==ₛ_iff h j,
    x.kept j,
    x.entry j,
    x.entry h,
  );
}

-- What the address index does not read: credentials and the file.
pub VipIndex-save : {t : DeviceTable} {p : IpPool} → VipIndex t p → VipIndex (save_locked t) p
unfolding save_locked rec_of
VipIndex-save x = record { positive = x.positive; index = x.index; entry = x.entry; kept = x.kept }

pub VipIndex-ids :
    {t : DeviceTable} {p : IpPool} (m : Map Str Str)
    → VipIndex t p
    → VipIndex (record t { by_device_id = m }) p
unfolding rec_of
VipIndex-ids m x = record { positive = x.positive; index = x.index; entry = x.entry; kept = x.kept }
