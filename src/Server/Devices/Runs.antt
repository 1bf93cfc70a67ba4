-- ===== src/Server/Devices/Runs.antt =====
-- Histories of calls on the device table of internal/server/devices.go.
use sulink_lan.Base.{ℕ, ◌≡◌, ◌≢◌, List, [], ◌∷◌, or_else, true, Str, arith, if_cases, ltb}
use sulink_lan.Base.Eq.{nat_eq, str_eq, ==ₛ_iff}
use sulink_lan.Base.Map.{lookup, lookup-empty, keys}
use sulink_lan.Server.Pool.{vnet_pool, held, in_range}
use sulink_lan.Server.Devices.{
  Disk, Leases, rec_of, blank, set_credential, clear_credential, block, unblock, set_forward,
  device_key_by_id,
}
use sulink_lan.Server.Devices.Leasing.{assign, prune, count_expired, set_ip}
use sulink_lan.Server.Devices.File.{empty_table}
use sulink_lan.Server.Devices.Invariant.{VipIndex, IdIndex, vip_unique}
use sulink_lan.Server.Devices.Invariant.Vips.{
  IsIndexed, assign-IsIndexed, prune_locked-IsIndexed, set_ip-IsIndexed,
}
use sulink_lan.Server.Devices.Invariant.Writes.{VipIndex-save}
use sulink_lan.Server.Devices.Invariant.Ids.{
  set_credential-IdIndex, clear_credential-IdIndex, block-IdIndex, unblock-IdIndex,
  set_forward-IdIndex,
}
use sulink_lan.Server.Devices.Invariant.Frames

-- The calls that change the table or the pool.
pub data Call : Type 0 where
  assigns : (h name : Str) (now : ℕ) → Call
  prunes : (now : ℕ) → Call
  sets_ip : (h : Str) (vip : ℕ) → Call
  sets_credential : (h name device_id device_key : Str) → Call
  clears_credential blocks unblocks : (h : Str) → Call
  sets_forward : (h : Str) (rules : List Str) → Call

unfoldable pub step : Call → Leases → Leases
step (assigns h name now) s = (assign h name now s).1
step (prunes now) s = (prune now s).1
step (sets_ip h vip) s = (set_ip h vip s).1
step (sets_credential h name d key) s = record s { table = (set_credential s.table h name d key).1 }
step (clears_credential h) s = record s { table = (clear_credential s.table h).0 }
step (blocks h) s = record s { table = (block s.table h).0 }
step (unblocks h) s = record s { table = (unblock s.table h).0 }
step (sets_forward h rules) s = record s { table = (set_forward s.table h rules).1 }

unfoldable pub run : List Call → Leases → Leases
run [] s = s
run (c ∷ cs) s = run cs (step c s)

-- Both indices are exact.
pub record IsValid (s : Leases) : Type 0 where
  pub vips : VipIndex s.table s.pool
  pub ids : IdIndex s.table

prune-IsIndexed : (now : ℕ) {s : Leases} → IsIndexed s → IsIndexed (prune now s).1
unfolding prune
prune-IsIndexed now {s} x =
    if_cases IsIndexed (ltb 0 (count_expired now (keys s.table.by_hwid) s.table))
      (λ _. record { vips = VipIndex-save (IsIndexed.vips (prune_locked-IsIndexed now x)) })
      λ _. prune_locked-IsIndexed now x

-- Every call keeps both indices of the table exact, whether it succeeds or fails.
pub step-IsValid : (c : Call) {s : Leases} → IsValid s → IsValid (step c s)
unfolding step
step-IsValid (assigns h name now) {s} x = record {
  vips = IsIndexed.vips (assign-IsIndexed h name now s (record { vips = x.vips }));
  ids = Frames.SameIds-IdIndex (Frames.assign-SameIds h name now s) x.ids;
}
step-IsValid (prunes now) {s} x = record {
  vips = IsIndexed.vips (prune-IsIndexed now {s = s} (record { vips = x.vips }));
  ids = Frames.SameIds-IdIndex (Frames.prune-SameIds now s) x.ids;
}
step-IsValid (sets_ip h vip) {s} x = record {
  vips = IsIndexed.vips (set_ip-IsIndexed h vip s (record { vips = x.vips }));
  ids = Frames.SameIds-IdIndex (Frames.set_ip-SameIds h vip s) x.ids;
}
step-IsValid (sets_credential h name d key) {s} x = record {
  vips = Frames.SameVips-VipIndex (Frames.set_credential-SameVips s.table h name d key) x.vips;
  ids = set_credential-IdIndex s.table h name d key x.ids;
}
step-IsValid (clears_credential h) {s} x = record {
  vips = Frames.SameVips-VipIndex (Frames.clear_credential-SameVips s.table h) x.vips;
  ids = clear_credential-IdIndex s.table h x.ids;
}
step-IsValid (blocks h) {s} x = record {
  vips = Frames.SameVips-VipIndex (Frames.block-SameVips s.table h) x.vips;
  ids = block-IdIndex s.table h x.ids;
}
step-IsValid (unblocks h) {s} x = record {
  vips = Frames.SameVips-VipIndex (Frames.unblock-SameVips s.table h) x.vips;
  ids = unblock-IdIndex s.table h x.ids;
}
step-IsValid (sets_forward h rules) {s} x = record {
  vips = Frames.SameVips-VipIndex (Frames.set_forward-SameVips s.table h rules) x.vips;
  ids = set_forward-IdIndex s.table h rules x.ids;
}

pub run-IsValid : (cs : List Call) {s : Leases} → IsValid s → IsValid (run cs s)
unfolding run
run-IsValid [] x = x
run-IsValid (c ∷ cs) x = run-IsValid cs (step-IsValid c x)

-- The table and the pool of a server that starts without a file.
unfoldable pub fresh : Str → Disk → Leases
unfolding empty_table
fresh path disk = record { table = empty_table path disk; pool = vnet_pool }

blank-fresh : (path : Str) (disk : Disk) (h : Str) → rec_of (fresh path disk).table h ≡ blank h
unfolding fresh rec_of
blank-fresh path disk h = rw lookup-empty

pub fresh-IsValid : (path : Str) (disk : Disk) → IsValid (fresh path disk)
unfolding fresh blank
fresh-IsValid path disk = record {
  vips = record {
    positive = omega arith;
    index = λ v h l. ground (arith, lookup-empty {K = ℕ} {V = Str} v);
    entry = λ h n. ground (arith, blank-fresh path disk h);
    kept = λ h n. ground (arith, blank-fresh path disk h);
  };
  ids = record {
    index = λ d h l. ground (arith, lookup-empty {K = Str} {V = Str} d);
    entry = λ h n. ground (arith, blank-fresh path disk h);
  };
}

-- From a start with an empty table, no history of calls leases one address to two devices, and
-- every leased address stays held and inside the assignable range.
pub run_vip_unique :
    (path : Str) (disk : Disk) (cs : List Call) (h j : Str)
    → (rec_of (run cs (fresh path disk)).table h).vip ≢ 0
    → (rec_of (run cs (fresh path disk)).table h).vip
      ≡ (rec_of (run cs (fresh path disk)).table j).vip
    → (h ≡ j)
      × (held (run cs (fresh path disk)).pool (rec_of (run cs (fresh path disk)).table h).vip
          ≡ true)
      × (in_range (run cs (fresh path disk)).pool (rec_of (run cs (fresh path disk)).table h).vip
          ≡ true)
run_vip_unique path disk cs h j n e =
    let x = run-IsValid cs (fresh-IsValid path disk) in
    let (kept, fits) = x.vips.kept h n in (vip_unique h j x.vips n e, kept, fits)

-- A call of `DeviceKeyByID` that finds a key found it in the record that carries the id.
pub device_key_by_id_sound :
    {s : Leases} (d : Str) {key : Str}
    → IsValid s
    → device_key_by_id s.table d ≡ key
    → key ≢ []
    → (h : Str) × ((rec_of s.table h).device_id ≡ d) × ((rec_of s.table h).device_key ≡ key)
unfolding device_key_by_id rec_of
device_key_by_id_sound {s} d {key} x e n =
    let h = or_else (lookup d s.table.by_device_id) [] in
    (h, ground (arith, x.ids.index d h, ==ₛ_iff h []), ground arith)
