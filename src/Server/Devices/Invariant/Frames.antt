-- ===== src/Server/Devices/Invariant/Frames.antt =====
-- What each operation of internal/server/devices.go leaves alone.
use sulink_lan.Base.{ℕ, ◌≡◌, refl, ◌∙◌, List, [], ◌∷◌, Str, arith}
use sulink_lan.Base.Eq.{==ₛ_iff}
use sulink_lan.Base.Map.{lookup-insert, keys}
use sulink_lan.Server.Pool.{IpPool}
use sulink_lan.Server.Devices.{
  DeviceTable, Leases, rec_of, set_credential, clear_credential, block, unblock, set_forward,
}
use sulink_lan.Server.Devices.Leasing.{prune_one, prune_keys, prune_locked, prune, assign, set_ip}
use sulink_lan.Server.Devices.Invariant.{VipIndex, IdIndex}

-- The addresses of `u`, and how long they are leased, are those of `t`.
pub record SameVips (t u : DeviceTable) : Type 0 where
  pub vip : (j : Str) → (rec_of u j).vip ≡ (rec_of t j).vip
  pub expire_at : (j : Str) → (rec_of u j).expire_at ≡ (rec_of t j).expire_at
  pub by_vip : u.by_vip ≡ t.by_vip

-- The credentials of `u` are those of `t`.
pub record SameIds (t u : DeviceTable) : Type 0 where
  pub device_id : (j : Str) → (rec_of u j).device_id ≡ (rec_of t j).device_id
  pub by_device_id : u.by_device_id ≡ t.by_device_id

pub SameVips-VipIndex :
    {t u : DeviceTable} {p : IpPool} → SameVips t u → VipIndex t p → VipIndex u p
SameVips-VipIndex s x = record {
  positive = x.positive;
  index = λ v h l. ground (arith, s.vip h, s.by_vip, x.index v h);
  entry = λ h n. ground (arith, s.vip h, s.by_vip, x.entry h);
  kept = λ h n. ground (arith, s.vip h, x.kept h);
}

pub SameIds-IdIndex : {t u : DeviceTable} → SameIds t u → IdIndex t → IdIndex u
SameIds-IdIndex s x = record {
  index = λ d h l. ground (arith, s.device_id h, s.by_device_id, x.index d h);
  entry = λ h n. ground (arith, s.device_id h, s.by_device_id, x.entry h);
}

ruleset writes = (arith, lookup-insert)

pub set_credential-SameVips :
    (t : DeviceTable) (h name d key : Str) → SameVips t (set_credential t h name d key).1
unfolding set_credential rec_of
set_credential-SameVips t h name d key = record {
  vip = λ j. grind (writes, ==ₛ_iff h j);
  expire_at = λ j. grind (writes, ==ₛ_iff h j);
  by_vip = grind arith;
}

pub clear_credential-SameVips : (t : DeviceTable) (h : Str) → SameVips t (clear_credential t h).0
unfolding clear_credential rec_of
clear_credential-SameVips t h = record {
  vip = λ j. grind (writes, ==ₛ_iff h j);
  expire_at = λ j. grind (writes, ==ₛ_iff h j);
  by_vip = grind arith;
}

pub block-SameVips : (t : DeviceTable) (h : Str) → SameVips t (block t h).0
unfolding block rec_of
block-SameVips t h = record {
  vip = λ j. grind (writes, ==ₛ_iff h j);
  expire_at = λ j. grind (writes, ==ₛ_iff h j);
  by_vip = grind arith;
}

pub unblock-SameVips : (t : DeviceTable) (h : Str) → SameVips t (unblock t h).0
unfolding unblock rec_of
unblock-SameVips t h = record {
  vip = λ j. grind (writes, ==ₛ_iff h j);
  expire_at = λ j. grind (writes, ==ₛ_iff h j);
  by_vip = grind arith;
}

pub set_forward-SameVips :
    (t : DeviceTable) (h : Str) (rules : List Str) → SameVips t (set_forward t h rules).1
unfolding set_forward rec_of
set_forward-SameVips t h rules = record {
  vip = λ j. grind (writes, ==ₛ_iff h j);
  expire_at = λ j. grind (writes, ==ₛ_iff h j);
  by_vip = grind arith;
}

pub set_ip-SameIds : (h : Str) (vip : ℕ) (s : Leases) → SameIds s.table (set_ip h vip s).1.table
unfolding set_ip rec_of
set_ip-SameIds h vip s = record {
  device_id = λ j. grind (writes, ==ₛ_iff h j);
  by_device_id = grind arith;
}

prune_one-SameIds : (now : ℕ) (h : Str) (s : Leases) → SameIds s.table (prune_one now h s).table
unfolding prune_one rec_of
prune_one-SameIds now h s = record {
  device_id = λ j. grind (writes, ==ₛ_iff h j);
  by_device_id = grind arith;
}

SameIds-trans : {t u v : DeviceTable} → SameIds t u → SameIds u v → SameIds t v
SameIds-trans x y = record {
  device_id = λ j. y.device_id j ∙ x.device_id j;
  by_device_id = y.by_device_id ∙ x.by_device_id;
}

prune_keys-SameIds :
    (now : ℕ) (hs : List Str) (s : Leases) → SameIds s.table (prune_keys now hs s).table
unfolding prune_keys
prune_keys-SameIds now [] s = record { device_id = λ j. refl; by_device_id = refl }
prune_keys-SameIds now (h ∷ hs) s =
    SameIds-trans (prune_one-SameIds now h s) (prune_keys-SameIds now hs (prune_one now h s))

pub prune_locked-SameIds : (now : ℕ) (s : Leases) → SameIds s.table (prune_locked now s).table
unfolding prune_locked
prune_locked-SameIds now s = prune_keys-SameIds now (keys s.table.by_hwid) s

pub prune-SameIds : (now : ℕ) (s : Leases) → SameIds s.table (prune now s).1.table
unfolding prune rec_of
prune-SameIds now s = record {
  device_id = λ j. ground (arith, SameIds.device_id (prune_locked-SameIds now s) j);
  by_device_id = ground (arith, SameIds.by_device_id (prune_locked-SameIds now s));
}

assign_after-SameIds :
    (h name : Str) (now : ℕ) (s : Leases)
    → SameIds (prune_locked now s).table (assign h name now s).1.table
unfolding assign rec_of
assign_after-SameIds h name now s = record {
  device_id = λ j. grind (writes, ==ₛ_iff h j);
  by_device_id = grind arith;
}

pub assign-SameIds :
    (h name : Str) (now : ℕ) (s : Leases) → SameIds s.table (assign h name now s).1.table
assign-SameIds h name now s =
    SameIds-trans (prune_locked-SameIds now s) (assign_after-SameIds h name now s)
