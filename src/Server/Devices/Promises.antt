-- ===== src/Server/Devices/Promises.antt =====
-- internal/server/devices.go: single calls and what a device can expect of them.
use sulink_lan.Base.{
  ℕ, ◌+◌, ◌<◌, ◌≡◌, ◌≢◌, refl, ◌∙◌, true, false, List, [], ◌∷◌, none, some, ok, Str, arith,
}
use sulink_lan.Base.Eq.{nat_eq, str_eq, ==ₛ_iff}
use sulink_lan.Base.Map.{lookup-insert, lookup-delete, keys}
use sulink_lan.Server.Pool.{held}
use sulink_lan.Server.Devices.{
  DeviceTable, Leases, lease_duration, rec_of, set_credential, credential, device_key_by_id, block,
  unblock, is_blocked,
}
use sulink_lan.Server.Devices.Leasing.{
  expired, prune_one, prune_keys, prune_locked, ensure, place, renew, assign,
}
use sulink_lan.Server.Devices.Invariant.Vips.{IsIndexed, prune_locked-IsIndexed}
use sulink_lan.Server.Devices.Invariant.{IdIndex, VipIndex}

ruleset writes = (arith, lookup-insert)

prune_one_live :
    (now : ℕ) (h j : Str) (s : Leases)
    → expired now (rec_of s.table j) ≡ false
    → rec_of (prune_one now h s).table j ≡ rec_of s.table j
unfolding prune_one rec_of
prune_one_live now h j s e = grind (writes, ==ₛ_iff h j)

prune_keys_live :
    (now : ℕ) (hs : List Str) (j : Str) (s : Leases)
    → expired now (rec_of s.table j) ≡ false
    → rec_of (prune_keys now hs s).table j ≡ rec_of s.table j
unfolding prune_keys
prune_keys_live now [] j s e = refl
prune_keys_live now (h ∷ hs) j s e =
    let same = prune_one_live now h j s e in
    prune_keys_live now hs j (prune_one now h s) (rw same e) ∙ same

-- Pruning leaves the record of a device alone whose lease has not run out.
pub prune_locked_live :
    (now : ℕ) (j : Str) (s : Leases)
    → expired now (rec_of s.table j) ≡ false
    → rec_of (prune_locked now s).table j ≡ rec_of s.table j
unfolding prune_locked
prune_locked_live now j s e = prune_keys_live now (keys s.table.by_hwid) j s e

-- A registered device reads its credential back, and its id leads to its key.
pub credential-set_credential :
    (t : DeviceTable) (h name d key : Str)
    → (set_credential t h name d key).0 ≡ ok tt
    → let u = (set_credential t h name d key).1 in
      (credential u h ≡ some (d, key)) × (device_key_by_id u d ≡ key)
unfolding set_credential credential device_key_by_id
credential-set_credential t h name d key e =
    grind (writes, lookup-insert, ==ₛ_iff h h, ==ₛ_iff d d, ==ₛ_iff d [])

-- A device with a credential is never given another one: `SetCredential` fails and the record stays.
pub set_credential_twice :
    (t : DeviceTable) (h name d key : Str)
    → credential t h ≢ none
    → ((set_credential t h name d key).0 ≢ ok tt)
      × (credential (set_credential t h name d key).1 h ≡ credential t h)
unfolding set_credential credential rec_of
set_credential_twice t h name d key e = grind (writes, ==ₛ_iff h h)

-- After `Block` the device is blocked, has no credential, and its old id leads to no key.
block_locks_out :
    (t : DeviceTable) (h : Str)
    → IdIndex t
    → h ≢ []
    → let u = (block t h).0 in
      (is_blocked u h ≡ true)
      × (credential u h ≡ none)
      × (device_key_by_id u (rec_of t h).device_id ≡ [])
unfolding block is_blocked credential device_key_by_id rec_of
block_locks_out t h x n = grind (
  writes,
  lookup-delete,
  ==ₛ_iff h h,
  ==ₛ_iff h [],
  ==ₛ_iff (rec_of t h).device_id (rec_of t h).device_id,
  ==ₛ_iff (rec_of t h).device_id [],
  ==ₛ_iff [] [],
  x.entry h,
)

-- Unblocking lets the device register again, but gives its old credential back to nobody.
unblock-block_forgets :
    (t : DeviceTable) (h : Str)
    → IdIndex t
    → h ≢ []
    → let u = (unblock (block t h).0 h).0 in
      (is_blocked u h ≡ false)
      × (credential u h ≡ none)
      × (device_key_by_id u (rec_of t h).device_id ≡ [])
unfolding block unblock is_blocked credential device_key_by_id rec_of
unblock-block_forgets t h x n = grind (
  writes,
  lookup-delete,
  ==ₛ_iff h h,
  ==ₛ_iff h [],
  ==ₛ_iff (rec_of t h).device_id (rec_of t h).device_id,
  ==ₛ_iff (rec_of t h).device_id [],
  ==ₛ_iff [] [],
  x.entry h,
)

-- After `Block` the device is blocked, has no credential, and its old id leads to no key. `Unblock` then
-- lets it register again, but gives the old credential back to nobody.
pub block-unblock :
    (t : DeviceTable) (h : Str)
    → IdIndex t
    → h ≢ []
    → let u = (block t h).0 in
      let v = (unblock u h).0 in
      ((is_blocked u h ≡ true)
        × (credential u h ≡ none)
        × (device_key_by_id u (rec_of t h).device_id ≡ []))
      × (is_blocked v h ≡ false)
      × (credential v h ≡ none)
      × (device_key_by_id v (rec_of t h).device_id ≡ [])
block-unblock t h x n =
    let y = unblock-block_forgets t h x n in (block_locks_out t h x n, y.0, y.1, y.2)

rec_of-ensure : (h : Str) (s : Leases) → rec_of (ensure h s).table h ≡ rec_of s.table h
unfolding ensure rec_of
rec_of-ensure h s = grind (writes, ==ₛ_iff h h)

rec_of-renew :
    (h name : Str) (now : ℕ) (s : Leases)
    → rec_of (renew h name now s).table h
      ≡ record (rec_of s.table h) { name = name; expire_at = now + lease_duration }
unfolding renew rec_of
rec_of-renew h name now s = grind (writes, ==ₛ_iff h h)

place-held :
    (h : Str) (s : Leases)
    → (rec_of s.table h).vip ≢ 0
    → held s.pool (rec_of s.table h).vip ≡ true
    → place h s ≡ ok s
unfolding place
place-held h s n k = ground arith

-- A device whose lease has not run out is given its own address again, for a full new term.
pub assign_renews :
    (h name : Str) (now : ℕ) (s : Leases)
    → VipIndex s.table s.pool
    → (rec_of s.table h).vip ≢ 0
    → now < (rec_of s.table h).expire_at
    → ((assign h name now s).0 ≡ ok ((rec_of s.table h).vip, now + lease_duration))
      × ((rec_of (assign h name now s).1.table h).vip ≡ (rec_of s.table h).vip)
      × ((rec_of (assign h name now s).1.table h).expire_at ≡ now + lease_duration)
unfolding assign expired
assign_renews h name now s x n live =
    let s1 = prune_locked now s in
    let same : rec_of s1.table h ≡ rec_of s.table h = prune_locked_live now h s (ground arith) in
    let same' : rec_of (ensure h s1).table h ≡ rec_of s.table h = rec_of-ensure h s1 ∙ same in
    let x1 : VipIndex s1.table s1.pool =
      IsIndexed.vips (prune_locked-IsIndexed now (record { vips = x })) in
    ground (
      arith,
      same,
      same',
      x1.kept h,
      place-held h (ensure h s1),
      rec_of-renew h name now (ensure h s1),
    )
