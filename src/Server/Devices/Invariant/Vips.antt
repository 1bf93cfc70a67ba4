-- ===== src/Server/Devices/Invariant/Vips.antt =====
-- The address index of internal/server/devices.go under the operations on addresses.
use sulink_lan.Base.{
  ℕ, ◌≡◌, ◌≢◌, refl, true, false, List, [], ◌∷◌, some, Result, ok, err, OnOk, failed, done,
  on_ok_cases, result_cases, if_cases, option_cases, At, ◌==◌, Str, ◌==ₛ◌, arith, not,
}
use mathlib.Core.Path.{subst}
use sulink_lan.Base.Eq.{nat_eq, str_eq, ==ₛ_iff}
use sulink_lan.Base.Map.{lookup, lookup-insert, lookup-delete, keys, delete}
use sulink_lan.Server.Pool.{IpPool, PoolError, held, in_range, take_ip, release, alloc, alloc_at}
use sulink_lan.Server.Pool.Laws.{held-take_ip, held-release, alloc_fresh, alloc_at_ok}
use sulink_lan.Server.Devices.{DeviceRecord, DeviceTable, Leases, rec_of, DeviceError}
use sulink_lan.Server.Devices.Leasing.{
  expired, prune_one, prune_keys, prune_locked, give_vip, place, renew, ensure, assign, move_vip,
  set_ip, set_vip,
}
use sulink_lan.Server.Devices.Invariant.{VipIndex, rec_of-lookup}
use sulink_lan.Server.Devices.Invariant.Writes.{
  VipIndex-put, VipIndex-give_vip, VipIndex-drop, VipIndex-save,
}

-- The index of a table with its pool.
pub record IsIndexed (s : Leases) : Type 0 where
  pub vips : VipIndex s.table s.pool

expired_vip : (now : ℕ) (r : DeviceRecord) → expired now r ≡ true → r.vip ≢ 0
unfolding expired
expired_vip now r e z = ground arith

prune_one-IsIndexed : (now : ℕ) (h : Str) {s : Leases} → IsIndexed s → IsIndexed (prune_one now h s)
unfolding prune_one
prune_one-IsIndexed now h {s} x =
    if_cases IsIndexed (expired now (rec_of s.table h))
      (λ e. record { vips = VipIndex-drop h _ x.vips refl (expired_vip now (rec_of s.table h) e) })
      λ _. x

prune_keys-IsIndexed :
    (now : ℕ) (hs : List Str) {s : Leases} → IsIndexed s → IsIndexed (prune_keys now hs s)
unfolding prune_keys
prune_keys-IsIndexed now [] x = x
prune_keys-IsIndexed now (h ∷ hs) x = prune_keys-IsIndexed now hs (prune_one-IsIndexed now h x)

pub prune_locked-IsIndexed : (now : ℕ) {s : Leases} → IsIndexed s → IsIndexed (prune_locked now s)
unfolding prune_locked
prune_locked-IsIndexed now {s} x = prune_keys-IsIndexed now (keys s.table.by_hwid) x

pub ensure-IsIndexed : (h : Str) {s : Leases} → IsIndexed s → IsIndexed (ensure h s)
unfolding ensure
ensure-IsIndexed h {s} x = record { vips = VipIndex-put h (rec_of s.table h) x.vips refl }

pub renew-IsIndexed :
    (h name : Str) (now : ℕ) {s : Leases} → IsIndexed s → IsIndexed (renew h name now s)
unfolding renew
renew-IsIndexed h name now x = record { vips = VipIndex-save (VipIndex-put h _ x.vips refl) }

give_fresh :
    (h : Str) (r : DeviceRecord) (s : Leases) {v : ℕ} {q : IpPool}
    → VipIndex s.table s.pool
    → (rec_of s.table h).vip ≡ 0
    → alloc s.pool ≡ ok (v, q)
    → IsIndexed (give_vip h r v q s.table)
unfolding give_vip take_ip
give_fresh h r s {v} {q} x none_yet e =
    let (fits, free, taken) = alloc_fresh s.pool e in
    rw taken (record { vips = VipIndex-give_vip h r v x none_yet free fits })

-- A device that `place` serves is given a free address, or keeps its own: with exact indices the
-- branch that looks for an address outside the pool is never taken.
place-OnOk : (h : Str) (s : Leases) → IsIndexed s → OnOk IsIndexed (place h s)
unfolding place
place-OnOk h s x =
    if_cases (OnOk IsIndexed) ((rec_of s.table h).vip == 0)
      (λ none_yet.
        result_cases (OnOk IsIndexed) (alloc s.pool) (λ e _. failed e)
          λ r e. done _ (give_fresh h (rec_of s.table h) s x.vips (ground arith) e))
      λ has.
        if_cases (OnOk IsIndexed) (held s.pool (rec_of s.table h).vip) (λ _. done _ x)
          λ lost. absurd (ground (arith, x.vips.kept h))

-- `Assign` keeps the address index, whether it succeeds or the pool is exhausted.
pub assign-IsIndexed :
    (h name : Str) (now : ℕ) (s : Leases) → IsIndexed s → IsIndexed (assign h name now s).1
unfolding assign
assign-IsIndexed h name now s x =
    let r : At (λ q. q.1) IsIndexed (assign h name now s) =
      on_ok_cases (At {A = Result PoolError (ℕ × ℕ) × Leases} (λ q. q.1) IsIndexed)
        (place-OnOk h (ensure h (prune_locked now s)) x1) (λ e. record { holds = x1 })
        λ s2 x2. record { holds = renew-IsIndexed h name now x2 } in
    r.holds
  where
    x1 : IsIndexed (ensure h (prune_locked now s))
    x1 = ensure-IsIndexed h (prune_locked-IsIndexed now x)

-- `SetIP` moves a device with an address to one that nobody holds.
VipIndex-swap :
    {t : DeviceTable} {p : IpPool} (h : Str) (r : DeviceRecord) (vip : ℕ)
    → VipIndex t p
    → (rec_of t h).vip ≢ 0
    → held p vip ≡ false
    → in_range p vip ≡ true
    → let old = (rec_of t h).vip in
      let q = release (take_ip p vip) old in
      VipIndex (give_vip h r vip q (record t { by_vip = delete old t.by_vip })).table q
unfolding give_vip rec_of in_range take_ip release
VipIndex-swap {t} {p} h r vip x has free fits = record {
  positive = x.positive;
  index = λ v j l. ground (
    arith,
    lookup-insert j h (record r { vip = vip }) t.by_hwid,
    lookup-insert v vip h (delete (rec_of t h).vip t.by_vip),
    lookup-delete v (rec_of t h).vip t.by_vip,
    ==ₛ_iff h j,
    x.positive,
    x.index v j,
    x.entry h,
  );
  entry = λ j n. ground (
    arith,
    lookup-insert j h (record r { vip = vip }) t.by_hwid,
    lookup-insert vip vip h (delete (rec_of t h).vip t.by_vip),
    lookup-insert (rec_of t j).vip vip h (delete (rec_of t h).vip t.by_vip),
    lookup-delete (rec_of t j).vip (rec_of t h).vip t.by_vip,
    ==ₛ_iff h j,
    x.entry j,
    x.entry h,
    x.kept j,
  );
  kept = λ j n. ground (
    arith,
    lookup-insert j h (record r { vip = vip }) t.by_hwid,
    held-take_ip p vip vip,
    held-take_ip p vip (rec_of t j).vip,
    held-release (take_ip p vip) (rec_of t h).vip vip,
    held-release (take_ip p vip) (rec_of t h).vip (rec_of t j).vip,
    ==ₛ_iff h j,
    x.kept j,
    x.kept h,
    x.entry j,
    x.entry h,
  );
}

move_vip-IsIndexed :
    {t : DeviceTable} {p : IpPool} (h : Str) (vip : ℕ)
    → VipIndex t p
    → held p vip ≡ false
    → in_range p vip ≡ true
    → IsIndexed (move_vip h (rec_of t h) vip (take_ip p vip) t)
unfolding move_vip take_ip
move_vip-IsIndexed {t} {p} h vip x free fits =
    if_cases IsIndexed ((rec_of t h).vip == 0)
      (λ z. record { vips = VipIndex-give_vip h (rec_of t h) vip x (ground arith) free fits })
      λ n. record { vips = VipIndex-swap h (rec_of t h) vip x (ground arith) free fits }

-- The table that `SetIP` leaves behind its answer.
abbrev Answer : Result DeviceError (Unit {0}) × Leases → Type 0
Answer = At (λ q. q.1) IsIndexed

set_vip-Answer :
    (h : Str) (vip : ℕ) (s : Leases) → IsIndexed s → Answer (set_vip h (rec_of s.table h) vip s)
unfolding set_vip
set_vip-Answer h vip s x =
    if_cases Answer ((rec_of s.table h).vip == vip) (λ _. record { holds = x })
      λ _.
        result_cases Answer (alloc_at s.pool vip) (λ _ _. record { holds = x })
          λ q e.
            let (fits, free, taken) = alloc_at_ok s.pool vip e in
            record {
              holds = record {
                vips =
                    VipIndex-save
                      (rw taken (IsIndexed.vips (move_vip-IsIndexed h vip x.vips free fits)));
              };
            }

-- `SetIP` keeps the address index on every branch.
pub set_ip-IsIndexed : (h : Str) (vip : ℕ) (s : Leases) → IsIndexed s → IsIndexed (set_ip h vip s).1
unfolding set_ip
set_ip-IsIndexed h vip s x =
    let r : Answer (set_ip h vip s) =
      if_cases Answer (h ==ₛ []) (λ _. same)
        λ _.
          option_cases Answer (lookup h s.table.by_hwid) (λ _. same)
            λ r found.
              if_cases Answer (not (in_range s.pool vip)) (λ _. same)
                λ _.
                  option_cases Answer (lookup vip s.table.by_vip) (λ _. write r found)
                    λ owner _. if_cases Answer (owner ==ₛ h) (λ _. write r found) λ _. same in
    r.holds
  where
    same : {e : DeviceError} → Answer (err e, s)
    same = record { holds = x }

    write : (r : DeviceRecord) → lookup h s.table.by_hwid ≡ some r → Answer (set_vip h r vip s)
    write r found =
        subst (λ a. Answer (set_vip h a vip s)) (rec_of-lookup s.table h found)
          (set_vip-Answer h vip s x)
