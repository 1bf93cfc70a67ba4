-- ===== src/Server/Devices/Terms.antt =====
-- A lease of internal/server/devices.go over a whole history of calls.
use sulink_lan.Base.{
  ℕ, ◌+◌, ◌<◌, ◌≤◌, ◌≡◌, ◌≢◌, ◌∙◌, false, List, [], ◌∷◌, Str, ◌==ₛ◌, arith, All, Bool-cases, inl,
  inr,
}
use sulink_lan.Base.Eq.{str_eq, ==ₛ_iff}
use sulink_lan.Base.Map.{lookup-insert}
use sulink_lan.Server.Devices.{DeviceTable, Leases, lease_duration, rec_of}
use sulink_lan.Server.Devices.Leasing.{expired, prune_locked, prune, assign, set_ip}
use sulink_lan.Server.Devices.Invariant.Frames
use sulink_lan.Server.Devices.Promises.{prune_locked_live, assign_renews}
use sulink_lan.Server.Devices.Runs.{
  Call, assigns, prunes, sets_ip, sets_credential, clears_credential, blocks, unblocks,
  sets_forward, step, run, IsValid, step-IsValid,
}

ruleset writes = (arith, lookup-insert)

-- The calls that leave the lease of `h` alone: they come in the 31 days before `until`, and do
-- not move `h`.
abbrev pub Spares : Str → ℕ → Call → Type 0
Spares h until (assigns j name now) = (now < until) × (until ≤ now + lease_duration)
Spares h until (prunes now) = now < until
Spares h until (sets_ip j vip) = j ≢ h
Spares h until (sets_credential j name d key) = Unit
Spares h until (clears_credential j) = Unit
Spares h until (blocks j) = Unit
Spares h until (unblocks j) = Unit
Spares h until (sets_forward j rules) = Unit

-- The device holds the address `v`, at least up to `until`.
pub record Holds (h : Str) (v until : ℕ) (t : DeviceTable) : Type 0 where
  pub vip : (rec_of t h).vip ≡ v
  pub lasts : until ≤ (rec_of t h).expire_at

SameVips-Holds :
    {t u : DeviceTable} (h : Str) (v until : ℕ)
    → Frames.SameVips t u
    → Holds h v until t
    → Holds h v until u
SameVips-Holds h v until s x = record {
  vip = s.vip h ∙ x.vip;
  lasts = ground (arith, s.expire_at h, x.lasts);
}

assign_other :
    (j h name : Str) (now : ℕ) (s : Leases)
    → j ≢ h
    → rec_of (assign j name now s).1.table h ≡ rec_of (prune_locked now s).table h
unfolding assign rec_of
assign_other j h name now s n = grind (writes, ==ₛ_iff j h)

set_ip_other :
    (j h : Str) (vip : ℕ) (s : Leases)
    → j ≢ h
    → rec_of (set_ip j vip s).1.table h ≡ rec_of s.table h
unfolding set_ip rec_of
set_ip_other j h vip s n = grind (writes, ==ₛ_iff j h)

prune_live :
    (now : ℕ) (h : Str) (s : Leases)
    → expired now (rec_of s.table h) ≡ false
    → rec_of (prune now s).1.table h ≡ rec_of s.table h
unfolding prune rec_of
prune_live now h s e = ground (arith, prune_locked_live now h s e)

step-Holds :
    (c : Call) (h : Str) (v until : ℕ) {s : Leases}
    → IsValid s
    → v ≢ 0
    → Spares h until c
    → Holds h v until s.table
    → Holds h v until (step c s).table
unfolding step expired
step-Holds (assigns j name now) h v until {s} x n early k = elim (Bool-cases (j ==ₛ h)) [
  | inl same ↦
      let own : j ≡ h = (==ₛ_iff j h).0 same in
      let (_, vip, lasts) = assign_renews h name now s x.vips (ground arith) (ground arith) in
      rw own (record { vip = vip ∙ k.vip; lasts = omega (arith, lasts, early.1) })
  | inr other ↦
      let kept =
        assign_other j h name now s (ground (arith, ==ₛ_iff j h))
        ∙ prune_locked_live now h s (ground arith) in
      record { vip = ground arith; lasts = ground arith }
]
step-Holds (prunes now) h v until {s} x n early k =
    let kept = prune_live now h s (ground arith) in
    record { vip = ground arith; lasts = ground arith }
step-Holds (sets_ip j vip) h v until {s} x n other k =
    let kept = set_ip_other j h vip s other in record { vip = ground arith; lasts = ground arith }
step-Holds (sets_credential j name d key) h v until {s} x n _ k =
    SameVips-Holds h v until (Frames.set_credential-SameVips s.table j name d key) k
step-Holds (clears_credential j) h v until {s} x n _ k =
    SameVips-Holds h v until (Frames.clear_credential-SameVips s.table j) k
step-Holds (blocks j) h v until {s} x n _ k =
    SameVips-Holds h v until (Frames.block-SameVips s.table j) k
step-Holds (unblocks j) h v until {s} x n _ k =
    SameVips-Holds h v until (Frames.unblock-SameVips s.table j) k
step-Holds (sets_forward j rules) h v until {s} x n _ k =
    SameVips-Holds h v until (Frames.set_forward-SameVips s.table j rules) k

-- A device that was given an address keeps it through every history of calls that comes in the
-- 31 days before its lease runs out and that does not move this very device.
pub run-Holds :
    (cs : List Call) (h : Str) (v until : ℕ) {s : Leases}
    → IsValid s
    → v ≢ 0
    → All (Spares h until) cs
    → Holds h v until s.table
    → Holds h v until (run cs s).table
unfolding run
run-Holds [] h v until x n a k = k
run-Holds (c ∷ cs) h v until x n a k =
    run-Holds cs h v until (step-IsValid c x) n a.1 (step-Holds c h v until x n a.0 k)
