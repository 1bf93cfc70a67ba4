-- ===== src/Server/Hub/Sweeping.antt =====
-- internal/server/server.go: the sweeper and the devices that are online.
use sulink_lan.Base.{
  ℕ, ◌≡◌, ◌≢◌, ◌∙◌, refl, true, false, List, [], ◌∷◌, none, some, Str, arith, Has, inl, inr,
  Bool-cases, if_cases, ltb, ap,
}
use sulink_lan.Base.Eq.{nat_eq, str_eq, ◌==ₛ◌, ==ₛ_iff}
use sulink_lan.Base.Map.{Map, keys, lookup, lookup-insert}
use sulink_lan.Protocol.Packet.{Aead}
use sulink_lan.Protocol.Credentials.{Primitives}
use sulink_lan.Server.Pool.{held}
use sulink_lan.Server.Pool.Laws.{held-release}
use sulink_lan.Server.Devices.{DeviceRecord, DeviceTable, Leases, rec_of}
use sulink_lan.Server.Devices.Leasing.{
  expired, give_up, prune_one, prune_keys, prune_locked, prune, count_expired,
}
use sulink_lan.Server.Hub.{Server}
use sulink_lan.Server.Hub.Events.{sweeps, step}

held-prune_one :
    (now : ℕ) (k : Str) (s : Leases) (v : ℕ)
    → held s.pool v ≡ false
    → held (prune_one now k s).pool v ≡ false
unfolding prune_one give_up
held-prune_one now k s v e = grind (arith, held-release s.pool (rec_of s.table k).vip v)

held-prune_keys :
    (now : ℕ) (hs : List Str) (s : Leases) (v : ℕ)
    → held s.pool v ≡ false
    → held (prune_keys now hs s).pool v ≡ false
unfolding prune_keys
held-prune_keys now [] s v e = e
held-prune_keys now (k ∷ hs) s v e =
    held-prune_keys now hs (prune_one now k s) v (held-prune_one now k s v e)

prune_one_gives_up :
    (now : ℕ) (h : Str) (s : Leases) (r : DeviceRecord)
    → rec_of s.table h ≡ r
    → expired now r ≡ true
    → held (prune_one now h s).pool r.vip ≡ false
unfolding prune_one give_up rec_of
prune_one_gives_up now h s r e x = grind (arith, held-release s.pool r.vip r.vip)

prune_one_others :
    (now : ℕ) (k h : Str) (s : Leases)
    → k ≢ h
    → rec_of (prune_one now k s).table h ≡ rec_of s.table h
unfolding prune_one rec_of
prune_one_others now k h s ne = grind (arith, lookup-insert, ==ₛ_iff k h)

same_key : (k h : Str) → (k ==ₛ h) ≡ true → k ≡ h
same_key k h e = grind (arith, ==ₛ_iff k h)

different_key : (k h : Str) → (k ==ₛ h) ≡ false → k ≢ h
different_key k h e q = grind (arith, ==ₛ_iff k h)

Has-tail : (k h : Str) (hs : List Str) → (k ==ₛ h) ≡ false → Has h (k ∷ hs) → Has h hs
Has-tail k h hs e (inl q) = absurd (different_key k h e q)
Has-tail k h hs e (inr t) = t

prune_keys_gives_up :
    (now : ℕ) (hs : List Str) (h : Str) (s : Leases) (r : DeviceRecord)
    → Has h hs
    → rec_of s.table h ≡ r
    → expired now r ≡ true
    → held (prune_keys now hs s).pool r.vip ≡ false
unfolding prune_keys
prune_keys_gives_up now [] h s r has e x = absurd has
prune_keys_gives_up now (k ∷ hs) h s r has e x = elim (Bool-cases (k ==ₛ h)) [
  | inl same ↦
      held-prune_keys now hs (prune_one now k s) r.vip
        (prune_one_gives_up now k s r (ap (rec_of s.table) (same_key k h same) ∙ e) x)
  | inr other ↦
      prune_keys_gives_up now hs h (prune_one now k s) r (Has-tail k h hs other has)
        (prune_one_others now k h s (different_key k h other) ∙ e) x
]

Has-keys : (m : Map Str DeviceRecord) (h : Str) → lookup h m ≢ none → Has h (keys m)
unfolding lookup
Has-keys [] h ne = grind arith
Has-keys ((k, r) ∷ m) h ne = grind (arith, ==ₛ_iff k h, Has-keys m h)

expired_stored :
    (t : DeviceTable) (h : Str) (now : ℕ)
    → expired now (rec_of t h) ≡ true
    → lookup h t.by_hwid ≢ none
unfolding expired rec_of
expired_stored t h now e q = grind arith

prune_gives_up :
    (now : ℕ) (h : Str) (s : Leases)
    → expired now (rec_of s.table h) ≡ true
    → held (prune now s).1.pool (rec_of s.table h).vip ≡ false
unfolding prune prune_locked
prune_gives_up now h s x =
    let gone =
      prune_keys_gives_up now (keys s.table.by_hwid) h s (rec_of s.table h)
        (Has-keys s.table.by_hwid h (expired_stored s.table h now x)) refl x in
    if_cases (λ (u : Leases). held u.pool (rec_of s.table h).vip ≡ false)
      (ltb 0 (count_expired now (keys s.table.by_hwid) s.table)) (λ _. gone) λ _. gone

module _ (p : Primitives) (aead : Aead) where
  -- The sweeper takes the address of an expired lease back although the device is online under it:
  -- the device stays listed, and the pool may give the address to another device.
  pub sweeps_online :
      (s : Server) (h : Str) (id now : ℕ)
      → lookup (rec_of s.leases.table h).vip s.devices ≡ some id
      → expired now (rec_of s.leases.table h) ≡ true
      → (lookup (rec_of s.leases.table h).vip (step p aead (sweeps now) s).devices ≡ some id)
        × (held (step p aead (sweeps now) s).leases.pool (rec_of s.leases.table h).vip ≡ false)
  unfolding step
  sweeps_online s h id now online x = (online, prune_gives_up now h s.leases x)
