-- ===== src/Server/Hub/Start.antt =====
-- internal/server/ipalloc.go: the start of the range under the operations of the server.
use sulink_lan.Base.{
  ℕ, ◌<◌, ◌≤◌, ◌≡◌, ◌≢◌, ◌∙◌, refl, List, [], ◌∷◌, Result, ok, err, Str, arith, At, result_cases,
}
use sulink_lan.Base.Eq.{nat_eq, str_eq, ==ₛ_iff}
use sulink_lan.Base.Map.{lookup-insert, keys}
use sulink_lan.Server.Pool.{IpPool, PoolError, alloc, in_range, take_ip, release, alloc_at}
use sulink_lan.Server.Pool.Laws.{alloc_fresh, alloc_at_ok}
use sulink_lan.Server.Devices.{Leases, rec_of}
use sulink_lan.Server.Devices.Leasing.{
  give_vip, give_up, prune_one, prune_keys, prune_locked, prune, ensure, place, renew, assign,
  set_ip, set_vip, move_vip,
}
use sulink_lan.Server.Hub.{alloc_vip}

start_of : Leases → ℕ
start_of s = s.pool.start

abbrev Positive : Leases → Type 0
Positive s = 0 < s.pool.start

prune_keys_start :
    (now : ℕ) (hs : List Str) (s : Leases) → (prune_keys now hs s).pool.start ≡ s.pool.start
unfolding prune_keys prune_one give_up release
prune_keys_start now [] s = refl
prune_keys_start now (h ∷ hs) s = grind (arith, prune_keys_start now hs (prune_one now h s))

pub prune_start : (now : ℕ) (s : Leases) → (prune now s).1.pool.start ≡ s.pool.start
unfolding prune prune_locked
prune_start now s = grind (arith, prune_keys_start now (keys s.table.by_hwid) s)

alloc_start :
    (p : IpPool) (x : ℕ × IpPool) → alloc p ≡ ok x → (x.1.start ≡ p.start) × (p.start ≤ x.0)
unfolding in_range take_ip
alloc_start p x e = ground (arith, alloc_fresh p {v = x.0} {q = x.1} e)

alloc_at_start : (p : IpPool) (v : ℕ) (q : IpPool) → alloc_at p v ≡ ok q → q.start ≡ p.start
unfolding take_ip
alloc_at_start p v q e = ground (arith, alloc_at_ok p v {q = q} e)

place_start :
    (h : Str) (s : Leases) (u : Leases)
    → 0 < s.pool.start
    → place h s ≡ ok u
    → (u.pool.start ≡ s.pool.start) × ((rec_of u.table h).vip ≢ 0)
unfolding place give_vip rec_of in_range take_ip
place_start h s u z e =
    grind (arith, alloc_start s.pool, alloc_at_start s.pool, lookup-insert, ==ₛ_iff h h)

renew_vip :
    (h name : Str) (now : ℕ) (s : Leases)
    → (rec_of (renew h name now s).table h).vip ≡ (rec_of s.table h).vip
unfolding renew rec_of
renew_vip h name now s = grind (arith, lookup-insert, ==ₛ_iff h h)

-- The state in which `Assign` looks for an address.
ready : Str → ℕ → Leases → Leases
ready h now s = ensure h (prune_locked now s)

ready_start : (h : Str) (now : ℕ) (s : Leases) → (ready h now s).pool.start ≡ s.pool.start
unfolding ready ensure prune_locked
ready_start h now s = prune_keys_start now (keys s.table.by_hwid) s

abbrev Outcome : Type 0
Outcome = Result PoolError (ℕ × ℕ) × Leases

pub assign_start :
    (h name : Str) (now : ℕ) (s : Leases)
    → 0 < s.pool.start
    → (assign h name now s).1.pool.start ≡ s.pool.start
unfolding assign ready renew
assign_start h name now s z =
    let same = ready_start h now s in
    let r : At {A = Outcome} (λ o. o.1.pool.start) (λ n. n ≡ s.pool.start) (assign h name now s) =
      result_cases (At (λ o. o.1.pool.start) (λ n. n ≡ s.pool.start)) (place h (ready h now s))
        (λ e f. record { holds = same })
        λ u f. record {
          holds = (place_start h (ready h now s) u (ground (arith, same)) f).0 ∙ same;
        } in
    r.holds

unfoldable pub NotZero : Result PoolError (ℕ × ℕ) → Type 0
NotZero (err e) = Unit
NotZero (ok x) = x.0 ≢ 0

pub assign_vip :
    (h name : Str) (now : ℕ) (s : Leases) → 0 < s.pool.start → NotZero (assign h name now s).0
unfolding assign ready NotZero
assign_vip h name now s z =
    let same = ready_start h now s in
    let r : At {A = Outcome} (λ o. o.0) NotZero (assign h name now s) =
      result_cases (At (λ o. o.0) NotZero) (place h (ready h now s)) (λ e f. record { holds = tt })
        λ u f. record {
          holds = ground (
            arith,
            place_start h (ready h now s) u (ground (arith, same)) f,
            renew_vip h name now u,
          );
        } in
    r.holds

pub alloc_vip_start :
    (h name : Str) (now : ℕ) (s : Leases)
    → 0 < s.pool.start
    → (alloc_vip h name now s).1.pool.start ≡ s.pool.start
unfolding alloc_vip
alloc_vip_start h name now s z = grind (arith, alloc_start s.pool, assign_start h name now s)

pub alloc_vip_ne :
    (h name : Str) (now : ℕ) (s : Leases) → 0 < s.pool.start → NotZero (alloc_vip h name now s).0
unfolding alloc_vip NotZero
alloc_vip_ne h name now s z = grind (arith, alloc_start s.pool, assign_vip h name now s)

pub set_ip_start : (h : Str) (vip : ℕ) (s : Leases) → (set_ip h vip s).1.pool.start ≡ s.pool.start
unfolding set_ip set_vip move_vip give_vip take_ip release
set_ip_start h vip s = grind (arith, alloc_at_start s.pool vip)
