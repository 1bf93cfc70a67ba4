-- ===== src/Server/Pool/Laws.antt =====
-- The addresses that the allocator of internal/server/ipalloc.go hands out.
use sulink_lan.Base.{
  ℕ, zero, suc, ◌+◌, ◌-◌, ◌≤◌, ◌<◌, ◌≡◌, ◌≢◌, refl, inl, inr, true, false, ok, err, ◌==◌,
  if◌then◌else◌, arith, Bool-cases,
}
use sulink_lan.Base.Map.{lookup-insert, lookup-delete}
use sulink_lan.Base.Eq.{nat_eq}
use sulink_lan.Server.Pool.{
  IpPool, PoolError, new_pool, vnet_pool, held, in_range, take_ip, alloc_loop, alloc, alloc_at,
  release,
}

pub held-take_ip :
    (p : IpPool) (ip w : ℕ) → held (take_ip p ip) w ≡ (if ip == w then true else held p w)
unfolding held take_ip
held-take_ip p ip w = ground (arith, lookup-insert w ip true p.used)

pub held-release :
    (p : IpPool) (ip w : ℕ) → held (release p ip) w ≡ (if ip == w then false else held p w)
unfolding held release
held-release p ip w = ground (arith, lookup-delete w ip p.used)

alloc_loop_fresh :
    (left ip : ℕ) (p : IpPool) {v : ℕ} {q : IpPool}
    → alloc_loop left ip p ≡ ok (v, q)
    → (ip ≤ v) × (v < ip + left) × (held p v ≡ false) × (q ≡ take_ip p v)
unfolding alloc_loop
alloc_loop_fresh zero ip p e = cc
alloc_loop_fresh (suc left) ip p {v} {q} e =
    ground (arith, alloc_loop_fresh left (suc ip) p {v = v} {q = q})

alloc_loop_below :
    (left ip : ℕ) (p : IpPool) {v : ℕ} {q : IpPool} (w : ℕ)
    → alloc_loop left ip p ≡ ok (v, q)
    → ip ≤ w
    → w < v
    → held p w ≡ true
unfolding alloc_loop
alloc_loop_below zero ip p w e lo hi = cc
alloc_loop_below (suc left) ip p {v} {q} w e lo hi = elim (Bool-cases (ip == w)) [
  | inl here ↦ ground arith
  | inr later ↦ ground (arith, alloc_loop_below left (suc ip) p {v = v} {q = q} w)
]

alloc_loop_full :
    (left ip : ℕ) (p : IpPool) {x : PoolError} (w : ℕ)
    → alloc_loop left ip p ≡ err x
    → ip ≤ w
    → w < ip + left
    → held p w ≡ true
unfolding alloc_loop
alloc_loop_full zero ip p w e lo hi = absurd (omega arith)
alloc_loop_full (suc left) ip p {x} w e lo hi = elim (Bool-cases (ip == w)) [
  | inl here ↦ ground arith
  | inr later ↦ ground (arith, alloc_loop_full left (suc ip) p {x = x} w)
]

-- `alloc` hands out an address of the range that nobody holds, and marks that address alone.
pub alloc_fresh :
    (p : IpPool) {v : ℕ} {q : IpPool}
    → alloc p ≡ ok (v, q)
    → (in_range p v ≡ true) × (held p v ≡ false) × (q ≡ take_ip p v)
unfolding alloc in_range
alloc_fresh p e = ground (arith, alloc_loop_fresh (suc p.end - p.start) p.start p e)

-- Every address of the range below the one that `alloc` hands out is held.
pub alloc_lowest :
    (p : IpPool) (w : ℕ) {v : ℕ} {q : IpPool}
    → alloc p ≡ ok (v, q)
    → in_range p w ≡ true
    → w < v
    → held p w ≡ true
unfolding alloc in_range
alloc_lowest p w e r lt = alloc_loop_below (suc p.end - p.start) p.start p w e (ground arith) lt

-- `alloc` fails only when every address of the range is held.
pub alloc_full :
    (p : IpPool) (w : ℕ) {x : PoolError} → alloc p ≡ err x → in_range p w ≡ true → held p w ≡ true
unfolding alloc in_range
alloc_full p w e r =
    alloc_loop_full (suc p.end - p.start) p.start p w e (ground arith) (ground arith)

-- An address that `alloc` gave out is not given out again while it is held.
pub alloc-alloc_ne :
    (p : IpPool) {v w : ℕ} {q r : IpPool} → alloc p ≡ ok (v, q) → alloc q ≡ ok (w, r) → v ≢ w
alloc-alloc_ne p {v} {w} {q} e f =
    ground (arith, alloc_fresh p e, alloc_fresh q f, held-take_ip p v w)

pub alloc_at_ok :
    (p : IpPool) (ip : ℕ) {q : IpPool}
    → alloc_at p ip ≡ ok q
    → (in_range p ip ≡ true) × (held p ip ≡ false) × (q ≡ take_ip p ip)
unfolding alloc_at
alloc_at_ok p ip e = ground arith

pub new_pool_lem : new_pool ≡ ok vnet_pool
unfolding new_pool
new_pool_lem = refl
