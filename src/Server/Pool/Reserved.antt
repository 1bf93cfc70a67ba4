-- ===== src/Server/Pool/Reserved.antt =====
-- internal/server/ipalloc.go: the addresses that no history of the pool hands out.
use sulink_lan.Base.{ℕ, ◌+◌, ◌-◌, ◌^◌, ◌<◌, ◌≡◌, refl, true, List, [], ◌∷◌, Result, ok, err, arith}
use sulink_lan.Server.Pool.{
  IpPool, PoolError, new_pool, server_vip, in_range, take_ip, alloc, alloc_at, release,
}
use sulink_lan.Server.Pool.Laws.{alloc_fresh, alloc_at_ok}

-- A call that changes the pool.
pub data PoolCall : Type 0 where
  allocates : PoolCall
  requests releases : ℕ → PoolCall

after_alloc : Result PoolError (ℕ × IpPool) → IpPool → IpPool
after_alloc (ok (v, q)) p = q
after_alloc (err e) p = p

after_request : Result PoolError IpPool → IpPool → IpPool
after_request (ok q) p = q
after_request (err e) p = p

unfoldable pub pool_step : PoolCall → IpPool → IpPool
unfolding after_alloc after_request
pool_step allocates p = after_alloc (alloc p) p
pool_step (requests ip) p = after_request (alloc_at p ip) p
pool_step (releases ip) p = release p ip

unfoldable pub pool_run : List PoolCall → IpPool → IpPool
pool_run [] p = p
pool_run (c ∷ cs) p = pool_run cs (pool_step c p)

-- The pool hands the address out.
pub data HandsOut (p : IpPool) (v : ℕ) : Type 0 where
  allocated : (q : IpPool) → alloc p ≡ ok (v, q) → HandsOut p v
  requested : (q : IpPool) → alloc_at p v ≡ ok q → HandsOut p v

-- The two pools have one range.
record SameRange (p q : IpPool) : Type 0 where
  net : q.net_addr ≡ p.net_addr
  first : q.start ≡ p.start
  last : q.end ≡ p.end

alloc-SameRange :
    (p : IpPool) (r : Result PoolError (ℕ × IpPool)) → alloc p ≡ r → SameRange p (after_alloc r p)
unfolding after_alloc take_ip
alloc-SameRange p (err e) q = record { net = refl; first = refl; last = refl }
alloc-SameRange p (ok (v, q)) e =
    let same = (alloc_fresh p {v = v} {q = q} e).2 in
    record { net = cc same; first = cc same; last = cc same }

request-SameRange :
    (p : IpPool) (ip : ℕ) (r : Result PoolError IpPool)
    → alloc_at p ip ≡ r
    → SameRange p (after_request r p)
unfolding after_request take_ip
request-SameRange p ip (err e) q = record { net = refl; first = refl; last = refl }
request-SameRange p ip (ok q) e =
    let same = (alloc_at_ok p ip {q = q} e).2 in
    record { net = cc same; first = cc same; last = cc same }

step-SameRange : (c : PoolCall) (p : IpPool) → SameRange p (pool_step c p)
unfolding pool_step release
step-SameRange allocates p = alloc-SameRange p (alloc p) refl
step-SameRange (requests ip) p = request-SameRange p ip (alloc_at p ip) refl
step-SameRange (releases ip) p = record { net = refl; first = refl; last = refl }

run-SameRange : (cs : List PoolCall) (p : IpPool) → SameRange p (pool_run cs p)
unfolding pool_run
run-SameRange [] p = record { net = refl; first = refl; last = refl }
run-SameRange (c ∷ cs) p =
    let x = step-SameRange c p in
    let y = run-SameRange cs (pool_step c p) in
    record { net = cc (x.net, y.net); first = cc (x.first, y.first); last = cc (x.last, y.last) }

handed_in_range : (p : IpPool) (v : ℕ) → HandsOut p v → in_range p v ≡ true
handed_in_range p v (allocated q e) = (alloc_fresh p {v = v} {q = q} e).0
handed_in_range p v (requested q e) = (alloc_at_ok p v {q = q} e).0

-- After any history of allocations, requests and releases of a new pool, neither `Alloc` nor `AllocAt` hands
-- out the network address, the server's own address or the broadcast address, or anything outside them.
pub pool_run_reserved :
    (p : IpPool) (cs : List PoolCall) (v : ℕ)
    → new_pool ≡ ok p
    → HandsOut (pool_run cs p) v
    → (p.net_addr < v) × (server_vip p < v) × (v < p.net_addr + 2 ^ 24 - 1)
unfolding in_range server_vip new_pool
pool_run_reserved p cs v e h =
    let x = run-SameRange cs p in
    let r = handed_in_range (pool_run cs p) v h in ground (arith, e, x.net, x.first, x.last, r)
