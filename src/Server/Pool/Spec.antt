-- ===== src/Server/Pool/Spec.antt =====
-- internal/server/ipalloc.go: what `Alloc` promises, without its loop.
use sulink_lan.Base.{ℕ, ◌<◌, ◌≡◌, true, false, Result, ok, err, ◌==◌, if◌then◌else◌, arith, refl}
use sulink_lan.Server.Pool.{IpPool, PoolError, held, in_range, take_ip, alloc}
use sulink_lan.Server.Pool.Laws.{alloc_fresh, alloc_lowest, alloc_full, held-take_ip}

-- The address is the lowest free one of the range.
pub record IsLeastFree (p : IpPool) (v : ℕ) : Type 0 where
  pub assignable : in_range p v ≡ true
  pub free : held p v ≡ false
  pub least : (w : ℕ) → in_range p w ≡ true → w < v → held p w ≡ true

-- An allocator gives the lowest free address and marks it alone, or fails because none is free.
pub data AllocSpec (p : IpPool) : Result PoolError (ℕ × IpPool) → Type 0 where
  gives :
      (v : ℕ) (q : IpPool)
      → IsLeastFree p v
      → ((w : ℕ) → held q w ≡ (if v == w then true else held p w))
      → ((w : ℕ) → in_range q w ≡ in_range p w)
      → AllocSpec p (ok (v, q))
  full : (e : PoolError) → ((w : ℕ) → in_range p w ≡ true → held p w ≡ true) → AllocSpec p (err e)

taken : (p : IpPool) (v : ℕ) (q : IpPool) → alloc p ≡ ok (v, q) → AllocSpec p (ok (v, q))
unfolding in_range take_ip
taken p v q e =
    let fresh = alloc_fresh p {v = v} {q = q} e in
    gives v q
      (record {
        assignable = fresh.0;
        free = fresh.1;
        least = λ w r lt. alloc_lowest p w {v = v} {q = q} e r lt;
      })
      (λ w. ground (arith, fresh.2, held-take_ip p v w)) (λ w. ground (arith, fresh.2))

split : (p : IpPool) (r : Result PoolError (ℕ × IpPool)) → alloc p ≡ r → AllocSpec p r
split p (err e) q = full e (λ w r. alloc_full p w {x = e} q r)
split p (ok x) q = taken p x.0 x.1 q

-- `alloc` implements this specification: it hands out the lowest free address of the range and marks that
-- address alone, or fails, and then every address of the range is held.
pub alloc-AllocSpec : (p : IpPool) → AllocSpec p (alloc p)
alloc-AllocSpec p = split p (alloc p) refl
