-- ===== src/Server/Pool/Tests.antt =====
-- The allocator of internal/server/ipalloc.go at concrete pools.
use sulink_lan.Base.{List, ◌+◌, ◌-◌, ◌^◌, ◌<◌, ◌≡◌, refl, true, ok, err, [], ◌∷◌}
use sulink_lan.Base.Map.{lookup, insert, delete}
use sulink_lan.Server.Pool.{
  IpPool, vnet_pool, server_vip, held, in_range, alloc, alloc_at, release, alloc_loop, take_ip,
  exhausted,
}
use sulink_lan.Server.Pool.Laws.{new_pool_lem}
use sulink_lan.Server.Pool.Reserved.{
  PoolCall, allocates, requests, releases, HandsOut, allocated, pool_step, pool_run,
  pool_run_reserved,
}
use sulink_lan.Server.Pool.Spec.{AllocSpec, alloc-AllocSpec}

-- A pool of four addresses, of which the first two are held.
abbrev small : IpPool
small = record { net_addr = 0; start = 2; end = 5; used = (2, true) ∷ (3, true) ∷ [] }

abbrev full : IpPool
full = record { net_addr = 0; start = 2; end = 3; used = (2, true) ∷ (3, true) ∷ [] }

small_gives : alloc small ≡ ok (4, take_ip small 4)
unfolding alloc alloc_loop held lookup
small_gives = refl

full_fails : alloc full ≡ err exhausted
unfolding alloc alloc_loop held lookup
full_fails = refl

alloc-AllocSpec_example : AllocSpec small (alloc small)
alloc-AllocSpec_example = alloc-AllocSpec small

-- The first address is taken, another one is asked for, and the first is given back.
abbrev calls : List PoolCall
calls = allocates ∷ requests 167772170 ∷ releases 167772162 ∷ []

first_again : HandsOut (pool_run calls vnet_pool) 167772162
unfolding pool_run pool_step alloc alloc_at alloc_loop held in_range lookup insert delete release
    take_ip
first_again = allocated (take_ip (pool_run calls vnet_pool) 167772162) refl

pool_run_reserved_example :
    (vnet_pool.net_addr < 167772162)
    × (server_vip vnet_pool < 167772162)
    × (167772162 < vnet_pool.net_addr + 2 ^ 24 - 1)
pool_run_reserved_example = pool_run_reserved vnet_pool calls 167772162 new_pool_lem first_again
