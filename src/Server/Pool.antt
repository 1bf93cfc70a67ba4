-- ===== src/Server/Pool.antt =====
-- internal/server/ipalloc.go: the allocator of virtual addresses.
pub mod Laws
pub mod Spec
pub mod Reserved
mod Tests
use Prim.Native.Nat.{bit_or}
use sulink_lan.Base.{
  ℕ, zero, suc, ◌+◌, ◌-◌, ◌*◌, ◌^◌, Bool, true, false, ◌&&◌, List, [], none, some, Result, ok, err,
  ltb, leb, if◌then◌else◌, or_else,
}
use sulink_lan.Base.Map.{Map, lookup, insert, delete}
use sulink_lan.Base.Eq.{nat_eq}

pub data PoolError : Type 0 where
  no_address exhausted : PoolError
  not_in_range in_use : ℕ → PoolError

pub record IpPool : Type 0 where
  pub net_addr : ℕ
  pub start : ℕ
  pub end : ℕ
  pub used : Map ℕ Bool

-- `NewIPPool`, given the network address and the prefix length that `net.ParseCIDR` reads from
-- `protocol.VNetCIDR`.
unfoldable pub make_pool : ℕ → ℕ → Result PoolError IpPool
make_pool net_addr ones =
    let host_bits = 2 ^ (32 - ones) in
    let broadcast = bit_or net_addr (host_bits - 1) in
    let start = net_addr + 2 in
    let end = broadcast - 1 in
    if ltb end start
    then err no_address
    else ok (record { net_addr = net_addr; start = start; end = end; used = [] })

-- 10.0.0.0/8.
unfoldable pub new_pool : Result PoolError IpPool
unfolding make_pool
new_pool = make_pool (10 * 2 ^ 24) 8

-- The value that `new_pool` holds.
abbrev pub vnet_pool : IpPool
vnet_pool = record {
  net_addr = 10 * 2 ^ 24;
  start = 10 * 2 ^ 24 + 2;
  end = 11 * 2 ^ 24 - 2;
  used = [];
}

unfoldable pub server_vip : IpPool → ℕ
server_vip p = p.net_addr + 1

-- `Held`, and the test `p.used[ip]`.
unfoldable pub held : IpPool → ℕ → Bool
held p ip = or_else (lookup ip p.used) false

unfoldable pub in_range : IpPool → ℕ → Bool
in_range p ip = leb p.start ip && leb ip p.end

unfoldable pub take_ip : IpPool → ℕ → IpPool
take_ip p ip = record p { used = insert ip true p.used }

-- The loop of `Alloc` at address `ip`, with `left` addresses to try.
unfoldable pub alloc_loop : ℕ → ℕ → IpPool → Result PoolError (ℕ × IpPool)
alloc_loop zero ip p = err exhausted
alloc_loop (suc left) ip p =
    let rest = alloc_loop left (suc ip) p in if held p ip then rest else ok (ip, take_ip p ip)

unfoldable pub alloc : IpPool → Result PoolError (ℕ × IpPool)
alloc p = alloc_loop (suc p.end - p.start) p.start p

unfoldable pub alloc_at : IpPool → ℕ → Result PoolError IpPool
alloc_at p ip =
    if in_range p ip
    then (if held p ip then err (in_use ip) else ok (take_ip p ip))
    else err (not_in_range ip)

unfoldable pub release : IpPool → ℕ → IpPool
release p ip = record p { used = delete ip p.used }
