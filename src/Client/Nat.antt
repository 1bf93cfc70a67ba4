-- ===== src/Client/Nat.antt =====
-- internal/client/nat.go: the forwarding of traffic for virtual ports to a service of the device's
-- own network. A packet is a list of bytes; `checksum` is the code's second copy of the function of
-- internal/server/icmp.go. Each section under the mutex is one step.
pub mod Packet
pub mod Tracking
mod Tests
pub use Packet.{Ipv4Pkt, tcp_or_udp}
unfoldable pub use Packet.{
  parse_ipv4, transport_ok, src_port, dst_port, set_src, set_dst, set_src_port, set_dst_port,
  pseudo, rewrite_segment, rewrite_checksums,
}
use sulink_lan.Base.{
  ℕ, ◌+◌, ◌-◌, ◌*◌, ◌/◌, ◌%◌, ◌^◌, ◌≡◌, ◌↔◌, Bool, true, false, not, ◌&&◌, ◌||◌, List, [], ◌∷◌,
  ◌++◌, Option, none, some, ltb, ◌==◌, if◌then◌else◌, length, take, arith,
}
use sulink_lan.Base.Eq.{Eq, nat_eq}
use sulink_lan.Base.Map.{Map, keys, lookup, insert, delete}
use sulink_lan.Base.Bytes.{Bytes, byte_at, slice, be16, be32, uint16_at, uint32_at}
use sulink_lan.Forward.{Rule}
use sulink_lan.Server.Icmp.{checksum, put}

pub record FlowKey : Type 0 where
  pub proto : ℕ
  pub src_ip : ℕ
  pub src_port : ℕ
  pub dst_ip : ℕ
  pub dst_port : ℕ

unfoldable pub same_flow : FlowKey → FlowKey → Bool
same_flow a b =
    a.proto == b.proto
    && a.src_ip == b.src_ip
    && a.src_port == b.src_port
    && a.dst_ip == b.dst_ip
    && a.dst_port == b.dst_port

pub same_flow_iff : (a b : FlowKey) → (same_flow a b ≡ true) ↔ (a ≡ b)
unfolding same_flow
same_flow_iff a b = grind arith

instance abbrev pub flow_eq : Eq FlowKey
flow_eq = record { beq = same_flow; beq_iff = same_flow_iff }

pub record FlowEntry : Type 0 where
  pub target_ip : ℕ
  pub target_port : ℕ
  pub last_seen : ℕ

-- `Nat`, without the channel that stops the cleaning goroutine.
pub record Nat : Type 0 where
  pub self : ℕ
  pub rules : Map ℕ Rule
  pub fwd : Map FlowKey FlowEntry
  pub rev : Map FlowKey ℕ
  pub rev_seen : Map FlowKey ℕ

-- The rule that a packet hits.
unfoldable pub hit_rule : Ipv4Pkt → ℕ → Nat → Option Rule
hit_rule p port n = if transport_ok p then lookup port n.rules else none

-- The entries that `DNAT` makes for a connection.
unfoldable pub track : Ipv4Pkt → ℕ → ℕ → Rule → ℕ → Nat → Nat
track p from port rule now n =
    let fk : FlowKey = record {
      proto = p.proto;
      src_ip = p.src;
      src_port = from;
      dst_ip = n.self;
      dst_port = port;
    } in
    let rk : FlowKey = record {
      proto = p.proto;
      src_ip = rule.target_ip;
      src_port = rule.target_port;
      dst_ip = p.src;
      dst_port = from;
    } in
    record n {
      fwd =
          insert fk
            (record { target_ip = rule.target_ip; target_port = rule.target_port; last_seen = now })
            n.fwd;
      rev = insert rk port n.rev;
      rev_seen = insert rk now n.rev_seen;
    }

-- `DNAT`: whether the packet was rewritten, the packet, and the new state.
unfoldable pub dnat : ℕ → Bytes → Nat → Bool × Bytes × Nat
unfolding hit_rule track
dnat now buf n = elim (parse_ipv4 buf) [
  | none ↦ (false, buf, n)
  | some p ↦
      if not (tcp_or_udp p)
      then (false, buf, n)
      else if not (p.dst == n.self)
      then (false, buf, n)
      else elim (hit_rule p (dst_port p buf) n) [
        | none ↦ (false, buf, n)
        | some rule ↦ (
          true,
          rewrite_checksums (set_dst_port p rule.target_port (set_dst rule.target_ip buf)),
          track p (src_port p buf) (dst_port p buf) rule now n,
        )
      ]
]

abbrev pub reply_key : Ipv4Pkt → Bytes → FlowKey
reply_key p buf = record {
  proto = p.proto;
  src_ip = p.src;
  src_port = src_port p buf;
  dst_ip = p.dst;
  dst_port = dst_port p buf;
}

-- `SNAT`.
unfoldable pub snat : ℕ → Bytes → Nat → Bool × Bytes × Nat
snat now buf n = elim (parse_ipv4 buf) [
  | none ↦ (false, buf, n)
  | some p ↦ if not (tcp_or_udp p) then (false, buf, n) else elim (lookup (reply_key p buf) n.rev) [
    | none ↦ (false, buf, n)
    | some port ↦
        if transport_ok p
        then (
          true,
          rewrite_checksums (set_src_port p port (set_src n.self buf)),
          record n { rev_seen = insert (reply_key p buf) now n.rev_seen },
        )
        else (false, buf, n)
  ]
]

-- The rules by port; of two rules with one port the later one stays.
unfoldable pub by_port : List Rule → Map ℕ Rule → Map ℕ Rule
by_port [] m = m
by_port (r ∷ rs) m = by_port rs (insert r.vport r m)

unfoldable pub set_rules : List Rule → Nat → Nat
unfolding by_port
set_rules rules n = record n { rules = by_port rules [] }

unfoldable pub new_nat : ℕ → List Rule → Nat
unfolding by_port
new_nat self rules = record {
  self = self;
  rules = by_port rules [];
  fwd = [];
  rev = [];
  rev_seen = [];
}

-- Two minutes.
abbrev pub flow_timeout : ℕ
flow_timeout = 2 * 60 * 10 ^ 9

unfoldable pub clean_fwd : ℕ → Map FlowKey FlowEntry → Map FlowKey FlowEntry
clean_fwd now [] = []
clean_fwd now ((k, f) ∷ m) =
    let rest = clean_fwd now m in
    if ltb flow_timeout (now - f.last_seen) then rest else (k, f) ∷ rest

unfoldable pub clean_rev : ℕ → Map FlowKey ℕ → Nat → Nat
clean_rev now [] n = n
clean_rev now ((k, seen) ∷ m) n =
    let gone = record n { rev = delete k n.rev; rev_seen = delete k n.rev_seen } in
    clean_rev now m (if ltb flow_timeout (now - seen) then gone else n)

-- One round of `cleanLoop`.
unfoldable pub clean : ℕ → Nat → Nat
unfolding clean_fwd clean_rev
clean now n = clean_rev now n.rev_seen (record n { fwd = clean_fwd now n.fwd })

-- Whether the packet can be delivered, and the packet with the own address as its destination.
unfoldable pub rewrite_dst_to_self : Bytes → ℕ → Bool × Bytes
rewrite_dst_to_self buf self = elim (parse_ipv4 buf) [
  | none ↦ (false, buf)
  | some p ↦ if p.dst == self then (true, buf) else (true, rewrite_checksums (set_dst self buf))
]
