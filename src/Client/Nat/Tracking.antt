-- ===== src/Client/Nat/Tracking.antt =====
-- internal/client/nat.go: a forwarded packet and the answer to it.
use sulink_lan.Base.{ℕ, ◌≡◌, ◌∙◌, refl, ap, sym, true, none, some, if◌then◌else◌, arith}
use sulink_lan.Base.Eq.{nat_eq}
use sulink_lan.Base.Map.{lookup, lookup-insert}
use sulink_lan.Base.Bytes.{Bytes}
use sulink_lan.Forward.{Rule}
use sulink_lan.Client.Nat.{
  FlowKey, flow_eq, same_flow_iff, Nat, Ipv4Pkt, parse_ipv4, transport_ok, src_port, dst_port,
  set_src, set_src_port, rewrite_checksums, hit_rule, track, dnat, snat, reply_key, tcp_or_udp,
}

-- The key of the answer to a packet that a rule sends on.
abbrev pub answer_key : Ipv4Pkt → Bytes → Rule → FlowKey
answer_key p buf rule = record {
  proto = p.proto;
  src_ip = rule.target_ip;
  src_port = rule.target_port;
  dst_ip = p.src;
  dst_port = src_port p buf;
}

dnat_state :
    (n : Nat) (now : ℕ) (buf : Bytes) (p : Ipv4Pkt) (rule : Rule)
    → parse_ipv4 buf ≡ some p
    → tcp_or_udp p ≡ true
    → p.dst ≡ n.self
    → hit_rule p (dst_port p buf) n ≡ some rule
    → ((dnat now buf n).0 ≡ true)
      × ((dnat now buf n).2 ≡ track p (src_port p buf) (dst_port p buf) rule now n)
unfolding dnat
dnat_state n now buf p rule e1 e2 e3 e4 = grind arith

track_answer :
    (p : Ipv4Pkt) (buf : Bytes) (port : ℕ) (rule : Rule) (now : ℕ) (n : Nat)
    → lookup (answer_key p buf rule) (track p (src_port p buf) port rule now n).rev ≡ some port
unfolding track
track_answer p buf port rule now n =
    grind (arith, lookup-insert, same_flow_iff (answer_key p buf rule) (answer_key p buf rule))

track_self :
    (p : Ipv4Pkt) (from port : ℕ) (rule : Rule) (now : ℕ) (n : Nat)
    → ((track p from port rule now n).self ≡ n.self)
unfolding track
track_self p from port rule now n = refl

track_rules :
    (p : Ipv4Pkt) (from port : ℕ) (rule : Rule) (now : ℕ) (n : Nat)
    → ((track p from port rule now n).rules ≡ n.rules)
unfolding track
track_rules p from port rule now n = refl

snat_found :
    (n : Nat) (later : ℕ) (back : Bytes) (q : Ipv4Pkt) (port : ℕ)
    → parse_ipv4 back ≡ some q
    → tcp_or_udp q ≡ true
    → transport_ok q ≡ true
    → lookup (reply_key q back) n.rev ≡ some port
    → ((snat later back n).0 ≡ true)
      × ((snat later back n).1 ≡ rewrite_checksums (set_src_port q port (set_src n.self back)))
unfolding snat
snat_found n later back q port e1 e2 e3 e4 = grind arith

-- A packet for a virtual port with a rule is rewritten, and the answer of the rule's target to it is
-- rewritten to come from the own address and from this virtual port, if its header is complete.
pub snat-dnat :
    (n : Nat) (now later : ℕ) (buf back : Bytes) (p q : Ipv4Pkt) (rule : Rule)
    → parse_ipv4 buf ≡ some p
    → tcp_or_udp p ≡ true
    → p.dst ≡ n.self
    → hit_rule p (dst_port p buf) n ≡ some rule
    → parse_ipv4 back ≡ some q
    → tcp_or_udp q ≡ true
    → transport_ok q ≡ true
    → reply_key q back ≡ answer_key p buf rule
    → ((dnat now buf n).0 ≡ true)
      × ((snat later back (dnat now buf n).2).0 ≡ true)
      × ((snat later back (dnat now buf n).2).1
          ≡ rewrite_checksums (set_src_port q (dst_port p buf) (set_src n.self back)))
snat-dnat n now later buf back p q rule e1 e2 e3 e4 e5 e6 e7 e8 =
    let (hit, state) = dnat_state n now buf p rule e1 e2 e3 e4 in
    let port = dst_port p buf in
    let tracked = track p (src_port p buf) port rule now n in
    let found : lookup (reply_key q back) tracked.rev ≡ some port =
      ap (λ k. lookup k tracked.rev) e8 ∙ track_answer p buf port rule now n in
    let (sent, text) = snat_found tracked later back q port e5 e6 e7 found in
    (
      hit,
      ap (λ u. (snat later back u).0) state ∙ sent,
      ap (λ u. (snat later back u).1) state
          ∙ text
          ∙ ap (λ own. rewrite_checksums (set_src_port q port (set_src own back)))
              (track_self p (src_port p buf) port rule now n),
    )

-- Two virtual ports with one target share the way back: after packets of one client port to both,
-- the answers to both come from the second virtual port.
pub dnat_shares_target :
    (n : Nat) (now : ℕ) (first second : Bytes) (p q : Ipv4Pkt) (r1 r2 : Rule)
    → parse_ipv4 first ≡ some p
    → tcp_or_udp p ≡ true
    → p.dst ≡ n.self
    → hit_rule p (dst_port p first) n ≡ some r1
    → parse_ipv4 second ≡ some q
    → tcp_or_udp q ≡ true
    → q.dst ≡ n.self
    → hit_rule q (dst_port q second) n ≡ some r2
    → answer_key q second r2 ≡ answer_key p first r1
    → lookup (answer_key p first r1) (dnat now second (dnat now first n).2).2.rev
      ≡ some (dst_port q second)
unfolding hit_rule
dnat_shares_target n now first second p q r1 r2 e1 e2 e3 e4 e5 e6 e7 e8 e9 =
    let (hit, state) = dnat_state n now first p r1 e1 e2 e3 e4 in
    let once = track p (src_port p first) (dst_port p first) r1 now n in
    let self = track_self p (src_port p first) (dst_port p first) r1 now n in
    let rules = track_rules p (src_port p first) (dst_port p first) r1 now n in
    let rule2 : hit_rule q (dst_port q second) once ≡ some r2 =
      ap (λ m. if transport_ok q then lookup (dst_port q second) m else none) rules ∙ e8 in
    let (hit2, state2) = dnat_state once now second q r2 e5 e6 (e7 ∙ sym self) rule2 in
    let port = dst_port q second in
    ap (λ u. lookup (answer_key p first r1) (dnat now second u).2.rev) state
    ∙ ap (λ u. lookup (answer_key p first r1) u.rev) state2
    ∙ ap (λ k. lookup k (track q (src_port q second) port r2 now once).rev) (sym e9)
    ∙ track_answer q second port r2 now once
