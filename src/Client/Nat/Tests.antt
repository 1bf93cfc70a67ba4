-- ===== src/Client/Nat/Tests.antt =====
-- Forwarded packets of internal/client/nat.go and their answers, at concrete inputs.
use sulink_lan.Base.{ℕ, ◌≡◌, refl, true, [], ◌∷◌, some}
use sulink_lan.Base.Eq.{nat_eq}
use sulink_lan.Base.Map.{lookup, insert}
use sulink_lan.Base.Bytes.{Bytes}
use sulink_lan.Forward.{Rule}
use sulink_lan.Client.Nat.{
  flow_eq, Nat, Ipv4Pkt, parse_ipv4, transport_ok, src_port, dst_port, set_src, set_src_port,
  rewrite_checksums, hit_rule, new_nat, dnat, snat, reply_key,
}
use sulink_lan.Client.Nat.Tracking.{answer_key, snat-dnat, dnat_shares_target}

-- UDP from 10.0.0.2:5000 to ports 80 and 81 of 10.0.0.3, and from 192.168.1.5:8080 back.
abbrev to_port : ℕ → Bytes
to_port port =
    0x45 ∷ 0 ∷ 0 ∷ 28 ∷ 0 ∷ 1 ∷ 0 ∷ 0 ∷ 64 ∷ 17 ∷ 0 ∷ 0 ∷ 10 ∷ 0 ∷ 0 ∷ 2 ∷ 10 ∷ 0 ∷ 0 ∷ 3 ∷ 19 ∷ 136
    ∷ 0 ∷ port ∷ 0 ∷ 8 ∷ 0 ∷ 0 ∷ []

abbrev back : Bytes
back =
    0x45 ∷ 0 ∷ 0 ∷ 28 ∷ 0 ∷ 1 ∷ 0 ∷ 0 ∷ 64 ∷ 17 ∷ 0 ∷ 0 ∷ 192 ∷ 168 ∷ 1 ∷ 5 ∷ 10 ∷ 0 ∷ 0 ∷ 2 ∷ 31
    ∷ 144 ∷ 19 ∷ 136 ∷ 0 ∷ 8 ∷ 0 ∷ 0 ∷ []

abbrev rule : ℕ → Rule
rule port = record { vport = port; target_ip = 3232235781; target_port = 8080 }

abbrev nat : Nat
nat = new_nat 167772163 (rule 80 ∷ rule 81 ∷ [])

abbrev there : Ipv4Pkt
there = record { proto = 17; src = 167772162; dst = 167772163; ihl = 20; total = 28 }

abbrev home : Ipv4Pkt
home = record { proto = 17; src = 3232235781; dst = 167772162; ihl = 20; total = 28 }

program : Unit {0}
unfolding parse_ipv4 transport_ok src_port dst_port hit_rule new_nat lookup insert
program = tt

own : there.dst ≡ nat.self
unfolding program
own = refl

hits_80 : hit_rule there (dst_port there (to_port 80)) nat ≡ some (rule 80)
unfolding program
hits_80 = refl

hits_81 : hit_rule there (dst_port there (to_port 81)) nat ≡ some (rule 81)
unfolding program
hits_81 = refl

read_there : parse_ipv4 (to_port 80) ≡ some there
unfolding program
read_there = refl

read_other : parse_ipv4 (to_port 81) ≡ some there
unfolding program
read_other = refl

read_home : parse_ipv4 back ≡ some home
unfolding program
read_home = refl

answers : reply_key home back ≡ answer_key there (to_port 80) (rule 80)
unfolding program
answers = refl

complete : transport_ok home ≡ true
unfolding program
complete = refl

shared : answer_key there (to_port 81) (rule 81) ≡ answer_key there (to_port 80) (rule 80)
unfolding program
shared = refl

snat-dnat_example :
    ((dnat 5 (to_port 80) nat).0 ≡ true)
    × ((snat 9 back (dnat 5 (to_port 80) nat).2).0 ≡ true)
    × ((snat 9 back (dnat 5 (to_port 80) nat).2).1
        ≡ rewrite_checksums
            (set_src_port home (dst_port there (to_port 80)) (set_src nat.self back)))
snat-dnat_example =
    snat-dnat nat 5 9 (to_port 80) back there home (rule 80) read_there refl own hits_80 read_home
      refl complete answers

dnat_shares_target_example :
    lookup
      (answer_key there (to_port 80) (rule 80))
      (dnat 5 (to_port 81) (dnat 5 (to_port 80) nat).2).2.rev
    ≡ some (dst_port there (to_port 81))
dnat_shares_target_example =
    dnat_shares_target nat 5 (to_port 80) (to_port 81) there there (rule 80) (rule 81) read_there
      refl own hits_80 read_other refl own hits_81 shared
