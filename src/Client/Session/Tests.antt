-- ===== src/Client/Session/Tests.antt =====
-- Runs of internal/client/client.go on concrete clients and a concrete server.
use sulink_lan.Base.{
  ℕ, zero, suc, ◌≡◌, ◌≢◌, ◌⊎◌, inl, refl, true, false, List, [], ◌∷◌, none, some, ok, Option, Has,
  ◌==ₛ◌, length, ◌≤◌, arith,
}
use sulink_lan.Base.Eq.{nat_eq, str_eq}
use sulink_lan.Base.Map.{lookup, insert, delete}
use sulink_lan.Base.Net.{split_host_port}
use sulink_lan.Base.Text.{split_last, contains}
use sulink_lan.Base.Bytes.{Bytes, uint32_at}
use sulink_lan.Protocol.{Addr, Message, message, msg_hole_notify}
use sulink_lan.Protocol.Packet.{decrypt, encrypt}
use sulink_lan.Protocol.Samples.{plain_aead, plain_primitives}
use sulink_lan.Server.Pool.{vnet_pool, server_vip}
use sulink_lan.Server.Hub.{device_at, update}
use sulink_lan.Server.Hub.Relay.{relay, learn, address_of}
use sulink_lan.Server.Hub.Conn.{push_current}
use sulink_lan.Client.Nat.{new_nat, snat, parse_ipv4}
use sulink_lan.Client.Peers.{set_p2p, direct_addr, same_addr}
use sulink_lan.Client.Session.{datagram, to_card}
use sulink_lan.Client.Session.Connect.{server_addr, connect_once, udp_server}
use sulink_lan.Client.Session.Data.{on_card, on_udp, translate, send_enc, seal, came_directly}
use sulink_lan.Client.Session.Data.Delivery.{received, on_card-relay-on_udp}
use sulink_lan.Client.Session.Run.{
  Running, Event, udp, close, lose, punch, see_closed, see_session, serving, returned, running,
  new_client, happen, run, connect, in_session,
}
use sulink_lan.Client.Session.Run.Direct.{EverHeard, receivers, on_card_receiver_heard}
use sulink_lan.Client.Session.Run.Stale.{run_keeps_config}
use sulink_lan.Client.Session.Run.Closing.{close_reopens}
use sulink_lan.Client.Session.Samples.{
  nonce, keys, vip_a, vip_b, at_server, at_a, at_b, fresh, online, os, challenge, welcome_a,
  enter_a, packet, probe_b, server,
}

program : Unit {0}
unfolding new_client ◌==ₛ◌ connect_once server_addr udp_server contains run happen connect
    in_session on_udp on_card translate seal send_enc decrypt encrypt lookup insert delete set_p2p
    direct_addr same_addr came_directly snat parse_ipv4 new_nat running split_host_port split_last
program = tt

abbrev heard_b : List Event
heard_b = enter_a ∷ udp 0 nonce probe_b at_b ∷ []

direct_to_b : Has at_b (
    receivers
      (on_card plain_primitives 0 nonce packet
        (run plain_primitives heard_b (running fresh)).client).1)
unfolding program
direct_to_b = inl refl

on_card_receiver_heard_example :
    ((run plain_primitives heard_b (running fresh)).client.srv_udp ≡ some at_b)
    ⊎ EverHeard plain_primitives (uint32_at packet 16) at_b heard_b (running fresh)
unfolding new_client
on_card_receiver_heard_example =
    on_card_receiver_heard plain_primitives heard_b fresh 0 nonce packet {to = at_b} refl
      direct_to_b

relaying : Unit {0}
unfolding program device_at learn address_of server_vip update
relaying = tt

online_a : device_at vip_a (learn vip_a at_a server) ≢ none
unfolding relaying
online_a e = cc

online_b : address_of vip_b (learn vip_a at_a server) ≡ some at_b
unfolding relaying
online_b = refl

not_direct : direct_addr vip_b (online vip_a).peers ≡ none
unfolding relaying
not_direct = refl

own_pool : vip_b ≢ server_vip vnet_pool
unfolding server_vip
own_pool e = omega arith

on_card-relay-on_udp_example :
    (enc : Bytes) × ((on_card plain_primitives 0 nonce packet (online vip_a)).1
      ≡ datagram at_server enc ∷ [])
    × ((relay plain_aead nonce enc at_a server).1 ≡ record { to = at_b; bytes = enc } ∷ [])
    × ((on_udp plain_primitives 0 nonce enc at_server (online vip_b)).1
        ≡ to_card (received 0 (translate plain_primitives 0 packet (online vip_a)).0 (online vip_b))
          ∷ [])
on_card-relay-on_udp_example =
    on_card-relay-on_udp plain_primitives (online vip_a) (online vip_b) server keys keys at_server
      at_a at_b 0 0 nonce nonce nonce packet (crypto vip_a) (crypto vip_b) refl refl refl
      (omega arith) refl (omega arith) refl refl refl own_pool (omega arith) (omega arith)
      (omega arith) fits not_direct online_a online_b
  where
    crypto : (vip : ℕ) → (online vip).crypto ≡ some keys
    crypto vip = unfold new_client in refl

    fits : length (translate plain_primitives 0 packet (online vip_a)).0 ≤ 1500
    fits = unfold relaying in omega arith

abbrev last : List Event
last = close ∷ see_session ∷ enter_a ∷ see_closed ∷ []

abbrev serving_a : Running
serving_a = record {
  client = online vip_a;
  stage = serving;
  closed = false;
  session_over = false;
  is_open = true;
}

run_keeps_config_example :
    (push_current 1 server ≡ server)
    × ((run plain_primitives last serving_a).client.pushed ≡ serving_a.client.pushed)
    × ((run plain_primitives last serving_a).client.no_punch ≡ serving_a.client.no_punch)
run_keeps_config_example =
    run_keeps_config plain_primitives server 1 last serving_a refl (tt, (tt, (tt, (tt, tt))))

connects :
    (connect_once plain_primitives os (some challenge) (λ m. some welcome_a) (online vip_a)).0
    ≡ ok tt
unfolding program
connects = refl

close_reopens_example :
    ((run plain_primitives last serving_a).stage ≡ returned none)
    × ((run plain_primitives last serving_a).is_open ≡ true)
close_reopens_example =
    close_reopens plain_primitives serving_a os (some challenge) (λ m. some welcome_a) refl connects

abbrev found_b : Message
found_b = record (message msg_hole_notify) { peer_vip = vip_b; addrs = at_b ∷ [] }

abbrev here : Addr → Option Addr
here a = some a

-- Rounds of the goroutine 0.
abbrev rounds_then : ℕ → List Event → List Event
rounds_then zero es = es
rounds_then (suc n) es = punch nonce 0 ∷ rounds_then n es

-- Between its rounds a session starts and ends, a peer appears, and `Close` is called.
abbrev busy : List Event
busy = rounds_then 5 (
    enter_a
    ∷ Event.message here found_b
    ∷ rounds_then 10 (punch nonce 1 ∷ lose ∷ see_session ∷ rounds_then 6 (close ∷ see_closed ∷ [])))
