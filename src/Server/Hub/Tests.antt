-- ===== src/Server/Hub/Tests.antt =====
-- Runs of the server of internal/server/server.go at concrete inputs.
use sulink_lan.Base.{
  ℕ, ◌≡◌, ◌≢◌, refl, true, List, [], ◌∷◌, ◌++◌, none, some, ok, Str, codes, arith, Has, All,
  or_else,
}
use sulink_lan.Base.Eq.{◌==ₛ◌, nat_eq, str_eq}
use mathlib.Core.Option.{map}
use sulink_lan.Base.Map.{lookup, insert, delete}
use sulink_lan.Base.Bytes.{Bytes}
use sulink_lan.Base.Text.{decimal}
use sulink_lan.Base.Encode.{hex_encode, hex_decode, utf8}
use sulink_lan.Protocol.{Message, message, msg_hello}
use sulink_lan.Protocol.Samples.{tag, plain_aead, plain_primitives}
use sulink_lan.Protocol.Credentials.{auth_tag_for, device_auth_key, verify_device_auth, parse_key}
use sulink_lan.Server.Pool.{server_vip, alloc, alloc_loop, held, take_ip}
use sulink_lan.Server.Devices.{
  DeviceTable, Disk, set_credential, rec_of, save_locked, to_file, device_key_by_id,
}
use sulink_lan.Server.Devices.File.{empty_table}
use sulink_lan.Server.Devices.Leasing.{assign, expired}
use sulink_lan.Protocol.{Addr, vnet_broadcast}
use sulink_lan.Protocol.Packet.{Packet, decrypt, header, flag_data, flag_probe}
use sulink_lan.Server.Hub.Relay.{
  Datagram, relay, relay_data, dispatch, learn, send_to, flood_addrs, flood, address_of, kind,
}
use sulink_lan.Server.Hub.Relay.Learned.{Round, NotFrom, rounds, relay_learned}
use sulink_lan.Server.Hub.Relay.Laws.{relay_authentic, relay_broadcast_exact, Receives}
use sulink_lan.Server.Hub.Sweeping.{sweeps_online}
use sulink_lan.Server.Hub.Leaving.{offline, queue_of, room, remove_device_taken_over}
use sulink_lan.Server.Hub.{Server, device_at, register, send_msg, notify_online, peer_list}
use sulink_lan.Server.Hub.Conn.{
  Random, accept, first_message, announce, push_current, tell_online, welcome, enter, check_hello,
}
use sulink_lan.Server.Hub.Events.{Event, sweeps, accepts, first_arrives, step, run}
use sulink_lan.Server.Hub.Invariant.{vip_of, name_of}
use sulink_lan.Server.Hub.Online.{new, after, run_online, run_names_differ}
use sulink_lan.Base.{false, ◌*◌}
use sulink_lan.Server.Hub.{Device, ended, remove_device, take_over}

program : Unit {0}
unfolding take_over expired server_vip utf8 kind address_of flood flood_addrs send_to learn dispatch
    relay_data relay decrypt device_at new run step accept first_message check_hello enter announce
    welcome push_current tell_online register send_msg notify_online peer_list lookup insert delete
    ◌==ₛ◌ decimal hex_encode hex_decode verify_device_auth parse_key alloc alloc_loop held take_ip
    set_credential rec_of save_locked to_file device_key_by_id empty_table assign vip_of name_of
program = tt

abbrev disk : Disk
disk = record { file = none; writable = true }

abbrev key : Bytes
key = tag ++ tag

-- Two devices with credentials.
abbrev table : DeviceTable
table =
    (set_credential
      (set_credential (empty_table [] disk) (codes "a1") (codes "pc") (codes "x")
        (hex_encode key)).1
      (codes "b2") (codes "pc") (codes "y") (hex_encode key)).1

abbrev challenge : Bytes
challenge = 5 ∷ []

abbrev hello : Str → Str → Message
hello hwid id = record (message msg_hello) {
  device_name = codes "pc";
  hwid = hwid;
  device_id = id;
  auth = auth_tag_for plain_primitives (device_auth_key plain_primitives key) challenge;
}

abbrev random : Random
random = record { id_bytes = none; key_bytes = none; blob_nonce = none }

-- Both come online under the same name.
abbrev two : List Event
two =
    accepts 1 challenge 10
    ∷ first_arrives 1 (hello (codes "a1") (codes "x")) random 20
    ∷ accepts 2 challenge 30
    ∷ first_arrives 2 (hello (codes "b2") (codes "y")) random 40
    ∷ []

two_names :
    (name_of 1 (after plain_primitives plain_aead two table [] []) ≡ codes "pc")
    × (name_of 2 (after plain_primitives plain_aead two table [] []) ≡ codes "pc (2)")
unfolding program
two_names = (refl, refl)

abbrev at_one : ℕ
at_one = 167772162

abbrev at_two : ℕ
at_two = 167772163

abbrev start : Server
start = after plain_primitives plain_aead two table [] []

second_online : lookup at_two start.devices ≡ some 2
unfolding program
second_online = refl

first_online : lookup at_one start.devices ≡ some 1
unfolding program
first_online = refl

run_online_example :
    (vip_of 2 start ≡ at_two) × (at_two ≢ 0) × (lookup (name_of 2 start) start.by_id ≡ some 2)
run_online_example = run_online plain_primitives plain_aead two table [] [] at_two 2 second_online

abbrev first : ℕ
first = 1

abbrev second : ℕ
second = 2

run_names_differ_example : (first ≢ second) × (name_of 1 start ≢ name_of 2 start)
run_names_differ_example =
    run_names_differ plain_primitives plain_aead two table [] [] at_one at_two first second
      first_online second_online λ e. omega arith

pc_taken : lookup (codes "pc") start.by_id ≡ some 1
unfolding program
pc_taken = refl

abbrev nonce : Bytes
nonce = 1 ∷ 2 ∷ 3 ∷ 4 ∷ 5 ∷ 6 ∷ 7 ∷ 8 ∷ 9 ∷ 10 ∷ 11 ∷ 12 ∷ []

-- A sealed packet of one byte.
abbrev sealed : ℕ → ℕ → ℕ → Bytes
sealed flag src dst = header flag src dst nonce ++ 69 ∷ tag

abbrev from_one : Addr
from_one = record { ip = codes "1.2.3.4"; port = 5 }

abbrev from_two : Addr
from_two = record { ip = codes "9.9.9.9"; port = 7 }

-- The second device has sent a probe, so its address is known.
abbrev heard : Server
heard = (relay plain_aead nonce (sealed flag_probe at_two at_one) from_two start).0

abbrev to_two : Packet
to_two = record { flags = flag_data; source = at_one; dest = at_two; payload = 69 ∷ [] }

abbrev to_all : Packet
to_all = record { flags = flag_data; source = at_one; dest = vnet_broadcast; payload = 69 ∷ [] }

relayed :
    (relay plain_aead nonce (sealed flag_data at_one at_two) from_one heard).1
    ≡ record { to = from_two; bytes = sealed flag_data at_one at_two } ∷ []
unfolding program
relayed = refl

relay_authentic_example :
    (pkt : Packet) × (decrypt plain_aead (sealed flag_data at_one at_two) ≡ ok pkt)
    × (lookup pkt.source heard.devices ≢ none)
relay_authentic_example =
    relay_authentic plain_aead nonce (sealed flag_data at_one at_two) from_one heard
      λ e. cc (e, relayed)

sent_two : address_of at_two (learn at_one from_one heard) ≡ some from_two
unfolding program
sent_two = refl

opened_two : decrypt plain_aead (sealed flag_data at_one at_two) ≡ ok to_two
unfolding program
opened_two = refl

opened_all : decrypt plain_aead (sealed flag_data at_one vnet_broadcast) ≡ ok to_all
unfolding program
opened_all = refl

known_one : map (λ x. x.0) (device_at at_one (learn at_one from_one heard)) ≡ some first
unfolding program
known_one = refl

one_online : device_at at_one (learn at_one from_one heard) ≢ none
one_online e = cc (e, known_one)

heard_vip : server_vip heard.leases.pool ≡ 167772161
unfolding program
heard_vip = refl

abbrev hello_two : Round
hello_two = record { nonce = nonce; buf = sealed flag_probe at_two at_one; from = from_two }

abbrev data_one : Round
data_one = record { nonce = nonce; buf = sealed flag_data at_one at_two; from = from_one }

abbrev probe_two : Packet
probe_two = record { flags = flag_probe; source = at_two; dest = at_one; payload = 69 ∷ [] }

abbrev probe_one : Packet
probe_one = record { flags = flag_probe; source = at_one; dest = at_two; payload = 69 ∷ [] }

-- A datagram that is too short, and a probe of the first device.
abbrev meanwhile : List Round
meanwhile =
    record { nonce = nonce; buf = 1 ∷ 2 ∷ []; from = from_two }
    ∷ record { nonce = nonce; buf = sealed flag_probe at_one at_two; from = from_one }
    ∷ []

opened_hello : decrypt plain_aead hello_two.buf ≡ ok probe_two
unfolding program
opened_hello = refl

opened_probe : decrypt plain_aead (sealed flag_probe at_one at_two) ≡ ok probe_one
unfolding program
opened_probe = refl

not_two : All (NotFrom plain_aead 2 start) meanwhile
not_two = (
  λ q e. absurd (unfold program in cc e),
  (λ q e h. grind (arith, e, opened_probe, first_online, h), tt),
)

conn_one : map (λ d. d.vip) (lookup 1 start.conns) ≡ some at_one
unfolding program
conn_one = refl

conn_two : map (λ d. d.vip) (lookup 2 start.conns) ≡ some at_two
unfolding program
conn_two = refl

start_vip : server_vip start.leases.pool ≡ 167772161
unfolding program
start_vip = refl

relay_learned_example :
    (relay plain_aead nonce data_one.buf from_one
      (rounds plain_aead (hello_two ∷ meanwhile) start)).1
    ≡ record { to = from_two; bytes = data_one.buf } ∷ []
unfolding kind
relay_learned_example =
    relay_learned plain_aead hello_two data_one meanwhile start probe_two to_two second first
      (omega arith) opened_hello (second_online, λ e. cc (e, conn_two)) not_two (omega arith)
      opened_two (first_online, λ e. cc (e, conn_one)) (λ e. omega arith) refl refl
      (λ e. omega (arith, start_vip)) λ e. omega arith

relay_broadcast_exact_example :
    let after = learn at_one from_one heard in
    let sent = (relay plain_aead nonce (sealed flag_data at_one vnet_broadcast) from_one heard).1 in
    All
      (λ (g : Datagram).
        Receives at_one after.conns after.devices g.to
        × (g.bytes ≡ sealed flag_data at_one vnet_broadcast))
      sent
    × ((vip : ℕ) (to : Addr)
        → vip ≢ at_one
        → address_of vip after ≡ some to
        → Has (record { to = to; bytes = sealed flag_data at_one vnet_broadcast }) sent)
unfolding kind
relay_broadcast_exact_example =
    relay_broadcast_exact plain_aead nonce (sealed flag_data at_one vnet_broadcast) from_one heard
      to_all (omega arith) opened_all one_online refl refl own_ne
  where
    own_ne : server_vip heard.leases.pool ≢ vnet_broadcast
    own_ne e = omega (arith, heard_vip)

-- 32 days after both devices came online.
abbrev later : ℕ
later = 32 * 86_400_000_000_000

first_vip : (rec_of start.leases.table (codes "a1")).vip ≡ at_one
unfolding program
first_vip = refl

lease_over : expired later (rec_of start.leases.table (codes "a1")) ≡ true
unfolding program
lease_over = refl

sweeps_online_example :
    (lookup
        (rec_of start.leases.table (codes "a1")).vip
        (step plain_primitives plain_aead (sweeps later) start).devices
      ≡ some 1)
    × (held
          (step plain_primitives plain_aead (sweeps later) start).leases.pool
          (rec_of start.leases.table (codes "a1")).vip
        ≡ false)
unfolding program
sweeps_online_example =
    sweeps_online plain_primitives plain_aead start (codes "a1") 1 later first_online lease_over

-- The first device connects again before the server has seen its old connection end.
abbrev again : Server
again =
    after plain_primitives plain_aead
      (two
        ++ accepts 3 challenge 50 ∷ first_arrives 3 (hello (codes "a1") (codes "x")) random 60 ∷ [])
      table [] []

abbrev blank_device : Device
blank_device = record {
  name = [];
  vip = 0;
  hwid = [];
  udp_addr = none;
  online_at = 0;
  queue = [];
  queue_open = false;
  writer_done = false;
  conn_closed = false;
  phase = ended;
}

abbrev old : Device
old = or_else (lookup 1 again.conns) blank_device

old_found : lookup 1 again.conns ≡ some old
unfolding program
old_found = refl

old_vip : old.vip ≡ at_one
unfolding program
old_vip = refl

replaced : lookup old.vip again.devices ≡ some 3
unfolding program
replaced = refl

has_room : room 3 again ≡ true
unfolding program room
has_room = refl

remove_device_taken_over_example :
    (lookup old.vip (remove_device 1 again).devices ≡ some 3)
    × Has (offline old.vip) (queue_of 3 (remove_device 1 again))
remove_device_taken_over_example =
    remove_device_taken_over again 1 3 old old_found (λ e. omega (arith, old_vip)) replaced
      (λ e. omega arith) has_room
