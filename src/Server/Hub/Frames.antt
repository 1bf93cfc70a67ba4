-- ===== src/Server/Hub/Frames.antt =====
-- internal/server/server.go and control.go: the handlers that touch neither the registration nor
-- the phase of a device.
use sulink_lan.Base.{
  ℕ, ◌≡◌, refl, true, false, ◌&&◌, ◌||◌, List, [], Option, none, some, ltb, ◌==◌, Str, arith,
  if_cases, option_cases, result_cases, length,
}
use sulink_lan.Base.Eq.{nat_eq, str_eq}
use sulink_lan.Base.Map.{Map, lookup, insert, lookup-insert}
use sulink_lan.Base.Bytes.{Bytes}
use sulink_lan.Protocol.{
  MsgType, Message, message, msg_config_push, msg_challenge, msg_heartbeat, msg_forward_push, Addr,
  vnet_broadcast, msg_hole_request, msg_forward_get, ip4,
}
use sulink_lan.Protocol.Packet.{
  Aead, Packet, decrypt, header_len, flag_data, flag_probe, flag_reply, encrypt,
}
use sulink_lan.Server.Icmp.{echo_reply}
use sulink_lan.Server.Pool.{server_vip}
use sulink_lan.Server.Devices.{DeviceTable, forward_of, set_forward, block, unblock}
use sulink_lan.Server.Devices.Leasing.{set_ip}
use sulink_lan.Server.Control.{
  Settings, merge, broadcast, push, find_by_hwid, set_device_forward, set_device_ip, close_found,
  revoke_device_credential, unblock_device,
}
use sulink_lan.Server.Hub.{Server, Device, Counters, awaits, ids_of, device_at}
use sulink_lan.Server.Hub.Conn.{on_signal, accept}
use sulink_lan.Server.Hub.Relay.{
  relay, learn, dispatch, relay_ping, relay_data, Datagram, kind, address_of,
}
use sulink_lan.Server.Hub.Start.{set_ip_start}
use sulink_lan.Server.Hub.Steps.{
  send_msg-SameList, send_all-SameList, close_conn-SameList, leases-SameList,
  handle_hole_request-SameList,
}
use sulink_lan.Server.Hub.Invariant.{
  vip_of, name_of, phase_of, known, SameList, SameList-refl, SameList-trans, IsValid,
  SameList-IsValid, update-SameList,
}

pub table-SameList :
    (t : DeviceTable) (s : Server)
    → SameList s (record s { leases = record s.leases { table = t } })
table-SameList t s = leases-SameList (record s.leases { table = t }) s refl

pub on_signal-SameList :
    (t : MsgType) (id : ℕ) (d : Device) (m : Message) (s : Server)
    → SameList s (on_signal t id d m s)
unfolding on_signal
on_signal-SameList msg_heartbeat id d m s = send_msg-SameList (message msg_heartbeat) id s
on_signal-SameList msg_hole_request id d m s = handle_hole_request-SameList id d m.peer_vip s
on_signal-SameList msg_forward_get id d m s =
    send_msg-SameList
      (record (message msg_forward_push) { rules = forward_of s.leases.table d.hwid }) id s
on_signal-SameList _ id d m s = SameList-refl s

new_device-IsValid :
    {s : Server} (id : ℕ) (dev : Device)
    → IsValid s
    → lookup id s.conns ≡ none
    → dev.vip ≡ 0
    → IsValid (record s { conns = insert id dev s.conns })
unfolding vip_of name_of phase_of
new_device-IsValid {s} id dev x new z = record {
  listed = record {
    online = λ v i e. grind (arith, lookup-insert, x.listed.online v i);
    named = λ n i e. grind (arith, lookup-insert, x.listed.named n i);
  };
  positive = x.positive;
  waiting = λ i c e. grind (arith, lookup-insert, x.waiting i c);
}

pub accept-IsValid :
    {s : Server} (id : ℕ) (challenge : Bytes) (now : ℕ)
    → IsValid s
    → lookup id s.conns ≡ none
    → IsValid (accept id challenge now s)
unfolding accept
accept-IsValid {s} id challenge now x new =
    let dev : Device = record {
      name = [];
      vip = 0;
      hwid = [];
      udp_addr = none;
      online_at = now;
      queue = [];
      queue_open = true;
      writer_done = false;
      conn_closed = false;
      phase = awaits challenge;
    } in
    SameList-IsValid
      (send_msg-SameList (record (message msg_challenge) { nonce = challenge }) id
        (record s { conns = insert id dev s.conns }))
      (new_device-IsValid id dev x new refl)

learn-SameList : (src : ℕ) (addr : Addr) (s : Server) → SameList s (learn src addr s)
unfolding learn
learn-SameList src addr s =
    option_cases (SameList s) (lookup src s.devices) (λ _. SameList-refl s)
      λ id e. update-SameList id (λ d. record d { udp_addr = some addr }) s λ d. (refl, refl, refl)

counters-SameList : (c : Counters) (s : Server) → SameList s (record s { counters = c })
unfolding vip_of name_of phase_of known
counters-SameList c s = record {
  devices = refl;
  by_id = refl;
  vips = λ i. refl;
  names = λ i. refl;
  phases = λ i. refl;
  same_ids = λ i. refl;
  start = refl;
}

-- The state after an action, whatever it answers, differs in nothing that the invariant reads.
record Leads {ℓ} {A : Type ℓ} (s : Server) (r : A × Server) : Type 0 where
  pub same : SameList s r.1

-- The state after a datagram differs in nothing that the invariant reads.
pub record Keeps (s : Server) (r : Server × List Datagram) : Type 0 where
  pub same : SameList s r.0

relay_ping-Keeps :
    (aead : Aead) (nonce : Bytes) (addr : Addr) (pkt : Packet) (vip : ℕ) (s : Server)
    → Keeps s (relay_ping aead nonce addr pkt vip s)
unfolding relay_ping
relay_ping-Keeps aead nonce addr pkt vip s =
    option_cases (Keeps s) (echo_reply pkt.payload vip) (λ _. record { same = SameList-refl s })
      λ reply e.
        result_cases (Keeps s) (encrypt aead nonce flag_data vip pkt.source reply)
          (λ x f. record { same = SameList-refl s })
          λ enc f. record { same = counters-SameList _ s }

relay_data-Keeps : (buf : Bytes) (pkt : Packet) (s : Server) → Keeps s (relay_data buf pkt s)
unfolding relay_data
relay_data-Keeps buf pkt s =
    option_cases (Keeps s) (address_of pkt.dest s) (λ _. record { same = SameList-refl s })
      λ to e. record { same = counters-SameList _ s }

dispatch-Keeps :
    (aead : Aead) (nonce buf : Bytes) (addr : Addr) (pkt : Packet) (s : Server)
    → Keeps s (dispatch aead nonce buf addr pkt s)
unfolding dispatch
dispatch-Keeps aead nonce buf addr pkt s =
    let k = kind pkt.flags in
    let vip = server_vip s.leases.pool in
    if_cases (Keeps s) (k == flag_probe || k == flag_reply) (λ _. record { same = SameList-refl s })
      λ _.
        if_cases (Keeps s) (k == flag_data && pkt.dest == vip)
          (λ _. relay_ping-Keeps aead nonce addr pkt vip s)
          λ _.
            if_cases (Keeps s) (k == flag_data && pkt.dest == vnet_broadcast)
              (λ _. record { same = counters-SameList _ s }) λ _. relay_data-Keeps buf pkt s

pub relay-Keeps :
    (aead : Aead) (nonce buf : Bytes) (addr : Addr) (s : Server)
    → Keeps s (relay aead nonce buf addr s)
unfolding relay
relay-Keeps aead nonce buf addr s =
    if_cases (Keeps s) (ltb (length buf) header_len) (λ _. record { same = SameList-refl s })
      λ _.
        result_cases (Keeps s) (decrypt aead buf) (λ x e. record { same = counters-SameList _ s })
          λ pkt e.
            let first = learn-SameList pkt.source addr s in
            let s1 = learn pkt.source addr s in
            option_cases (Keeps s) (device_at pkt.source s1) (λ _. record { same = first })
              λ d f. record {
                same =
                    SameList-trans first (Keeps.same (dispatch-Keeps aead nonce buf addr pkt s1));
              }

pushed-SameList : (cfg : Map Str Str) (s : Server) → SameList s (record s { pushed = cfg })
unfolding vip_of name_of phase_of known
pushed-SameList cfg s = record {
  devices = refl;
  by_id = refl;
  vips = λ i. refl;
  names = λ i. refl;
  phases = λ i. refl;
  same_ids = λ i. refl;
  start = refl;
}

pub push-SameList : (cfg : Map Str Str) (f : Settings) (s : Server) → SameList s (push cfg f s).2
unfolding push broadcast
push-SameList cfg f s =
    let merged = merge cfg s.pushed in
    SameList-trans (pushed-SameList merged s) (
      send_all-SameList (record (message msg_config_push) { config = merged }) (ids_of s.devices)
        (record s { pushed = merged }))

pub set_device_forward-SameList :
    (h : Str) (rules : List Str) (s : Server) → SameList s (set_device_forward h rules s).1
unfolding set_device_forward
set_device_forward-SameList h rules s =
    let (done, t) = set_forward s.leases.table h rules in
    let s1 = record s { leases = record s.leases { table = t } } in
    let first = table-SameList t s in
    let r : Leads s (set_device_forward h rules s) =
      result_cases (Leads s) done (λ e f. record { same = first })
        λ u f.
          option_cases (Leads s) (find_by_hwid h s1) (λ _. record { same = first })
            λ id g. record {
              same = SameList-trans first (
                  send_msg-SameList (record (message msg_forward_push) { rules = forward_of t h })
                    id s1);
            } in
    Leads.same r

pub set_device_ip-SameList : (h text : Str) (s : Server) → SameList s (set_device_ip h text s).1
unfolding set_device_ip
set_device_ip-SameList h text s =
    let r : Leads s (set_device_ip h text s) =
      option_cases (Leads s) (ip4 text) (λ _. record { same = SameList-refl s })
        λ vip g.
          let (done, l) = set_ip h vip s.leases in
          let s1 = record s { leases = l } in
          let first = leases-SameList l s (set_ip_start h vip s.leases) in
          result_cases (Leads s) done (λ e f. record { same = first })
            λ u f.
              option_cases (Leads s) (find_by_hwid h s1) (λ _. record { same = first })
                λ id k. record { same = SameList-trans first (close_conn-SameList id s1) } in
    Leads.same r

close_found-SameList : (o : Option ℕ) (s : Server) → SameList s (close_found o s)
unfolding close_found
close_found-SameList none s = SameList-refl s
close_found-SameList (some id) s = close_conn-SameList id s

pub revoke-SameList : (h : Str) (s : Server) → SameList s (revoke_device_credential h s).1
unfolding revoke_device_credential
revoke-SameList h s =
    let (t, changed) = block s.leases.table h in
    let s1 = record s { leases = record s.leases { table = t } } in
    let first = table-SameList t s in
    let r : Leads s (revoke_device_credential h s) =
      if_cases (Leads s) changed
        (λ _. record { same = SameList-trans first (close_found-SameList (find_by_hwid h s1) s1) })
        λ _. record { same = first } in
    Leads.same r

pub unblock_device-SameList : (h : Str) (s : Server) → SameList s (unblock_device h s).1
unfolding unblock_device
unblock_device-SameList h s = table-SameList (unblock s.leases.table h).0 s
