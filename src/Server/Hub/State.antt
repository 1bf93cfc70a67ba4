-- ===== src/Server/Hub/State.antt =====
-- internal/server/server.go: the server's state, and the queues of messages to its clients.
use sulink_lan.Base.{
  ℕ, Bool, true, false, ◌&&◌, List, [], ◌∷◌, ◌++◌, Option, none, some, ltb, if◌then◌else◌, Str,
  length,
}
use sulink_lan.Base.Eq.{nat_eq, str_eq}
use sulink_lan.Base.Map.{Map, lookup, insert}
use sulink_lan.Base.Bytes.{Bytes}
use sulink_lan.Protocol.{Message, message, Addr, msg_error}
use sulink_lan.Server.Devices.{Leases}

-- Where the goroutine of `handleConn` stands: it waits for the first message, it is in the loop, or
-- it has returned.
pub data Phase : Type 0 where
  awaits : Bytes → Phase
  serves ended : Phase

-- `Device`. The writer goroutine goes on with `queue` after `closeMsg`, until a write fails.
pub record Device : Type 0 where
  pub name : Str
  pub vip : ℕ
  pub hwid : Str
  pub udp_addr : Option Addr
  pub online_at : ℕ
  pub queue : List Message
  pub queue_open : Bool
  pub writer_done : Bool
  pub conn_closed : Bool
  pub phase : Phase

pub record Counters : Type 0 where
  pub pkts : ℕ
  pub bytes : ℕ
  pub flooded : ℕ
  pub icmp : ℕ
  pub rejected : ℕ

-- `Server`, with its heap of devices, what it has written to them, and the calls of
-- `OnDeviceOnline`: key, name and address.
pub record Server : Type 0 where
  pub leases : Leases
  pub network_key : Bytes
  pub conns : Map ℕ Device
  pub devices : Map ℕ ℕ
  pub by_id : Map Str ℕ
  pub pushed : Map Str Str
  pub counters : Counters
  pub written : List (ℕ × Message)
  pub announced : List (Str × Str × ℕ)

-- A write through the pointer of a device.
unfoldable pub update : ℕ → (Device → Device) → Server → Server
update id f s = elim (lookup id s.conns) [
  | none ↦ s
  | some d ↦ record s { conns = insert id (f d) s.conns }
]

-- The size of `msgCh`.
abbrev pub queue_size : ℕ
queue_size = 64

unfoldable pub enqueue : Message → Device → Device
enqueue m d =
    if d.queue_open && ltb (length d.queue) queue_size
    then record d { queue = d.queue ++ m ∷ [] }
    else d

unfoldable pub send_msg : Message → ℕ → Server → Server
unfolding update enqueue
send_msg m id s = update id (enqueue m) s

unfoldable pub send_all : Message → List ℕ → Server → Server
unfolding send_msg
send_all m [] s = s
send_all m (id ∷ ids) s = send_all m ids (send_msg m id s)

unfoldable pub close_msg : ℕ → Server → Server
unfolding update
close_msg id s = update id (λ d. record d { queue_open = false }) s

-- `Conn.Close`.
unfoldable pub close_conn : ℕ → Server → Server
unfolding update
close_conn id s = update id (λ d. record d { conn_closed = true }) s

-- `protocol.WriteMsg` on the connection of a device: nothing goes out on a closed one.
unfoldable pub write_msg : ℕ → Message → Server → Server
write_msg id m s = elim (lookup id s.conns) [
  | none ↦ s
  | some d ↦ if d.conn_closed then s else record s { written = s.written ++ (id, m) ∷ [] }
]

unfoldable pub take_queued : ℕ → Device → List Message → Server → Server
take_queued id d [] s = s
take_queued id d (m ∷ q) s =
    if d.conn_closed
    then record s { conns = insert id (record d { queue = q; writer_done = true }) s.conns }
    else record s {
      conns = insert id (record d { queue = q }) s.conns;
      written = s.written ++ (id, m) ∷ [];
    }

-- One round of `writeLoop`.
unfoldable pub write_next : ℕ → Server → Server
unfolding take_queued
write_next id s = elim (lookup id s.conns) [
  | none ↦ s
  | some d ↦ if d.writer_done then s else take_queued id d d.queue s
]

unfoldable pub reject_auth : ℕ → Str → Server → Server
unfolding close_msg write_msg
reject_auth id reason s =
    write_msg id (record (message msg_error) { error = reason }) (close_msg id s)
