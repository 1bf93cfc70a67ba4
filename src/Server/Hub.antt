-- ===== src/Server/Hub.antt =====
-- internal/server/server.go: the server's state, the queues of messages to its clients, and the
-- registration and removal of a connection. A `*Device` is its number in `conns`; `conns` keeps a
-- device after its connection has ended, as the code's pointers do. `written` lists what has gone
-- out on the connections, in order.
pub mod State
pub mod Conn
pub mod Relay
pub mod Invariant
pub mod Names
pub mod Steps
pub mod Start
pub mod Frames
pub mod Valid
pub mod Online
pub mod Leaving
pub mod Sweeping
mod Tests
pub mod Handlers
pub mod Events
pub use State.{Phase, Device, Counters, Server, queue_size, awaits, serves, ended}
unfoldable pub use State.{
  update, enqueue, send_msg, send_all, close_msg, close_conn, write_msg, take_queued, write_next,
  reject_auth,
}
use sulink_lan.Base.{
  ℕ, zero, suc, ◌+◌, ◌-◌, Bool, true, false, not, ◌&&◌, List, [], ◌∷◌, ◌++◌, map, Option, none,
  some, Result, ok, err, ltb, ◌==◌, if◌then◌else◌, Str, codes, ◌==ₛ◌, length,
}
use sulink_lan.Base.Eq.{nat_eq, str_eq}
use sulink_lan.Base.Map.{Map, lookup, insert, delete}
use sulink_lan.Base.Text.{decimal}
use sulink_lan.Base.Bytes.{Bytes}
use sulink_lan.Protocol.{
  MsgType, Message, message, Addr, Peer, msg_error, msg_peer_online, msg_peer_offline,
  msg_hole_notify,
}
use sulink_lan.Server.Pool.{PoolError, alloc, release}
use sulink_lan.Server.Devices.{Leases}
use sulink_lan.Server.Devices.Leasing.{assign}

-- The address, when its lease ends (0 without a lease), and the new state.
unfoldable pub alloc_vip : Str → Str → ℕ → Leases → Result PoolError (ℕ × ℕ) × Leases
alloc_vip hwid name now l =
    if hwid ==ₛ []
    then elim (alloc l.pool) [
      | err e ↦ (err e, l)
      | ok (vip, pool) ↦ (ok (vip, 0), record l { pool = pool })
    ]
    else assign hwid name now l

-- `fmt.Sprintf("%s (%d)", base, i)`.
unfoldable pub numbered : Str → ℕ → Str
numbered base i = base ++ (codes " (" ++ (decimal i ++ codes ")"))

-- The loop of `register` for a free name, with `left` more candidates.
unfoldable pub free_name : Str → ℕ → ℕ → Map Str ℕ → Str
unfolding numbered
free_name base i zero names = numbered base i
free_name base i (suc left) names =
    let next = free_name base (suc i) left names in
    elim (lookup (numbered base i) names) [ none ↦ numbered base i | some _ ↦ next ]

unfoldable pub choose_name : ℕ → Str → Map Str ℕ → Str
unfolding free_name
choose_name id name names = elim (lookup name names) [
  | none ↦ name
  | some old ↦ if old == id then name else free_name name 2 (length names) names
]

-- Another connection that has the address is closed.
unfoldable pub take_over : ℕ → ℕ → Server → Server
unfolding close_conn
take_over id vip s = elim (lookup vip s.devices) [
  | none ↦ s
  | some old ↦ if old == id then s else close_conn old s
]

-- The part of `register` under `s.mu`.
unfoldable pub enlist : ℕ → Str → Str → ℕ → Server → Server
unfolding choose_name take_over update
enlist id name hwid vip s =
    let chosen = choose_name id name s.by_id in
    let s1 =
      update id (λ d. record d { name = chosen; vip = vip; hwid = hwid }) (take_over id vip s) in
    record s1 { devices = insert vip id s1.devices; by_id = insert chosen id s1.by_id }

unfoldable pub register : ℕ → Str → Str → ℕ → Server → Result PoolError (ℕ × ℕ) × Server
unfolding enlist alloc_vip
register id name hwid now s =
    let (got, l) = alloc_vip hwid name now s.leases in
    let s1 = record s { leases = l } in
    elim got [
      | err e ↦ (err e, s1)
      | ok (vip, until) ↦ (ok (vip, until), enlist id name hwid vip s1)
    ]

-- Deletes an entry if it is the device's own.
unfoldable pub delete_own : ℕ → Option ℕ → Bool
delete_own id none = false
delete_own id (some cur) = cur == id

unfoldable pub is_some {ℓ} : {A : Type ℓ} → Option A → Bool
is_some none = false
is_some (some _) = true

-- `removeDevice` under `s.mu`.
unfoldable pub delist : ℕ → Device → Server → Server
unfolding delete_own
delist id d s = record s {
  devices = if delete_own id (lookup d.vip s.devices) then delete d.vip s.devices else s.devices;
  by_id = if delete_own id (lookup d.name s.by_id) then delete d.name s.by_id else s.by_id;
}

abbrev pub ids_of : Map ℕ ℕ → List ℕ
ids_of [] = []
ids_of ((vip, id) ∷ m) = id ∷ ids_of m

unfoldable pub notify_offline : ℕ → Server → Server
unfolding send_all
notify_offline vip s =
    send_all (record (message msg_peer_offline) { peer_vip = vip }) (ids_of s.devices) s

abbrev pub others : ℕ → Map ℕ ℕ → List ℕ
others id [] = []
others id ((vip, i) ∷ m) = let rest = others id m in if i == id then rest else i ∷ rest

unfoldable pub notify_online : ℕ → Device → Server → Server
unfolding send_all
notify_online id d s =
    send_all
      (record (message msg_peer_online) { peers = record { name = d.name; vip = d.vip } ∷ [] })
      (others id s.devices) s

-- The end of `removeDevice`, once the device is off the maps.
unfoldable pub retire : Device → Server → Server
unfolding is_some notify_offline
retire d s =
    let released = not (d.vip == 0) && d.hwid ==ₛ [] && not (is_some (lookup d.vip s.devices)) in
    let s1 =
      (if released
        then record s { leases = record s.leases { pool = release s.leases.pool d.vip } }
        else s) in
    if d.vip == 0 then s1 else notify_offline d.vip s1

unfoldable pub remove_device : ℕ → Server → Server
unfolding delist retire
remove_device id s = elim (lookup id s.conns) [ none ↦ s | some d ↦ retire d (delist id d s) ]

-- The entries of `peerList` for the addresses other than `self`.
unfoldable pub peer_entries : ℕ → Map ℕ Device → Map ℕ ℕ → List Peer
peer_entries self conns [] = []
peer_entries self conns ((vip, id) ∷ m) =
    let rest = peer_entries self conns m in
    if vip == self then rest else elim (lookup id conns) [
      | none ↦ rest
      | some d ↦ record { name = d.name; vip = vip } ∷ rest
    ]

unfoldable pub peer_list : ℕ → Server → List Peer
unfolding peer_entries
peer_list self s = peer_entries self s.conns s.devices

-- The device of an address, with its number.
unfoldable pub device_at : ℕ → Server → Option (ℕ × Device)
device_at vip s = elim (lookup vip s.devices) [
  | none ↦ none
  | some id ↦ elim (lookup id s.conns) [ none ↦ none | some d ↦ some (id, d) ]
]

abbrev pub hole_notify : ℕ → Addr → Message
hole_notify vip a = record (message msg_hole_notify) { peer_vip = vip; addrs = a ∷ [] }

-- The answer to the device of a hole request, and the message to its peer if it has an address.
unfoldable pub tell_both : ℕ → Device → ℕ → ℕ → Addr → Server → Server
tell_both from d peer_vip peer addr s =
    let s1 = send_msg (hole_notify peer_vip addr) from s in
    elim d.udp_addr [ none ↦ s1 | some own ↦ send_msg (hole_notify d.vip own) peer s1 ]

abbrev pub not_ready : ℕ → Message
not_ready vip = record (message msg_error) { error = codes "peer not ready"; peer_vip = vip }

unfoldable pub handle_hole_request : ℕ → Device → ℕ → Server → Server
unfolding tell_both device_at send_msg
handle_hole_request from d peer_vip s = elim (device_at peer_vip s) [
  | none ↦ send_msg (not_ready peer_vip) from s
  | some (peer, p) ↦ elim p.udp_addr [
    | none ↦ send_msg (not_ready peer_vip) from s
    | some addr ↦ tell_both from d peer_vip peer addr s
  ]
]
