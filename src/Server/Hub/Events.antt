-- ===== src/Server/Hub/Events.antt =====
-- What can happen to the server of internal/server, one step at a time: a connection comes or ends, a
-- message arrives on it, its writer goroutine writes, a datagram arrives, the sweeper runs, or the
-- management page acts. `step` does nothing where the code is not waiting for the event.
use sulink_lan.Base.{ℕ, Bool, List, [], ◌∷◌, none, some, if◌then◌else◌, Str}
use sulink_lan.Base.Eq.{nat_eq}
use sulink_lan.Base.Map.{Map, lookup}
use sulink_lan.Base.Bytes.{Bytes}
use sulink_lan.Protocol.{Addr, Message}
use sulink_lan.Protocol.Packet.{Aead}
use sulink_lan.Protocol.Credentials.{Primitives}
use sulink_lan.Server.Devices.Leasing.{prune}
use sulink_lan.Server.Control.{
  Settings, push, set_device_forward, set_device_ip, revoke_device_credential, unblock_device,
}
use sulink_lan.Server.Hub.{Server, Device, Phase, awaits, serves, ended, write_next}
use sulink_lan.Server.Hub.Conn.{Random, accept, first_message, signal, hang_up}
use sulink_lan.Server.Hub.Relay.{relay}

pub data Event : Type 0 where
  accepts : (id : ℕ) (challenge : Bytes) (now : ℕ) → Event
  first_arrives : (id : ℕ) (m : Message) (random : Random) (now : ℕ) → Event
  signal_arrives : (id : ℕ) (m : Message) → Event
  hangs_up writes : (id : ℕ) → Event
  datagram_arrives : (nonce buf : Bytes) (from : Addr) → Event
  sweeps : (now : ℕ) → Event
  pushes : (cfg : Map Str Str) (f : Settings) → Event
  sets_forward : (h : Str) (rules : List Str) → Event
  sets_ip : (h text : Str) → Event
  revokes unblocks : (h : Str) → Event

module _ (p : Primitives) (aead : Aead) where
  -- The first message is read on an open connection that waits for it.
  unfoldable pub first_step : Phase → ℕ → Message → Random → ℕ → Bool → Server → Server
  first_step (awaits challenge) id m random now closed s =
      if closed then s else first_message p id m challenge random now s
  first_step serves id m random now closed s = s
  first_step ended id m random now closed s = s

  unfoldable pub signal_step : Phase → ℕ → Message → Device → Server → Server
  signal_step (awaits _) id m d s = s
  signal_step serves id m d s = if d.conn_closed then s else signal id d m s
  signal_step ended id m d s = s

  unfoldable pub hang_up_step : Phase → ℕ → Server → Server
  hang_up_step (awaits _) id s = hang_up id s
  hang_up_step serves id s = hang_up id s
  hang_up_step ended id s = s

  unfoldable pub step : Event → Server → Server
  unfolding first_step signal_step hang_up_step
  step (accepts id challenge now) s = elim (lookup id s.conns) [
    | none ↦ accept id challenge now s
    | some _ ↦ s
  ]
  step (first_arrives id m random now) s = elim (lookup id s.conns) [
    | none ↦ s
    | some d ↦ first_step d.phase id m random now d.conn_closed s
  ]
  step (signal_arrives id m) s = elim (lookup id s.conns) [
    | none ↦ s
    | some d ↦ signal_step d.phase id m d s
  ]
  step (hangs_up id) s = elim (lookup id s.conns) [ none ↦ s | some d ↦ hang_up_step d.phase id s ]
  step (writes id) s = write_next id s
  step (datagram_arrives nonce buf from) s = (relay aead nonce buf from s).0
  step (sweeps now) s = record s { leases = (prune now s.leases).1 }
  step (pushes cfg f) s = (push cfg f s).2
  step (sets_forward h rules) s = (set_device_forward h rules s).1
  step (sets_ip h text) s = (set_device_ip h text s).1
  step (revokes h) s = (revoke_device_credential h s).1
  step (unblocks h) s = (unblock_device h s).1

  unfoldable pub run : List Event → Server → Server
  unfolding step
  run [] s = s
  run (e ∷ es) s = run es (step e s)
