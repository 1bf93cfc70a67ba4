-- ===== src/Client/Session.antt =====
-- internal/client/client.go: the state of a client, and what its goroutines do to the outside.
pub mod Connect
pub mod Signals
pub mod Data
pub mod Run
pub mod Samples
mod Tests
use sulink_lan.Base.{ℕ, Bool, List, Option, Str}
use sulink_lan.Base.Map.{Map}
use sulink_lan.Base.Bytes.{Bytes}
use sulink_lan.Protocol.{Addr, Message}
use sulink_lan.Protocol.Credentials.{Credential}
use sulink_lan.Client.Nat.{Nat}
use sulink_lan.Client.Peers.{Peers}

-- `Config`, with the presence of the callback `OnCredential`.
pub record Config : Type 0 where
  pub server : Str
  pub name : Str
  pub no_punch : Bool
  pub device_id : Str
  pub device_key : Str
  pub network_key : Str
  pub hwid : Str
  pub persists : Bool

-- `protocol.Crypto`: the key of the data plane, and the key that signs challenges.
pub record Crypto : Type 0 where
  pub net_key : Bytes
  pub auth_key : Bytes

-- A goroutine of `startPunch`, with the rounds that it has left.
pub record Puncher : Type 0 where
  pub vip : ℕ
  pub left : ℕ

-- `Client`, with its running punching goroutines by number.
pub record Client : Type 0 where
  pub cfg : Config
  pub crypto : Option Crypto
  pub srv_udp : Option Addr
  pub self : ℕ
  pub nat : Option Nat
  pub peers : Peers
  pub punching : Map ℕ Bool
  pub punchers : Map ℕ Puncher
  pub next_puncher : ℕ
  pub no_punch : Bool
  pub pushed : Map Str Str
  pub hwid : Str
  pub lease_until : ℕ
  pub rules : List Str

-- What goes out: a message to the server, a datagram, a packet to the virtual card, the timer that
-- asks for a peer's address again, and a call of `OnCredential`.
pub data Out : Type 0 where
  to_server : Message → Out
  datagram : Addr → Bytes → Out
  to_card : Bytes → Out
  ask_later : ℕ → Out
  save_credential : Credential → Out
