-- ===== src/Protocol.antt =====
-- internal/protocol: the signalling messages (msg.go) and the packets of the data plane (packet.go).
pub mod Packet
pub mod Framing
pub mod Credentials
pub mod Samples
mod Tests
use sulink_lan.Base.{
  ℕ, ◌+◌, ◌-◌, ◌*◌, ◌^◌, Bool, true, false, ◌||◌, List, [], ◌∷◌, map, Option, none, some, Str,
  codes, ◌==ₛ◌,
}
use sulink_lan.Base.Map.{Map}
use sulink_lan.Base.Text.{trim_space, lower}
use sulink_lan.Base.Net.{parse_ip4, ip4_text}
use sulink_lan.Base.Bytes.{Bytes}
use Prim.Native.Nat.{bit_or}

pub data MsgType : Type 0 where
  msg_challenge msg_hello msg_welcome msg_peer_list msg_hole_request msg_hole_notify : MsgType
  msg_peer_online msg_peer_offline msg_heartbeat msg_error msg_config_push : MsgType
  msg_forward_get msg_forward_push msg_register msg_register_ok : MsgType
  -- The types of the removed proxy, and every other number.
  msg_other : ℕ → MsgType

pub record Addr : Type 0 where
  pub ip : Str
  pub port : ℕ

pub record Peer : Type 0 where
  pub name : Str
  pub vip : ℕ

-- `Message`, without the fields of the removed proxy and the old `NetworkKey`.
pub record Message : Type 0 where
  pub type : MsgType
  pub device_name : Str
  pub hwid : Str
  pub nonce : Bytes
  pub auth : Bytes
  pub device_id : Str
  pub blob : Bytes
  pub vip : ℕ
  pub lease_until : ℕ
  pub peer_vip : ℕ
  pub addrs : List Addr
  pub error : Str
  pub peers : List Peer
  pub config : Map Str Str
  pub rules : List Str

-- `&Message{Type: t}`.
abbrev pub message : MsgType → Message
message t = record {
  type = t;
  device_name = [];
  hwid = [];
  nonce = [];
  auth = [];
  device_id = [];
  blob = [];
  vip = 0;
  lease_until = 0;
  peer_vip = 0;
  addrs = [];
  error = [];
  peers = [];
  config = [];
  rules = [];
}

abbrev pub cfg_notice : Str
cfg_notice = codes "notice"

abbrev pub cfg_no_punch : Str
cfg_no_punch = codes "no_punch"

abbrev pub err_auth_failed_msg : Str
err_auth_failed_msg = codes "authentication failed"

-- `VNetBroadcast`: the network address of 10.0.0.0/8 with every host bit set.
abbrev pub vnet_broadcast : ℕ
vnet_broadcast = bit_or (10 * 2 ^ 24) (2 ^ 24 - 1)

-- `ParseBool`; of the code points that `strings.ToLower` changes, the ASCII letters can matter here.
unfoldable pub parse_bool : Str → Bool
unfolding trim_space lower ◌==ₛ◌
parse_bool v =
    let w = map lower (trim_space v) in
    w ==ₛ codes "1"
    || w ==ₛ codes "true"
    || w ==ₛ codes "on"
    || w ==ₛ codes "yes"
    || w ==ₛ codes "y"
    || w ==ₛ codes "是"
    || w ==ₛ codes "开"

-- `IP4`: `none` stands for the error.
unfoldable pub ip4 : Str → Option ℕ
unfolding parse_ip4
ip4 s = parse_ip4 s

unfoldable pub ip4_string : ℕ → Str
unfolding ip4_text
ip4_string v = ip4_text v
