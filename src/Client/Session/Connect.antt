-- ===== src/Client/Session/Connect.antt =====
-- internal/client/client.go: `connectOnce` and the loop of `Run` around it. The operating system is an
-- argument (`Setup`), and so are the answers of the server.
pub mod Enrol
use sulink_lan.Base.{
  ℕ, Bool, true, false, not, ◌||◌, List, [], ◌∷◌, ◌++◌, Option, none, some, Result, ok, err, ◌==◌,
  if◌then◌else◌, length, Str, codes, ◌==ₛ◌,
}
use sulink_lan.Base.Map.{Map}
use sulink_lan.Base.Text.{contains}
use sulink_lan.Base.Net.{join_host_port, split_host_port}
use sulink_lan.Base.Bytes.{Bytes}
use sulink_lan.Protocol.{
  MsgType, Message, Addr, message, ip4_string, err_auth_failed_msg, msg_challenge, msg_register,
  msg_register_ok, msg_hello, msg_welcome, msg_forward_get,
}
use sulink_lan.Protocol.Credentials.{
  Primitives, Credential, auth_tag_for, register_auth_key, device_auth_key, parse_key,
  decrypt_credential,
}
use sulink_lan.Protocol.Packet.{encrypt, flag_probe}
use sulink_lan.Client.Nat.{new_nat}
use sulink_lan.Client.Session.{Config, Crypto, Client, Out, to_server, datagram, save_credential}

-- The errors of `connectOnce` that `Run` tells apart; `retry` is every other error.
pub data ConnError : Type 0 where
  registered name_taken auth_failed retry : ConnError

-- What the operating system gives `connectOnce`: whether each call succeeds, the host's address and
-- port (`LookupHost` and `ResolveUDPAddr`), and random bytes.
pub record Setup : Type 0 where
  pub dials : Bool
  pub writes : Bool
  pub listens : Bool
  pub resolve : Str → Str → Option Addr
  pub card_opens : Bool
  pub configures : Str → Bool
  pub nonce : Bytes
  pub probe_sent : Bool

-- `ErrNameTakenMsg`.
abbrev pub err_name_taken_msg : Str
err_name_taken_msg = codes "device name already online"

-- The server's address, with the default port.
unfoldable pub server_addr : Str → Str
unfolding join_host_port
server_addr s = if contains b':' s then s else join_host_port s (codes "9000")

-- `MsgType.==` of the code.
unfoldable pub is_challenge : MsgType → Bool
is_challenge msg_challenge = true
is_challenge _ = false

unfoldable pub is_register_ok : MsgType → Bool
is_register_ok msg_register_ok = true
is_register_ok _ = false

unfoldable pub is_welcome : MsgType → Bool
is_welcome msg_welcome = true
is_welcome _ = false

-- `NewCryptoWithKeys`.
unfoldable pub new_crypto : Bytes → Bytes → Option Crypto
new_crypto net_key auth_key =
    if length net_key == 32 then some (record { net_key = net_key; auth_key = auth_key }) else none

abbrev pub Outcome : Type 0
Outcome = Result ConnError (Unit {0}) × Client × List Out

abbrev pub failed : ConnError → Client → List Out → Outcome
failed e c out = (err e, c, out)

-- The credential is dropped, so that the next connection registers.
abbrev pub forget : Client → Client
forget c = record c {
  cfg = record c.cfg { device_id = []; device_key = []; network_key = [] };
  crypto = none;
}

-- An answer to Hello that is no Welcome.
unfoldable pub refused : Message → Client → Outcome
refused m c =
    if m.error ==ₛ err_name_taken_msg
    then failed name_taken c []
    else if m.error ==ₛ err_auth_failed_msg
    then failed retry (forget c) []
    else failed retry c []

module _ (p : Primitives) where
  unfoldable pub register_msg : Bytes → Client → Message
  register_msg nonce c = record (message msg_register) {
    device_name = c.cfg.name;
    hwid = c.hwid;
    auth = auth_tag_for p (register_auth_key p c.hwid) nonce;
  }

  unfoldable pub hello_msg : Bytes → Crypto → Client → Message
  hello_msg nonce k c = record (message msg_hello) {
    device_name = c.cfg.name;
    hwid = c.hwid;
    device_id = c.cfg.device_id;
    auth = auth_tag_for p k.auth_key nonce;
  }

  -- The keys of a credential.
  unfoldable pub crypto_of : Credential → Option Crypto
  unfolding new_crypto
  crypto_of cred = elim (parse_key cred.device_key) [
    | none ↦ none
    | some dev ↦ elim (parse_key cred.network_key) [
      | none ↦ none
      | some net ↦ new_crypto net (device_auth_key p dev)
    ]
  ]

  abbrev pub with_credential : Credential → Client → Client
  with_credential cred c = record c {
    cfg = record c.cfg {
      device_id = cred.device_id;
      device_key = cred.device_key;
      network_key = cred.network_key;
    };
  }

  -- The answer to a registration.
  unfoldable pub on_register_reply : Message → Client → Outcome
  unfolding is_register_ok crypto_of
  on_register_reply m c =
      if not (is_register_ok m.type)
      then failed auth_failed c []
      else elim (decrypt_credential p c.hwid m.blob) [
        | err _ ↦ failed retry c []
        | ok cred ↦ elim (crypto_of cred) [
          | none ↦ failed retry c []
          | some k ↦
              failed registered (record (with_credential cred c) { crypto = some k })
                (if c.cfg.persists then save_credential cred ∷ [] else [])
        ]
      ]

  -- The end of `connectOnce`, from the new NAT on.
  unfoldable pub announce_self : Setup → Addr → Client → Outcome
  announce_self os srv c =
      let c1 = record c { srv_udp = some srv; nat = some (new_nat c.self []) } in
      let asked = to_server (message msg_forward_get) ∷ [] in
      if not os.writes then failed retry c1 [] else elim c.crypto [
        | none ↦ failed retry c1 asked
        | some k ↦ elim (encrypt (p.gcm k.net_key) os.nonce flag_probe c.self 0 []) [
          | err _ ↦ failed retry c1 asked
          | ok probe ↦
              if os.probe_sent
              then (ok tt, c1, asked ++ datagram srv probe ∷ [])
              else failed retry c1 asked
        ]
      ]

  -- The resolution of the server's UDP address.
  unfoldable pub udp_server : Setup → Client → Option Addr
  unfolding server_addr
  udp_server os c = elim (split_host_port (server_addr c.cfg.server)) [
    | none ↦ none
    | some (host, port) ↦ os.resolve host port
  ]

  -- From the Welcome on: the sockets, the virtual card and the NAT.
  unfoldable pub open_session : Setup → Message → Client → Outcome
  unfolding announce_self udp_server
  open_session os m c =
      let c1 = record c { self = m.vip; lease_until = m.lease_until } in
      if not os.listens then failed retry c1 [] else elim (udp_server os c1) [
        | none ↦ failed retry c1 []
        | some srv ↦
            if not os.card_opens || not (os.configures (ip4_string m.vip))
            then failed retry (record c1 { srv_udp = some srv }) []
            else announce_self os srv c1
      ]

  unfoldable pub on_hello_reply : Setup → Message → Client → Outcome
  unfolding is_welcome refused open_session
  on_hello_reply os m c = if is_welcome m.type then open_session os m c else refused m c

  -- A message goes out, and its answer, if there is one, is handled.
  unfoldable pub exchange :
      Setup → Message → Option Message → (Message → Client → Outcome) → Client → Outcome
  exchange os m answer handle c = if not os.writes then failed retry c [] else elim answer [
    | none ↦ failed retry c (to_server m ∷ [])
    | some r ↦ let (result, c1, out) = handle r c in (result, c1, to_server m ∷ out)
  ]

  -- What follows the challenge.
  unfoldable pub authenticate : Setup → Bytes → (Message → Option Message) → Client → Outcome
  unfolding exchange register_msg hello_msg on_register_reply on_hello_reply
  authenticate os nonce answer c =
      let register = register_msg nonce c in
      if c.cfg.device_key ==ₛ []
      then exchange os register (answer register) on_register_reply c
      else elim c.crypto [
        | none ↦ failed retry c []
        | some k ↦
            let hello = hello_msg nonce k c in
            exchange os hello (answer hello) (on_hello_reply os) c
      ]

  -- `connectOnce`, given the challenge that is read and the server's answers.
  unfoldable pub connect_once :
      Setup → Option Message → (Message → Option Message) → Client → Outcome
  unfolding is_challenge authenticate
  connect_once os challenge answer c = if not os.dials then failed retry c [] else elim challenge [
    | none ↦ failed retry c []
    | some m ↦
        if not (is_challenge m.type) || m.nonce ==ₛ []
        then failed retry c []
        else authenticate os m.nonce answer c
  ]
