-- ===== src/Client/Session/Run/Tests.antt =====
-- The registration of a new device and the end of a blocked one, at concrete inputs, of
-- internal/client/client.go and internal/server/server.go.
use sulink_lan.Base.{
  ◌≡◌, ◌≢◌, refl, true, false, [], ◌∷◌, ◌++◌, none, some, err, codes, ◌==ₛ◌, arith,
}
use sulink_lan.Base.Eq.{nat_eq, str_eq}
use sulink_lan.Base.Map.{lookup, insert, delete}
use sulink_lan.Base.Text.{trim_space}
use sulink_lan.Base.Bytes.{Bytes}
use sulink_lan.Base.Encode.{base32_encode}
use sulink_lan.Protocol.{Message}
use sulink_lan.Protocol.Credentials.{generate_device_id}
use sulink_lan.Protocol.Samples.{tag, plain_primitives}
use sulink_lan.Server.Devices.{credential, is_blocked, device_key_by_id, DeviceTable}
use sulink_lan.Server.Hub.Conn.{Random, handle_register, check_hello}
use sulink_lan.Client.Session.{Crypto}
use sulink_lan.Client.Session.Samples.{
  fresh, server, server_with, device, vip_a, at_a, nonce, key, keys, challenge, os,
}
use sulink_lan.Client.Session.Connect.{
  registered, auth_failed, register_msg, hello_msg, on_register_reply,
}
use sulink_lan.Client.Session.Connect.Enrol.{register-hello}
use sulink_lan.Client.Session.Run.{
  Running, attempt, see_pause, connecting, returned, running, new_client, run,
}
use sulink_lan.Client.Session.Run.Blocked.{hello_answer, register_answer, blocked_client_gives_up}

program : Unit {0}
unfolding new_client ◌==ₛ◌ lookup insert delete trim_space is_blocked credential device_key_by_id
    running generate_device_id base32_encode
program = tt

abbrev random : Random
random = record { id_bytes = some tag; key_bytes = some key; blob_nonce = some nonce }

hmac_not_empty : (k text : Bytes) → plain_primitives.hmac k text ≢ []
hmac_not_empty k text e = cc

trimmed : trim_space fresh.hwid ≡ fresh.hwid
unfolding program
trimmed = refl

tag_ne : tag ≢ []
tag_ne e = cc

nonce_ne : nonce ≢ []
nonce_ne e = cc

named : fresh.cfg.name ≢ []
unfolding program
named e = cc

identified : fresh.hwid ≢ []
unfolding program
identified e = cc

not_blocked : is_blocked server.leases.table fresh.hwid ≡ false
unfolding program
not_blocked = refl

unknown : credential server.leases.table fresh.hwid ≡ none
unfolding program
unknown = refl

unused : lookup (generate_device_id tag) server.leases.table.by_device_id ≡ none
unfolding program
unused = refl

connected : lookup 1 server.conns ≡ some (device vip_a at_a)
unfolding program
connected = refl

register-hello_example :
    let c = fresh in
    let u =
      handle_register plain_primitives 1 random
        (register_msg plain_primitives nonce c)
        nonce
        server in
    (reply : Message) × (k : Crypto) × (u.written ≡ server.written ++ (1, reply) ∷ [])
    × ((on_register_reply plain_primitives reply c).0 ≡ err registered)
    × ((on_register_reply plain_primitives reply c).1.crypto ≡ some k)
    × (check_hello plain_primitives
          (hello_msg plain_primitives tag k (on_register_reply plain_primitives reply c).1)
          tag
          u.leases.table
        ≡ none)
register-hello_example =
    register-hello plain_primitives fresh server 1 (device vip_a at_a) random nonce tag tag key
      nonce hmac_not_empty named identified trimmed not_blocked unknown refl tag_ne unused refl
      (omega arith) refl refl refl (omega arith) refl connected refl

-- The server whose table has the device blocked.
abbrev blocking : DeviceTable
blocking = record server.leases.table {
  by_hwid =
      (
        codes "machine",
        record {
          hwid = codes "machine";
          name = [];
          vip = 0;
          expire_at = 0;
          forward = [];
          device_id = [];
          device_key = [];
          blocked = true;
        },
      )
      ∷ [];
}

gone : device_key_by_id blocking fresh.cfg.device_id ≡ []
unfolding program
gone = refl

blocked : is_blocked blocking fresh.hwid ≡ true
unfolding program
blocked = refl

has_key : fresh.cfg.device_key ≢ []
unfolding program
has_key e = cc

has_crypto : fresh.crypto ≡ some keys
unfolding program
has_crypto = refl

abbrev started : Running
started = record {
  client = fresh;
  stage = connecting;
  closed = false;
  session_over = false;
  is_open = false;
}

blocked_client_gives_up_example :
    let s = server_with blocking in
    let first = attempt os (some challenge) (hello_answer plain_primitives 1 nonce 0 s) in
    let second = attempt os (some challenge) (register_answer plain_primitives 1 random nonce s) in
    let end = run plain_primitives (first ∷ see_pause ∷ second ∷ []) started in
    (end.stage ≡ returned (some auth_failed))
    × (end.client.cfg.device_key ≡ [])
    × (end.client.crypto ≡ none)
blocked_client_gives_up_example =
    blocked_client_gives_up plain_primitives os started keys (server_with blocking)
      (server_with blocking) 1 1 (device vip_a at_a) (device vip_a at_a) 0 random challenge
      challenge hmac_not_empty refl refl refl has_crypto has_key named trimmed identified refl
      nonce_ne refl nonce_ne gone blocked connected refl connected refl
