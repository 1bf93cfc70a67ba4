-- ===== src/Server/Hub/Conn.antt =====
-- internal/server/server.go: `handleConn` and `handleRegister`. The goroutine of a connection is cut
-- at the messages it waits for: `accept`, `first_message`, `signal` and `hang_up` are what it does
-- between two of them.
use sulink_lan.Base.{
  ℕ, ◌-◌, ◌/◌, ◌^◌, true, false, not, [], ◌∷◌, ◌++◌, Option, none, some, Result, ok, err,
  if◌then◌else◌, Str, codes, ◌==ₛ◌,
}
use sulink_lan.Base.Eq.{nat_eq}
use sulink_lan.Base.Map.{Map, lookup, insert}
use sulink_lan.Base.Text.{trim_space}
use sulink_lan.Base.Bytes.{Bytes}
use sulink_lan.Base.Encode.{hex_encode}
use sulink_lan.Protocol.{
  MsgType, Message, message, err_auth_failed_msg, msg_register, msg_hello, msg_register_ok,
  msg_config_push, msg_welcome, msg_peer_list, msg_challenge, msg_heartbeat, msg_hole_request,
  msg_forward_get, msg_forward_push,
}
use sulink_lan.Protocol.Credentials.{
  Primitives, generate_device_id, generate_key, verify_register_auth, verify_device_auth,
  encrypt_credential,
}
use sulink_lan.Server.Pool.{PoolError, exhausted}
use sulink_lan.Server.Devices.{
  DeviceTable, credential, set_credential, is_blocked, device_key_by_id, forward_of,
}
use sulink_lan.Server.Hub.{
  Server, Device, awaits, serves, ended, update, send_msg, close_msg, close_conn, write_msg,
  reject_auth, register, notify_online, remove_device, peer_list, handle_hole_request,
}

-- What crypto/rand gives a registration; `none` is its error.
pub record Random : Type 0 where
  pub id_bytes : Option Bytes
  pub key_bytes : Option Bytes
  pub blob_nonce : Option Bytes

-- Go's `Unix` of a time after 1970, and 0 for the zero time.
abbrev pub lease_unix : ℕ → ℕ
lease_unix t = t / 10 ^ 9 - 62135596800

-- The text of the errors that `register` passes on.
pub error_text : PoolError → Str
error_text exhausted = codes "virtual ip pool exhausted"
error_text _ = []

-- The credential that a device registers with: its own, or a new one that the table accepts. The
-- error is the reason of the rejection.
unfoldable pub issue : Random → Message → Str → DeviceTable → Result Str (Str × Str) × DeviceTable
issue random m hwid t = elim (credential t hwid) [
  | some c ↦ (ok c, t)
  | none ↦ elim random.id_bytes [
    | none ↦ (err (codes "internal error"), t)
    | some id_bytes ↦ elim random.key_bytes [
      | none ↦ (err (codes "internal error"), t)
      | some key_bytes ↦
          let id = generate_device_id id_bytes in
          let key = generate_key key_bytes in
          let (set, t1) = set_credential t hwid m.device_name id key in
          elim set [
            | ok _ ↦ (ok (id, key), t1)
            | err _ ↦ elim (credential t1 hwid) [
              | some c ↦ (ok c, t1)
              | none ↦ (err (codes "device already registered"), t1)
            ]
          ]
    ]
  ]
]

-- The call of `OnDeviceOnline`.
unfoldable pub announce : Message → ℕ → Server → Server
announce m vip s =
    let key = device_key_by_id s.leases.table m.device_id in
    if m.hwid ==ₛ []
    then s
    else if key ==ₛ []
    then s
    else record s { announced = s.announced ++ (key, m.device_name, vip) ∷ [] }

unfoldable pub send_config : ℕ → Map Str Str → Server → Server
send_config id [] s = s
send_config id (c ∷ cs) s = send_msg (record (message msg_config_push) { config = c ∷ cs }) id s

unfoldable pub push_current : ℕ → Server → Server
unfolding send_config
push_current id s = send_config id s.pushed s

unfoldable pub tell_online : ℕ → Server → Server
tell_online id s = elim (lookup id s.conns) [ none ↦ s | some d ↦ notify_online id d s ]

-- What a registered device is sent, in order, and the message to the others.
unfoldable pub welcome : ℕ → ℕ → ℕ → Server → Server
unfolding push_current tell_online
welcome id vip until s =
    let hello = record (message msg_welcome) { vip = vip; lease_until = lease_unix until } in
    let s1 = send_msg hello id s in
    let s2 = send_msg (record (message msg_peer_list) { peers = peer_list vip s1 }) id s1 in
    tell_online id (push_current id s2)

-- The deferred calls.
unfoldable pub hang_up : ℕ → Server → Server
hang_up id s =
    update id (λ d. record d { phase = ended }) (remove_device id (close_msg id (close_conn id s)))

unfoldable pub enter : ℕ → Message → ℕ → Server → Server
unfolding announce welcome hang_up
enter id m now s =
    let (got, s1) = register id m.device_name m.hwid now s in
    elim got [
      | err e ↦ hang_up id (reject_auth id (error_text e) s1)
      | ok (vip, until) ↦
          update id (λ d. record d { phase = serves }) (welcome id vip until (announce m vip s1))
    ]

-- The start of `handleConn`.
unfoldable pub accept : ℕ → Bytes → ℕ → Server → Server
accept id challenge now s =
    let dev : Device = record {
      name = [];
      vip = 0;
      hwid = [];
      udp_addr = none;
      online_at = now;
      queue = [];
      queue_open = true;
      writer_done = false;
      conn_closed = false;
      phase = awaits challenge;
    } in
    send_msg (record (message msg_challenge) { nonce = challenge }) id
      (record s { conns = insert id dev s.conns })

-- One message of the loop of `handleConn`, by its type.
unfoldable pub on_signal : MsgType → ℕ → Device → Message → Server → Server
on_signal msg_heartbeat id d m s = send_msg (message msg_heartbeat) id s
on_signal msg_hole_request id d m s = handle_hole_request id d m.peer_vip s
on_signal msg_forward_get id d m s =
    send_msg (record (message msg_forward_push) { rules = forward_of s.leases.table d.hwid }) id s
on_signal _ id d m s = s

unfoldable pub signal : ℕ → Device → Message → Server → Server
unfolding on_signal
signal id d m s = on_signal m.type id d m s

module _ (p : Primitives) where
  -- The end of `handleRegister`: the sealed credential goes out.
  unfoldable pub answer_register : ℕ → Option Bytes → Str → Str × Str → Server → Server
  answer_register id nonce hwid cred s = elim nonce [
    | none ↦ reject_auth id (codes "internal error") s
    | some n ↦
        let blob = encrypt_credential p n hwid (record {
          device_id = cred.0;
          device_key = cred.1;
          network_key = hex_encode s.network_key;
        }) in
        write_msg id (record (message msg_register_ok) { blob = blob }) (close_msg id s)
  ]

  unfoldable pub handle_register : ℕ → Random → Message → Bytes → Server → Server
  unfolding answer_register issue
  handle_register id random m challenge s =
      let hwid = trim_space m.hwid in
      if hwid ==ₛ []
      then reject_auth id (codes "device id required") s
      else if not (verify_register_auth p hwid challenge m.auth)
      then reject_auth id err_auth_failed_msg s
      else if is_blocked s.leases.table hwid
      then reject_auth id (codes "device blocked by administrator") s
      else (let (issued, t) = issue random m hwid s.leases.table in
          let s1 = record s { leases = record s.leases { table = t } } in
          elim issued [
            | err reason ↦ reject_auth id reason s1
            | ok cred ↦ answer_register id random.blob_nonce hwid cred s1
          ])

  -- The checks of a Hello: the reason of the rejection, or `none`.
  unfoldable pub check_hello : Message → Bytes → DeviceTable → Option Str
  check_hello m challenge t =
      if m.device_name ==ₛ []
      then some (codes "device name required")
      else if m.device_id ==ₛ []
      then some err_auth_failed_msg
      else if device_key_by_id t m.device_id ==ₛ []
      then some err_auth_failed_msg
      else if not (verify_device_auth p (device_key_by_id t m.device_id) challenge m.auth)
      then some err_auth_failed_msg
      else none

  unfoldable pub hello : ℕ → Message → Bytes → ℕ → Server → Server
  unfolding check_hello enter hang_up
  hello id m challenge now s = elim (check_hello m challenge s.leases.table) [
    | some reason ↦ hang_up id (reject_auth id reason s)
    | none ↦ enter id m now s
  ]

  -- The first message, which `handleConn` sorts by its type.
  unfoldable pub on_first : MsgType → ℕ → Message → Bytes → Random → ℕ → Server → Server
  unfolding hello hang_up
  on_first msg_register id m challenge random now s =
      hang_up id (handle_register id random m challenge s)
  on_first msg_hello id m challenge random now s = hello id m challenge now s
  on_first _ id m challenge random now s =
      hang_up id (reject_auth id (codes "protocol error: expected hello or register") s)

  unfoldable pub first_message : ℕ → Message → Bytes → Random → ℕ → Server → Server
  unfolding on_first
  first_message id m challenge random now s = on_first m.type id m challenge random now s
