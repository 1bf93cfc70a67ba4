-- ===== src/Client/Session/Run/Blocked.antt =====
-- internal/client/client.go and internal/server/server.go: a client whose device the administrator has
-- blocked.
use sulink_lan.Base.{
  ℕ, ◌≡◌, ◌≢◌, refl, true, false, List, [], ◌∷◌, ◌++◌, Option, none, some, err, Str, codes, ◌==ₛ◌,
  arith,
}
use sulink_lan.Base.Eq.{nat_eq, ==ₛ_iff}
use sulink_lan.Base.Map.{lookup, lookup-insert}
use sulink_lan.Base.Text.{trim_space}
use sulink_lan.Base.Bytes.{Bytes}
use sulink_lan.Protocol.{Message, message, msg_challenge, msg_error, err_auth_failed_msg}
use sulink_lan.Protocol.Credentials.{Primitives, verify_register_auth}
use sulink_lan.Server.Devices.{is_blocked, device_key_by_id}
use sulink_lan.Server.Hub.{
  Server, Device, update, write_msg, close_msg, close_conn, reject_auth, send_msg, send_all,
  remove_device, retire, delist, notify_offline,
}
use sulink_lan.Server.Hub.Conn.{Random, hang_up, check_hello, hello, handle_register}
use sulink_lan.Client.Session.{Client, Crypto}
use sulink_lan.Client.Session.Connect.{
  Setup, auth_failed, retry, connect_once, authenticate, exchange, register_msg, hello_msg,
  on_register_reply, on_hello_reply, refused, is_challenge, is_register_ok, is_welcome, forget,
}
use sulink_lan.Client.Session.Connect.Enrol.{register_msg_signed}
use sulink_lan.Client.Session.Run.{
  Running, connecting, returned, attempt, see_pause, happen, run, connect, after_connect,
  take_pause,
}

-- The message that the server wrote last.
abbrev pub last_written : List (ℕ × Message) → Option Message
last_written [] = none
last_written ((id, m) ∷ []) = some m
last_written (w ∷ (v ∷ ws)) = last_written (v ∷ ws)

last_written-append :
    (ws : List (ℕ × Message)) (id : ℕ) (m : Message) → last_written (ws ++ (id, m) ∷ []) ≡ some m
last_written-append [] id m = refl
last_written-append (w ∷ []) id m = refl
last_written-append (w ∷ (v ∷ ws)) id m = last_written-append (v ∷ ws) id m

send_all_written :
    (m : Message) (ids : List ℕ) (s : Server) → (send_all m ids s).written ≡ s.written
unfolding send_all send_msg update
send_all_written m [] s = refl
send_all_written m (id ∷ ids) s = grind (arith, send_all_written m ids)

remove_device_written : (id : ℕ) (s : Server) → (remove_device id s).written ≡ s.written
unfolding remove_device retire delist notify_offline
remove_device_written id s = grind (arith, send_all_written)

hang_up_written : (id : ℕ) (s : Server) → (hang_up id s).written ≡ s.written
unfolding hang_up close_msg close_conn update
hang_up_written id s = grind (arith, remove_device_written)

abbrev rejection : Str → Message
rejection reason = record (message msg_error) { error = reason }

reject_auth_written :
    (id : ℕ) (reason : Str) (s : Server) (d : Device)
    → lookup id s.conns ≡ some d
    → d.conn_closed ≡ false
    → (reject_auth id reason s).written ≡ s.written ++ (id, rejection reason) ∷ []
unfolding reject_auth write_msg close_msg update
reject_auth_written id reason s d conn live = grind (arith, lookup-insert)

-- A Hello with an id that leads to no key is refused.
hello_refused :
    (p : Primitives) (id : ℕ) (m : Message) (challenge : Bytes) (now : ℕ) (s : Server) (d : Device)
    → m.device_name ≢ []
    → device_key_by_id s.leases.table m.device_id ≡ []
    → lookup id s.conns ≡ some d
    → d.conn_closed ≡ false
    → (hello p id m challenge now s).written ≡ s.written ++ (id, rejection err_auth_failed_msg) ∷ []
unfolding hello check_hello
hello_refused p id m challenge now s d name gone conn live = grind (
  arith,
  hang_up_written id (reject_auth id err_auth_failed_msg s),
  reject_auth_written id err_auth_failed_msg s d conn live,
  ==ₛ_iff m.device_name [],
  ==ₛ_iff m.device_id [],
  ==ₛ_iff [] [],
)

-- A registration of a blocked device is refused.
register_refused :
    (p : Primitives) (id : ℕ) (random : Random) (m : Message) (challenge : Bytes) (s : Server)
    (d : Device)
    → trim_space m.hwid ≡ m.hwid
    → m.hwid ≢ []
    → verify_register_auth p m.hwid challenge m.auth ≡ true
    → is_blocked s.leases.table m.hwid ≡ true
    → lookup id s.conns ≡ some d
    → d.conn_closed ≡ false
    → (handle_register p id random m challenge s).written
      ≡ s.written ++ (id, rejection (codes "device blocked by administrator")) ∷ []
unfolding handle_register
register_refused p id random m challenge s d trim ne signed blocked conn live = grind (
  arith,
  reject_auth_written id (codes "device blocked by administrator") s d conn live,
  ==ₛ_iff m.hwid [],
)

-- The answers of the server on a connection, as far as the first message goes.
abbrev pub hello_answer : Primitives → ℕ → Bytes → ℕ → Server → Message → Option Message
hello_answer p id challenge now s m = last_written (hello p id m challenge now s).written

abbrev pub register_answer : Primitives → ℕ → Random → Bytes → Server → Message → Option Message
register_answer p id random challenge s m =
    last_written (handle_register p id random m challenge s).written

module _ (p : Primitives) (os : Setup) (dials : os.dials ≡ true) (writes : os.writes ≡ true) where
  first_attempt :
      (id : ℕ) (ch : Message) (now : ℕ) (s : Server) (d : Device) (k : Crypto) (c : Client)
      → ch.type ≡ msg_challenge
      → ch.nonce ≢ []
      → c.crypto ≡ some k
      → c.cfg.device_key ≢ []
      → c.cfg.name ≢ []
      → device_key_by_id s.leases.table c.cfg.device_id ≡ []
      → lookup id s.conns ≡ some d
      → d.conn_closed ≡ false
      → let o = connect_once p os (some ch) (hello_answer p id ch.nonce now s) c in
        (o.0 ≡ err retry) × (o.1 ≡ forget c)
  unfolding connect_once is_challenge authenticate exchange on_hello_reply is_welcome refused
      hello_msg ◌==ₛ◌
  first_attempt id ch now s d k c t n has key name gone conn live = grind (
    arith,
    hello_refused p id (hello_msg p ch.nonce k c) ch.nonce now s d name gone conn live,
    last_written-append s.written id (rejection err_auth_failed_msg),
    ==ₛ_iff ch.nonce [],
    ==ₛ_iff c.cfg.device_key [],
  )

  second_attempt :
      (id : ℕ) (random : Random) (ch : Message) (s : Server) (d : Device) (c : Client)
      → ch.type ≡ msg_challenge
      → ch.nonce ≢ []
      → c.cfg.device_key ≡ []
      → ((key text : Bytes) → p.hmac key text ≢ [])
      → trim_space c.hwid ≡ c.hwid
      → c.hwid ≢ []
      → is_blocked s.leases.table c.hwid ≡ true
      → lookup id s.conns ≡ some d
      → d.conn_closed ≡ false
      → let o = connect_once p os (some ch) (register_answer p id random ch.nonce s) c in
        (o.0 ≡ err auth_failed) × (o.1 ≡ c)
  unfolding connect_once is_challenge authenticate exchange on_register_reply is_register_ok
      register_msg ◌==ₛ◌
  second_attempt id random ch s d c t n key tags trim ne blocked conn live = grind (
    arith,
    register_refused p id random (register_msg p ch.nonce c) ch.nonce s d trim ne
        (register_msg_signed p ch.nonce c tags) blocked conn live,
    last_written-append s.written id (rejection (codes "device blocked by administrator")),
    ==ₛ_iff ch.nonce [],
  )

-- A registered client whose device the server has blocked, so that its id leads to no key, loses
-- its credential in the first attempt to connect, registers in the second, is refused, and `Run` returns
-- with the error of a failed authentication. Both connections are open, both challenges arrive, and no
-- HMAC is empty.
pub blocked_client_gives_up :
    (p : Primitives) (os : Setup) (r : Running) (k : Crypto) (s u : Server) (i j : ℕ) (d e : Device)
    (now : ℕ) (random : Random) (ch next : Message)
    → ((key text : Bytes) → p.hmac key text ≢ [])
    → os.dials ≡ true
    → os.writes ≡ true
    → r.stage ≡ connecting
    → r.client.crypto ≡ some k
    → r.client.cfg.device_key ≢ []
    → r.client.cfg.name ≢ []
    → trim_space r.client.hwid ≡ r.client.hwid
    → r.client.hwid ≢ []
    → ch.type ≡ msg_challenge
    → ch.nonce ≢ []
    → next.type ≡ msg_challenge
    → next.nonce ≢ []
    → device_key_by_id s.leases.table r.client.cfg.device_id ≡ []
    → is_blocked u.leases.table r.client.hwid ≡ true
    → lookup i s.conns ≡ some d
    → d.conn_closed ≡ false
    → lookup j u.conns ≡ some e
    → e.conn_closed ≡ false
    → let first = attempt os (some ch) (hello_answer p i ch.nonce now s) in
      let second = attempt os (some next) (register_answer p j random next.nonce u) in
      let end = run p (first ∷ see_pause ∷ second ∷ []) r in
      (end.stage ≡ returned (some auth_failed))
      × (end.client.cfg.device_key ≡ [])
      × (end.client.crypto ≡ none)
unfolding run happen connect after_connect take_pause
blocked_client_gives_up p os r k s u i j d e now random ch next tags dials writes at has key name
      trim ne t n t' n' gone blocked conn live conn' live' =
    grind (
      arith,
      first_attempt p os dials writes i ch now s d k r.client t n has key name gone conn live,
      second_attempt p os dials writes j random next u e (forget r.client) t' n' refl tags trim ne
          blocked conn' live',
    )
