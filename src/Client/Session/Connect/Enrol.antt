-- ===== src/Client/Session/Connect/Enrol.antt =====
-- internal/client/client.go and internal/server/server.go: a client registers with the server, and
-- then signs its Hello with the credential that it was given.
use sulink_lan.Base.{
  ℕ, ◌≡◌, ◌≢◌, refl, true, false, [], ◌∷◌, ◌++◌, none, some, ok, err, ◌==◌, if◌then◌else◌, length,
  ap, Str, ◌==ₛ◌, arith,
}
use sulink_lan.Base.Eq.{nat_eq, str_eq, ==ₛ_iff}
use sulink_lan.Base.Map.{lookup, lookup-insert}
use sulink_lan.Base.Text.{trim_space}
use sulink_lan.Base.Bytes.{Bytes, AreBytes}
use sulink_lan.Base.Encode.{hex_encode, hex_decode-hex_encode, base32_encode_ne}
use sulink_lan.Protocol.{Message, message, msg_register_ok}
use sulink_lan.Protocol.Packet.{nonce_len}
use sulink_lan.Protocol.Credentials.{
  Primitives, Credential, generate_device_id, generate_key, parse_key, encrypt_credential,
  decrypt_credential-encrypt_credential, verify_register_auth, verify_device_auth_iff, auth_tag_for,
  register_auth_key, device_auth_key,
}
use sulink_lan.Server.Devices.{
  DeviceTable, credential, set_credential, is_blocked, device_key_by_id, rec_of, taken_by_other,
}
use sulink_lan.Server.Devices.Promises.{credential-set_credential}
use sulink_lan.Server.Hub.{Server, Device, update, write_msg, close_msg}
use sulink_lan.Server.Hub.Conn.{Random, issue, answer_register, handle_register, check_hello}
use sulink_lan.Client.Session.{Client, Crypto}
use sulink_lan.Client.Session.Connect.{
  registered, register_msg, hello_msg, crypto_of, on_register_reply, with_credential,
}

parse_key-hex_encode :
    (key : Bytes) → AreBytes key → length key ≡ 32 → parse_key (hex_encode key) ≡ some key
unfolding parse_key
parse_key-hex_encode key bs n = ground (arith, hex_decode-hex_encode key bs)

hex_encode_ne : (key : Bytes) → length key ≡ 32 → hex_encode key ≢ []
unfolding hex_encode
hex_encode_ne [] n e = omega arith
hex_encode_ne (b ∷ key) n e = cc

-- A device that has no credential is given the id and the key that are drawn.
issue_new :
    (random : Random) (m : Message) (h : Str) (t : DeviceTable) {id_bytes key_bytes : Bytes}
    → credential t h ≡ none
    → random.id_bytes ≡ some id_bytes
    → random.key_bytes ≡ some key_bytes
    → (set_credential t h m.device_name (generate_device_id id_bytes) (generate_key key_bytes)).0
      ≡ ok tt
    → issue random m h t ≡ (
      ok (generate_device_id id_bytes, generate_key key_bytes),
      (set_credential t h m.device_name (generate_device_id id_bytes) (generate_key key_bytes)).1,
    )
unfolding issue
issue_new random m h t fresh i k e = grind arith

set_credential_new :
    (t : DeviceTable) (h name d key : Str)
    → h ≢ []
    → d ≢ []
    → key ≢ []
    → credential t h ≡ none
    → lookup d t.by_device_id ≡ none
    → (set_credential t h name d key).0 ≡ ok tt
unfolding set_credential credential taken_by_other rec_of
set_credential_new t h name d key nh nd nk fresh free =
    grind (arith, ==ₛ_iff h [], ==ₛ_iff d [], ==ₛ_iff key [], ==ₛ_iff [] [])

-- The answer that the server writes to a device that registers for the first time.
handle_register_new :
    (p : Primitives) (id : ℕ) (random : Random) (m : Message) (challenge : Bytes) (s : Server)
    (d : Device) {blob_nonce : Bytes}
    → trim_space m.hwid ≡ m.hwid
    → m.hwid ≢ []
    → verify_register_auth p m.hwid challenge m.auth ≡ true
    → is_blocked s.leases.table m.hwid ≡ false
    → random.blob_nonce ≡ some blob_nonce
    → lookup id s.conns ≡ some d
    → d.conn_closed ≡ false
    → {key : Str} {dev : Str} {t : DeviceTable}
    → issue random m m.hwid s.leases.table ≡ (ok (dev, key), t)
    → let blob =
        encrypt_credential p blob_nonce m.hwid
          (record { device_id = dev; device_key = key; network_key = hex_encode s.network_key }) in
      ((handle_register p id random m challenge s).written
        ≡ s.written ++ (id, record (message msg_register_ok) { blob = blob }) ∷ [])
      × ((handle_register p id random m challenge s).leases.table ≡ t)
unfolding handle_register answer_register write_msg close_msg update
handle_register_new p id random m challenge s d trim ne signed free nonce conn live given =
    grind (arith, ==ₛ_iff m.hwid [], lookup-insert)

own_tag : (tag : Bytes) → tag ≢ [] → (if length tag == 0 then false else tag ==ₛ tag) ≡ true
own_tag [] h = absurd (h refl)
own_tag (b ∷ tag) h = ground (arith, ==ₛ_iff (b ∷ tag) (b ∷ tag))

pub register_msg_signed :
    (p : Primitives) (nonce : Bytes) (c : Client)
    → ((key text : Bytes) → p.hmac key text ≢ [])
    → verify_register_auth p c.hwid nonce (register_msg p nonce c).auth ≡ true
unfolding verify_register_auth register_msg
register_msg_signed p nonce c tags = own_tag _ (tags (register_auth_key p c.hwid) nonce)

-- The client takes over the credential that the server sealed for it.
on_register_reply_ok :
    (p : Primitives) (c : Client) (cred : Credential) (nonce key net : Bytes)
    → length nonce ≡ nonce_len
    → cred.device_id ≢ []
    → cred.device_key ≡ hex_encode key
    → cred.network_key ≡ hex_encode net
    → AreBytes key
    → length key ≡ 32
    → AreBytes net
    → length net ≡ 32
    → let m = record (message msg_register_ok) { blob = encrypt_credential p nonce c.hwid cred } in
      let k : Crypto = record { net_key = net; auth_key = device_auth_key p key } in
      ((on_register_reply p m c).0 ≡ err registered)
      × ((on_register_reply p m c).1 ≡ record (with_credential p cred c) { crypto = some k })
unfolding on_register_reply crypto_of
on_register_reply_ok p c cred nonce key net n id dev wire bs size ns width = grind (
  arith,
  decrypt_credential-encrypt_credential p nonce c.hwid cred n id (rw dev (hex_encode_ne key size))
      (rw wire (hex_encode_ne net width)),
  parse_key-hex_encode key bs size,
  parse_key-hex_encode net ns width,
)

-- A Hello that is signed with the key that the id leads to is accepted.
hello_msg_accepted :
    (p : Primitives) (c : Client) (k : Crypto) (nonce key : Bytes) (t : DeviceTable)
    → ((key text : Bytes) → p.hmac key text ≢ [])
    → c.cfg.name ≢ []
    → c.cfg.device_id ≢ []
    → AreBytes key
    → length key ≡ 32
    → k.auth_key ≡ device_auth_key p key
    → device_key_by_id t c.cfg.device_id ≡ hex_encode key
    → check_hello p (hello_msg p nonce k c) nonce t ≡ none
unfolding check_hello hello_msg
hello_msg_accepted p c k nonce key t tags name id bs size signed found = grind (
  arith,
  ==ₛ_iff c.cfg.name [],
  ==ₛ_iff c.cfg.device_id [],
  ==ₛ_iff (hex_encode key) [],
  hex_encode_ne key size,
  (verify_device_auth_iff p key nonce (auth_tag_for p k.auth_key nonce) bs size).1
      (tags k.auth_key nonce, ap (λ a. auth_tag_for p a nonce) signed),
)

-- A client without a credential whose identity the server neither knows nor blocks registers. The
-- server writes one message to it, with a sealed credential; the client reads it and is to reconnect
-- with that credential, and its Hello to the next challenge, whichever it is, passes every check of the
-- server. The random bytes are drawn, the new id is not in use, no HMAC is empty, and the connection
-- is open.
pub register-hello :
    (p : Primitives) (c : Client) (s : Server) (id : ℕ) (d : Device) (random : Random)
    (challenge next id_bytes key nonce : Bytes)
    → ((k text : Bytes) → p.hmac k text ≢ [])
    → c.cfg.name ≢ []
    → c.hwid ≢ []
    → trim_space c.hwid ≡ c.hwid
    → is_blocked s.leases.table c.hwid ≡ false
    → credential s.leases.table c.hwid ≡ none
    → random.id_bytes ≡ some id_bytes
    → id_bytes ≢ []
    → lookup (generate_device_id id_bytes) s.leases.table.by_device_id ≡ none
    → random.key_bytes ≡ some key
    → AreBytes key
    → length key ≡ 32
    → random.blob_nonce ≡ some nonce
    → length nonce ≡ nonce_len
    → AreBytes s.network_key
    → length s.network_key ≡ 32
    → lookup id s.conns ≡ some d
    → d.conn_closed ≡ false
    → let u = handle_register p id random (register_msg p challenge c) challenge s in
      (reply : Message) × (k : Crypto) × (u.written ≡ s.written ++ (id, reply) ∷ [])
      × ((on_register_reply p reply c).0 ≡ err registered)
      × ((on_register_reply p reply c).1.crypto ≡ some k)
      × (check_hello p (hello_msg p next k (on_register_reply p reply c).1) next u.leases.table
          ≡ none)
unfolding register_msg generate_device_id generate_key
register-hello p c s id d random challenge next id_bytes key nonce tags name ne trim free fresh
      drawn some_id unused made bs size sealed n ns width conn live =
    let t = s.leases.table in
    let dev = generate_device_id id_bytes in
    let wire = generate_key key in
    let cred : Credential = record {
      device_id = dev;
      device_key = wire;
      network_key = hex_encode s.network_key;
    } in
    let k : Crypto = record { net_key = s.network_key; auth_key = device_auth_key p key } in
    let dev_ne : dev ≢ [] = base32_encode_ne id_bytes some_id in
    let added : (set_credential t c.hwid c.cfg.name dev wire).0 ≡ ok tt =
      set_credential_new t c.hwid c.cfg.name dev wire ne dev_ne (hex_encode_ne key size) fresh
        unused in
    let u = (set_credential t c.hwid c.cfg.name dev wire).1 in
    let answered =
      handle_register_new p id random (register_msg p challenge c) challenge s d
        {blob_nonce = nonce} trim ne (register_msg_signed p challenge c tags) free sealed conn live
        {key = wire} {dev = dev} {t = u}
        (issue_new random (register_msg p challenge c) c.hwid t {id_bytes = id_bytes}
          {key_bytes = key} fresh drawn made added) in
    let taken =
      on_register_reply_ok p c cred nonce key s.network_key n dev_ne refl refl bs size ns width in
    (
      record (message msg_register_ok) { blob = encrypt_credential p nonce c.hwid cred },
      k,
      answered.0,
      taken.0,
      rw (taken.1) refl,
      rw (taken.1, answered.1)
          (hello_msg_accepted p (record (with_credential p cred c) { crypto = some k }) k next key u
            tags name dev_ne bs size refl
            (credential-set_credential t c.hwid c.cfg.name dev wire added).1),
    )
