-- ===== src/Protocol/Tests.antt =====
-- Packets, credentials and messages of internal/protocol at concrete inputs.
use sulink_lan.Base.{some, Str, ◌≡◌, ◌≢◌, ◌↔◌, refl, true, [], ◌∷◌, ◌++◌, ok, codes, ◌>>=◌, arith}
use sulink_lan.Base.Bytes.{Bytes}
use sulink_lan.Base.Encode.{hex_encode}
use sulink_lan.Protocol.{Message, message, msg_hello}
use sulink_lan.Protocol.Framing.{Json, frames, read_msgs, read_msgs-frames}
use sulink_lan.Protocol.Packet.{encrypt, decrypt, decrypt-encrypt, flag_data}
use sulink_lan.Protocol.Credentials.{
  Credential, encrypt_credential, decrypt_credential, decrypt_credential-encrypt_credential,
  verify_device_auth, verify_device_auth_iff, auth_tag_for, device_auth_key,
}
use sulink_lan.Protocol.Samples.{tag, plain_aead, plain_primitives}

abbrev nonce : Bytes
nonce = 1 ∷ 2 ∷ 3 ∷ 4 ∷ 5 ∷ 6 ∷ 7 ∷ 8 ∷ 9 ∷ 10 ∷ 11 ∷ 12 ∷ []

abbrev cred : Credential
cred = record { device_id = codes "id"; device_key = codes "key"; network_key = codes "net" }

decrypt-encrypt_example :
    (encrypt plain_aead nonce flag_data 167772162 167772163 (69 ∷ 0 ∷ []) >>= decrypt plain_aead)
    ≡ ok (record { flags = flag_data; source = 167772162; dest = 167772163; payload = 69 ∷ 0 ∷ [] })
decrypt-encrypt_example =
    decrypt-encrypt plain_aead nonce flag_data 167772162 167772163 (69 ∷ 0 ∷ []) refl (omega arith)
      (omega arith) (omega arith)

decrypt_credential-encrypt_credential_example :
    decrypt_credential plain_primitives
      (codes "a1")
      (encrypt_credential plain_primitives nonce (codes "a1") cred)
    ≡ ok cred
decrypt_credential-encrypt_credential_example =
    decrypt_credential-encrypt_credential plain_primitives nonce (codes "a1") cred refl
      (λ e. grind arith) (λ e. grind arith) λ e. grind arith

abbrev key : Bytes
key = tag ++ tag

abbrev answer : Bytes
answer = 9 ∷ []

verify_device_auth_iff_example :
    (verify_device_auth plain_primitives (hex_encode key) nonce answer ≡ true) ↔ (
      (answer ≢ [])
      × (answer ≡ auth_tag_for plain_primitives (device_auth_key plain_primitives key) nonce))
verify_device_auth_iff_example =
    verify_device_auth_iff plain_primitives key nonce answer (ground arith) refl

-- A carrier of messages that have a name alone.
abbrev names : Json
names = record {
  marshal = λ m. m.device_name;
  unmarshal = λ s. some (record (message msg_hello) { device_name = s });
}

abbrev named : Str → Message
named s = record (message msg_hello) { device_name = s }

read_msgs-frames_example :
    read_msgs names 2 (frames names (named (codes "a") ∷ named (codes "bc") ∷ []) ++ 7 ∷ [])
    ≡ ok (named (codes "a") ∷ named (codes "bc") ∷ [], 7 ∷ [])
read_msgs-frames_example =
    read_msgs-frames names (named (codes "a") ∷ named (codes "bc") ∷ []) (7 ∷ [])
      ((refl, omega arith), ((refl, omega arith), tt))
