-- ===== src/Protocol/Credentials.antt =====
-- internal/protocol/register.go: a device's credential, how the server checks it, and the sealed
-- answer to a registration. HMAC-SHA256, AES-GCM and encoding/json are arguments, and so are the
-- bytes that crypto/rand draws.
use sulink_lan.Base.{
  ◌+◌, ◌≡◌, ◌≢◌, ◌↔◌, Bool, true, false, ◌||◌, [], ◌∷◌, ◌++◌, Option, none, some, Result, ok, err,
  ltb, ◌==◌, if◌then◌else◌, length, take, drop, Str, codes, ◌==ₛ◌, length-append, arith,
}
use sulink_lan.Base.Eq.{==ₛ_iff}
use sulink_lan.Base.Bytes.{Bytes, AreBytes, take-append, drop-append}
use sulink_lan.Base.Encode.{utf8, hex_encode, hex_decode, hex_decode-hex_encode, base32_encode}
use sulink_lan.Protocol.Packet.{Aead, nonce_len}

pub record Credential : Type 0 where
  pub device_id : Str
  pub device_key : Str
  pub network_key : Str

-- The parts of Go's library that are not written out: `hmac.New(sha256.New, key)` over one text,
-- `cipher.NewGCM(aes.NewCipher(key))`, and encoding/json on a credential, which reads what it wrote.
pub record Primitives : Type 0 where
  pub hmac : Bytes → Bytes → Bytes
  pub gcm : Bytes → Aead
  pub marshal : Credential → Bytes
  pub unmarshal : Bytes → Option Credential
  pub unmarshal-marshal : (c : Credential) → unmarshal (marshal c) ≡ some c

pub data CredentialError : Type 0 where
  blob_too_short blob_not_authentic blob_malformed field_missing : CredentialError

abbrev pub register_blob_info : Str
register_blob_info = codes "sulink-lan/v1/register-blob"

abbrev pub register_auth_info : Str
register_auth_info = codes "sulink-lan/v1/register-auth"

abbrev pub device_auth_info : Str
device_auth_info = codes "sulink-lan/v1/device-auth"

-- `GenerateDeviceID` and `GenerateKey`, given the random bytes.
unfoldable pub generate_device_id : Bytes → Str
generate_device_id random = base32_encode random

unfoldable pub generate_key : Bytes → Str
generate_key random = hex_encode random

unfoldable pub parse_key : Str → Option Bytes
parse_key s = elim (hex_decode s) [
  | none ↦ none
  | some key ↦ if length key == 32 then some key else none
]

module _ (p : Primitives) where
  -- `AuthTagFor`.
  abbrev pub auth_tag_for : Bytes → Bytes → Bytes
  auth_tag_for auth_key nonce = p.hmac auth_key nonce

  abbrev pub register_auth_key : Str → Bytes
  register_auth_key hwid = p.hmac (utf8 hwid) (utf8 register_auth_info)

  abbrev pub device_auth_key : Bytes → Bytes
  device_auth_key device_key = p.hmac device_key (utf8 device_auth_info)

  unfoldable pub verify_register_auth : Str → Bytes → Bytes → Bool
  verify_register_auth hwid nonce tag =
      if length tag == 0 then false else auth_tag_for (register_auth_key hwid) nonce ==ₛ tag

  unfoldable pub verify_device_auth : Str → Bytes → Bytes → Bool
  verify_device_auth device_key_hex nonce tag =
      if length tag == 0 then false else elim (parse_key device_key_hex) [
        | none ↦ false
        | some key ↦ auth_tag_for (device_auth_key key) nonce ==ₛ tag
      ]

  -- The cipher that `EncryptCredential` and `DecryptCredential` build.
  abbrev pub blob_cipher : Str → Aead
  blob_cipher hwid = p.gcm (p.hmac (utf8 hwid) (utf8 register_blob_info))

  unfoldable pub encrypt_credential : Bytes → Str → Credential → Bytes
  encrypt_credential nonce hwid cred = nonce ++ (blob_cipher hwid).seal nonce (p.marshal cred) []

  has_empty_field : Credential → Bool
  has_empty_field c = c.device_id ==ₛ [] || c.device_key ==ₛ [] || c.network_key ==ₛ []

  unfoldable pub decrypt_credential : Str → Bytes → Result CredentialError Credential
  unfolding has_empty_field
  decrypt_credential hwid blob =
      if ltb (length blob) (nonce_len + (blob_cipher hwid).overhead)
      then err blob_too_short
      else elim ((blob_cipher hwid).unseal (take nonce_len blob) (drop nonce_len blob) []) [
        | none ↦ err blob_not_authentic
        | some payload ↦ elim (p.unmarshal payload) [
          | none ↦ err blob_malformed
          | some cred ↦ if has_empty_field cred then err field_missing else ok cred
        ]
      ]

  -- A credential sealed for a device is read back by that device, if no field is empty.
  pub decrypt_credential-encrypt_credential :
      (nonce : Bytes) (hwid : Str) (c : Credential)
      → length nonce ≡ nonce_len
      → c.device_id ≢ []
      → c.device_key ≢ []
      → c.network_key ≢ []
      → decrypt_credential hwid (encrypt_credential nonce hwid c) ≡ ok c
  unfolding decrypt_credential encrypt_credential
  decrypt_credential-encrypt_credential nonce hwid c n d k w =
      let sealed = (blob_cipher hwid).seal nonce (p.marshal c) [] in
      grind (
        arith,
        take-append nonce sealed 12 n,
        drop-append nonce sealed 12 n,
        length-append nonce sealed,
        (blob_cipher hwid).length-seal nonce (p.marshal c) [],
        (blob_cipher hwid).unseal-seal nonce (p.marshal c) [],
        p.unmarshal-marshal c,
        ==ₛ_iff c.device_id [],
        ==ₛ_iff c.device_key [],
        ==ₛ_iff c.network_key [],
      )

  -- A tag is accepted for a device key of 32 bytes exactly if it is not empty and is the tag of the
  -- challenge under that key.
  pub verify_device_auth_iff :
      (key nonce tag : Bytes)
      → AreBytes key
      → length key ≡ 32
      → (verify_device_auth (hex_encode key) nonce tag ≡ true)
        ↔ ((tag ≢ []) × (tag ≡ auth_tag_for (device_auth_key key) nonce))
  unfolding verify_device_auth parse_key
  verify_device_auth_iff key nonce [] bs n = grind arith
  verify_device_auth_iff key nonce (b ∷ tag) bs n = grind (
    arith,
    hex_decode-hex_encode key bs,
    ==ₛ_iff (auth_tag_for (device_auth_key key) nonce) (b ∷ tag),
  )
