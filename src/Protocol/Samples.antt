-- ===== src/Protocol/Samples.antt =====
-- Concrete instances of the cryptographic interfaces, which show that their laws can hold.
use sulink_lan.Base.{
  ◌-◌, ◌≡◌, refl, ap, [], ◌∷◌, ◌++◌, Option, none, some, length, take, drop, length-append, arith,
}
use sulink_lan.Base.Bytes.{Bytes, take-append, drop-append}
use sulink_lan.Protocol.Packet.{Aead}
use sulink_lan.Protocol.Credentials.{Primitives, Credential}

-- Sixteen bytes.
abbrev pub tag : Bytes
tag = 1 ∷ 2 ∷ 3 ∷ 4 ∷ 5 ∷ 6 ∷ 7 ∷ 8 ∷ 9 ∷ 10 ∷ 11 ∷ 12 ∷ 13 ∷ 14 ∷ 15 ∷ 16 ∷ []

-- A cipher that appends a constant tag.
abbrev pub plain_aead : Aead
plain_aead = record {
  overhead = 16;
  seal = λ nonce text extra. text ++ tag;
  unseal = λ nonce c extra. some (take (length c - 16) c);
  unseal-seal = λ nonce text extra.
      ap some
        (take-append text tag (length (text ++ tag) - 16) (omega (arith, length-append text tag)));
  length-seal = λ nonce text extra. length-append text tag;
}

abbrev pub read_credential : Bytes → Option Credential
read_credential [] = none
read_credential (n ∷ []) = none
read_credential (n ∷ m ∷ s) = some (record {
  device_id = take n s;
  device_key = take m (drop n s);
  network_key = drop m (drop n s);
})

abbrev pub write_credential : Credential → Bytes
write_credential c =
    length c.device_id ∷ length c.device_key ∷ c.device_id ++ (c.device_key ++ c.network_key)

pub read_credential-write_credential :
    (c : Credential) → read_credential (write_credential c) ≡ some c
read_credential-write_credential c = grind (
  arith,
  take-append c.device_id (c.device_key ++ c.network_key) (length c.device_id) refl,
  drop-append c.device_id (c.device_key ++ c.network_key) (length c.device_id) refl,
  take-append c.device_key c.network_key (length c.device_key) refl,
  drop-append c.device_key c.network_key (length c.device_key) refl,
)

abbrev pub plain_primitives : Primitives
plain_primitives = record {
  hmac = λ key text. 7 ∷ key ++ text;
  gcm = λ key. plain_aead;
  marshal = write_credential;
  unmarshal = read_credential;
  unmarshal-marshal = read_credential-write_credential;
}
