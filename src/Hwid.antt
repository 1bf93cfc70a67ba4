-- ===== src/Hwid.antt =====
-- internal/hwid/hwid.go: the identity of a device. SHA-256 is an argument, and so is what the
-- platform, the directory and crypto/rand give.
mod Tests
pub mod Stable
use sulink_lan.Base.{
  Bool, true, false, [], ◌∷◌, ◌++◌, Option, none, some, Result, ok, err, if◌then◌else◌, take, Str,
  codes, ◌==ₛ◌,
}
use sulink_lan.Base.Text.{trim_space}
use sulink_lan.Base.Bytes.{Bytes}
use sulink_lan.Base.Encode.{utf8, hex_encode}

abbrev pub salt : Str
salt = codes "sulink-lan/hwid/v1|"

pub data IdError : Type 0 where
  no_path no_random not_written : IdError

-- What `compute` meets: the platform's answer, whether there is a directory, the file in it (`none` if
-- it cannot be read), whether it can be written, and 32 random bytes.
pub record Source : Type 0 where
  pub machine : Option Str
  pub has_path : Bool
  pub file : Option Str
  pub writable : Bool
  pub random : Option Bytes

module _ (sha256 : Bytes → Bytes) where
  unfoldable pub fingerprint : Str → Str
  fingerprint raw = hex_encode (take 16 (sha256 (utf8 (salt ++ raw))))

  -- The end of `persistedRandom`: a new identity is written before it is used.
  unfoldable pub new_random : Source → Result IdError Str × Option Str
  unfolding fingerprint
  new_random s = elim s.random [
    | none ↦ (err no_random, s.file)
    | some bytes ↦
        if s.writable
        then (ok (fingerprint (hex_encode bytes)), some (hex_encode bytes ++ 10 ∷ []))
        else (err not_written, s.file)
  ]

  -- The identity, and the file afterwards.
  unfoldable pub persisted_random : Source → Result IdError Str × Option Str
  unfolding new_random fingerprint
  persisted_random s =
      if s.has_path
      then elim s.file [
        | none ↦ new_random s
        | some b ↦
            let raw = trim_space b in
            if raw ==ₛ [] then new_random s else (ok (fingerprint raw), s.file)
      ]
      else (err no_path, s.file)

  unfoldable pub compute : Source → Result IdError Str × Option Str
  unfolding persisted_random fingerprint
  compute s = elim s.machine [
    | none ↦ persisted_random s
    | some raw ↦
        let id = trim_space raw in
        if id ==ₛ [] then persisted_random s else (ok (fingerprint id), s.file)
  ]

  -- `ID`: `once` keeps the first result, an error too.
  pub own_id : Option (Result IdError Str) → Source → Result IdError Str × Option Str
  unfolding compute
  own_id cached s = elim cached [ some r ↦ (r, s.file) | none ↦ compute s ]
