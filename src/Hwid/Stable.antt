-- ===== src/Hwid/Stable.antt =====
-- internal/hwid/hwid.go: the identity over restarts of the program.
use sulink_lan.Base.{
  ◌≡◌, ◌≢◌, true, false, [], ◌∷◌, ◌++◌, none, some, ok, length, Str, ◌==ₛ◌, Bool-cases,
  Option-cases, inl, inr, ap, sym, ◌∙◌, arith,
}
use sulink_lan.Base.Eq.{==ₛ_iff}
use sulink_lan.Base.Text.{trim_space}
use sulink_lan.Base.Text.Trim.{trim_space_line}
use sulink_lan.Base.Bytes.{Bytes, AreBytes}
use sulink_lan.Base.Encode.{hex_encode, hex_encode_plain}
use sulink_lan.Hwid.{Source, fingerprint, new_random, persisted_random, compute}

-- The line that is written is read back.
trim_space-hex_encode :
    (bytes : Bytes)
    → AreBytes bytes
    → length bytes ≡ 32
    → trim_space (hex_encode bytes ++ 10 ∷ []) ≡ hex_encode bytes
unfolding hex_encode
trim_space-hex_encode [] bs n = absurd (omega arith)
trim_space-hex_encode (b ∷ s) bs n = trim_space_line _ _ (hex_encode_plain (b ∷ s) bs)

hex_encode_ne : (bytes : Bytes) → length bytes ≡ 32 → hex_encode bytes ≢ []
unfolding hex_encode
hex_encode_ne [] n e = omega arith
hex_encode_ne (b ∷ s) n e = cc

module _ (sha256 : Bytes → Bytes) where
  -- An identity in the file is used.
  persisted_random_file :
      (t : Source) (raw : Str)
      → t.has_path ≡ true
      → t.file ≡ some raw
      → trim_space raw ≢ []
      → (persisted_random sha256 t).0 ≡ ok (fingerprint sha256 (trim_space raw))
  unfolding persisted_random
  persisted_random_file t raw path file ne = ground (arith, ==ₛ_iff (trim_space raw) [])

  new_random_ok :
      (s : Source) (bytes : Bytes) {id : Str}
      → s.random ≡ some bytes
      → (new_random sha256 s).0 ≡ ok id
      → (fingerprint sha256 (hex_encode bytes) ≡ id)
        × ((new_random sha256 s).1 ≡ some (hex_encode bytes ++ 10 ∷ []))
  unfolding new_random
  new_random_ok s bytes drawn e = ground arith

  -- An identity that was written is found again.
  new_random_again :
      (s t : Source) (bytes : Bytes) {id : Str}
      → s.random ≡ some bytes
      → AreBytes bytes
      → length bytes ≡ 32
      → (new_random sha256 s).0 ≡ ok id
      → t.has_path ≡ true
      → t.file ≡ (new_random sha256 s).1
      → (persisted_random sha256 t).0 ≡ ok id
  new_random_again s t bytes {id} drawn bs n e path same =
      let line = trim_space-hex_encode bytes bs n in
      let written = new_random_ok s bytes {id = id} drawn e in
      persisted_random_file t (hex_encode bytes ++ 10 ∷ []) path (same ∙ written.1)
        (λ q. hex_encode_ne bytes n (sym line ∙ q))
      ∙ ap (λ (x : Str). ok (fingerprint sha256 x)) line
      ∙ ap ok written.0

  persisted_random_again :
      (s t : Source) (bytes : Bytes) {id : Str}
      → s.random ≡ some bytes
      → AreBytes bytes
      → length bytes ≡ 32
      → (persisted_random sha256 s).0 ≡ ok id
      → t.has_path ≡ s.has_path
      → t.file ≡ (persisted_random sha256 s).1
      → (persisted_random sha256 t).0 ≡ ok id
  persisted_random_again s t bytes {id} drawn bs n e path same = elim (Bool-cases s.has_path) [
    | inr no_dir ↦ absurd (unfold persisted_random in ground arith)
    | inl dir ↦ elim (Option-cases s.file) [
      | inl none' ↦
          let fresh : persisted_random sha256 s ≡ new_random sha256 s = fresh_none dir none' in
          new_random_again s t bytes {id = id} drawn bs n (ap (λ r. r.0) (sym fresh) ∙ e)
            (path ∙ dir) (same ∙ ap (λ r. r.1) fresh)
      | inr (raw, file) ↦ elim (Bool-cases (trim_space raw ==ₛ [])) [
        | inl blank ↦
            let fresh : persisted_random sha256 s ≡ new_random sha256 s =
              fresh_blank raw dir file blank in
            new_random_again s t bytes {id = id} drawn bs n (ap (λ r. r.0) (sym fresh) ∙ e)
              (path ∙ dir) (same ∙ ap (λ r. r.1) fresh)
        | inr used ↦
            let kept = kept_file raw dir file used in
            let ne : trim_space raw ≢ [] = ground (arith, ==ₛ_iff (trim_space raw) []) in
            persisted_random_file t raw (path ∙ dir) (same ∙ ap (λ r. r.1) kept) ne
            ∙ sym (ap (λ r. r.0) kept)
            ∙ e
      ]
    ]
  ]
    where
      fresh_none :
          s.has_path ≡ true → s.file ≡ none → persisted_random sha256 s ≡ new_random sha256 s
      fresh_none dir none' = unfold persisted_random in ground arith

      fresh_blank :
          (raw : Str)
          → s.has_path ≡ true
          → s.file ≡ some raw
          → (trim_space raw ==ₛ []) ≡ true
          → persisted_random sha256 s ≡ new_random sha256 s
      fresh_blank raw dir file blank = unfold persisted_random in ground arith

      kept_file :
          (raw : Str)
          → s.has_path ≡ true
          → s.file ≡ some raw
          → (trim_space raw ==ₛ []) ≡ false
          → persisted_random sha256 s ≡ (ok (fingerprint sha256 (trim_space raw)), some raw)
      kept_file raw dir file used = unfold persisted_random in ground arith

  -- A device that has found its identity finds the same one after a restart, from the same platform and
  -- the file that it left, whatever crypto/rand gives then, and also if the file cannot be written any more.
  pub compute_again :
      (s t : Source) (bytes : Bytes) {id : Str}
      → s.random ≡ some bytes
      → AreBytes bytes
      → length bytes ≡ 32
      → (compute sha256 s).0 ≡ ok id
      → t.machine ≡ s.machine
      → t.has_path ≡ s.has_path
      → t.file ≡ (compute sha256 s).1
      → (compute sha256 t).0 ≡ ok id
  unfolding compute
  compute_again s t bytes {id} drawn bs n e platform path same =
      grind (arith, persisted_random_again s t bytes {id = id} drawn bs n)
