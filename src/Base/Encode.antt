-- ===== src/Base/Encode.antt =====
-- UTF-8 and Go's `encoding/hex`, and its unpadded `encoding/base32` and `base64.RawURLEncoding`.
use Prim.Native.Nat.{ℕ, ◌+◌, ◌-◌, ◌*◌, ◌/◌, ◌%◌, ◌^◌, ◌<◌}
use mathlib.Core.Path.{◌≡◌, refl}
use mathlib.Core.Logic.{◌≢◌}
use mathlib.Core.Bool.{false, ◌&&◌}
use mathlib.Core.List.{[], ◌∷◌, ◌++◌}
use mathlib.Core.Option.{Option, none, some}
use native.Mathlib.Omega.{arith}
use sulink_lan.Base.Tests.{ltb, leb, ◌==◌, if◌then◌else◌}
use sulink_lan.Base.Lists.{All}
use sulink_lan.Base.Text.{is_space}
use sulink_lan.Base.Eq.{Str}
use sulink_lan.Base.Bytes.{Bytes, AreBytes}

utf8_char : ℕ → Bytes
utf8_char c =
    if ltb c 0x80
    then c ∷ []
    else if ltb c 0x800
    then (0xC0 + c / 64) ∷ (0x80 + c % 64) ∷ []
    else if ltb c 0x10000
    then (0xE0 + c / 4096) ∷ (0x80 + c / 64 % 64) ∷ (0x80 + c % 64) ∷ []
    else (0xF0 + c / 2 ^ 18) ∷ (0x80 + c / 4096 % 64) ∷ (0x80 + c / 64 % 64) ∷ (0x80 + c % 64) ∷ []

-- `[]byte(s)`.
unfoldable pub utf8 : Str → Bytes
unfolding utf8_char
utf8 [] = []
utf8 (c ∷ s) = utf8_char c ++ utf8 s

hex_digit : ℕ → ℕ
hex_digit n = if ltb n 10 then 48 + n else 87 + n

hex_value : ℕ → Option ℕ
hex_value c =
    if leb 48 c && leb c 57
    then some (c - 48)
    else if leb 97 c && leb c 102
    then some (c - 87)
    else if leb 65 c && leb c 70
    then some (c - 55)
    else none

unfoldable pub hex_encode : Bytes → Str
unfolding hex_digit
hex_encode [] = []
hex_encode (b ∷ s) = hex_digit (b / 16) ∷ hex_digit (b % 16) ∷ hex_encode s

hex_byte : Option ℕ → Option ℕ → Option Bytes → Option Bytes
hex_byte (some h) (some l) (some s) = some ((h * 16 + l) ∷ s)
hex_byte (some h) (some l) none = none
hex_byte (some h) none rest = none
hex_byte none l rest = none

unfoldable pub hex_decode : Str → Option Bytes
unfolding hex_value hex_byte
hex_decode [] = some []
hex_decode (h ∷ []) = none
hex_decode (h ∷ l ∷ s) = hex_byte (hex_value h) (hex_value l) (hex_decode s)

hex_value-hex_digit : (n : ℕ) → n < 16 → hex_value (hex_digit n) ≡ some n
unfolding hex_value hex_digit
hex_value-hex_digit n lt = ground arith

pub hex_decode-hex_encode : (s : Bytes) → AreBytes s → hex_decode (hex_encode s) ≡ some s
unfolding hex_decode hex_encode
hex_decode-hex_encode [] bs = refl
hex_decode-hex_encode (b ∷ s) bs =
    let bound : b < 256 = bs.0 in
    grind (
      arith,
      hex_value-hex_digit (b / 16) (omega arith),
      hex_value-hex_digit (b % 16) (omega arith),
      hex_decode-hex_encode s bs.1,
    )

base32_digit : ℕ → ℕ
base32_digit n = if ltb n 26 then 65 + n else 24 + n

-- The digits of the bits `acc`, `bits` of them not yet written, and the bytes that follow.
base32_loop : ℕ → ℕ → Bytes → Str
base32_loop acc bits [] = if ltb 0 bits then base32_digit (acc * 2 ^ (5 - bits)) ∷ [] else []
base32_loop acc bits (b ∷ s) =
    let acc' = acc * 256 + b in
    let n = bits + 8 in
    let one = base32_loop (acc' % 2 ^ (n - 5)) (n - 5) s in
    let two = base32_loop (acc' % 2 ^ (n - 10)) (n - 10) s in
    if ltb n 10
    then base32_digit (acc' / 2 ^ (n - 5)) ∷ one
    else base32_digit (acc' / 2 ^ (n - 5)) ∷ base32_digit (acc' / 2 ^ (n - 10) % 32) ∷ two

unfoldable pub base32_encode : Bytes → Str
unfolding base32_digit base32_loop
base32_encode s = base32_loop 0 0 s

pub base32_encode_ne : (s : Bytes) → s ≢ [] → base32_encode s ≢ []
unfolding base32_encode
base32_encode_ne [] h e = h e
base32_encode_ne (b ∷ s) h e = cc

hex_digit_plain : (n : ℕ) → n < 16 → is_space (hex_digit n) ≡ false
unfolding hex_digit is_space
hex_digit_plain n lt = ground arith

-- No hexadecimal digit is a space.
pub hex_encode_plain : (s : Bytes) → AreBytes s → All (λ c. is_space c ≡ false) (hex_encode s)
unfolding hex_encode
hex_encode_plain [] bs = tt
hex_encode_plain (b ∷ s) bs =
    let bound : b < 256 = bs.0 in
    (
      hex_digit_plain (b / 16) (omega arith),
      (hex_digit_plain (b % 16) (omega arith), hex_encode_plain s bs.1),
    )

-- The digits of `base64.RawURLEncoding`.
url_digit : ℕ → ℕ
url_digit n =
    if ltb n 26
    then 65 + n
    else if ltb n 52
    then 71 + n
    else if ltb n 62
    then n - 4
    else if n == 62
    then b'-'
    else b'_'

unfoldable pub raw_url_encode : Bytes → Str
unfolding url_digit
raw_url_encode [] = []
raw_url_encode (a ∷ []) = url_digit (a / 4) ∷ url_digit (a % 4 * 16) ∷ []
raw_url_encode (a ∷ b ∷ []) =
    url_digit (a / 4) ∷ url_digit (a % 4 * 16 + b / 16) ∷ url_digit (b % 16 * 4) ∷ []
raw_url_encode (a ∷ b ∷ c ∷ s) =
    url_digit (a / 4)
    ∷ url_digit (a % 4 * 16 + b / 16)
    ∷ url_digit (b % 16 * 4 + c / 64)
    ∷ url_digit (c % 64)
    ∷ raw_url_encode s

url_digit_plain : (n : ℕ) → is_space (url_digit n) ≡ false
unfolding url_digit is_space
url_digit_plain n = ground arith

-- No digit is a space.
pub raw_url_encode_plain : (s : Bytes) → All (λ c. is_space c ≡ false) (raw_url_encode s)
unfolding raw_url_encode
raw_url_encode_plain [] = tt
raw_url_encode_plain (a ∷ []) = (url_digit_plain (a / 4), (url_digit_plain (a % 4 * 16), tt))
raw_url_encode_plain (a ∷ b ∷ []) = (
  url_digit_plain (a / 4),
  (url_digit_plain (a % 4 * 16 + b / 16), (url_digit_plain (b % 16 * 4), tt)),
)
raw_url_encode_plain (a ∷ b ∷ c ∷ s) = (
  url_digit_plain (a / 4),
  (
    url_digit_plain (a % 4 * 16 + b / 16),
    (url_digit_plain (b % 16 * 4 + c / 64), (url_digit_plain (c % 64), raw_url_encode_plain s)),
  ),
)

pub raw_url_encode_ne : (s : Bytes) → s ≢ [] → raw_url_encode s ≢ []
unfolding raw_url_encode
raw_url_encode_ne [] h e = h e
raw_url_encode_ne (a ∷ []) h e = cc
raw_url_encode_ne (a ∷ b ∷ []) h e = cc
raw_url_encode_ne (a ∷ b ∷ c ∷ s) h e = cc
