-- ===== src/Base/Net.antt =====
-- The functions of Go's `net` that the code calls: `ParseIP(s).To4()`, `IP.String` of four bytes
-- and `SplitHostPort`. An IPv4 address is a number below 2 ^ 32.
pub mod Join
use Prim.Native.Nat.{ℕ, zero, suc, ◌+◌, ◌-◌, ◌*◌, ◌/◌, ◌%◌, ◌^◌}
use mathlib.Core.Bool.{Bool, true, false, not, ◌&&◌, ◌||◌}
use mathlib.Core.List.{List, [], ◌∷◌, ◌++◌}
use mathlib.Core.Option.{Option, none, some}
use sulink_lan.Base.Tests.{ltb, leb, ◌==◌, if◌then◌else◌}
use sulink_lan.Base.Lists.{length, take, drop}
use sulink_lan.Base.Eq.{Str}
use sulink_lan.Base.Text.{is_digit, split_first, split_last, contains, decimal}

-- `parseIPv4Fields`: the fields read so far as one number, how many they are, the value of the
-- current field and its number of digits.
unfoldable pub v4_fields : ℕ → ℕ → ℕ → ℕ → Str → Option ℕ
v4_fields acc pos val len [] = if pos == 3 && not (len == 0) then some (acc * 256 + val) else none
v4_fields acc pos val len (c ∷ s) =
    let next = v4_fields (acc * 256 + val) (pos + 1) 0 0 s in
    let val' = val * 10 + (c - 48) in
    let more = v4_fields acc pos val' (len + 1) s in
    if c == b'.'
    then (if len == 0 || pos == 3 then none else next)
    else (if is_digit c
        then (if len == 1 && val == 0 || ltb 255 val' then none else more)
        else none)

hex_value : ℕ → Option ℕ
hex_value c =
    if is_digit c
    then some (c - 48)
    else if leb 97 c && leb c 102
    then some (c - 87)
    else if leb 65 c && leb c 70
    then some (c - 55)
    else none

-- One group of hexadecimal digits: its value, its number of digits and the rest of the text.
hex_group : ℕ → ℕ → Str → Option (ℕ × ℕ × Str)
hex_group acc off [] = some (acc, off, [])
hex_group acc off (c ∷ s) = elim (hex_value c) [
  | none ↦ some (acc, off, c ∷ s)
  | some d ↦ elim (ltb 3 off) [ true ↦ none | false ↦ hex_group (acc * 16 + d) (off + 1) s ]
]

zeros : ℕ → List ℕ → List ℕ
zeros zero rest = rest
zeros (suc n) rest = 0 ∷ zeros n rest

no_ellipsis : Option ℕ → Bool
no_ellipsis none = true
no_ellipsis (some _) = false

-- The end of `parseIPv6`: the sixteen bytes, with the ellipsis filled by zeros.
v6_finish : List ℕ → Option ℕ → Option (List ℕ)
v6_finish bytes none = if length bytes == 16 then some bytes else none
v6_finish bytes (some e) =
    if ltb (length bytes) 16
    then some (take e bytes ++ zeros (16 - length bytes) (drop e bytes))
    else none

v4_bytes : ℕ → List ℕ
v4_bytes v = (v / 2 ^ 24) ∷ (v / 2 ^ 16 % 256) ∷ (v / 2 ^ 8 % 256) ∷ (v % 256) ∷ []

-- The loop of `parseIPv6`, at most eight groups.
v6_loop : ℕ → List ℕ → Option ℕ → Str → Option (List ℕ)
v6_loop zero bytes ell s = if length s == 0 then v6_finish bytes ell else none
v6_loop (suc fuel) bytes ell s = elim (hex_group 0 0 s) [
  | none ↦ none
  | some (acc, zero, rest) ↦ none
  | some (acc, suc off, []) ↦ v6_finish (bytes ++ (acc / 256) ∷ (acc % 256) ∷ []) ell
  | some (acc, suc off, c ∷ rest) ↦
      let bytes' = bytes ++ (acc / 256) ∷ (acc % 256) ∷ [] in
      elim (c == b'.') [
        | true ↦ elim (v4_fields 0 0 0 0 s) [
          | none ↦ none
          | some v ↦
              elim ((length bytes == 12 || not (no_ellipsis ell)) && leb (length bytes + 4) 16) [
                | true ↦ v6_finish (bytes ++ v4_bytes v) ell
                | false ↦ none
              ]
        ]
        | false ↦ elim (c == b':') [
          | false ↦ none
          | true ↦ elim rest [
            | [] ↦ none
            | d ∷ rest' ↦ elim (d == b':') [
              | false ↦ v6_loop fuel bytes' ell (d ∷ rest')
              | true ↦ elim ell [
                | some _ ↦ none
                | none ↦ elim rest' [
                  | [] ↦ v6_finish bytes' (some (length bytes'))
                  | x ∷ xs ↦ v6_loop fuel bytes' (some (length bytes')) (x ∷ xs)
                ]
              ]
            ]
          ]
        ]
      ]
]

parse_v6 : Str → Option (List ℕ)
parse_v6 s = elim (contains b'%' s) [
  | true ↦ none
  | false ↦ elim s [
    | [] ↦ none
    | a ∷ [] ↦ none
    | a ∷ b ∷ rest ↦ elim (a == b':' && b == b':') [
      | true ↦ elim rest [ [] ↦ v6_finish [] (some 0) | c ∷ r ↦ v6_loop 8 [] (some 0) (c ∷ r) ]
      | false ↦ v6_loop 8 [] none (a ∷ b ∷ rest)
    ]
  ]
]

all_zero : List ℕ → Bool
all_zero [] = true
all_zero (b ∷ bs) = b == 0 && all_zero bs

join_bytes : ℕ → List ℕ → ℕ
join_bytes acc [] = acc
join_bytes acc (b ∷ bs) = join_bytes (acc * 256 + b) bs

-- `To4` of sixteen bytes: an IPv4-mapped address.
to4 : List ℕ → Option ℕ
to4 bs =
    if all_zero (take 10 bs) && join_bytes 0 (take 2 (drop 10 bs)) == 0xffff
    then some (join_bytes 0 (drop 12 bs))
    else none

-- `ParseAddr` looks for the first of these three characters.
separator : Str → Option ℕ
separator [] = none
separator (c ∷ s) = if c == b'.' || c == b':' || c == b'%' then some c else separator s

parse_ip_by : Option ℕ → Str → Option ℕ
parse_ip_by none s = none
parse_ip_by (some c) s =
    if c == b'.'
    then v4_fields 0 0 0 0 s
    else if c == b':'
    then elim (parse_v6 s) [ none ↦ none | some bs ↦ to4 bs ]
    else none

-- `net.ParseIP(s).To4()` as a big-endian number; `none` is the nil address.
unfoldable pub parse_ip4 : Str → Option ℕ
unfolding v4_fields hex_value hex_group zeros v6_finish v4_bytes no_ellipsis v6_loop parse_v6
    all_zero join_bytes to4 separator parse_ip_by is_digit
parse_ip4 s = parse_ip_by (separator s) s

-- `ip.String()` of the four bytes of a number below 2 ^ 32.
unfoldable pub ip4_text : ℕ → Str
unfolding v4_bytes
ip4_text v =
    decimal (v / 2 ^ 24)
    ++ b'.'
      ∷ (decimal (v / 2 ^ 16 % 256)
          ++ b'.' ∷ (decimal (v / 2 ^ 8 % 256) ++ b'.' ∷ decimal (v % 256)))

-- The host part of `SplitHostPort`, given what stands before and behind the last colon.
split_host : Str → Str → Option (Str × Str)
split_host [] port = if contains b'[' port || contains b']' port then none else some ([], port)
split_host (c ∷ h) port = elim (c == b'[') [
  | true ↦ elim (split_first b']' h) [
    | none ↦ none
    | some (host, d ∷ rest) ↦ none
    | some (host, []) ↦
        if contains b'[' host || contains b'[' port || contains b']' port
        then none
        else some (host, port)
  ]
  | false ↦
      if contains b':' (c ∷ h)
        || contains b'[' (c ∷ h)
        || contains b']' (c ∷ h)
        || contains b'[' port
        || contains b']' port
      then none
      else some (c ∷ h, port)
]

-- `net.SplitHostPort`.
unfoldable pub split_host_port : Str → Option (Str × Str)
unfolding split_host
split_host_port s = elim (split_last b':' s) [ none ↦ none | some (h, port) ↦ split_host h port ]

-- `net.JoinHostPort`.
unfoldable pub join_host_port : Str → Str → Str
join_host_port host port =
    if contains b':' host then b'[' ∷ (host ++ b']' ∷ b':' ∷ port) else host ++ b':' ∷ port

is_ip_by : Option ℕ → Str → Bool
is_ip_by none s = false
is_ip_by (some c) s =
    if c == b'.'
    then elim (v4_fields 0 0 0 0 s) [ none ↦ false | some _ ↦ true ]
    else if c == b':'
    then elim (parse_v6 s) [ none ↦ false | some _ ↦ true ]
    else false

-- Whether `net.ParseIP` gives an address.
unfoldable pub is_ip : Str → Bool
unfolding v4_fields hex_value hex_group zeros v6_finish v4_bytes no_ellipsis v6_loop parse_v6
    separator is_ip_by is_digit
is_ip s = is_ip_by (separator s) s
