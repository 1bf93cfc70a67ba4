-- ===== src/Admin/Start.antt =====
-- cmd/server/main.go: whether the server has a management page, and its token.
pub mod Guarded
use sulink_lan.Base.{
  ◌+◌, Bool, true, false, [], ◌∷◌, Option, none, some, if◌then◌else◌, ◌||◌, map, Str, codes, ◌==ₛ◌,
}
use sulink_lan.Base.Text.{trim_space, lower}
use sulink_lan.Base.Bytes.{Bytes}
use sulink_lan.Base.Encode.{raw_url_encode}
use sulink_lan.Admin.{PageConfig, new_page}

-- `randomToken`, given the bytes that `rand.Read` returns if it does not fail.
unfoldable pub random_token : Option Bytes → Option Str
random_token none = none
random_token (some bytes) = some (raw_url_encode bytes)

-- The flag -admin closes the page; `EqualFold` with this text is equality of lower case.
unfoldable pub is_off : Str → Bool
is_off addr = let a = trim_space addr in a ==ₛ [] || map lower a ==ₛ codes "off"

pub with_page : Bool → Option PageConfig → Option (PageConfig × Bool)
with_page generated none = none
with_page generated (some page) = some (page, generated)

-- `startAdmin`, given the flags, the environment variable and the random bytes: the page, and whether
-- its token was drawn.
unfoldable pub start_admin : Str → Str → Str → Option Bytes → Option (PageConfig × Bool)
unfolding random_token is_off with_page
start_admin addr token env rand =
    let chosen = (if token ==ₛ [] then env else token) in
    if is_off addr
    then none
    else if chosen ==ₛ []
    then elim (random_token rand) [
      | none ↦ none
      | some t ↦ with_page true (new_page (record { addr = addr; token = t }))
    ]
    else with_page false (new_page (record { addr = addr; token = chosen }))
