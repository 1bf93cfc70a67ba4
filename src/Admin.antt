-- ===== src/Admin.antt =====
-- internal/admin/admin.go: the management page. A handler takes a request and what the page manages to
-- a response; encoding/json on requests is an argument, and paths are taken to be clean.
pub mod Nps
pub mod Serve
pub mod Start
mod Tests
use sulink_lan.Base.{
  ℕ, ◌*◌, Bool, true, false, not, List, [], ◌∷◌, Option, none, some, Result, ok, err, if◌then◌else◌,
  take, Str, codes, ◌==ₛ◌,
}
use sulink_lan.Base.Map.{Map}
use sulink_lan.Base.Text.{trim_space}
use sulink_lan.Base.Bytes.{Bytes}
use sulink_lan.Server.Hub.{Server}
use sulink_lan.Server.Control.{
  Settings, SetIpError, Snapshot, push, set_device_ip, revoke_device_credential, unblock_device,
  server_snapshot,
}
use sulink_lan.Npsembed.{NpsClient}

-- A request; `token` is its header X-Admin-Token, empty if there is none.
pub record Request : Type 0 where
  pub method : Str
  pub path : Str
  pub token : Str
  pub query : Map Str Str
  pub body : Bytes

-- The errors of the JSON answers; a text of NPS is kept.
pub data Failure : Type 0 where
  wrong_token bad_json nothing_to_push no_hwid not_registered not_blocked : Failure
  bad_params bad_id no_target no_device_key : Failure
  ip_failed : SetIpError → Failure
  bad_client nps_failed : Str → Failure

-- One entry of the list of clients, and of the lists of tunnels; a client's own list is without the
-- last two fields.
pub record ClientView : Type 0 where
  pub client : NpsClient
  pub online : Bool

pub record TunnelView : Type 0 where
  pub id : ℕ
  pub port : ℕ
  pub mode : Str
  pub target : Str
  pub remark : Str
  pub running : Bool
  pub client_id : ℕ
  pub vkey : Str

-- The page, the texts of `http.Error` and `http.NotFound`, and the JSON answers.
pub data Body : Type 0 where
  html not_found not_allowed fine : Body
  failed : Failure → Body
  state : Snapshot → Body
  delivered : ℕ → Body
  noticed : ℕ → Bool → Body
  reconnects : Bool → Body
  clients : List ClientView → Body
  created_client : ℕ → Str → Body
  tunnels : List TunnelView → Body
  created_tunnel : ℕ → ℕ → Body
  own_tunnels : List TunnelView → Body

-- `allow` is the header Allow.
pub record Response : Type 0 where
  pub code : ℕ
  pub allow : Option Str
  pub body : Body

pub record TunnelReq : Type 0 where
  pub client_id : Bool × ℕ
  pub port : ℕ
  pub mode : Str
  pub target : Str
  pub remark : Str

-- encoding/json on the bodies of requests; a number has its sign, `true` for a minus.
pub record Decoder : Type 0 where
  pub push_req : Bytes → Option (Map Str Str)
  pub notice_req : Bytes → Option Str
  pub nopunch_req : Bytes → Option Bool
  pub ip_req : Bytes → Option (Str × Str)
  pub hwid_req : Bytes → Option Str
  pub client_req : Bytes → Option (Str × Str)
  pub id_req : Bytes → Option (Bool × ℕ)
  pub tunnel_req : Bytes → Option TunnelReq

-- What the page manages: the server with its settings file, and NPS.
pub record Backend (N : Type 0) : Type 0 where
  pub server : Server
  pub settings : Settings
  pub nps : N

-- `Config`, and the checks of `New`.
pub record PageConfig : Type 0 where
  pub addr : Str
  pub token : Str

unfoldable pub new_page : PageConfig → Option PageConfig
new_page cfg =
    if trim_space cfg.token ==ₛ []
    then none
    else some (record cfg { addr = if cfg.addr ==ₛ [] then codes "127.0.0.1:8080" else cfg.addr })

abbrev pub max_body : ℕ
max_body = 64 * 1024

abbrev pub get : Str
get = codes "GET"

abbrev pub post : Str
post = codes "POST"

abbrev pub respond : ℕ → Body → Response
respond code body = record { code = code; allow = none; body = body }

abbrev pub only : Str → Response
only method = record { code = 405; allow = some method; body = not_allowed }

abbrev pub Handler : Type 0 → Type 0
Handler N = Request → Backend N → Response × Backend N

module _ {N : Type 0} where
  abbrev pub refuse : ℕ → Failure → Backend N → Response × Backend N
  refuse code e b = (respond code (failed e), b)

  -- `auth`.
  unfoldable pub auth : PageConfig → Handler N → Handler N
  auth cfg next r b = if r.token ==ₛ cfg.token then next r b else refuse 401 wrong_token b

  unfoldable pub handle_index : Handler N
  handle_index r b =
      if not (r.path ==ₛ codes "/")
      then (respond 404 not_found, b)
      else if not (r.method ==ₛ get)
      then (only get, b)
      else (respond 200 html, b)

  unfoldable pub handle_state : ℕ → Handler N
  handle_state now r b =
      if not (r.method ==ₛ get)
      then (only get, b)
      else (respond 200 (state (server_snapshot now b.server)), b)

  -- `Push` on the server, and what answers its result.
  abbrev pub push_with : Map Str Str → (ℕ → Body) → Backend N → Response × Backend N
  push_with cfg answer b =
      let (n, f, s) = push cfg b.settings b.server in
      (respond 200 (answer n), record b { server = s; settings = f })

  -- A POST with a body: `decodeBody` reads at most `max_body` bytes.
  abbrev pub posted :
      {A : Type 0} → (Bytes → Option A) → (A → Backend N → Response × Backend N) → Handler N
  posted decode next r b =
      if not (r.method ==ₛ post) then (only post, b) else elim (decode (take max_body r.body)) [
        | none ↦ refuse 400 bad_json b
        | some req ↦ next req b
      ]

  unfoldable pub push_config : Map Str Str → Backend N → Response × Backend N
  push_config [] b = refuse 400 nothing_to_push b
  push_config (c ∷ cfg) b = push_with (c ∷ cfg) delivered b

  unfoldable pub handle_push : Decoder → Handler N
  unfolding push_config
  handle_push d = posted d.push_req push_config

  unfoldable pub handle_notice : Decoder → Handler N
  handle_notice d = posted d.notice_req λ text b.
      let t = trim_space text in push_with ((codes "notice", t) ∷ []) (λ n. noticed n (t ==ₛ [])) b

  unfoldable pub handle_no_punch : Decoder → Handler N
  handle_no_punch d =
      posted d.nopunch_req
        λ on b. push_with ((codes "no_punch", if on then codes "1" else []) ∷ []) delivered b

  unfoldable pub handle_set_ip : Decoder → Handler N
  handle_set_ip d = posted d.ip_req λ req b.
      let (done, s) = set_device_ip (trim_space req.0) (trim_space req.1) b.server in
      elim done [
        | err e ↦ refuse 400 (ip_failed e) (record b { server = s })
        | ok on ↦ (respond 200 (reconnects on), record b { server = s })
      ]

  unfoldable pub handle_revoke_cred : Decoder → Handler N
  handle_revoke_cred d = posted d.hwid_req λ hwid b.
      if trim_space hwid ==ₛ []
      then refuse 400 no_hwid b
      else (let (done, s) = revoke_device_credential (trim_space hwid) b.server in
          if done
          then (respond 200 fine, record b { server = s })
          else refuse 404 not_registered (record b { server = s }))

  unfoldable pub handle_unblock : Decoder → Handler N
  handle_unblock d = posted d.hwid_req λ hwid b.
      if trim_space hwid ==ₛ []
      then refuse 400 no_hwid b
      else (let (done, s) = unblock_device (trim_space hwid) b.server in
          if done
          then (respond 200 fine, record b { server = s })
          else refuse 404 not_blocked (record b { server = s }))
