-- ===== src/Admin/Serve.antt =====
-- internal/admin/admin.go: the table of handlers that `New` builds.
pub mod Guarded
use sulink_lan.Base.{
  ℕ, Bool, true, false, List, [], ◌∷◌, Option, none, some, if◌then◌else◌, Str, codes, ◌==ₛ◌,
}
use sulink_lan.Npsembed.{Nps}
use sulink_lan.Admin.{
  Request, Response, Backend, Handler, Decoder, PageConfig, auth, handle_index, handle_state,
  handle_push, handle_notice, handle_no_punch, handle_set_ip, handle_revoke_cred, handle_unblock,
}
use sulink_lan.Admin.Nps.{
  handle_nps_clients, handle_nps_client_delete, handle_nps_tunnels, handle_nps_tunnel_delete,
  handle_my_tunnels,
}

pub data Route : Type 0 where
  index my_tunnels api_state api_push api_notice api_nopunch api_ip api_revoke api_unblock : Route
  nps_clients nps_client_delete nps_tunnels nps_tunnel_delete : Route

abbrev paths : List (Str × Route)
paths =
    (codes "/api/state", api_state)
    ∷ (codes "/api/push", api_push)
    ∷ (codes "/api/notice", api_notice)
    ∷ (codes "/api/nopunch", api_nopunch)
    ∷ (codes "/api/ip", api_ip)
    ∷ (codes "/api/revoke-cred", api_revoke)
    ∷ (codes "/api/unblock", api_unblock)
    ∷ (codes "/api/nps/clients", nps_clients)
    ∷ (codes "/api/nps/clients/delete", nps_client_delete)
    ∷ (codes "/api/nps/tunnels", nps_tunnels)
    ∷ (codes "/api/nps/tunnels/delete", nps_tunnel_delete)
    ∷ (codes "/api/sulink/my-tunnels", my_tunnels)
    ∷ []

find_path : Str → List (Str × Route) → Route
find_path p [] = index
find_path p ((q, r) ∷ rest) = if q ==ₛ p then r else find_path p rest

-- `ServeMux`: a path that is no pattern goes to the handler of "/".
unfoldable pub route : Str → Route
unfolding find_path
route p = find_path p paths

module _ {S : Type 0} (n : Nps S) (cfg : PageConfig) (d : Decoder) where
  -- The handler behind a route, given the time.
  unfoldable pub handler : ℕ → Route → Handler S
  handler now index = handle_index
  handler now my_tunnels = handle_my_tunnels n
  handler now api_state = auth cfg (handle_state now)
  handler now api_push = auth cfg (handle_push d)
  handler now api_notice = auth cfg (handle_notice d)
  handler now api_nopunch = auth cfg (handle_no_punch d)
  handler now api_ip = auth cfg (handle_set_ip d)
  handler now api_revoke = auth cfg (handle_revoke_cred d)
  handler now api_unblock = auth cfg (handle_unblock d)
  handler now nps_clients = auth cfg (handle_nps_clients n d)
  handler now nps_client_delete = auth cfg (handle_nps_client_delete n d)
  handler now nps_tunnels = auth cfg (handle_nps_tunnels n d)
  handler now nps_tunnel_delete = auth cfg (handle_nps_tunnel_delete n d)

  unfoldable pub serve : ℕ → Handler S
  unfolding handler route
  serve now r b = handler now (route r.path) r b
