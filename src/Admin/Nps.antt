-- ===== src/Admin/Nps.antt =====
-- internal/admin/nps.go: the handlers that manage the tunnels of NPS. `strconv.Atoi` of a `client_id`
-- that does not fit an int counts as 0 here, and a port is not negative. Loops over NPS's maps go through its lists.
pub mod Partial
use sulink_lan.Base.{
  ℕ, Bool, true, false, not, ◌&&◌, ◌||◌, List, [], ◌∷◌, ◌++◌, Option, none, some, Result, ok, err,
  ◌==◌, if◌then◌else◌, or_else, Str, codes, ◌==ₛ◌,
}
use sulink_lan.Base.Eq.{str_eq}
use sulink_lan.Base.Map.{lookup}
use sulink_lan.Base.Text.{atoi, decimal}
use sulink_lan.Npsembed.{NpsClient, Tunnel, Nps}
use sulink_lan.Admin.{
  Request, Response, Backend, Handler, Decoder, ClientView, TunnelView, TunnelReq, respond, only,
  refuse, get, post, not_allowed, bad_params, bad_id, no_target, no_device_key, bad_client,
  nps_failed, fine, clients, created_client, tunnels, created_tunnel, own_tunnels,
}

-- `r.URL.Query().Get`.
abbrev pub query_of : Str → Request → Str
query_of k r = or_else (lookup k r.query) []

-- The refusal of another method; these handlers set no header Allow.
abbrev pub bare_refusal : Response
bare_refusal = respond 405 not_allowed

-- `body.ID <= 0`.
abbrev pub not_positive : Bool × ℕ → Bool
not_positive x = x.0 || x.1 == 0

client_filter : Option (Bool × ℕ) → Bool × ℕ
client_filter none = (false, 0)
client_filter (some x) = x

-- Whether the filter of a request leaves the tunnel out.
unfoldable pub left_out : Bool × ℕ → Str → Tunnel → Bool
left_out (neg, id) mode t =
    let other : Bool = elim t.client [ none ↦ false | some c ↦ not (not neg && c.id == id) ] in
    (not (id == 0) && other) || (not (mode ==ₛ []) && not (t.mode ==ₛ mode))

module _ {S : Type 0} (n : Nps S) where
  view : S → Tunnel → TunnelView
  view s t = record {
    id = t.id;
    port = t.port;
    mode = t.mode;
    target = or_else t.target [];
    remark = t.remark;
    running = n.is_running t.id s;
    client_id = elim t.client [ none ↦ 0 | some c ↦ c.id ];
    vkey = elim t.client [ none ↦ [] | some c ↦ c.verify_key ];
  }

  unfoldable pub views : S → Bool × ℕ → Str → List Tunnel → List TunnelView
  unfolding view left_out
  views s id mode [] = []
  views s id mode (t ∷ ts) =
      let rest = views s id mode ts in if left_out id mode t then rest else view s t ∷ rest

  -- `GetClientList`, which brings the online state of each client up to date.
  unfoldable pub client_views : S → List NpsClient → List ClientView
  client_views s [] = []
  client_views s (c ∷ cs) =
      record { client = c; online = n.is_connected c.id s } ∷ client_views s cs

  -- A new client, with a key of its own if the request has none.
  unfoldable pub create_client : Str × Str → Backend S → Response × Backend S
  create_client (vkey, remark) b =
      let (id, s) = n.next_client_id b.nps in
      let key = (if vkey ==ₛ [] then codes "client-" ++ decimal id else vkey) in
      let before = (if vkey ==ₛ [] then s else b.nps) in
      let (made, after) = n.new_client key remark before in
      let b1 = record b { nps = after } in
      elim made [
        | err e ↦ refuse 500 (nps_failed e) b1
        | ok c ↦ (respond 200 (created_client c.id c.verify_key), b1)
      ]

  unfoldable pub handle_nps_clients : Decoder → Handler S
  unfolding create_client client_views
  handle_nps_clients d r b =
      if r.method ==ₛ get
      then (respond 200 (clients (client_views b.nps (n.clients b.nps))), b)
      else if not (r.method ==ₛ post)
      then (bare_refusal, b)
      else elim (d.client_req r.body) [
        | none ↦ refuse 400 bad_params b
        | some req ↦ create_client req b
      ]

  -- The answer to a call of NPS that may fail.
  unfoldable pub answer_of : Option Str × S → Backend S → Response × Backend S
  answer_of (failure, s) b =
      let b1 = record b { nps = s } in
      elim failure [ none ↦ (respond 200 fine, b1) | some e ↦ refuse 500 (nps_failed e) b1 ]

  -- Both deletions read a positive id.
  unfoldable pub delete_by : (ℕ → S → Option Str × S) → Decoder → Handler S
  unfolding answer_of
  delete_by del d r b =
      if not (r.method ==ₛ post) then (bare_refusal, b) else elim (d.id_req r.body) [
        | none ↦ refuse 400 bad_id b
        | some x ↦ if not_positive x then refuse 400 bad_id b else answer_of (del x.1 b.nps) b
      ]

  unfoldable pub handle_nps_client_delete : Decoder → Handler S
  unfolding delete_by
  handle_nps_client_delete d = delete_by n.del_client d

  unfoldable pub handle_nps_tunnel_delete : Decoder → Handler S
  unfolding delete_by
  handle_nps_tunnel_delete d = delete_by n.del_task d

  -- One round of the loop over the modes: the tunnel, or the text of the error.
  unfoldable pub create_one : Str → TunnelReq → NpsClient → S → Result Str Tunnel × S
  create_one mode req c s =
      let (id, s1) = n.next_task_id s in
      let t : Tunnel = record {
        id = id;
        port = req.port;
        mode = mode;
        target = some req.target;
        client = some c;
        remark = req.remark;
      } in
      let (stored, s2) = n.new_task t s1 in
      elim stored [
        | some e ↦ (err e, s2)
        | none ↦
            let (started, s3) = n.add_task t s2 in
            elim started [ some e ↦ (err e, n.del_db_task id s3) | none ↦ (ok t, s3) ]
      ]

  -- The loop over the modes; the last tunnel is answered.
  unfoldable pub create_all : Str → List Str → TunnelReq → NpsClient → S → Result Str Tunnel × S
  unfolding create_one
  create_all mode [] req c s = create_one mode req c s
  create_all mode (m ∷ ms) req c s =
      let (made, s1) = create_one mode req c s in
      let rest = create_all m ms req c s1 in elim made [ err e ↦ (err e, s1) | ok t ↦ rest ]

  unfoldable pub create_tunnels : TunnelReq → NpsClient → S → Result Str Tunnel × S
  unfolding create_all
  create_tunnels req c s =
      let mode = (if req.mode ==ₛ [] then codes "tcp" else req.mode) in
      if mode ==ₛ codes "all"
      then create_all (codes "tcp") (codes "udp" ∷ []) req c s
      else create_all mode [] req c s

  unfoldable pub post_tunnel : TunnelReq → Backend S → Response × Backend S
  unfolding create_tunnels
  post_tunnel req b =
      if req.target ==ₛ []
      then refuse 400 no_target b
      else elim (n.get_client req.client_id b.nps) [
        | err e ↦ refuse 400 (bad_client e) b
        | ok c ↦
            let (made, s) = create_tunnels req c b.nps in
            let b1 = record b { nps = s } in
            elim made [
              | err e ↦ refuse 500 (nps_failed e) b1
              | ok t ↦ (respond 200 (created_tunnel t.id t.port), b1)
            ]
      ]

  unfoldable pub handle_nps_tunnels : Decoder → Handler S
  unfolding client_filter views post_tunnel
  handle_nps_tunnels d r b =
      if r.method ==ₛ get
      then (
        respond 200 (
            tunnels (
              views b.nps (client_filter (atoi (query_of (codes "client_id") r)))
                (query_of (codes "type") r) (n.tasks b.nps))),
        b,
      )
      else if not (r.method ==ₛ post)
      then (bare_refusal, b)
      else elim (d.tunnel_req r.body) [
        | none ↦ refuse 400 bad_params b
        | some req ↦ post_tunnel req b
      ]

  -- The id of the first client with the key; 0 if there is none.
  unfoldable pub client_id_of : Str → List NpsClient → ℕ
  client_id_of vkey [] = 0
  client_id_of vkey (c ∷ cs) = if c.verify_key ==ₛ vkey then c.id else client_id_of vkey cs

  -- The tunnels of a client; a tunnel without a client is nobody's.
  unfoldable pub tunnels_of : S → ℕ → List Tunnel → List TunnelView
  unfolding view
  tunnels_of s id [] = []
  tunnels_of s id (t ∷ ts) =
      let rest = tunnels_of s id ts in
      elim t.client [ none ↦ rest | some c ↦ if c.id == id then view s t ∷ rest else rest ]

  unfoldable pub handle_my_tunnels : Handler S
  unfolding client_id_of tunnels_of
  handle_my_tunnels r b =
      let vkey = query_of (codes "device_key") r in
      let id = client_id_of vkey (n.clients b.nps) in
      if vkey ==ₛ []
      then refuse 400 no_device_key b
      else if id == 0
      then (respond 200 (own_tunnels []), b)
      else (respond 200 (own_tunnels (tunnels_of b.nps id (n.tasks b.nps))), b)
