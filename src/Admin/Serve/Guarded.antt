-- ===== src/Admin/Serve/Guarded.antt =====
-- internal/admin/admin.go: requests without the token.
use sulink_lan.Base.{ℕ, ◌≡◌, ◌≢◌, refl, [], if_cases, ◌==◌, not, codes, ◌==ₛ◌, arith}
use sulink_lan.Base.Eq.{==ₛ_iff}
use sulink_lan.Npsembed.{Nps}
use sulink_lan.Admin.{
  Request, Response, Backend, Body, Decoder, Handler, PageConfig, auth, handle_index, html,
  not_found, not_allowed, failed, own_tunnels, wrong_token, no_device_key,
}
use sulink_lan.Admin.Nps.{handle_my_tunnels, client_id_of, tunnels_of, query_of}
use sulink_lan.Admin.Serve.{Route, index, my_tunnels, handler, serve, route}

-- What anyone may see: the empty page, refusals, and the tunnels of the device whose key is given.
pub data Open {S : Type 0} (n : Nps S) (r : Request) (b : Backend S) : Body → Type 0 where
  page : Open n r b html
  unknown : Open n r b not_found
  method : Open n r b not_allowed
  refusal : Open n r b (failed wrong_token)
  no_key : Open n r b (failed no_device_key)
  nothing : Open n r b (own_tunnels [])
  own :
      query_of (codes "device_key") r ≢ []
      → Open n r b (
          own_tunnels (
            tunnels_of n b.nps
              (client_id_of n (query_of (codes "device_key") r) (n.clients b.nps))
              (n.tasks b.nps)))

-- The request changed nothing, and its answer is open.
record Harmless {S : Type 0} (n : Nps S) (r : Request) (b : Backend S) (x : Response × Backend S)
    : Type 0 where
  unchanged : x.1 ≡ b
  shows : Open n r b x.0.body

module _ {S : Type 0} (n : Nps S) (cfg : PageConfig) (d : Decoder) where
  index-Harmless : (r : Request) (b : Backend S) → Harmless n r b (handle_index r b)
  unfolding handle_index
  index-Harmless r b =
      if_cases (Harmless n r b) (not (r.path ==ₛ codes "/"))
        (λ _. record { unchanged = refl; shows = unknown })
        λ _.
          if_cases (Harmless n r b) (not (r.method ==ₛ codes "GET"))
            (λ _. record { unchanged = refl; shows = method })
            λ _. record { unchanged = refl; shows = page }

  my_tunnels-Harmless : (r : Request) (b : Backend S) → Harmless n r b (handle_my_tunnels n r b)
  unfolding handle_my_tunnels
  my_tunnels-Harmless r b =
      let vkey = query_of (codes "device_key") r in
      if_cases (Harmless n r b) (vkey ==ₛ []) (λ _. record { unchanged = refl; shows = no_key })
        λ given.
          if_cases (Harmless n r b) (client_id_of n vkey (n.clients b.nps) == 0)
            (λ _. record { unchanged = refl; shows = nothing })
            λ _. record { unchanged = refl; shows = own (ground (arith, ==ₛ_iff vkey [])) }

  auth-Harmless :
      (r : Request) (b : Backend S) (h : Handler S)
      → r.token ≢ cfg.token
      → Harmless n r b (auth cfg h r b)
  unfolding auth
  auth-Harmless r b h ne =
      if_cases (Harmless n r b) (r.token ==ₛ cfg.token)
        (λ same. absurd (ground (arith, ==ₛ_iff r.token cfg.token)))
        λ _. record { unchanged = refl; shows = refusal }

  handler-Harmless :
      (now : ℕ) (x : Route) (r : Request) (b : Backend S)
      → r.token ≢ cfg.token
      → Harmless n r b (handler n cfg d now x r b)
  unfolding handler
  handler-Harmless now index r b ne = index-Harmless r b
  handler-Harmless now my_tunnels r b ne = my_tunnels-Harmless r b
  handler-Harmless now _ r b ne = auth-Harmless r b _ ne

  -- A request without the token changes nothing on the server, in its settings or in NPS, whatever
  -- its path and its body, and is answered with nothing but the empty page, a refusal, or the tunnels of the
  -- client of NPS whose key the request gives.
  pub serve_without_token :
      (now : ℕ) (r : Request) (b : Backend S)
      → r.token ≢ cfg.token
      → ((serve n cfg d now r b).1 ≡ b) × Open n r b (serve n cfg d now r b).0.body
  unfolding serve
  serve_without_token now r b ne =
      let h = handler-Harmless now (route r.path) r b ne in (h.unchanged, h.shows)
