-- ===== src/Admin/Nps/Partial.antt =====
-- internal/admin/nps.go: a request for a TCP and a UDP tunnel at once.
use mathlib.Core.Path.{subst}
use sulink_lan.Base.{ℕ, ◌≡◌, ◌≢◌, [], some, Result, ok, err, Str, codes, Has, option_cases, arith}
use sulink_lan.Base.Eq.{==ₛ_iff}
use sulink_lan.Npsembed.{NpsClient, Tunnel, Nps}
use sulink_lan.Admin.{Backend, TunnelReq, failed, nps_failed, respond}
use sulink_lan.Admin.Nps.{create_one, create_all, create_tunnels, post_tunnel}

-- The tunnels that stay are at least those before.
abbrev pub Keeps : {S : Type 0} → Nps S → Tunnel → (S → S) → Type 0
Keeps {S} n t f = (s : S) → Has t (n.tasks s) → Has t (n.tasks (f s))

module _ {S : Type 0} (n : Nps S) where
  -- A failed round leaves the other tunnels alone.
  failed_round :
      (mode : Str) (req : TunnelReq) (c : NpsClient) (s : S) (t : Tunnel) {e : Str}
      → (create_one n mode req c s).0 ≡ err e
      → Keeps n t (λ s. (n.next_task_id s).1)
      → ((u : Tunnel) → Keeps n t (λ s. (n.new_task u s).1))
      → ((u : Tunnel) → Keeps n t (λ s. (n.add_task u s).1))
      → ((id : ℕ) → id ≢ t.id → Keeps n t (n.del_db_task id))
      → (n.next_task_id s).0 ≢ t.id
      → Has t (n.tasks s)
      → Has t (n.tasks (create_one n mode req c s).1)
  unfolding create_one
  failed_round mode req c s t wrong ids stores starts deletes other here =
      let (id, s1) = n.next_task_id s in
      let u : Tunnel = record {
        id = id;
        port = req.port;
        mode = mode;
        target = some req.target;
        client = some c;
        remark = req.remark;
      } in
      let s2 = (n.new_task u s1).1 in
      let s3 = (n.add_task u s2).1 in
      let h1 = ids s here in
      let h2 = stores u s1 h1 in
      let h3 = starts u s2 h2 in
      let h4 = deletes id other s3 h3 in
      option_cases (λ (r : Result Str Tunnel × S). Has t (n.tasks r.1)) (n.new_task u s1).0
        (λ _.
          option_cases (λ (r : Result Str Tunnel × S). Has t (n.tasks r.1)) (n.add_task u s2).0
            (λ _. h3) (λ x _. h4))
        λ x _. h2

  -- For a request with a target and a known client: when the mode "all" makes its TCP tunnel and
  -- then fails at the UDP tunnel, the request is answered with the error, and the TCP tunnel
  -- stays. NPS keeps the other tunnels in all calls but the removal of the tunnel itself, and
  -- gives the second tunnel another id.
  pub post_tunnel_partial :
      (req : TunnelReq) (b : Backend S) (c : NpsClient) (t : Tunnel) (s : S) (e : Str)
      → req.target ≢ []
      → req.mode ≡ codes "all"
      → n.get_client req.client_id b.nps ≡ ok c
      → create_one n (codes "tcp") req c b.nps ≡ (ok t, s)
      → Has t (n.tasks s)
      → (create_one n (codes "udp") req c s).0 ≡ err e
      → Keeps n t (λ s. (n.next_task_id s).1)
      → ((u : Tunnel) → Keeps n t (λ s. (n.new_task u s).1))
      → ((u : Tunnel) → Keeps n t (λ s. (n.add_task u s).1))
      → ((id : ℕ) → id ≢ t.id → Keeps n t (n.del_db_task id))
      → (n.next_task_id s).0 ≢ t.id
      → ((post_tunnel n req b).0 ≡ respond 500 (failed (nps_failed e)))
        × Has t (n.tasks (post_tunnel n req b).1.nps)
  unfolding post_tunnel create_tunnels create_all
  post_tunnel_partial req b c t s e target mode found first here second ids stores starts deletes
        other =
      let kept =
        failed_round (codes "udp") req c s t {e = e} second ids stores starts deletes other here in
      (
        ground (arith, ==ₛ_iff req.target [], ==ₛ_iff req.mode [], ==ₛ_iff req.mode (codes "all")),
        subst (λ x. Has t (n.tasks x)) state' kept,
      )
    where
      state' : (create_one n (codes "udp") req c s).1 ≡ (post_tunnel n req b).1.nps
      state' = ground (
        arith,
        ==ₛ_iff req.target [],
        ==ₛ_iff req.mode [],
        ==ₛ_iff req.mode (codes "all"),
        target,
        mode,
        found,
        first,
        second,
      )
