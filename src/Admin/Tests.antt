-- ===== src/Admin/Tests.antt =====
-- Requests to the management page of internal/admin at concrete inputs.
use sulink_lan.Base.{
  ℕ, ◌≡◌, ◌≢◌, refl, inl, true, false, [], ◌∷◌, ◌++◌, none, some, ok, err, codes, ◌==ₛ◌, Has, arith,
  List,
}
use sulink_lan.Base.Eq.{str_eq}
use sulink_lan.Protocol.Samples.{tag}
use sulink_lan.Server.Pool.{vnet_pool}
use sulink_lan.Server.Hub.{Server}
use sulink_lan.Npsembed.{Tunnel}
use sulink_lan.Npsembed.Samples.{Small, small_nps, with_box, box, without, start_task}
use sulink_lan.Admin.{Request, Backend, Decoder, PageConfig, TunnelReq, respond, failed, nps_failed}
use sulink_lan.Admin.Nps.{create_one, post_tunnel}
use sulink_lan.Admin.Nps.Partial.{Keeps, post_tunnel_partial}
use sulink_lan.Base.{Option}
use sulink_lan.Base.Text.{trim_space, lower}
use sulink_lan.Base.Bytes.{Bytes}
use sulink_lan.Base.Encode.{raw_url_encode}
use sulink_lan.Admin.{new_page}
use sulink_lan.Admin.Start.{start_admin, is_off, random_token}
use sulink_lan.Admin.Start.Guarded.{Started, start_admin_guards}
use sulink_lan.Admin.Serve.{serve}
use sulink_lan.Admin.Serve.Guarded.{Open, serve_without_token}

abbrev server : Server
server = record {
  leases = record {
    table = record {
      path = [];
      by_hwid = [];
      by_vip = [];
      by_device_id = [];
      disk = record { file = none; writable = true };
    };
    pool = vnet_pool;
  };
  network_key = tag;
  conns = [];
  devices = [];
  by_id = [];
  pushed = [];
  counters = record { pkts = 0; bytes = 0; flooded = 0; icmp = 0; rejected = 0 };
  written = [];
  announced = [];
}

abbrev backend : Backend Small
backend = record {
  server = server;
  settings = record { path = []; writable = true; file = none };
  nps = with_box;
}

abbrev page : PageConfig
page = record { addr = codes "127.0.0.1:8080"; token = codes "secret" }

abbrev both_tunnels : TunnelReq
both_tunnels = record {
  client_id = (false, 7);
  port = 1;
  mode = codes "all";
  target = codes "127.0.0.1:80";
  remark = [];
}

abbrev decoder : Decoder
decoder = record {
  push_req = λ s. none;
  notice_req = λ s. some (codes "hello");
  nopunch_req = λ s. none;
  ip_req = λ s. none;
  hwid_req = λ s. none;
  client_req = λ s. none;
  id_req = λ s. none;
  tunnel_req = λ s. some both_tunnels;
}

abbrev intruder : Request
intruder = record {
  method = codes "POST";
  path = codes "/api/notice";
  token = codes "guess";
  query = [];
  body = [];
}

guessed : intruder.token ≢ page.token
guessed e = cc

serve_without_token_example :
    ((serve small_nps page decoder 0 intruder backend).1 ≡ backend)
    × Open small_nps intruder backend (serve small_nps page decoder 0 intruder backend).0.body
serve_without_token_example = serve_without_token small_nps page decoder 0 intruder backend guessed

abbrev tcp : Tunnel
tcp = record {
  id = 11;
  port = 1;
  mode = codes "tcp";
  target = some (codes "127.0.0.1:80");
  client = some box;
  remark = [];
}

abbrev after_tcp : Small
after_tcp = record { clients = box ∷ []; tasks = tcp ∷ []; count = 11 }

targeted : both_tunnels.target ≢ []
targeted e = cc

first : create_one small_nps (codes "tcp") both_tunnels box with_box ≡ (ok tcp, after_tcp)
unfolding create_one start_task ◌==ₛ◌
first = refl

second :
    (create_one small_nps (codes "udp") both_tunnels box after_tcp).0 ≡ err (codes "port in use")
unfolding create_one start_task ◌==ₛ◌
second = refl

Has-append : (t u : Tunnel) (ts : List Tunnel) → Has t ts → Has t (ts ++ u ∷ [])
Has-append t u [] h = absurd h
Has-append t u (x ∷ ts) h = grind (arith, Has-append t u ts)

Has-without :
    (t : Tunnel) (id : ℕ) (ts : List Tunnel) → id ≢ t.id → Has t ts → Has t (without id ts)
Has-without t id [] ne h = absurd h
Has-without t id (x ∷ ts) ne h = grind (arith, Has-without t id ts)

counts : Keeps small_nps tcp (λ s. (small_nps.next_task_id s).1)
counts s h = h

stores : (u : Tunnel) → Keeps small_nps tcp (λ s. (small_nps.new_task u s).1)
stores u s h = Has-append tcp u s.tasks h

starts : (u : Tunnel) → Keeps small_nps tcp (λ s. (small_nps.add_task u s).1)
unfolding start_task
starts u s h = ground arith

deletes : (id : ℕ) → id ≢ tcp.id → Keeps small_nps tcp (small_nps.del_db_task id)
deletes id ne s h = Has-without tcp id s.tasks ne h

post_tunnel_partial_example :
    ((post_tunnel small_nps both_tunnels backend).0
      ≡ respond 500 (failed (nps_failed (codes "port in use"))))
    × Has tcp (small_nps.tasks (post_tunnel small_nps both_tunnels backend).1.nps)
post_tunnel_partial_example =
    post_tunnel_partial small_nps both_tunnels backend box tcp after_tcp (codes "port in use")
      targeted refl refl first (inl refl) second counts stores starts deletes (λ e. omega arith)

-- The server without a token in its flags or its environment, on twenty-four bytes.
abbrev random : Option Bytes
random = some (
    1 ∷ 2 ∷ 3 ∷ 4 ∷ 5 ∷ 6 ∷ 7 ∷ 8 ∷ 9 ∷ 10 ∷ 11 ∷ 12 ∷ 13 ∷ 14 ∷ 15 ∷ 16 ∷ 17 ∷ 18 ∷ 19 ∷ 20 ∷ 21
    ∷ 22 ∷ 23 ∷ 24 ∷ [])

abbrev drawn_page : PageConfig
drawn_page = record {
  addr = codes "127.0.0.1:8080";
  token = codes "AQIDBAUGBwgJCgsMDQ4PEBESExQVFhcY";
}

page_starts : start_admin (codes "127.0.0.1:8080") [] [] random ≡ some (drawn_page, true)
unfolding start_admin is_off random_token raw_url_encode new_page trim_space lower ◌==ₛ◌
page_starts = refl

random_full : (bytes : Bytes) → random ≡ some bytes → bytes ≢ []
random_full bytes e f = cc (e, f)

abbrev nobody : Request
nobody = record intruder { token = [] }

start_admin_guards_example :
    Started
      (codes "127.0.0.1:8080")
      []
      []
      random
      (start_admin (codes "127.0.0.1:8080") [] [] random)
    × ((serve small_nps drawn_page decoder 0 nobody backend).1 ≡ backend)
    × Open small_nps nobody backend (serve small_nps drawn_page decoder 0 nobody backend).0.body
start_admin_guards_example =
    start_admin_guards (codes "127.0.0.1:8080") [] [] random drawn_page true random_full page_starts
      small_nps decoder 0 nobody backend refl
