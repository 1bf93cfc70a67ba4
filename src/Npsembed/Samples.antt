-- ===== src/Npsembed/Samples.antt =====
-- A small NPS: its clients, its tunnels and a counter. Starting a tunnel on port 1 fails for UDP.
use sulink_lan.Base.{
  ℕ, ◌+◌, true, ◌&&◌, List, [], ◌∷◌, ◌++◌, Option, none, some, Result, ok, err, ◌==◌, if◌then◌else◌,
  Str, codes, ◌==ₛ◌,
}
use sulink_lan.Npsembed.{NpsClient, Tunnel, Nps}

pub record Small : Type 0 where
  pub clients : List NpsClient
  pub tasks : List Tunnel
  pub count : ℕ

abbrev pub without : ℕ → List Tunnel → List Tunnel
without id [] = []
without id (t ∷ ts) = let rest = without id ts in if t.id == id then rest else t ∷ rest

abbrev pub find : ℕ → List NpsClient → Result Str NpsClient
find id [] = err (codes "missing")
find id (c ∷ cs) = if c.id == id then ok c else find id cs

abbrev made : Str → Str → ℕ → NpsClient
made vkey remark id = record { id = id; verify_key = vkey; remark = remark }

unfoldable pub start_task : Tunnel → Small → Option Str × Small
start_task t s =
    if t.port == 1 && t.mode ==ₛ codes "udp" then (some (codes "port in use"), s) else (none, s)

abbrev pub small_nps : Nps Small
small_nps = record {
  clients = λ s. s.clients;
  next_client_id = λ s. (s.count + 1, record s { count = s.count + 1 });
  new_client = λ vkey remark s. (
    ok (made vkey remark (s.count + 1)),
    record s { clients = s.clients ++ made vkey remark (s.count + 1) ∷ []; count = s.count + 1 },
  );
  del_client = λ id s. (none, s);
  get_client = λ id s. find id.1 s.clients;
  tasks = λ s. s.tasks;
  next_task_id = λ s. (s.count + 1, record s { count = s.count + 1 });
  new_task = λ t s. (none, record s { tasks = s.tasks ++ t ∷ [] });
  add_task = start_task;
  del_db_task = λ id s. record s { tasks = without id s.tasks };
  del_task = λ id s. (none, record s { tasks = without id s.tasks });
  is_running = λ id s. true;
  is_connected = λ id s. true;
}

abbrev pub box : NpsClient
box = record { id = 7; verify_key = codes "k"; remark = [] }

abbrev pub with_box : Small
with_box = record { clients = box ∷ []; tasks = []; count = 10 }
