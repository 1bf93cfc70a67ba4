-- ===== src/Gui/Work.antt =====
-- internal/gui/bridge.go and npc.go: the goroutine `runClient`, and the application's events.
use sulink_lan.Base.{
  ℕ, ◌==◌, Bool, true, false, not, ◌&&◌, List, [], ◌∷◌, Option, none, some, if◌then◌else◌, Str,
  codes, ◌==ₛ◌,
}
use sulink_lan.Base.Eq.{nat_eq}
use sulink_lan.Base.Map.{Map, insert, lookup, delete}
use sulink_lan.Base.Net.{split_host_port, join_host_port}
use sulink_lan.Base.Bytes.{Bytes}
use sulink_lan.Config.{Json, Writing, normalize_server_addr}
use sulink_lan.Protocol.{ip4_string}
use sulink_lan.Gui.{
  App, Status, disconnected, connecting, connected, error, Worker, Phase, polling, closing, cleared,
  left, TunnelView, not_connected, no_text, run_failed, failed_note, closed_note, notice_cleared,
  notice_received, online_note, log_event, set_status, store, save_config, set_auto_start, connect,
  disconnect, clear_logs,
}

-- What a tick reads from its client, and the answer to the request for the tunnels.
pub record Seen : Type 0 where
  pub notice : Str
  pub pushed : Map Str Str
  pub lease_until : ℕ
  pub vip : ℕ
  pub direct : ℕ
  pub total : ℕ
  pub tunnels : Option (List TunnelView)

-- `npcManager.start`, which stops the old tunnel client first.
unfoldable pub npc_start : Str → Str → Option (Str × Str)
npc_start server vkey =
    if vkey ==ₛ [] then none else elim (split_host_port (normalize_server_addr server)) [
      | none ↦ none
      | some (host, _) ↦ some (join_host_port host (codes "8024"), vkey)
    ]

unfoldable pub fetch_tunnels : Option (List TunnelView) → App → App
fetch_tunnels answer a =
    if a.cfg.device_key ==ₛ []
    then a
    else elim (split_host_port (normalize_server_addr a.cfg.server)) [
      | none ↦ a
      | some _ ↦ elim answer [
        | none ↦ a
        | some ts ↦ record a { state = record a.state { tunnels = ts } }
      ]
    ]

unfoldable pub sync_notice : ℕ → Seen → App → App
unfolding log_event
sync_notice now seen a =
    let b = record a {
      state = record a.state {
        notice = seen.notice;
        pushed = seen.pushed;
        lease_until = seen.lease_until;
      };
    } in
    if a.state.notice ==ₛ seen.notice
    then b
    else log_event now (if seen.notice ==ₛ [] then notice_cleared else notice_received) b

unfoldable pub is_connected : Status → Bool
is_connected connected = true
is_connected _ = false

-- The address of the client is new, or the application does not show it as connected.
unfoldable pub go_online : ℕ → Str → App → App
unfolding is_connected log_event set_status npc_start
go_online now ip a =
    let b = record a { state = record a.state { ip = ip } } in
    if not (a.state.ip ==ₛ ip && is_connected a.state.status)
    then (let c = log_event now (online_note ip) (set_status connected no_text b) in
        record c { npc = npc_start c.cfg.server c.cfg.device_key })
    else b

unfoldable pub transport_of : ℕ → ℕ → Str
transport_of direct total =
    if total == 0 then [] else if direct == 0 then codes "relay" else codes "direct"

unfoldable pub sync_from_client : ℕ → Seen → App → App
unfolding sync_notice fetch_tunnels go_online transport_of
sync_from_client now seen a =
    let b = fetch_tunnels seen.tunnels (sync_notice now seen a) in
    if seen.vip == 0
    then b
    else (let c = go_online now (ip4_string seen.vip) b in
        record c { state = record c.state { transport = transport_of seen.direct seen.total } })

-- Something happens: a call of the page, the callback of a client, a step of a goroutine of the given
-- number, or the return of its `Run` with an error or none.
pub data Event : Type 0 where
  save : Writing → Bytes → Event
  auto_start : Writing → Bool → Bool → Event
  start disconnects clears : Event
  credential : ℕ → Writing → Str × Str × Str → Event
  tick : ℕ → Seen → Event
  run_returns : ℕ → Option Str → Event
  sees_stop sees_done leaves : ℕ → Event

unfoldable pub put_worker : ℕ → Worker → App → App
put_worker n w a = record a { workers = insert n w a.workers }

unfoldable pub drop_worker : ℕ → App → App
drop_worker n a = record a { workers = delete n a.workers }

unfoldable pub on_credential : Json → Writing → Str × Str × Str → App → App
unfolding store
on_credential j w (id, key, net) a =
    (store j w (record a.cfg { device_id = id; device_key = key; network_key = net }) a).1

-- `Run` returns, once.
unfoldable pub on_return : ℕ → ℕ → Option Str → Worker → App → App
unfolding put_worker log_event set_status
on_return now n failure w a =
    let b = put_worker n (record w { is_done = true }) a in
    if w.is_done then a else elim failure [
      | none ↦ b
      | some e ↦ log_event now (failed_note (run_failed e)) (set_status error (run_failed e) b)
    ]

pub is_stopped : Option Bool → Bool
is_stopped (some true) = true
is_stopped _ = false

-- The loop of `runClient` takes the closed `stop`: `Close`, and the end of the tunnel client.
unfoldable pub on_stop : ℕ → Worker → App → App
unfolding put_worker is_stopped
on_stop n w a = elim w.phase [
  | polling ↦
      if is_stopped (lookup n a.stopped)
      then put_worker n (record w { phase = closing }) (record a { npc = none })
      else a
  | _ ↦ a
]

unfoldable pub is_current : ℕ → Option ℕ → Bool
is_current n none = false
is_current n (some m) = m == n

-- What waits for the return of `Run` goes on.
unfoldable pub on_done : ℕ → ℕ → Worker → App → App
unfolding put_worker drop_worker is_current
on_done now n w a = if not w.is_done then a else elim w.phase [
  | polling ↦
      let b = record a { npc = none } in
      (if is_current n a.cli
        then put_worker n (record w { phase = left }) (record b { cli = none })
        else drop_worker n b)
  | closing ↦ put_worker n (record w { phase = cleared }) (record a { cli = none })
  | _ ↦ a
]

unfoldable pub on_leave : ℕ → ℕ → Worker → App → App
unfolding drop_worker log_event set_status
on_leave now n w a = elim w.phase [
  | cleared ↦ log_event now closed_note (set_status disconnected not_connected (drop_worker n a))
  | left ↦
      let b = drop_worker n a in
      elim a.state.status [
        | connected ↦ set_status disconnected not_connected b
        | connecting ↦ set_status disconnected not_connected b
        | _ ↦ b
      ]
  | _ ↦ a
]

pub in_loop : Phase → Bool
in_loop polling = true
in_loop _ = false

unfoldable pub on_tick : ℕ → ℕ → Seen → Worker → App → App
unfolding sync_from_client in_loop
on_tick now n seen w a = if in_loop w.phase then sync_from_client now seen a else a

-- The goroutine of the number does something; nothing if there is none.
unfoldable pub by_worker : ℕ → (Worker → App → App) → App → App
by_worker n f a = elim (lookup n a.workers) [ none ↦ a | some w ↦ f w a ]

module _ (j : Json) where
  unfoldable pub step : ℕ × Event → App → App
  unfolding by_worker
  step (now, save w payload) a = (save_config j now w payload a).1
  step (now, auto_start w registered on) a = (set_auto_start j now w registered on a).1
  step (now, start) a = (connect now a).1
  step (now, disconnects) a = disconnect a
  step (now, clears) a = clear_logs a
  step (now, credential n w c) a = by_worker n (λ _. on_credential j w c) a
  step (now, tick n seen) a = by_worker n (on_tick now n seen) a
  step (now, run_returns n failure) a = by_worker n (on_return now n failure) a
  step (now, sees_stop n) a = by_worker n (on_stop n) a
  step (now, sees_done n) a = by_worker n (on_done now n) a
  step (now, leaves n) a = by_worker n (on_leave now n) a

  -- Events with the times at which they happen.
  unfoldable pub run : List (ℕ × Event) → App → App
  unfolding step
  run [] a = a
  run (e ∷ es) a = run es (step e a)
