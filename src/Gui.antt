-- ===== src/Gui.antt =====
-- internal/gui: the state of the desktop application (`App`) and what the page calls; the window, the
-- bindings and the registry are not modelled. A call that takes the mutex several times is one step, and
-- log lines are in `Note`. The tunnel client of NPS is the pair of the address and the key it was made with.
pub mod Shown
pub mod Work
pub mod Saving
pub mod Stuck
pub mod Honest
mod Tests
pub use Shown.{
  TunnelView, Status, Message, Note, State, Phase, Worker, App, FormError, Failure, Reply, max_logs,
  disconnected, connecting, connected, error, not_connected, connecting_now, disconnecting, no_text,
  bad_config, run_failed, saved_note, connecting_note, closed_note, notice_cleared, notice_received,
  auto_start_note, online_note, failed_note, polling, closing, cleared, left, bad_server, no_host,
  bad_port, bad_form, no_auto_start, wrong, not_saved, invalid, done, fail,
}
unfoldable pub use Shown.{log_event, with_status, set_status}
use sulink_lan.Base.{
  ℕ, ◌+◌, Bool, true, false, List, [], ◌∷◌, Option, none, some, ltb, ◌||◌, if◌then◌else◌, take, Str,
  codes, ◌==ₛ◌,
}
use sulink_lan.Base.Eq.{nat_eq}
use sulink_lan.Base.Map.{Map, insert}
use sulink_lan.Base.Text.{atoi}
use sulink_lan.Base.Net.{split_host_port, join_host_port}
use sulink_lan.Base.Bytes.{Bytes}
use sulink_lan.Config.{
  Config, ConfigError, Json, Folder, Writing, load, save, validate, normalize_server_addr,
}
use sulink_lan.Client.Session

port_wrong : Option (Bool × ℕ) → Bool
port_wrong none = true
port_wrong (some (neg, p)) = neg || ltb p 1 || ltb 65535 p

unfoldable pub validate_partial : Config → Option FormError
unfolding port_wrong
validate_partial c =
    if c.server ==ₛ [] then none else elim (split_host_port (normalize_server_addr c.server)) [
      | none ↦ some bad_server
      | some (host, port) ↦
          if host ==ₛ []
          then some no_host
          else if port_wrong (atoi port)
          then some bad_port
          else none
    ]

-- The configuration with no field set, which a form is read into.
abbrev pub no_config : Config
no_config = record {
  server = [];
  name = [];
  no_punch = false;
  auto_connect = false;
  auto_start = false;
  device_id = [];
  device_key = [];
  network_key = [];
}

-- A configuration in the application and in its file; the error of `Save`, if there is one.
unfoldable pub store : Json → Writing → Config → App → Option ConfigError × App
store j w c a =
    let (failure, f) = save j w c a.folder in (failure, record a { cfg = c; folder = f })

-- What follows `store` in the two calls that save.
saved : ℕ → Note → Option ConfigError × App → Reply × App
unfolding log_event
saved now note (some e, a) = (fail (not_saved e), a)
saved now note (none, a) = (done, log_event now note a)

keep_name : Config → Config → Config
keep_name c form = if form.name ==ₛ [] then record form { name = c.name } else form

unfoldable pub save_config : Json → ℕ → Writing → Bytes → App → Reply × App
unfolding saved keep_name store
save_config j now w payload a = elim (j.unmarshal payload no_config) [
  | none ↦ (fail bad_form, a)
  | some form ↦
      let c = keep_name a.cfg form in
      elim (validate_partial c) [
        | some e ↦ (fail (wrong e), a)
        | none ↦ saved now saved_note (store j w c a)
      ]
]

-- `SetAutoStart`; `registered` tells whether the registry was written.
unfoldable pub set_auto_start : Json → ℕ → Writing → Bool → Bool → App → Reply × App
unfolding saved store
set_auto_start j now w registered on a =
    if registered
    then saved now (auto_start_note on) (store j w (record a.cfg { auto_start = on }) a)
    else (fail no_auto_start, a)

-- The settings that `Connect` gives a client.
unfoldable pub client_config : Config → Session.Config
client_config c = record {
  server = c.server;
  name = c.name;
  no_punch = c.no_punch;
  device_id = c.device_id;
  device_key = c.device_key;
  network_key = c.network_key;
  hwid = [];
  persists = true;
}

abbrev start_state : State → State
start_state s = record s {
  status = connecting;
  message = connecting_now;
  ip = [];
  transport = [];
  latency = 0;
}

start_worker : App → App
unfolding client_config
start_worker a = record a {
  cli = some a.next;
  stop = some a.next;
  state = start_state a.state;
  workers =
      insert a.next (record { settings = client_config a.cfg; phase = polling; is_done = false })
        a.workers;
  next = a.next + 1;
}

unfoldable pub connect : ℕ → App → Reply × App
unfolding start_worker log_event set_status
connect now a = elim a.cli [
  | some _ ↦ (done, a)
  | none ↦ elim (validate a.cfg) [
    | some e ↦ (
      fail (invalid e),
      log_event now (failed_note (bad_config e)) (set_status error (bad_config e) a),
    )
    | none ↦ (done, log_event now connecting_note (start_worker a))
  ]
]

-- Closing a closed channel is avoided there; the map has it once.
unfoldable pub disconnect : App → App
unfolding set_status
disconnect a = elim a.stop [
  | none ↦ a
  | some n ↦
      let b = set_status connecting disconnecting a in
      record b { stopped = insert n true b.stopped }
]

unfoldable pub clear_logs : App → App
clear_logs a = record a { state = record a.state { logs = [] } }

-- `New`, given the host's name.
unfoldable pub new_app : Json → Str → Folder → App
new_app j host f = record {
  cfg = (load j host f).0;
  cli = none;
  stop = none;
  stopped = [];
  npc = none;
  state = record {
    status = disconnected;
    message = not_connected;
    ip = [];
    transport = [];
    latency = 0;
    logs = [];
    tunnels = [];
    notice = [];
    pushed = [];
    lease_until = 0;
  };
  workers = [];
  next = 0;
  folder = f;
}
