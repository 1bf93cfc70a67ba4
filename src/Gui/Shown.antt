-- ===== src/Gui/Shown.antt =====
-- internal/gui/state.go and app.go: the state of the application, its log and its status.
use sulink_lan.Base.{ℕ, Bool, List, [], ◌∷◌, Option, take, Str}
use sulink_lan.Base.Eq.{nat_eq}
use sulink_lan.Base.Map.{Map}
use sulink_lan.Config.{Config, ConfigError, Folder}
use sulink_lan.Client.Session

-- `TunnelView` of state.go.
pub record TunnelView : Type 0 where
  pub id : ℕ
  pub port : ℕ
  pub mode : Str
  pub target : Str
  pub remark : Str
  pub running : Bool

pub data Status : Type 0 where
  disconnected connecting connected error : Status

-- The texts of the field `Message`.
pub data Message : Type 0 where
  not_connected connecting_now disconnecting no_text : Message
  bad_config : ConfigError → Message
  run_failed : Str → Message

-- A line of the log, without its time.
pub data Note : Type 0 where
  saved_note connecting_note closed_note notice_cleared notice_received : Note
  auto_start_note : Bool → Note
  online_note : Str → Note
  failed_note : Message → Note

-- `State`, less what `GetStateJSON` puts in.
pub record State : Type 0 where
  pub status : Status
  pub message : Message
  pub ip : Str
  pub transport : Str
  pub latency : ℕ
  pub logs : List (ℕ × Note)
  pub tunnels : List TunnelView
  pub notice : Str
  pub pushed : Map Str Str
  pub lease_until : ℕ

-- Where a goroutine `runClient` is: in its loop; after `Close`, when it waits for `Run`; after it has
-- cleared `cli` there; after it has cleared `cli` because `Run` returned.
pub data Phase : Type 0 where
  polling closing cleared left : Phase

-- A running `runClient` with the settings of its client; `is_done` tells whether `Run` has returned.
pub record Worker : Type 0 where
  pub settings : Session.Config
  pub phase : Phase
  pub is_done : Bool

-- `App`. A client and the channel `stop` that is made with it have one number; `stopped` are the closed
-- channels, `folder` is the directory with the configuration.
pub record App : Type 0 where
  pub cfg : Config
  pub cli : Option ℕ
  pub stop : Option ℕ
  pub stopped : Map ℕ Bool
  pub npc : Option (Str × Str)
  pub state : State
  pub workers : Map ℕ Worker
  pub next : ℕ
  pub folder : Folder

-- What is wrong with a form.
pub data FormError : Type 0 where
  bad_server no_host bad_port : FormError

pub data Failure : Type 0 where
  bad_form no_auto_start : Failure
  wrong : FormError → Failure
  not_saved invalid : ConfigError → Failure

pub data Reply : Type 0 where
  done : Reply
  fail : Failure → Reply

abbrev pub max_logs : ℕ
max_logs = 100

-- `logEvent` and `setStatus`.
unfoldable pub log_event : ℕ → Note → App → App
log_event now note a = record a {
  state = record a.state { logs = take max_logs ((now, note) ∷ a.state.logs) };
}

unfoldable pub with_status : Status → Message → State → State
with_status connecting m s = record s { status = connecting; message = m; ip = [] }
with_status connected m s = record s { status = connected; message = m }
with_status x m s = record s {
  status = x;
  message = m;
  ip = [];
  transport = [];
  latency = 0;
  notice = [];
  pushed = [];
  lease_until = 0;
}

unfoldable pub set_status : Status → Message → App → App
unfolding with_status
set_status x m a = record a { state = with_status x m a.state }
