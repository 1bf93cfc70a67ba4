-- ===== src/Npsembed.antt =====
-- internal/npsembed: the program's calls of the tunnel server NPS. NPS is another project, so its
-- database and its running tunnels are an argument (`Nps`).
pub mod Ensure
pub mod Samples
use sulink_lan.Base.{
  ℕ, Bool, true, false, List, [], ◌∷◌, Option, none, some, Result, ok, err, if◌then◌else◌, Str,
  ◌==ₛ◌,
}

-- `file.Client`, the fields that the program reads.
pub record NpsClient : Type 0 where
  pub id : ℕ
  pub verify_key : Str
  pub remark : Str

-- `file.Tunnel`.
pub record Tunnel : Type 0 where
  pub id : ℕ
  pub port : ℕ
  pub mode : Str
  pub target : Option Str
  pub client : Option NpsClient
  pub remark : Str

-- What the program calls: `file.GetDb()`, its maps, and the functions of `server`. An error is its text.
pub record Nps (S : Type 0) : Type 0 where
  pub clients : S → List NpsClient
  pub next_client_id : S → ℕ × S
  pub new_client : Str → Str → S → Result Str NpsClient × S
  pub del_client : ℕ → S → Option Str × S
  pub get_client : Bool × ℕ → S → Result Str NpsClient
  pub tasks : S → List Tunnel
  pub next_task_id : S → ℕ × S
  pub new_task : Tunnel → S → Option Str × S
  pub add_task : Tunnel → S → Option Str × S
  pub del_db_task : ℕ → S → S
  pub del_task : ℕ → S → Option Str × S
  pub is_running : ℕ → S → Bool
  pub is_connected : ℕ → S → Bool

-- The entry of a device in the list for the panel of NPS.
pub record DeviceEntry : Type 0 where
  pub hwid : Str
  pub name : Str
  pub vip : Str

unfoldable pub has_key : Str → List NpsClient → Bool
has_key vkey [] = false
has_key vkey (c ∷ cs) = if c.verify_key ==ₛ vkey then true else has_key vkey cs

-- The list that `ListDevices` writes: empty without a lister, or if that gives none.
unfoldable pub list_devices : Option (Option (List DeviceEntry)) → List DeviceEntry
list_devices none = []
list_devices (some none) = []
list_devices (some (some list)) = list

error_of : Result Str NpsClient → Option Str
error_of (ok c) = none
error_of (err e) = some e

module _ {S : Type 0} (n : Nps S) where
  -- `EnsureClientByVkey`: the error, if there is one; `started` tells whether NPS has its database.
  unfoldable pub ensure_client_by_vkey : Bool → Str → Str → S → Option Str × S
  unfolding has_key error_of
  ensure_client_by_vkey started vkey remark s =
      if started
      then (if has_key vkey (n.clients s)
          then (none, s)
          else (let (r, s1) = n.new_client vkey remark s in (error_of r, s1)))
      else (none, s)
