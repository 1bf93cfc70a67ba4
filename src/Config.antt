-- ===== src/Config.antt =====
-- internal/config/config.go: the configuration of the desktop client and its file.
pub mod Samples
mod Tests
pub mod Laws
use sulink_lan.Base.{
  Bool, true, false, [], ◌∷◌, Option, none, some, Result, ok, err, if◌then◌else◌, Str, codes, ◌==ₛ◌,
}
use sulink_lan.Base.Text.{trim_space, contains}
use sulink_lan.Base.Net.{join_host_port}
use sulink_lan.Base.Bytes.{Bytes}

pub record Config : Type 0 where
  pub server : Str
  pub name : Str
  pub no_punch : Bool
  pub auto_connect : Bool
  pub auto_start : Bool
  pub device_id : Str
  pub device_key : Str
  pub network_key : Str

abbrev pub default_server_addr : Str
default_server_addr = codes "lan.sulink.ltd"

abbrev pub default_server_port : Str
default_server_port = codes "9000"

-- `Default`, given what `os.Hostname` returns.
unfoldable pub default_config : Str → Config
default_config host = record {
  server = default_server_addr;
  name = if host ==ₛ [] then codes "我的电脑" else host;
  no_punch = false;
  auto_connect = false;
  auto_start = false;
  device_id = [];
  device_key = [];
  network_key = [];
}

pub data ConfigError : Type 0 where
  no_dir not_readable not_json not_written no_name : ConfigError

-- encoding/json on a configuration: the fields that the text has are written over a default.
pub record Json : Type 0 where
  pub marshal : Config → Bytes
  pub unmarshal : Bytes → Config → Option Config

-- A credential field is left out of the text when it is empty (`omitempty`), so what it is read over stays.
unfoldable pub over_field : Str → Str → Str
over_field [] old = old
over_field (c ∷ s) old = c ∷ s

-- What reading the text of `c` over `d` gives.
unfoldable pub read_over : Config → Config → Config
unfolding over_field
read_over c d = record c {
  device_id = over_field c.device_id d.device_id;
  device_key = over_field c.device_key d.device_key;
  network_key = over_field c.network_key d.network_key;
}

-- The directory of the client with its two files; `has_dir` tells whether it can be made, `readable`
-- whether the configuration can be read if it is there.
pub record Folder : Type 0 where
  pub has_dir : Bool
  pub readable : Bool
  pub config : Option Bytes
  pub tmp : Option Bytes

-- What becomes of a call of `Save`: the write of the temporary file fails and leaves some bytes, or the
-- renaming fails, or all goes well.
pub data Writing : Type 0 where
  stops : Bytes → Writing
  not_renamed renamed : Writing

unfoldable pub fill_server : Config → Config
fill_server c = if trim_space c.server ==ₛ [] then record c { server = default_server_addr } else c

module _ (j : Json) where
  -- The configuration, and the error if there is one.
  unfoldable pub load : Str → Folder → Config × Option ConfigError
  unfolding fill_server default_config
  load host f =
      let d = default_config host in
      if f.has_dir
      then elim f.config [
        | none ↦ (d, none)
        | some bytes ↦
            if f.readable
            then elim (j.unmarshal bytes d) [
              | none ↦ (d, some not_json)
              | some c ↦ (fill_server c, none)
            ]
            else (d, some not_readable)
      ]
      else (d, some no_dir)

  unfoldable pub save : Writing → Config → Folder → Option ConfigError × Folder
  save (stops bytes) c f =
      if f.has_dir then (some not_written, record f { tmp = some bytes }) else (some no_dir, f)
  save not_renamed c f =
      if f.has_dir
      then (some not_written, record f { tmp = some (j.marshal c) })
      else (some no_dir, f)
  save renamed c f =
      if f.has_dir
      then (none, record f { config = some (j.marshal c); tmp = none })
      else (some no_dir, f)

-- `Validate`. The server that it puts into its copy of the configuration is lost.
unfoldable pub validate : Config → Option ConfigError
validate c = if trim_space c.name ==ₛ [] then some no_name else none

unfoldable pub normalize_server_addr : Str → Str
unfolding join_host_port
normalize_server_addr addr =
    let a = trim_space addr in
    if a ==ₛ [] then a else if contains b':' a then a else join_host_port a default_server_port
