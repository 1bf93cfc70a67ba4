-- ===== src/Client/Card.antt =====
-- internal/client/tun_config.go: the commands that set the virtual card up, with `Configure` of the
-- three tun_<os>.go. The command line is an argument.
mod Tests
pub mod Laws
use sulink_lan.Base.{
  ℕ, Bool, true, false, ◌&&◌, ◌||◌, List, [], ◌∷◌, ◌++◌, map, Option, none, some, Result, ok, err,
  leb, if◌then◌else◌, length, Str, codes, ◌==ₛ◌,
}
use sulink_lan.Base.Text.{lower, contains_text}
use sulink_lan.Base.Net.{is_ip}

pub record PlatformCommand : Type 0 where
  pub name : Str
  pub args : List Str

pub data Platform : Type 0 where
  linux windows darwin : Platform

pub data CardError : Type 0 where
  no_card no_address bad_address : CardError
  -- A command that failed, and its output.
  command_failed : PlatformCommand → Str → CardError

abbrev pub vnet_cidr : Str
vnet_cidr = codes "10.0.0.0/8"

abbrev pub host_mask_string : Str
host_mask_string = codes "255.255.255.255"

abbrev command : Str → List Str → PlatformCommand
command name args = record { name = name; args = args }

-- `none` is no error.
unfoldable pub validate_tun_config : Str → Str → Option CardError
validate_tun_config if_name ip =
    if if_name ==ₛ []
    then some no_card
    else if ip ==ₛ []
    then some no_address
    else if is_ip ip
    then none
    else some bad_address

abbrev pub linux_commands : Str → Str → List PlatformCommand
linux_commands if_name ip =
    command (codes "ip") (codes "link" ∷ codes "set" ∷ if_name ∷ codes "up" ∷ [])
    ∷ command (codes "ip")
        (codes "link" ∷ codes "set" ∷ codes "dev" ∷ if_name ∷ codes "mtu" ∷ codes "1420" ∷ [])
    ∷ command (codes "ip")
        (codes "addr" ∷ codes "replace" ∷ (ip ++ codes "/32") ∷ codes "dev" ∷ if_name ∷ [])
    ∷ command (codes "ip")
        (codes "route" ∷ codes "replace" ∷ vnet_cidr ∷ codes "dev" ∷ if_name ∷ [])
    ∷ []

abbrev pub delete_address : Str → Str → PlatformCommand
delete_address if_name ip = command (codes "netsh") (
    codes "interface"
    ∷ codes "ip"
    ∷ codes "delete"
    ∷ codes "address"
    ∷ (codes "name=" ++ if_name)
    ∷ ip
    ∷ [])

abbrev pub set_address : Str → Str → PlatformCommand
set_address if_name ip = command (codes "netsh") (
    codes "interface"
    ∷ codes "ip"
    ∷ codes "set"
    ∷ codes "address"
    ∷ (codes "name=" ++ if_name)
    ∷ codes "static"
    ∷ ip
    ∷ host_mask_string
    ∷ [])

abbrev pub add_route : Str → Str → PlatformCommand
add_route if_name ip =
    command (codes "netsh")
      (codes "interface" ∷ codes "ip" ∷ codes "add" ∷ codes "route" ∷ vnet_cidr ∷ if_name ∷ ip ∷ [])

abbrev pub set_dns : Str → PlatformCommand
set_dns if_name = command (codes "netsh") (
    codes "interface"
    ∷ codes "ip"
    ∷ codes "set"
    ∷ codes "dns"
    ∷ (codes "name=" ++ if_name)
    ∷ codes "static"
    ∷ codes "1.1.1.1"
    ∷ codes "primary"
    ∷ [])

abbrev pub windows_commands : Str → Str → List PlatformCommand
windows_commands if_name ip =
    delete_address if_name ip ∷ set_address if_name ip ∷ add_route if_name ip ∷ set_dns if_name ∷ []

abbrev pub darwin_commands : Str → Str → List PlatformCommand
darwin_commands if_name ip =
    command (codes "ifconfig")
      (if_name ∷ codes "inet" ∷ ip ∷ ip ∷ codes "netmask" ∷ host_mask_string ∷ codes "up" ∷ [])
    ∷ command (codes "route") (codes "-n" ∷ codes "delete" ∷ codes "-net" ∷ vnet_cidr ∷ [])
    ∷ command (codes "route") (codes "-n" ∷ codes "add" ∷ codes "-net" ∷ vnet_cidr ∷ ip ∷ [])
    ∷ []

abbrev pub commands_of : Platform → Str → Str → List PlatformCommand
commands_of linux if_name ip = linux_commands if_name ip
commands_of windows if_name ip = windows_commands if_name ip
commands_of darwin if_name ip = darwin_commands if_name ip

-- `linuxTunCommands`, `windowsTunCommands` and `darwinTunCommands`.
unfoldable pub tun_commands : Platform → Str → Str → Result CardError (List PlatformCommand)
unfolding validate_tun_config
tun_commands os if_name ip = elim (validate_tun_config if_name ip) [
  | some e ↦ err e
  | none ↦ ok (commands_of os if_name ip)
]

abbrev pub missing_addr_texts : List Str
missing_addr_texts =
    codes "找不到元素"
    ∷ codes "系统找不到指定的元素"
    ∷ codes "cannot find the element"
    ∷ codes "element not found"
    ∷ []

abbrev pub route_exists_texts : List Str
route_exists_texts =
    codes "对象已存在"
    ∷ codes "already exists"
    ∷ codes "file exists"
    ∷ codes "file already exists"
    ∷ codes "rtnetlink answers: file exists"
    ∷ []

has_any : Str → List Str → Bool
unfolding contains_text
has_any low [] = false
has_any low (w ∷ ws) = contains_text (map lower w) low || has_any low ws

-- `containsAny`; of the code points that `strings.ToLower` changes, only the ASCII letters matter here.
unfoldable pub contains_any : Str → List Str → Bool
unfolding has_any
contains_any s any = has_any (map lower s) any

-- The argument at a place is a given word; `false` if there is none.
abbrev arg_is : List Str → ℕ → Str → Bool
arg_is [] i w = false
arg_is (a ∷ args) ℕ.zero w = a ==ₛ w
arg_is (a ∷ args) (ℕ.suc i) w = arg_is args i w

unfoldable pub is_delete_address_command : PlatformCommand → Bool
unfolding ◌==ₛ◌
is_delete_address_command cmd =
    cmd.name ==ₛ codes "netsh"
    && leb 4 (length cmd.args)
    && arg_is cmd.args 2 (codes "delete")
    && arg_is cmd.args 3 (codes "address")

unfoldable pub is_route_add_command : PlatformCommand → Bool
unfolding ◌==ₛ◌
is_route_add_command cmd =
    if cmd.name ==ₛ codes "netsh"
    then leb 4 (length cmd.args)
      && arg_is cmd.args 2 (codes "add")
      && arg_is cmd.args 3 (codes "route")
    else if cmd.name ==ₛ codes "ip"
    then leb 2 (length cmd.args)
      && arg_is cmd.args 0 (codes "route")
      && (arg_is cmd.args 1 (codes "add") || arg_is cmd.args 1 (codes "replace"))
    else if cmd.name ==ₛ codes "route"
    then leb 2 (length cmd.args) && arg_is cmd.args 1 (codes "add")
    else false

unfoldable pub is_benign_command_error : PlatformCommand → Str → Bool
unfolding is_delete_address_command is_route_add_command contains_any ◌==ₛ◌
is_benign_command_error cmd out =
    if is_delete_address_command cmd
    then (if out ==ₛ [] then true else contains_any out missing_addr_texts)
    else if is_route_add_command cmd
    then contains_any out route_exists_texts
    else false

module _ {O : Type 0} (exec : PlatformCommand → O → Option Str × O) where
  -- The loop of `Configure`. `exec` runs a command: `none` if it succeeds, or else its output.
  unfoldable pub run_commands : List PlatformCommand → O → Result CardError (Unit {0}) × O
  run_commands [] os = (ok tt, os)
  run_commands (cmd ∷ cmds) os =
      let (out, os1) = exec cmd os in
      let rest = run_commands cmds os1 in
      elim out [
        | none ↦ rest
        | some text ↦
            if is_benign_command_error cmd text then rest else (err (command_failed cmd text), os1)
      ]

  -- `Configure`.
  unfoldable pub configure : Platform → Str → Str → O → Result CardError (Unit {0}) × O
  unfolding run_commands tun_commands
  configure os if_name ip o = elim (tun_commands os if_name ip) [
    | err e ↦ (err e, o)
    | ok cmds ↦ run_commands cmds o
  ]
