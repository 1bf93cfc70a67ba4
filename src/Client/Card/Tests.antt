-- ===== src/Client/Card/Tests.antt =====
-- The commands of internal/client/tun_config.go on a simple card.
use sulink_lan.Base.{
  Bool, ◌≡◌, ◌≢◌, refl, true, false, [], ◌&&◌, Option, none, some, Str, codes, ◌==ₛ◌, if◌then◌else◌,
  length, get_or, ◌==◌, arith,
}
use sulink_lan.Base.Text.{lower, contains_text}
use sulink_lan.Base.Net.{is_ip}
use sulink_lan.Client.Card.{
  PlatformCommand, windows, configure, delete_address, set_address, add_route, set_dns,
  is_delete_address_command, is_route_add_command, contains_any, is_benign_command_error,
  route_exists_texts,
}
use sulink_lan.Client.Card.Laws.{Netsh, Configured, configure_again}

abbrev card : Str
card = codes "Sulink"

abbrev address : Str
address = codes "10.0.0.2"

-- Whether the address and the route are there.
abbrev Windows : Type 0
Windows = Bool × Bool

abbrev missing : Str
missing = codes "Element not found."

abbrev exists : Str
exists = codes "The object already exists."

delete_in : Windows → Option Str × Windows
delete_in (true, route) = (none, (false, route))
delete_in (false, route) = (some missing, (false, route))

add_in : Windows → Option Str × Windows
add_in (here, true) = (some exists, (here, true))
add_in (here, false) = (none, (here, true))

set_in : PlatformCommand → Windows → Option Str × Windows
set_in cmd (here, route) =
    if length cmd.args == 8 && get_or cmd.args 3 [] ==ₛ codes "address"
    then (if here then (some exists, (here, route)) else (none, (true, route)))
    else (none, (here, route))

exec : PlatformCommand → Windows → Option Str × Windows
unfolding delete_in add_in set_in is_delete_address_command is_route_add_command ◌==ₛ◌
exec cmd o =
    if is_delete_address_command cmd
    then delete_in o
    else if is_route_add_command cmd
    then add_in o
    else set_in cmd o

said : is_benign_command_error (delete_address card address) missing ≡ true
unfolding is_benign_command_error lower contains_text
said = refl

exists_said : contains_any exists route_exists_texts ≡ true
unfolding contains_any lower contains_text
exists_said = refl

delete_works :
    (o : Windows)
    → o.0 ≡ true
    → ((exec (delete_address card address) o).0 ≡ none)
      × ((exec (delete_address card address) o).1.0 ≡ false)
      × ((exec (delete_address card address) o).1.1 ≡ o.1)
unfolding exec
delete_works o e = ground arith

delete_fails :
    (o : Windows) → o.0 ≡ false → exec (delete_address card address) o ≡ (some missing, o)
unfolding exec
delete_fails o e = ground arith

set_works :
    (o : Windows)
    → o.0 ≡ false
    → ((exec (set_address card address) o).0 ≡ none)
      × ((exec (set_address card address) o).1.0 ≡ true)
      × ((exec (set_address card address) o).1.1 ≡ o.1)
unfolding exec
set_works o e = ground arith

add_works :
    (o : Windows)
    → o.1 ≡ false
    → ((exec (add_route card address) o).0 ≡ none)
      × ((exec (add_route card address) o).1.1 ≡ true)
      × ((exec (add_route card address) o).1.0 ≡ o.0)
unfolding exec
add_works o e = ground arith

add_fails : (o : Windows) → o.1 ≡ true → exec (add_route card address) o ≡ (some exists, o)
unfolding exec
add_fails o e = ground arith

dns_works :
    (o : Windows)
    → ((exec (set_dns card) o).0 ≡ none)
      × ((exec (set_dns card) o).1.1 ≡ o.1)
      × ((exec (set_dns card) o).1.0 ≡ o.0)
unfolding exec
dns_works o = ground arith

abbrev shell : Netsh Windows card address
shell = record {
  exec = exec;
  has_address = λ o. o.0;
  has_route = λ o. o.1;
  delete_works = delete_works;
  missing = λ o. missing;
  delete_fails = delete_fails;
  set_works = set_works;
  add_works = add_works;
  exists = λ o. exists;
  exists_said = λ o. exists_said;
  add_fails = add_fails;
  dns_works = dns_works;
}

named : card ≢ []
named e = cc

given : address ≢ []
given e = cc

valid : is_ip address ≡ true
unfolding is_ip
valid = refl

configure_again_example :
    Configured shell (false, true) (configure exec windows card address (false, true))
configure_again_example = configure_again shell (false, true) named given valid

-- The shell with the answer that is recorded in tun_windows.go.
abbrev recorded : Str
recorded = codes "文件名、目录名或卷标语法不正确。"

unknown : is_benign_command_error (delete_address card address) recorded ≡ false
unfolding is_benign_command_error lower contains_text
unknown = refl

-- A route command without administrator rights is no harmless failure.
denied : is_benign_command_error (add_route card address) (codes "Access is denied.") ≡ false
unfolding is_benign_command_error lower contains_text
denied = refl
