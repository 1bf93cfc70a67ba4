-- ===== src/Config/Tests.antt =====
-- Saving, loading and addresses of internal/config/config.go at concrete inputs.
use sulink_lan.Base.{◌≡◌, ◌≢◌, ◌⊎◌, refl, false, [], none, some, Str, codes, ◌==ₛ◌}
use sulink_lan.Base.Text.{trim_space, contains}
use sulink_lan.Base.Net.{split_host_port}
use sulink_lan.Config.{
  renamed, default_config, default_server_port, over_field, fill_server, load, save, validate,
  normalize_server_addr,
}
use sulink_lan.Config.Samples.{mine, json, folder, read_config-write_config}
use sulink_lan.Config.Laws.{load-save, server_addr-normalize_server_addr}
use sulink_lan.Client.Session.Connect.{server_addr}

loads_saved : load json [] (save json renamed mine folder).1 ≡ (mine, none)
unfolding load save fill_server trim_space ◌==ₛ◌ over_field
loads_saved = refl

first_run : load json (codes "pc") folder ≡ (default_config (codes "pc"), none)
unfolding load
first_run = refl

-- The server that `Validate` fills in is lost.
blank_server : (validate (record mine { server = [] })) ≡ none
unfolding validate trim_space ◌==ₛ◌
blank_server = refl

-- An IPv6 address without a port is left as it is.
ipv6_kept : normalize_server_addr (codes "::1") ≡ codes "::1"
unfolding normalize_server_addr trim_space ◌==ₛ◌ contains
ipv6_kept = refl

abbrev typed : Str
typed = codes " 1.2.3.4 "

trimmed : trim_space typed ≡ codes "1.2.3.4"
unfolding trim_space
trimmed = refl

given : trim_space typed ≢ []
given e = cc trimmed

no_mark :
    (contains b':' (trim_space typed) ≡ false)
    × (contains b'[' (trim_space typed) ≡ false)
    × (contains b']' (trim_space typed) ≡ false)
unfolding contains trim_space
no_mark = (refl, refl, refl)

server_addr-normalize_server_addr_example :
    (split_host_port (normalize_server_addr typed) ≡ some (trim_space typed, default_server_port))
    × (server_addr (trim_space typed) ≡ normalize_server_addr typed)
    × (server_addr (normalize_server_addr typed) ≡ normalize_server_addr typed)
server_addr-normalize_server_addr_example =
    server_addr-normalize_server_addr typed given no_mark.0 no_mark.1 no_mark.2

load-save_example :
    (((save json renamed mine folder).0 ≡ none)
      × (load json [] (save json renamed mine folder).1 ≡ (fill_server mine, none)))
    ⊎ (((save json renamed mine folder).0 ≢ none)
        × (load json [] (save json renamed mine folder).1 ≡ load json [] folder))
load-save_example = load-save json [] renamed mine folder read_config-write_config refl
