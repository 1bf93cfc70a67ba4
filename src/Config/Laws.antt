-- ===== src/Config/Laws.antt =====
-- internal/config/config.go: the file of the configuration, and the server's address.
use sulink_lan.Base.{◌≡◌, ◌≢◌, ◌⊎◌, refl, true, false, [], ◌∷◌, ◌++◌, none, some, Str, arith}
use sulink_lan.Base.Eq.{==ₛ_iff}
use sulink_lan.Base.Text.{trim_space, contains}
use sulink_lan.Base.Net.{split_host_port}
use sulink_lan.Base.Net.Join.{split_host_port-join_host_port}
use sulink_lan.Config.{
  Config, Json, Folder, Writing, stops, not_renamed, renamed, default_config, default_server_port,
  fill_server, over_field, read_over, load, save, normalize_server_addr,
}
use sulink_lan.Client.Session.Connect.{server_addr}

over_nothing : (s : Str) → over_field s [] ≡ s
unfolding over_field
over_nothing [] = refl
over_nothing (c ∷ s) = refl

-- Over a configuration without a credential, a text gives the whole configuration back.
read_over_bare :
    (c d : Config) → d.device_id ≡ [] → d.device_key ≡ [] → d.network_key ≡ [] → read_over c d ≡ c
unfolding read_over
read_over_bare c d id key net =
    grind (arith, over_nothing c.device_id, over_nothing c.device_key, over_nothing c.network_key)

pub read_over_default : (c : Config) (host : Str) → read_over c (default_config host) ≡ c
unfolding default_config
read_over_default c host = read_over_bare c (default_config host) refl refl refl

-- A call of `Save` either succeeds, and then `Load` gives the saved configuration back, with the default
-- server if it names none; or it fails, and then `Load` gives what it gave before, wherever `Save` stopped.
-- The file can be read, and encoding/json reads what it wrote, where a
-- credential field that was empty leaves the one that it is read over.
pub load-save :
    (j : Json) (host : Str) (w : Writing) (c : Config) (f : Folder)
    → ((a b : Config) → j.unmarshal (j.marshal a) b ≡ some (read_over a b))
    → f.readable ≡ true
    → let (failed, g) = save j w c f in
      ((failed ≡ none) × (load j host g ≡ (fill_server c, none)))
      ⊎ ((failed ≢ none) × (load j host g ≡ load j host f))
unfolding load save
load-save j host (stops bytes) c f law ok' = grind arith
load-save j host not_renamed c f law ok' = grind arith
load-save j host renamed c f law ok' =
    grind (arith, law c (default_config host), read_over_default c host)

join_contains : (host port : Str) → contains b':' (host ++ b':' ∷ port) ≡ true
unfolding contains
join_contains [] port = refl
join_contains (c ∷ host) port = ground (arith, join_contains host port)

-- A host without a port is given the port 9000, which `SplitHostPort` takes off again; the client's own
-- rule gives it the same port, and leaves the result alone.
pub server_addr-normalize_server_addr :
    (addr : Str)
    → trim_space addr ≢ []
    → contains b':' (trim_space addr) ≡ false
    → contains b'[' (trim_space addr) ≡ false
    → contains b']' (trim_space addr) ≡ false
    → let full = normalize_server_addr addr in
      (split_host_port full ≡ some (trim_space addr, default_server_port))
      × (server_addr (trim_space addr) ≡ full)
      × (server_addr full ≡ full)
unfolding normalize_server_addr server_addr contains
server_addr-normalize_server_addr addr ne a b c =
    let host = trim_space addr in
    grind (
      arith,
      ==ₛ_iff host [],
      split_host_port-join_host_port host default_server_port a b c refl refl refl,
      join_contains host default_server_port,
    )
