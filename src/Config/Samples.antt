-- ===== src/Config/Samples.antt =====
-- A configuration, and a text for configurations with its law, for the tests.
use sulink_lan.Base.{
  ℕ, Bool, ◌==◌, ◌++◌, Option, length, take, drop, if◌then◌else◌, arith, ◌≡◌, refl, true, false, [],
  ◌∷◌, none, some, codes,
}
use sulink_lan.Base.Bytes.{Bytes, take-append, drop-append}
use sulink_lan.Config.{Config, Json, Folder, over_field, read_over}

abbrev pub mine : Config
mine = record {
  server = codes "1.2.3.4";
  name = codes "laptop";
  no_punch = true;
  auto_connect = false;
  auto_start = false;
  device_id = [];
  device_key = [];
  network_key = [];
}

abbrev bit : Bool → ℕ
bit b = if b then 1 else 0

abbrev pub write_config : Config → Bytes
write_config c =
    bit c.no_punch
      ∷ bit c.auto_connect
      ∷ bit c.auto_start
      ∷ length c.server
      ∷ length c.name
      ∷ length c.device_id
      ∷ length c.device_key
      ∷ c.server
    ++ (c.name ++ (c.device_id ++ (c.device_key ++ c.network_key)))

abbrev pub read_config : Bytes → Config → Option Config
read_config (p ∷ q ∷ r ∷ i ∷ j ∷ k ∷ l ∷ s) d = some (record {
  server = take i s;
  name = take j (drop i s);
  no_punch = p == 1;
  auto_connect = q == 1;
  auto_start = r == 1;
  device_id = over_field (take k (drop j (drop i s))) d.device_id;
  device_key = over_field (take l (drop k (drop j (drop i s)))) d.device_key;
  network_key = over_field (drop l (drop k (drop j (drop i s)))) d.network_key;
})
read_config _ d = none

pub read_config-write_config :
    (c d : Config) → read_config (write_config c) d ≡ some (read_over c d)
unfolding read_over
read_config-write_config c d =
    let s4 = c.device_key ++ c.network_key in
    let s3 = c.device_id ++ s4 in
    let s2 = c.name ++ s3 in
    grind (
      arith,
      take-append c.server s2 (length c.server) refl,
      drop-append c.server s2 (length c.server) refl,
      take-append c.name s3 (length c.name) refl,
      drop-append c.name s3 (length c.name) refl,
      take-append c.device_id s4 (length c.device_id) refl,
      drop-append c.device_id s4 (length c.device_id) refl,
      take-append c.device_key c.network_key (length c.device_key) refl,
      drop-append c.device_key c.network_key (length c.device_key) refl,
    )

abbrev pub json : Json
json = record { marshal = write_config; unmarshal = read_config }

abbrev pub folder : Folder
folder = record { has_dir = true; readable = true; config = none; tmp = none }
