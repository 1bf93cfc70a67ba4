-- ===== src/Server/Devices/Tests.antt =====
-- Runs of the device table of internal/server/devices.go at concrete inputs.
use sulink_lan.Base.{
  ℕ, ◌+◌, ◌*◌, false, ◌≡◌, ◌≢◌, refl, true, false, All, List, [], ◌∷◌, none, ok, Str, codes, arith,
}
use sulink_lan.Base.Eq.{◌==ₛ◌, ==ₛ_iff}
use sulink_lan.Base.Map.{lookup, insert, delete}
use sulink_lan.Server.Pool.{
  vnet_pool, alloc, alloc_loop, alloc_at, held, in_range, take_ip, release,
}
use sulink_lan.Server.Pool.Laws.{new_pool_lem}
use sulink_lan.Server.Devices.{
  DeviceTable, DeviceFile, DeviceJson, Disk, Leases, lease_duration, rec_of, set_credential,
  credential, block, unblock, save_locked, to_file, device_key_by_id, is_blocked,
}
use sulink_lan.Server.Devices.Leasing.{assign}
use sulink_lan.Server.Devices.Runs.{
  Call, assigns, blocks, fresh, run, step, fresh-IsValid, run-IsValid, IsValid, step-IsValid,
  run_vip_unique,
}
use sulink_lan.Server.Devices.Terms.{Holds, run-Holds}
use sulink_lan.Server.Devices.File.{loaded, new_device_table, load_all, empty_table}
use sulink_lan.Server.Devices.Invariant.{IdIndex}
use sulink_lan.Server.Devices.Invariant.Ids.{set_credential-IdIndex}
use sulink_lan.Server.Devices.Promises.{assign_renews, block-unblock}
use sulink_lan.Server.Devices.Restart.{restart_shares}
use sulink_lan.Base.Sort.{sort_slice, str_ltb}
use sulink_lan.Base.Net.{ip4_text, parse_ip4}
use sulink_lan.Base.Text.{decimal}

program : Unit {0}
unfolding alloc alloc_loop alloc_at held in_range take_ip release assign fresh run step
    set_credential credential block unblock lookup insert delete ◌==ₛ◌ rec_of save_locked to_file
    load_all empty_table sort_slice str_ltb ip4_text parse_ip4 decimal device_key_by_id
program = tt

abbrev disk : Disk
disk = record { file = none; writable = true }

abbrev first : Str
first = codes "a1"

abbrev second : Str
second = codes "b2"

abbrev day : ℕ
day = 86_400_000_000_000

abbrev history : List Call
history = assigns first (codes "pc") day ∷ assigns second (codes "laptop") (day + 5) ∷ []

abbrev two : Leases
two = run history (fresh [] disk)

two_vips : ((rec_of two.table first).vip ≡ 167772162) × ((rec_of two.table second).vip ≡ 167772163)
unfolding program
two_vips = (refl, refl)

two-IsValid : IsValid two
two-IsValid = run-IsValid history (fresh-IsValid [] disk)

abbrev at_three : ℕ
at_three = 167772162

-- A day later the first device asks again, a third one comes, and the second one is blocked.
abbrev later : List Call
later =
    assigns first (codes "pc") (2 * day)
    ∷ assigns (codes "c3") (codes "nas") (3 * day)
    ∷ blocks second
    ∷ []

two-Holds : Holds first at_three (32 * day) two.table
unfolding program
two-Holds = record { vip = refl; lasts = omega arith }

run-Holds_example : Holds first at_three (32 * day) (run later two).table
run-Holds_example =
    run-Holds later first at_three (32 * day) two-IsValid (omega arith) (omega arith) two-Holds

run_vip_unique_example :
    (first ≡ first)
    × (held
          (run history (fresh [] disk)).pool
          (rec_of (run history (fresh [] disk)).table first).vip
        ≡ true)
    × (in_range
          (run history (fresh [] disk)).pool
          (rec_of (run history (fresh [] disk)).table first).vip
        ≡ true)
unfolding program
run_vip_unique_example = run_vip_unique [] disk history first first (omega arith) refl

step-IsValid_example : IsValid (step (blocks second) two)
step-IsValid_example = step-IsValid (blocks second) two-IsValid

assign_renews_example :
    ((assign first (codes "pc") (2 * day) two).0
      ≡ ok ((rec_of two.table first).vip, 2 * day + lease_duration))
    × ((rec_of (assign first (codes "pc") (2 * day) two).1.table first).vip
        ≡ (rec_of two.table first).vip)
    × ((rec_of (assign first (codes "pc") (2 * day) two).1.table first).expire_at
        ≡ 2 * day + lease_duration)
unfolding program
assign_renews_example =
    assign_renews first (codes "pc") (2 * day) two two-IsValid.vips (omega arith) (omega arith)

abbrev registered : DeviceTable
registered = (set_credential two.table first [] (codes "ID") (codes "KEY")).1

registered-IdIndex : IdIndex registered
registered-IdIndex =
    set_credential-IdIndex two.table first [] (codes "ID") (codes "KEY") two-IsValid.ids

first_named : first ≢ []
first_named = λ e. cc

block-unblock_example :
    ((is_blocked (block registered first).0 first ≡ true)
      × (credential (block registered first).0 first ≡ none)
      × (device_key_by_id (block registered first).0 (rec_of registered first).device_id ≡ []))
    × (is_blocked (unblock (block registered first).0 first).0 first ≡ false)
    × (credential (unblock (block registered first).0 first).0 first ≡ none)
    × (device_key_by_id
          (unblock (block registered first).0 first).0
          (rec_of registered first).device_id
        ≡ [])
block-unblock_example = block-unblock registered first registered-IdIndex first_named

-- What the server has written, and reads back after a restart.
abbrev saved_file : DeviceFile
saved_file = to_file two.table

abbrev kept : DeviceJson
kept = record {
  hwid = first;
  name = codes "pc";
  vip = codes "10.0.0.2";
  expire_at = day + lease_duration;
  forward = [];
  device_id = [];
  device_key = [];
  blocked = false;
}

abbrev kept_too : DeviceJson
kept_too = record kept {
  hwid = second;
  name = codes "laptop";
  vip = codes "10.0.0.3";
  expire_at = day + 5 + lease_duration;
}

abbrev third : Str
third = codes "c3"

abbrev path : Str
path = codes "devices.json"

listed : saved_file.devices ≡ kept ∷ kept_too ∷ []
unfolding program
listed = refl

differ : (a b : Str) → (a ==ₛ b) ≡ false → a ≢ b
differ a b e = ground (arith, ==ₛ_iff a b, e)

apart : ((second ==ₛ first) ≡ false) × ((first ==ₛ third) ≡ false) × ((second ==ₛ third) ≡ false)
unfolding program
apart = (refl, refl, refl)

fresh_third : All (λ e. e.hwid ≢ third) saved_file.devices
fresh_third = rw listed (differ first third apart.1, (differ second third apart.2, tt))

restart_shares_example :
    let t = new_device_table path disk (loaded saved_file) in
    let u = (assign third [] (2 * day) (record { table = t; pool = vnet_pool })).1.table in
    ((rec_of u third).vip ≡ (rec_of u first).vip)
    × ((rec_of u first).vip ≡ (rec_of t first).vip)
    × ((rec_of t first).vip ≡ vnet_pool.start)
restart_shares_example =
    restart_shares path disk saved_file [] (kept_too ∷ []) kept third [] (2 * day) (λ e. cc e)
      listed (λ e. cc e) refl (omega arith) (differ second first apart.0, tt) fresh_third
      new_pool_lem
