-- ===== src/Gui/Tests.antt =====
-- Saving, connecting and disconnecting in internal/gui at concrete inputs.
use sulink_lan.Base.{ℕ, ◌≡◌, ◌≢◌, refl, List, [], ◌∷◌, none, some, codes, arith, ◌==ₛ◌}
use sulink_lan.Base.Eq.{nat_eq}
use sulink_lan.Base.Map.{lookup, insert, delete}
use sulink_lan.Base.Text.{trim_space, contains, split_last, atoi}
use sulink_lan.Base.Net.{split_host_port}
use sulink_lan.Config.{over_field, renamed, save, load, validate, normalize_server_addr}
use sulink_lan.Config.Samples.{mine, json, folder, write_config, read_config-write_config}
use sulink_lan.Gui.{
  App, done, connecting, disconnecting, new_app, save_config, disconnect, connect, validate_partial,
  store, log_event, set_status, with_status, client_config,
}
use sulink_lan.Gui.Work.{
  Event, start, run_returns, sees_done, sees_stop, leaves, disconnects, step, run, by_worker,
  on_return, on_done, on_leave, put_worker, drop_worker, is_current,
}
use sulink_lan.Gui.Saving.{HasNoCredential, IsForgotten, save_config_forgets}
use sulink_lan.Gui.Stuck.{disconnect_sticks}
use sulink_lan.Gui.Honest.{IsHonest}
use sulink_lan.Gui.Honest.Run.{run-IsHonest}

program : Unit {0}
unfolding over_field split_last atoi new_app save_config validate_partial store log_event set_status
    with_status connect client_config validate load save trim_space contains normalize_server_addr
    split_host_port ◌==ₛ◌ insert lookup delete step run by_worker on_return on_done on_leave
    put_worker drop_worker is_current disconnect
program = tt

abbrev home : App
home = new_app json (codes "pc") folder

-- A device with a credential.
abbrev enrolled : App
enrolled = record home {
  cfg = record mine { device_id = codes "ID"; device_key = codes "K"; network_key = codes "N" };
}

mine_bare : HasNoCredential mine
mine_bare = record { id = refl; key = refl; network = refl }

form_saved : (save_config json 5 renamed (write_config mine) enrolled).0 ≡ done
unfolding program
form_saved = refl

connects : (connect 6 (save_config json 5 renamed (write_config mine) enrolled).1).0 ≡ done
unfolding program
connects = refl

save_config_forgets_example :
    IsForgotten json (codes "pc") 6 (save_config json 5 renamed (write_config mine) enrolled).1
unfolding program
save_config_forgets_example =
    save_config_forgets json 5 6 renamed (write_config mine) mine (codes "pc") enrolled
      read_config-write_config refl refl refl mine_bare form_saved connects

-- `Run` returns with an error.
abbrev failure : List (ℕ × Event)
failure =
    (1, start)
    ∷ (2, run_returns 0 (some (codes "auth failed")))
    ∷ (3, sees_done 0)
    ∷ (4, leaves 0)
    ∷ []

nobody_left : (n : ℕ) → lookup n (run json failure home).workers ≡ none
unfolding program
nobody_left n = refl

stop_left : (run json failure home).stop ≢ none
unfolding program
stop_left e = ground (arith, e)

abbrev afterwards : List (ℕ × Event)
afterwards = (7, disconnects) ∷ (8, sees_stop 0) ∷ []

disconnect_sticks_example :
    ((run json afterwards (disconnect (run json failure home))).state.status ≡ connecting)
    × ((run json afterwards (disconnect (run json failure home))).state.message ≡ disconnecting)
disconnect_sticks_example =
    disconnect_sticks json afterwards (run json failure home) nobody_left stop_left
      (refl, (refl, tt))

run-IsHonest_example : IsHonest (run json failure (new_app json (codes "pc") folder))
run-IsHonest_example = run-IsHonest json (codes "pc") folder failure
