-- ===== src/Gui/Stuck.antt =====
-- internal/gui/bridge.go: `Disconnect` when no session runs.
use sulink_lan.Base.{
  ℕ, ◌≡◌, ◌≢◌, refl, List, [], ◌∷◌, Option, none, some, arith, Bool, true, false, All, option_cases,
  if_cases,
}
use sulink_lan.Base.Eq.{nat_eq}
use sulink_lan.Base.Map.{lookup}
use sulink_lan.Base.Bytes.{Bytes}
use sulink_lan.Config.{Json, Writing, ConfigError, Config}
use sulink_lan.Gui.{
  App, connecting, disconnecting, Reply, Worker, Note, disconnect, set_status, with_status,
  save_config, saved, store, set_auto_start, log_event, clear_logs, keep_name, validate_partial,
  no_config, saved_note, auto_start_note,
}
use sulink_lan.Gui.Work.{
  Event, save, auto_start, start, disconnects, clears, credential, tick, run_returns, sees_stop,
  sees_done, leaves, step, run, by_worker, on_credential, on_tick, on_return, on_stop, on_done,
  on_leave,
}

-- No goroutine runs, and the page shows that it disconnects.
pub record IsStuck (a : App) : Type 0 where
  pub status : a.state.status ≡ connecting
  pub message : a.state.message ≡ disconnecting
  pub nobody : (n : ℕ) → lookup n a.workers ≡ none
  pub stop : a.stop ≢ none

-- The button that connects.
abbrev pub is_start : ℕ × Event → Bool
is_start (now, start) = true
is_start _ = false

saved-IsStuck :
    (now : ℕ) (note : Note) (r : Option ConfigError × App)
    → IsStuck r.1
    → IsStuck (saved now note r).1
unfolding saved log_event
saved-IsStuck now note (some e, a) x = x
saved-IsStuck now note (none, a) x = record {
  status = x.status;
  message = x.message;
  nobody = x.nobody;
  stop = x.stop;
}

store-IsStuck :
    (j : Json) (w : Writing) (c : Config) (a : App) → IsStuck a → IsStuck (store j w c a).1
unfolding store
store-IsStuck j w c a x = record {
  status = x.status;
  message = x.message;
  nobody = x.nobody;
  stop = x.stop;
}

save_config-IsStuck :
    (j : Json) (now : ℕ) (w : Writing) (payload : Bytes) (a : App)
    → IsStuck a
    → IsStuck (save_config j now w payload a).1
unfolding save_config
save_config-IsStuck j now w payload a x =
    let P : Reply × App → Type 0 = λ r. IsStuck r.1 in
    option_cases P (j.unmarshal payload no_config) (λ _. x)
      λ form _.
        option_cases P (validate_partial (keep_name a.cfg form))
          (λ _. saved-IsStuck now saved_note _ (store-IsStuck j w (keep_name a.cfg form) a x))
          λ _ _. x

set_auto_start-IsStuck :
    (j : Json) (now : ℕ) (w : Writing) (registered on : Bool) (a : App)
    → IsStuck a
    → IsStuck (set_auto_start j now w registered on a).1
unfolding set_auto_start
set_auto_start-IsStuck j now w registered on a x =
    let c = record a.cfg { auto_start = on } in
    if_cases (λ (r : Reply × App). IsStuck r.1) registered
      (λ _. saved-IsStuck now (auto_start_note on) (store j w c a) (store-IsStuck j w c a x)) λ _. x

-- It does not matter whether it is pressed again.
disconnect-IsStuck :
    (a : App) → ((n : ℕ) → lookup n a.workers ≡ none) → a.stop ≢ none → IsStuck (disconnect a)
unfolding disconnect set_status with_status
disconnect-IsStuck a nobody stop =
    option_cases IsStuck a.stop (λ off. absurd (stop off))
      λ n _. record { status = refl; message = refl; nobody = nobody; stop = stop }

by_nobody : (n : ℕ) (f : Worker → App → App) (a : App) → IsStuck a → IsStuck (by_worker n f a)
unfolding by_worker
by_nobody n f a x =
    option_cases IsStuck (lookup n a.workers) (λ _. x)
      λ w there. absurd (ground (arith, there, x.nobody n))

step-IsStuck :
    (j : Json) (e : ℕ × Event) (a : App) → is_start e ≡ false → IsStuck a → IsStuck (step j e a)
unfolding step clear_logs
step-IsStuck j (now, save w payload) a ne x = save_config-IsStuck j now w payload a x
step-IsStuck j (now, auto_start w registered on) a ne x =
    set_auto_start-IsStuck j now w registered on a x
step-IsStuck j (now, start) a ne x = absurd (ground (arith, ne))
step-IsStuck j (now, disconnects) a ne x = disconnect-IsStuck a x.nobody x.stop
step-IsStuck j (now, clears) a ne x = record {
  status = x.status;
  message = x.message;
  nobody = x.nobody;
  stop = x.stop;
}
step-IsStuck j (now, credential n w c) a ne x = by_nobody n (λ _. on_credential j w c) a x
step-IsStuck j (now, tick n seen) a ne x = by_nobody n (on_tick now n seen) a x
step-IsStuck j (now, run_returns n failure) a ne x = by_nobody n (on_return now n failure) a x
step-IsStuck j (now, sees_stop n) a ne x = by_nobody n (on_stop n) a x
step-IsStuck j (now, sees_done n) a ne x = by_nobody n (on_done now n) a x
step-IsStuck j (now, leaves n) a ne x = by_nobody n (on_leave now n) a x

run-IsStuck :
    (j : Json) (es : List (ℕ × Event)) (a : App)
    → All (λ e. is_start e ≡ false) es
    → IsStuck a
    → IsStuck (run j es a)
unfolding run
run-IsStuck j [] a h x = x
run-IsStuck j (e ∷ es) a h x = run-IsStuck j es (step j e a) h.1 (step-IsStuck j e a h.0 x)

-- When no session runs but one has run before, `Disconnect` shows the page as disconnecting, and this stays
-- so through any events until `Connect` is called.
pub disconnect_sticks :
    (j : Json) (es : List (ℕ × Event)) (a : App)
    → ((n : ℕ) → lookup n a.workers ≡ none)
    → a.stop ≢ none
    → All (λ e. is_start e ≡ false) es
    → let b = run j es (disconnect a) in
      (b.state.status ≡ connecting) × (b.state.message ≡ disconnecting)
disconnect_sticks j es a nobody stop h =
    let x = run-IsStuck j es (disconnect a) h (disconnect-IsStuck a nobody stop) in
    (x.status, x.message)
