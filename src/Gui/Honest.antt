-- ===== src/Gui/Honest.antt =====
-- internal/gui: what the calls of the page leave in the application.
pub mod Run
pub mod Tick
use mathlib.Core.Path.{subst}
use sulink_lan.Base.{
  ℕ, ◌≡◌, ◌≢◌, ◌⊎◌, inl, inr, ◌≤◌, refl, sym, ◌∙◌, List, [], ◌∷◌, Option, none, some, Str, length,
  length-take, take, arith, option_cases, if_cases, if◌then◌else◌, Bool, true, false, not, ◌&&◌,
  ◌==◌, ◌==ₛ◌,
}
use sulink_lan.Base.Eq.{nat_eq}
use sulink_lan.Base.Map.{Map, lookup, insert, delete, lookup-insert, lookup-delete}
use sulink_lan.Base.Bytes.{Bytes}
use sulink_lan.Base.Net.{split_host_port}
use sulink_lan.Config.{Json, Folder, Writing, ConfigError, validate, normalize_server_addr}
use sulink_lan.Protocol.{ip4_string}
use sulink_lan.Gui.{
  App, State, Status, Message, Note, disconnected, connecting, connected, error, Phase, polling,
  closing, cleared, left, Worker, Reply, new_app, log_event, max_logs, set_status, with_status,
  save_config, set_auto_start, connect, disconnect, clear_logs, client_config, disconnecting,
  start_worker, start_state, store, saved, no_config, keep_name, validate_partial, saved_note,
  auto_start_note, online_note, no_text,
}
use sulink_lan.Gui.Work.{
  Event, step, run, Seen, by_worker, on_credential, on_return, on_stop, on_done, on_leave, on_tick,
  put_worker, drop_worker, sync_from_client, sync_notice, fetch_tunnels, go_online, is_connected,
  is_stopped, is_current, in_loop,
}

abbrev pub has_cli : Phase → Bool
has_cli polling = true
has_cli closing = true
has_cli _ = false

-- A goroutine that has not cleared `cli` has its client there.
abbrev pub Own : Map ℕ Worker → Option ℕ → Type 0
Own workers cli =
    (n : ℕ) (w : Worker) → lookup n workers ≡ some w → has_cli w.phase ≡ true → cli ≡ some n

-- The log is bounded, and the application is shown as connected only while there is a goroutine `runClient`.
pub record IsHonest (a : App) : Type 0 where
  pub logs : length a.state.logs ≤ 100
  pub served : a.state.status ≡ connected → ((n : ℕ) → lookup n a.workers ≡ none) → ⊥
  pub owns : Own a.workers a.cli

pub log_event-IsHonest :
    (now : ℕ) (note : Note) (a : App) → IsHonest a → IsHonest (log_event now note a)
unfolding log_event
log_event-IsHonest now note a x = record {
  logs = omega (arith, length-take max_logs ((now, note) ∷ a.state.logs));
  served = x.served;
  owns = x.owns;
}

-- A status other than connected is honest whatever runs.
pub set_status-IsHonest :
    (s : Status) (m : Message) (a : App)
    → s ≢ connected
    → length a.state.logs ≤ 100
    → Own a.workers a.cli
    → IsHonest (set_status s m a)
unfolding set_status with_status
set_status-IsHonest disconnected m a ne few own = record {
  logs = few;
  served = λ e. absurd (ne e);
  owns = own;
}
set_status-IsHonest connecting m a ne few own = record {
  logs = few;
  served = λ e. absurd (ne e);
  owns = own;
}
set_status-IsHonest connected m a ne few own = absurd (ne refl)
set_status-IsHonest error m a ne few own = record {
  logs = few;
  served = λ e. absurd (ne e);
  owns = own;
}

pub put_worker-IsHonest :
    (n : ℕ) (w : Worker) (a : App)
    → length a.state.logs ≤ 100
    → Own (put_worker n w a).workers a.cli
    → IsHonest (put_worker n w a)
unfolding put_worker
put_worker-IsHonest n w a few own = record {
  logs = few;
  served = λ _ gone. ground (arith, gone n, lookup-insert n n w a.workers);
  owns = own;
}

-- Only the goroutine that is changed may have its client there afterwards.
pub Own-insert :
    (n : ℕ) (w : Worker) (workers : Map ℕ Worker) (cli now : Option ℕ)
    → Own workers cli
    → (cli ≡ now ⊎ (cli ≡ none ⊎ cli ≡ some n))
    → (has_cli w.phase ≡ true → now ≡ some n)
    → Own (insert n w workers) now
Own-insert n w workers cli now own before mine m u there has =
    ground (arith, own m u, before, mine, there, has, lookup-insert m n w workers)

pub store-IsHonest :
    (j : Json) (w : Writing) (c : _) (a : App) → IsHonest a → IsHonest (store j w c a).1
unfolding store
store-IsHonest j w c a x = record { logs = x.logs; served = x.served; owns = x.owns }

saved-IsHonest :
    (now : ℕ) (note : Note) (r : Option ConfigError × App)
    → IsHonest r.1
    → IsHonest (saved now note r).1
unfolding saved
saved-IsHonest now note (some e, a) x = x
saved-IsHonest now note (none, a) x = log_event-IsHonest now note a x

pub save_config-IsHonest :
    (j : Json) (now : ℕ) (w : Writing) (payload : Bytes) (a : App)
    → IsHonest a
    → IsHonest (save_config j now w payload a).1
unfolding save_config
save_config-IsHonest j now w payload a x =
    let P : Reply × App → Type 0 = λ r. IsHonest r.1 in
    option_cases P (j.unmarshal payload no_config) (λ _. x)
      λ form _.
        option_cases P (validate_partial (keep_name a.cfg form))
          (λ _. saved-IsHonest now saved_note _ (store-IsHonest j w (keep_name a.cfg form) a x))
          λ _ _. x

pub set_auto_start-IsHonest :
    (j : Json) (now : ℕ) (w : Writing) (registered on : Bool) (a : App)
    → IsHonest a
    → IsHonest (set_auto_start j now w registered on a).1
unfolding set_auto_start
set_auto_start-IsHonest j now w registered on a x =
    if_cases (λ (r : Reply × App). IsHonest r.1) registered
      (λ _.
        saved-IsHonest now (auto_start_note on) (store j w (record a.cfg { auto_start = on }) a)
          (store-IsHonest j w (record a.cfg { auto_start = on }) a x))
      λ _. x

pub not_connected_yet : connecting ≢ connected
not_connected_yet e = ground (arith, e)

pub connect-IsHonest : (now : ℕ) (a : App) → IsHonest a → IsHonest (connect now a).1
unfolding connect start_worker
connect-IsHonest now a x =
    let P : Reply × App → Type 0 = λ r. IsHonest r.1 in
    option_cases P a.cli
      (λ off.
        option_cases P (validate a.cfg)
          (λ _. log_event-IsHonest now _ _ (record {
            logs = x.logs;
            served = λ e. absurd (not_connected_yet e);
            owns =
                Own-insert a.next
                  (record { settings = client_config a.cfg; phase = polling; is_done = false })
                  a.workers a.cli (some a.next) x.owns (inr (inl off)) (λ _. refl);
          }))
          λ e _.
            log_event-IsHonest now _ _
              (set_status-IsHonest error _ a (λ e. ground (arith, e)) x.logs x.owns))
      λ _ _. x

pub disconnect-IsHonest : (a : App) → IsHonest a → IsHonest (disconnect a)
unfolding disconnect
disconnect-IsHonest a x =
    option_cases IsHonest a.stop (λ _. x)
      λ n _.
        let y = set_status-IsHonest connecting disconnecting a not_connected_yet x.logs x.owns in
        record { logs = y.logs; served = y.served; owns = y.owns }

pub clear_logs-IsHonest : (a : App) → IsHonest a → IsHonest (clear_logs a)
unfolding clear_logs
clear_logs-IsHonest a x = record { logs = omega arith; served = x.served; owns = x.owns }
