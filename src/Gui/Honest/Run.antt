-- ===== src/Gui/Honest/Run.antt =====
-- internal/gui: what the application shows after any events.
use sulink_lan.Base.{
  ℕ, ◌≡◌, ◌≢◌, inl, inr, refl, sym, ap, ◌∙◌, List, [], ◌∷◌, Option, none, some, Str, arith,
  option_cases, if_cases, true, false, not,
}
use sulink_lan.Base.Eq.{nat_eq}
use sulink_lan.Base.Map.{Map, lookup, delete, lookup-delete, lookup-empty}
use sulink_lan.Config.{Json, Folder}
use sulink_lan.Gui.{
  App, Status, disconnected, connecting, connected, error, Phase, polling, closing, cleared, left,
  Worker, new_app, run_failed, not_connected, closed_note,
}
use sulink_lan.Gui.Work.{
  Event, save, auto_start, start, disconnects, clears, credential, tick, run_returns, sees_stop,
  sees_done, leaves, step, run, by_worker, on_credential, on_return, on_stop, on_done, on_leave,
  on_tick, put_worker, drop_worker, is_stopped, is_current,
}
use sulink_lan.Gui.Honest.{
  IsHonest, log_event-IsHonest, set_status-IsHonest, put_worker-IsHonest, save_config-IsHonest,
  set_auto_start-IsHonest, connect-IsHonest, disconnect-IsHonest, clear_logs-IsHonest,
  store-IsHonest,
}
use sulink_lan.Gui.Honest.{Own, has_cli, Own-insert}
use sulink_lan.Gui.Honest.Tick.{on_tick-IsHonest}

phase_cases :
    (P : App → Type 0) (p : Phase) {x y z u : App}
    → (p ≡ polling → P x)
    → (p ≡ closing → P y)
    → (p ≡ cleared → P z)
    → (p ≡ left → P u)
    → P (elim p [ polling ↦ x | closing ↦ y | cleared ↦ z | left ↦ u ])
phase_cases P polling f g h k = f refl
phase_cases P closing f g h k = g refl
phase_cases P cleared f g h k = h refl
phase_cases P left f g h k = k refl

status_cases :
    (P : App → Type 0) (s : Status) {x y z u : App}
    → (s ≡ disconnected → P x)
    → (s ≡ connecting → P y)
    → (s ≡ connected → P z)
    → (s ≡ error → P u)
    → P (elim s [ disconnected ↦ x | connecting ↦ y | connected ↦ z | error ↦ u ])
status_cases P disconnected f g h k = f refl
status_cases P connecting f g h k = g refl
status_cases P connected f g h k = h refl
status_cases P error f g h k = k refl

on_return-IsHonest :
    (now n : ℕ) (failure : Option Str) (w : Worker) (a : App)
    → IsHonest a
    → lookup n a.workers ≡ some w
    → IsHonest (on_return now n failure w a)
unfolding on_return put_worker
on_return-IsHonest now n failure w a x there =
    let w' = record w { is_done = true } in
    let y =
      put_worker-IsHonest n w' a x.logs
        (Own-insert n w' a.workers a.cli a.cli x.owns (inl refl) (x.owns n w there)) in
    if_cases IsHonest w.is_done (λ _. x)
      λ _.
        option_cases IsHonest failure (λ _. y)
          λ e _. log_event-IsHonest now _ _ (
            set_status-IsHonest error (run_failed e) (put_worker n w' a) (λ e. ground (arith, e))
              y.logs y.owns)

on_stop-IsHonest :
    (n : ℕ) (w : Worker) (a : App)
    → IsHonest a
    → lookup n a.workers ≡ some w
    → IsHonest (on_stop n w a)
unfolding on_stop put_worker
on_stop-IsHonest n w a x there =
    phase_cases IsHonest w.phase
      (λ p.
        if_cases IsHonest (is_stopped (lookup n a.stopped))
          (λ _.
            let w' = record w { phase = closing } in
            put_worker-IsHonest n w' (record a { npc = none }) x.logs
              (Own-insert n w' a.workers a.cli a.cli x.owns (inl refl)
                (λ _. x.owns n w there (ap has_cli p))))
          λ _. x)
      (λ _. x) (λ _. x) λ _. x

-- A goroutine clears `cli`.
cleared_cli :
    (n : ℕ) (w w' : Worker) (a : App)
    → IsHonest a
    → lookup n a.workers ≡ some w
    → has_cli w.phase ≡ true
    → has_cli w'.phase ≡ false
    → IsHonest (put_worker n w' (record a { cli = none }))
unfolding put_worker
cleared_cli n w w' a x there had hasnt =
    put_worker-IsHonest n w' (record a { cli = none }) x.logs
      (Own-insert n w' a.workers a.cli none x.owns (inr (inr (x.owns n w there had)))
        (λ e. absurd (ground (arith, hasnt, e))))

foreign : (n : ℕ) {o : Option ℕ} → o ≡ some n → is_current n o ≡ false → ⊥
unfolding is_current
foreign n e other = ground (arith, e, other)

on_done-IsHonest :
    (now n : ℕ) (w : Worker) (a : App)
    → IsHonest a
    → lookup n a.workers ≡ some w
    → IsHonest (on_done now n w a)
unfolding on_done
on_done-IsHonest now n w a x there =
    let b = record a { npc = none } in
    let y : IsHonest b = record { logs = x.logs; served = x.served; owns = x.owns } in
    if_cases IsHonest (not w.is_done) (λ _. x)
      λ _.
        phase_cases IsHonest w.phase
          (λ p.
            if_cases IsHonest (is_current n a.cli)
              (λ _. cleared_cli n w (record w { phase = left }) b y there (ap has_cli p) refl)
              λ other. absurd (foreign n (x.owns n w there (ap has_cli p)) other))
          (λ p. cleared_cli n w (record w { phase = cleared }) a x there (ap has_cli p) refl)
          (λ _. x) λ _. x

-- A goroutine ends: the application is not shown as connected then.
Own-delete :
    (n : ℕ) (workers : Map ℕ Worker) (cli : Option ℕ) → Own workers cli → Own (delete n workers) cli
Own-delete n workers cli own m u there has =
    ground (arith, own m u, there, has, lookup-delete m n workers)

on_leave-IsHonest : (now n : ℕ) (w : Worker) (a : App) → IsHonest a → IsHonest (on_leave now n w a)
unfolding on_leave drop_worker
on_leave-IsHonest now n w a x =
    let own = Own-delete n a.workers a.cli x.owns in
    let off : disconnected ≢ connected = λ e. ground (arith, e) in
    let gone = set_status-IsHonest disconnected not_connected (drop_worker n a) off x.logs own in
    phase_cases IsHonest w.phase (λ _. x) (λ _. x) (λ _. log_event-IsHonest now closed_note _ gone)
      λ _.
        status_cases IsHonest a.state.status (λ e. quiet (λ c. off (sym e ∙ c))) (λ _. gone)
          (λ _. gone) λ e. quiet (λ c. wrong (sym e ∙ c))
  where
    wrong : error ≢ connected
    wrong e = ground (arith, e)

    quiet : a.state.status ≢ connected → IsHonest (drop_worker n a)
    quiet ne = record {
      logs = x.logs;
      served = λ e. absurd (ne e);
      owns = Own-delete n a.workers a.cli x.owns;
    }

module _ (j : Json) where
  by_worker-IsHonest :
      (n : ℕ) (f : Worker → App → App) (a : App)
      → IsHonest a
      → ((w : Worker) → lookup n a.workers ≡ some w → IsHonest (f w a))
      → IsHonest (by_worker n f a)
  unfolding by_worker
  by_worker-IsHonest n f a x h = option_cases IsHonest (lookup n a.workers) (λ _. x) h

  step-IsHonest : (e : ℕ × Event) (a : App) → IsHonest a → IsHonest (step j e a)
  unfolding step on_credential
  step-IsHonest (now, save w payload) a x = save_config-IsHonest j now w payload a x
  step-IsHonest (now, auto_start w registered on) a x =
      set_auto_start-IsHonest j now w registered on a x
  step-IsHonest (now, start) a x = connect-IsHonest now a x
  step-IsHonest (now, disconnects) a x = disconnect-IsHonest a x
  step-IsHonest (now, clears) a x = clear_logs-IsHonest a x
  step-IsHonest (now, credential n w (id, key, net)) a x =
      by_worker-IsHonest n (λ _. on_credential j w (id, key, net)) a x
        λ _ _.
          store-IsHonest j w (record a.cfg { device_id = id; device_key = key; network_key = net })
            a x
  step-IsHonest (now, tick n seen) a x =
      by_worker-IsHonest n (on_tick now n seen) a x
        λ w there. on_tick-IsHonest now n seen w a x there
  step-IsHonest (now, run_returns n failure) a x =
      by_worker-IsHonest n (on_return now n failure) a x
        λ w there. on_return-IsHonest now n failure w a x there
  step-IsHonest (now, sees_stop n) a x =
      by_worker-IsHonest n (on_stop n) a x λ w there. on_stop-IsHonest n w a x there
  step-IsHonest (now, sees_done n) a x =
      by_worker-IsHonest n (on_done now n) a x λ w there. on_done-IsHonest now n w a x there
  step-IsHonest (now, leaves n) a x =
      by_worker-IsHonest n (on_leave now n) a x λ w _. on_leave-IsHonest now n w a x

  from-IsHonest : (es : List (ℕ × Event)) (a : App) → IsHonest a → IsHonest (run j es a)
  unfolding run
  from-IsHonest [] a x = x
  from-IsHonest (e ∷ es) a x = from-IsHonest es (step j e a) (step-IsHonest e a x)

  new_app-IsHonest : (host : Str) (f : Folder) → IsHonest (new_app j host f)
  unfolding new_app
  new_app-IsHonest host f = record {
    logs = omega arith;
    served = λ e. ground (arith, e);
    owns = λ n w there. ground (arith, there, lookup-empty {V = Worker} n);
  }

  -- After any events of an application that has started, in any order: the log has at most 100 lines, the
  -- application is shown as connected only while a goroutine of a client runs, and a goroutine
  -- that has not cleared `cli` finds its own client there.
  pub run-IsHonest :
      (host : Str) (f : Folder) (es : List (ℕ × Event)) → IsHonest (run j es (new_app j host f))
  run-IsHonest host f es = from-IsHonest es (new_app j host f) (new_app-IsHonest host f)
