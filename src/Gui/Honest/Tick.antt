-- ===== src/Gui/Honest/Tick.antt =====
-- internal/gui/bridge.go: `syncFromClient`, of a goroutine that is there.
use sulink_lan.Base.{ℕ, ◌≡◌, [], some, Str, arith, option_cases, if_cases, not, ◌&&◌, ◌==◌, ◌==ₛ◌}
use sulink_lan.Base.Eq.{nat_eq}
use sulink_lan.Base.Map.{lookup}
use sulink_lan.Base.Net.{split_host_port}
use sulink_lan.Config.{normalize_server_addr}
use sulink_lan.Protocol.{ip4_string}
use sulink_lan.Gui.{
  App, Message, Note, connected, Worker, log_event, set_status, with_status, online_note, no_text,
}
use sulink_lan.Gui.Work.{
  Seen, on_tick, sync_from_client, sync_notice, fetch_tunnels, go_online, is_connected, in_loop,
}
use sulink_lan.Gui.Honest.{IsHonest, log_event-IsHonest}

-- The goroutine is there.
record Works (n : ℕ) (w : Worker) (a : App) : Type 0 where
  honest : IsHonest a
  there : lookup n a.workers ≡ some w

connected-Works :
    (now n : ℕ) (w : Worker) (note : Note) (m : Message) (a : App)
    → Works n w a
    → Works n w (log_event now note (set_status connected m a))
unfolding log_event set_status with_status
connected-Works now n w note m a x = record {
  honest = log_event-IsHonest now note (set_status connected m a) (record {
    logs = x.honest.logs;
    served = λ _ gone. ground (arith, gone n, x.there);
    owns = x.honest.owns;
  });
  there = x.there;
}

module _ (n : ℕ) (w : Worker) where
  sync_notice-Works :
      (now : ℕ) (seen : Seen) (a : App) → Works n w a → Works n w (sync_notice now seen a)
  unfolding sync_notice log_event
  sync_notice-Works now seen a x =
      if_cases (Works n w) (a.state.notice ==ₛ seen.notice)
        (λ _. record {
          honest = record { logs = x.honest.logs; served = x.honest.served; owns = x.honest.owns };
          there = x.there;
        })
        λ _. record {
          honest =
              log_event-IsHonest now _ _
                (record { logs = x.honest.logs; served = x.honest.served; owns = x.honest.owns });
          there = x.there;
        }

  fetch_tunnels-Works : (answer : _) (a : App) → Works n w a → Works n w (fetch_tunnels answer a)
  unfolding fetch_tunnels
  fetch_tunnels-Works answer a x =
      if_cases (Works n w) (a.cfg.device_key ==ₛ []) (λ _. x)
        λ _.
          option_cases (Works n w) (split_host_port (normalize_server_addr a.cfg.server)) (λ _. x)
            λ _ _.
              option_cases (Works n w) answer (λ _. x)
                λ ts _. record {
                  honest = record {
                    logs = x.honest.logs;
                    served = x.honest.served;
                    owns = x.honest.owns;
                  };
                  there = x.there;
                }

  go_online-Works : (now : ℕ) (ip : Str) (a : App) → Works n w a → Works n w (go_online now ip a)
  unfolding go_online
  go_online-Works now ip a x =
      let b = record a { state = record a.state { ip = ip } } in
      let y : Works n w b = record {
        honest = record { logs = x.honest.logs; served = x.honest.served; owns = x.honest.owns };
        there = x.there;
      } in
      if_cases (Works n w) (not (a.state.ip ==ₛ ip && is_connected a.state.status))
        (λ _.
          let z = connected-Works now n w (online_note ip) no_text b y in
          record {
            honest = record {
              logs = z.honest.logs;
              served = z.honest.served;
              owns = z.honest.owns;
            };
            there = z.there;
          })
        λ _. y

  sync_from_client-Works :
      (now : ℕ) (seen : Seen) (a : App) → Works n w a → Works n w (sync_from_client now seen a)
  unfolding sync_from_client
  sync_from_client-Works now seen a x =
      let y =
        fetch_tunnels-Works seen.tunnels (sync_notice now seen a)
          (sync_notice-Works now seen a x) in
      if_cases (Works n w) (seen.vip == 0) (λ _. y)
        λ _.
          let z = go_online-Works now (ip4_string seen.vip) _ y in
          record {
            honest = record {
              logs = z.honest.logs;
              served = z.honest.served;
              owns = z.honest.owns;
            };
            there = z.there;
          }

pub on_tick-IsHonest :
    (now n : ℕ) (seen : Seen) (w : Worker) (a : App)
    → IsHonest a
    → lookup n a.workers ≡ some w
    → IsHonest (on_tick now n seen w a)
unfolding on_tick
on_tick-IsHonest now n seen w a x there =
    if_cases IsHonest (in_loop w.phase)
      (λ _. (sync_from_client-Works n w now seen a (record { honest = x; there = there })).honest)
      λ _. x
