-- ===== src/Server/Hub/Handlers.antt =====
-- internal/server/server.go: registration and removal, and the invariant of the server.
use sulink_lan.Base.{
  ℕ, ◌≡◌, ◌≢◌, ◌∙◌, true, [], ◌∷◌, some, Result, ok, err, Str, arith, option_cases, result_cases,
}
use sulink_lan.Base.Eq.{nat_eq, str_eq}
use sulink_lan.Base.Map.{Map, lookup, lookup-insert}
use sulink_lan.Protocol.{Message, message, msg_config_push, msg_welcome, msg_peer_list}
use sulink_lan.Server.Pool.{PoolError}
use sulink_lan.Server.Hub.{
  Server, Device, serves, ended, update, close_conn, close_msg, send_msg, enlist, register,
  alloc_vip, delist, remove_device, peer_list,
}
use sulink_lan.Server.Hub.Conn.{
  error_text, announce, welcome, push_current, send_config, lease_unix, tell_online, hang_up, enter,
}
use sulink_lan.Server.Hub.Start.{alloc_vip_start, alloc_vip_ne, NotZero}
use sulink_lan.Server.Hub.Steps.{
  send_msg-SameList, close_msg-SameList, close_conn-SameList, reject_auth-SameList,
  take_over-SameList, enlist-Listed, notify_online-SameList, leases-SameList, retire-SameList,
  delist-Listed,
}
use sulink_lan.Server.Hub.Invariant.{
  vip_of, name_of, phase_of, known, SameList, SameList-refl, SameList-trans, Entering, IsValid,
  IsValid-Entering, SameList-IsValid, SameList-Entering, set_phase-IsValid,
}

enlist-Entering :
    {s : Server} (id : ℕ) (name hwid : Str) (vip : ℕ)
    → IsValid s
    → known id s ≡ true
    → vip_of id s ≡ 0
    → vip ≢ 0
    → Entering id (enlist id name hwid vip s)
unfolding enlist update vip_of phase_of
enlist-Entering {s} id name hwid vip x here new ne =
    let same = take_over-SameList id vip s in
    record {
      listed = enlist-Listed id name hwid vip x.listed here new ne;
      positive = grind (arith, x.positive, same.start);
      waiting =
          λ i c other e. grind (arith, lookup-insert, same.vips i, same.phases i, x.waiting i c);
    }

delist-Entering :
    {s : Server} (id : ℕ) (d : Device)
    → Entering id s
    → lookup id s.conns ≡ some d
    → Entering id (delist id d s)
unfolding delist vip_of phase_of
delist-Entering id d x here = record {
  listed = delist-Listed id d x.listed here;
  positive = x.positive;
  waiting = x.waiting;
}

remove_device-Entering : {s : Server} (id : ℕ) → Entering id s → Entering id (remove_device id s)
unfolding remove_device
remove_device-Entering {s} id x =
    option_cases (Entering id) (lookup id s.conns) (λ _. x)
      λ d here.
        SameList-Entering id (retire-SameList d (delist id d s)) (delist-Entering id d x here)

pub hang_up-IsValid : {s : Server} (id : ℕ) → Entering id s → IsValid (hang_up id s)
unfolding hang_up
hang_up-IsValid {s} id x =
    let closed = close_conn id s in
    let x1 : Entering id (close_msg id closed) =
      SameList-Entering id
        (SameList-trans (close_conn-SameList id s) (close_msg-SameList id closed)) x in
    set_phase-IsValid id ended (λ c. grind arith) (remove_device-Entering id x1)

NotZero-ok : (r : Result PoolError (ℕ × ℕ)) (x : ℕ × ℕ) → r ≡ ok x → NotZero r → x.0 ≢ 0
unfolding NotZero
NotZero-ok (err e) x q n = grind arith
NotZero-ok (ok y) x q n = grind arith

-- The answer of `register`, with a state in which the device is registered or still waits.
record Registered (id : ℕ) (r : Result PoolError (ℕ × ℕ) × Server) : Type 0 where
  entering : Entering id r.1

register-Registered :
    {s : Server} (id : ℕ) (name hwid : Str) (now : ℕ)
    → IsValid s
    → known id s ≡ true
    → vip_of id s ≡ 0
    → Registered id (register id name hwid now s)
unfolding register
register-Registered {s} id name hwid now x here new =
    let (got, l) = alloc_vip hwid name now s.leases in
    let s1 = record s { leases = l } in
    let same : SameList s s1 =
      leases-SameList l s (alloc_vip_start hwid name now s.leases x.positive) in
    let ne : NotZero got = alloc_vip_ne hwid name now s.leases x.positive in
    let x1 : IsValid s1 = SameList-IsValid same x in
    result_cases (Registered id) got (λ e f. record { entering = IsValid-Entering id x1 })
      λ found f. record {
        entering =
            enlist-Entering id name hwid found.0 x1 (same.same_ids id ∙ here) (same.vips id ∙ new)
              (NotZero-ok got found f ne);
      }

announce-SameList : (m : Message) (vip : ℕ) (s : Server) → SameList s (announce m vip s)
unfolding announce vip_of name_of phase_of known
announce-SameList m vip s = record {
  devices = grind arith;
  by_id = grind arith;
  vips = λ i. grind arith;
  names = λ i. grind arith;
  phases = λ i. grind arith;
  same_ids = λ i. grind arith;
  start = grind arith;
}

send_config-SameList : (id : ℕ) (cfg : Map Str Str) (s : Server) → SameList s (send_config id cfg s)
unfolding send_config
send_config-SameList id [] s = SameList-refl s
send_config-SameList id (c ∷ cs) s =
    send_msg-SameList (record (message msg_config_push) { config = c ∷ cs }) id s

push_current-SameList : (id : ℕ) (s : Server) → SameList s (push_current id s)
unfolding push_current
push_current-SameList id s = send_config-SameList id s.pushed s

tell_online-SameList : (id : ℕ) (s : Server) → SameList s (tell_online id s)
unfolding tell_online
tell_online-SameList id s =
    option_cases (SameList s) (lookup id s.conns) (λ _. SameList-refl s)
      λ d e. notify_online-SameList id d s

welcome-SameList : (id vip until : ℕ) (s : Server) → SameList s (welcome id vip until s)
unfolding welcome
welcome-SameList id vip until s =
    let hello = record (message msg_welcome) { vip = vip; lease_until = lease_unix until } in
    let s1 = send_msg hello id s in
    let peers = record (message msg_peer_list) { peers = peer_list vip s1 } in
    let s2 = send_msg peers id s1 in
    SameList-trans (SameList-trans (send_msg-SameList hello id s) (send_msg-SameList peers id s1))
      (SameList-trans (push_current-SameList id s2) (tell_online-SameList id (push_current id s2)))

pub enter-IsValid :
    {s : Server} (id : ℕ) (m : Message) (now : ℕ)
    → IsValid s
    → known id s ≡ true
    → vip_of id s ≡ 0
    → IsValid (enter id m now s)
unfolding enter
enter-IsValid {s} id m now x here new =
    let (got, s1) = register id m.device_name m.hwid now s in
    let x1 : Entering id s1 =
      Registered.entering (register-Registered id m.device_name m.hwid now x here new) in
    result_cases IsValid got
      (λ e f.
        hang_up-IsValid id (SameList-Entering id (reject_auth-SameList id (error_text e) s1) x1))
      λ found f.
        set_phase-IsValid id serves (λ c. grind arith)
          (SameList-Entering id
            (SameList-trans (announce-SameList m found.0 s1)
              (welcome-SameList id found.0 found.1 (announce m found.0 s1)))
            x1)
