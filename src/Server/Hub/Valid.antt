-- ===== src/Server/Hub/Valid.antt =====
-- internal/server/server.go: the invariant of the server under every event.
use sulink_lan.Base.{
  ℕ, ◌≡◌, Bool, true, not, List, [], ◌∷◌, Option, some, Str, codes, ◌==ₛ◌, arith, if_cases,
  option_cases, result_cases,
}
use sulink_lan.Base.Eq.{nat_eq, str_eq}
use sulink_lan.Base.Map.{lookup}
use sulink_lan.Base.Text.{trim_space}
use sulink_lan.Base.Bytes.{Bytes}
use sulink_lan.Protocol.{MsgType, Message, msg_register, msg_hello, err_auth_failed_msg}
use sulink_lan.Protocol.Packet.{Aead}
use sulink_lan.Protocol.Credentials.{Primitives, verify_register_auth}
use sulink_lan.Server.Devices.{is_blocked}
use sulink_lan.Server.Devices.Leasing.{prune}
use sulink_lan.Server.Hub.{Server, Device, Phase, awaits, serves, ended, close_msg, is_some}
use sulink_lan.Server.Hub.Conn.{
  Random, issue, answer_register, handle_register, check_hello, hello, first_message, on_first,
  signal,
}
use sulink_lan.Server.Hub.Start.{prune_start}
use sulink_lan.Server.Hub.Steps.{
  close_msg-SameList, write_msg-SameList, reject_auth-SameList, write_next-SameList,
  leases-SameList,
}
use sulink_lan.Server.Hub.Frames.{
  table-SameList, on_signal-SameList, accept-IsValid, Keeps, relay-Keeps, push-SameList,
  set_device_forward-SameList, set_device_ip-SameList, revoke-SameList, unblock_device-SameList,
}
use sulink_lan.Server.Hub.Handlers.{hang_up-IsValid, enter-IsValid}
use sulink_lan.Server.Hub.Events.{
  Event, accepts, first_arrives, signal_arrives, hangs_up, writes, datagram_arrives, sweeps, pushes,
  sets_forward, sets_ip, revokes, unblocks, first_step, signal_step, hang_up_step, step, run,
}
use sulink_lan.Server.Hub.Invariant.{
  vip_of, phase_of, known, SameList, SameList-trans, IsValid, IsValid-Entering, SameList-IsValid,
  SameList-Entering,
}

module _ (p : Primitives) where
  answer_register-SameList :
      (id : ℕ) (nonce : Option Bytes) (hwid : Str) (cred : Str × Str) (s : Server)
      → SameList s (answer_register p id nonce hwid cred s)
  unfolding answer_register
  answer_register-SameList id nonce hwid cred s =
      option_cases (SameList s) nonce (λ _. reject_auth-SameList id (codes "internal error") s)
        λ n e. SameList-trans (close_msg-SameList id s) (write_msg-SameList id _ (close_msg id s))

  handle_register-SameList :
      (id : ℕ) (random : Random) (m : Message) (challenge : Bytes) (s : Server)
      → SameList s (handle_register p id random m challenge s)
  unfolding handle_register
  handle_register-SameList id random m challenge s =
      let hwid = trim_space m.hwid in
      let (issued, t) = issue random m hwid s.leases.table in
      let s1 = record s { leases = record s.leases { table = t } } in
      let first = table-SameList t s in
      let reject = λ (reason : Str). reject_auth-SameList id reason s in
      if_cases (SameList s) (hwid ==ₛ []) (λ _. reject (codes "device id required"))
        λ _.
          if_cases (SameList s) (not (verify_register_auth p hwid challenge m.auth))
            (λ _. reject err_auth_failed_msg)
            λ _.
              if_cases (SameList s) (is_blocked s.leases.table hwid)
                (λ _. reject (codes "device blocked by administrator"))
                λ _.
                  result_cases (SameList s) issued
                    (λ e f. SameList-trans first (reject_auth-SameList id e s1))
                    λ cred f.
                      SameList-trans first
                        (answer_register-SameList id random.blob_nonce hwid cred s1)

  on_first-IsValid :
      {s : Server} (t : MsgType) (id : ℕ) (m : Message) (challenge : Bytes) (random : Random)
      (now : ℕ)
      → IsValid s
      → known id s ≡ true
      → vip_of id s ≡ 0
      → IsValid (on_first p t id m challenge random now s)
  unfolding on_first hello
  on_first-IsValid {s} msg_register id m challenge random now x here new = hang_up-IsValid id (
      SameList-Entering id (handle_register-SameList id random m challenge s)
        (IsValid-Entering id x))
  on_first-IsValid {s} msg_hello id m challenge random now x here new =
      option_cases IsValid (check_hello p m challenge s.leases.table)
        (λ _. enter-IsValid id m now x here new)
        λ reason e.
          hang_up-IsValid id
            (SameList-Entering id (reject_auth-SameList id reason s) (IsValid-Entering id x))
  on_first-IsValid {s} _ id m challenge random now x here new = hang_up-IsValid id (
      SameList-Entering id
        (reject_auth-SameList id (codes "protocol error: expected hello or register") s)
        (IsValid-Entering id x))

known_found : (s : Server) (id : ℕ) {d : Device} → lookup id s.conns ≡ some d → known id s ≡ true
unfolding known is_some
known_found s id e = ground arith

phase_found :
    (s : Server) (id : ℕ) {d : Device} → lookup id s.conns ≡ some d → phase_of id s ≡ d.phase
unfolding phase_of
phase_found s id e = ground arith

module _ (p : Primitives) (aead : Aead) where
  first_step-IsValid :
      {s : Server} (ph : Phase) (id : ℕ) (m : Message) (random : Random) (now : ℕ) (closed : Bool)
      → IsValid s
      → known id s ≡ true
      → phase_of id s ≡ ph
      → IsValid (first_step p aead ph id m random now closed s)
  unfolding first_step first_message
  first_step-IsValid (awaits challenge) id m random now closed x here e =
      if_cases IsValid closed (λ _. x)
        λ _. on_first-IsValid p m.type id m challenge random now x here (x.waiting id challenge e)
  first_step-IsValid serves id m random now closed x here e = x
  first_step-IsValid ended id m random now closed x here e = x

  signal_step-IsValid :
      {s : Server} (ph : Phase) (id : ℕ) (m : Message) (d : Device)
      → IsValid s
      → IsValid (signal_step p aead ph id m d s)
  unfolding signal_step signal
  signal_step-IsValid (awaits _) id m d x = x
  signal_step-IsValid {s} serves id m d x =
      if_cases IsValid d.conn_closed (λ _. x)
        λ _. SameList-IsValid (on_signal-SameList m.type id d m s) x
  signal_step-IsValid ended id m d x = x

  hang_up_step-IsValid :
      {s : Server} (ph : Phase) (id : ℕ) → IsValid s → IsValid (hang_up_step p aead ph id s)
  unfolding hang_up_step
  hang_up_step-IsValid (awaits _) id x = hang_up-IsValid id (IsValid-Entering id x)
  hang_up_step-IsValid serves id x = hang_up-IsValid id (IsValid-Entering id x)
  hang_up_step-IsValid ended id x = x

  -- Every event keeps the invariant of the server.
  pub step-IsValid : (e : Event) {s : Server} → IsValid s → IsValid (step p aead e s)
  unfolding step
  step-IsValid (accepts id challenge now) {s} x =
      option_cases IsValid (lookup id s.conns) (λ new. accept-IsValid id challenge now x new)
        λ d e. x
  step-IsValid (first_arrives id m random now) {s} x =
      option_cases IsValid (lookup id s.conns) (λ _. x)
        λ d e.
          first_step-IsValid d.phase id m random now d.conn_closed x (known_found s id e)
            (phase_found s id e)
  step-IsValid (signal_arrives id m) {s} x =
      option_cases IsValid (lookup id s.conns) (λ _. x) λ d e. signal_step-IsValid d.phase id m d x
  step-IsValid (hangs_up id) {s} x =
      option_cases IsValid (lookup id s.conns) (λ _. x) λ d e. hang_up_step-IsValid d.phase id x
  step-IsValid (writes id) {s} x = SameList-IsValid (write_next-SameList id s) x
  step-IsValid (datagram_arrives nonce buf from) {s} x =
      SameList-IsValid (Keeps.same (relay-Keeps aead nonce buf from s)) x
  step-IsValid (sweeps now) {s} x =
      SameList-IsValid (leases-SameList (prune now s.leases).1 s (prune_start now s.leases)) x
  step-IsValid (pushes cfg f) {s} x = SameList-IsValid (push-SameList cfg f s) x
  step-IsValid (sets_forward h rules) {s} x =
      SameList-IsValid (set_device_forward-SameList h rules s) x
  step-IsValid (sets_ip h text) {s} x = SameList-IsValid (set_device_ip-SameList h text s) x
  step-IsValid (revokes h) {s} x = SameList-IsValid (revoke-SameList h s) x
  step-IsValid (unblocks h) {s} x = SameList-IsValid (unblock_device-SameList h s) x

  pub run-IsValid : (es : List Event) {s : Server} → IsValid s → IsValid (run p aead es s)
  unfolding run
  run-IsValid [] x = x
  run-IsValid (e ∷ es) x = run-IsValid es (step-IsValid e x)
