-- ===== src/Server/Hub/Steps.antt =====
-- internal/server/server.go: the parts of the handlers, and the maps of online devices.
use sulink_lan.Base.{
  ℕ, ◌≡◌, ◌≢◌, ◌∙◌, refl, inl, inr, true, not, ◌&&◌, List, [], ◌∷◌, none, some, ◌==◌, if◌then◌else◌,
  Str, ◌==ₛ◌, arith, if_cases, option_cases, Option-cases,
}
use sulink_lan.Base.Eq.{nat_eq, str_eq, ==ₛ_iff}
use sulink_lan.Base.Map.{lookup, insert, lookup-insert, lookup-delete}
use sulink_lan.Protocol.{Addr, Message, message, msg_peer_online, msg_peer_offline}
use sulink_lan.Server.Hub.{
  Server, Device, update, enqueue, send_msg, send_all, close_msg, close_conn, delete_own, delist,
  enlist, take_queued, write_next, write_msg, reject_auth, take_over, choose_name, is_some,
  device_at, not_ready, hole_notify, others, ids_of, notify_offline, notify_online, retire,
  remove_device, handle_hole_request, tell_both,
}
use sulink_lan.Server.Pool.{release}
use sulink_lan.Server.Devices.{Leases}
use sulink_lan.Server.Hub.Names.{choose_name_free}
use sulink_lan.Server.Hub.Invariant.{
  vip_of, name_of, phase_of, known, Listed, SameList, SameList-refl, SameList-trans,
  SameList-Listed, update-SameList,
}

pub send_msg-SameList : (m : Message) (id : ℕ) (s : Server) → SameList s (send_msg m id s)
unfolding send_msg enqueue
send_msg-SameList m id s =
    update-SameList id (enqueue m) s λ d. (grind arith, grind arith, grind arith)

pub send_all-SameList : (m : Message) (ids : List ℕ) (s : Server) → SameList s (send_all m ids s)
unfolding send_all
send_all-SameList m [] s = SameList-refl s
send_all-SameList m (id ∷ ids) s =
    SameList-trans (send_msg-SameList m id s) (send_all-SameList m ids (send_msg m id s))

pub close_msg-SameList : (id : ℕ) (s : Server) → SameList s (close_msg id s)
unfolding close_msg
close_msg-SameList id s = update-SameList id _ s λ d. (refl, refl, refl)

pub close_conn-SameList : (id : ℕ) (s : Server) → SameList s (close_conn id s)
unfolding close_conn
close_conn-SameList id s = update-SameList id _ s λ d. (refl, refl, refl)

pub write_msg-SameList : (id : ℕ) (m : Message) (s : Server) → SameList s (write_msg id m s)
unfolding write_msg vip_of name_of phase_of known
write_msg-SameList id m s = record {
  devices = grind arith;
  by_id = grind arith;
  vips = λ i. grind arith;
  names = λ i. grind arith;
  phases = λ i. grind arith;
  same_ids = λ i. grind arith;
  start = grind arith;
}

pub reject_auth-SameList :
    (id : ℕ) (reason : Str) (s : Server) → SameList s (reject_auth id reason s)
unfolding reject_auth
reject_auth-SameList id reason s =
    SameList-trans (close_msg-SameList id s) (write_msg-SameList id _ (close_msg id s))

pub write_next-SameList : (id : ℕ) (s : Server) → SameList s (write_next id s)
unfolding write_next take_queued vip_of name_of phase_of known
write_next-SameList id s = record {
  devices = grind arith;
  by_id = grind arith;
  vips = λ i. grind (arith, lookup-insert);
  names = λ i. grind (arith, lookup-insert);
  phases = λ i. grind (arith, lookup-insert);
  same_ids = λ i. grind (arith, lookup-insert);
  start = grind arith;
}

pub take_over-SameList : (id vip : ℕ) (s : Server) → SameList s (take_over id vip s)
unfolding take_over
take_over-SameList id vip s =
    option_cases (SameList s) (lookup vip s.devices) (λ _. SameList-refl s)
      λ old e.
        if_cases (SameList s) (old == id) (λ _. SameList-refl s) λ _. close_conn-SameList old s

-- A device that is not registered appears in neither map.
pub unlisted :
    {s : Server} (id : ℕ)
    → Listed s
    → vip_of id s ≡ 0
    → (vip : ℕ) (n : Str) → (lookup vip s.devices ≢ some id) × (lookup n s.by_id ≢ some id)
unlisted {s} id x z vip n =
    (λ e. ground (arith, x.online vip id e), λ e. ground (arith, x.named n id e))

enlist_with :
    {s : Server} (id : ℕ) (chosen hwid : Str) (vip : ℕ) {d : Device}
    → Listed s
    → lookup id s.conns ≡ some d
    → d.vip ≡ 0
    → vip ≢ 0
    → lookup chosen s.by_id ≡ none
    → let s1 = update id (λ e. record e { name = chosen; vip = vip; hwid = hwid }) s in
      Listed (record s1 { devices = insert vip id s1.devices; by_id = insert chosen id s1.by_id })
unfolding update vip_of name_of
enlist_with {s} id chosen hwid vip {d} x here new ne free = record {
  online = λ v i e.
      grind
        (arith, lookup-insert, ==ₛ_iff chosen chosen, ==ₛ_iff chosen (name_of i s), x.online v i);
  named = λ n i e. grind (arith, lookup-insert, ==ₛ_iff chosen n, x.named n i);
}

pub delist-Listed :
    {s : Server} (id : ℕ) (d : Device)
    → Listed s
    → lookup id s.conns ≡ some d
    → Listed (delist id d s)
unfolding delist delete_own vip_of name_of
delist-Listed {s} id d x here = record {
  online = λ v i e. grind (arith, lookup-delete, ==ₛ_iff d.name (name_of i s), x.online v i);
  named = λ n i e. grind (arith, lookup-delete, ==ₛ_iff d.name n, x.named n i);
}

known_new :
    (s : Server) (id : ℕ)
    → known id s ≡ true
    → vip_of id s ≡ 0
    → (d : Device) × (lookup id s.conns ≡ some d) × (d.vip ≡ 0)
unfolding known vip_of is_some
known_new s id k z = elim (Option-cases (lookup id s.conns)) [
  | inl e ↦ grind arith
  | inr (d, e) ↦ (d, e, grind arith)
]

pub enlist-Listed :
    {s : Server} (id : ℕ) (name hwid : Str) (vip : ℕ)
    → Listed s
    → known id s ≡ true
    → vip_of id s ≡ 0
    → vip ≢ 0
    → Listed (enlist id name hwid vip s)
unfolding enlist
enlist-Listed {s} id name hwid vip x here new ne =
    let same = take_over-SameList id vip s in
    let t = take_over id vip s in
    let x1 : Listed t = SameList-Listed same x in
    let own : lookup name s.by_id ≢ some id = (unlisted id x new vip name).1 in
    let (d, e, z) = known_new t id (same.same_ids id ∙ here) (same.vips id ∙ new) in
    enlist_with id (choose_name id name s.by_id) hwid vip {d = d} x1 e z ne
      (rw same.by_id (choose_name_free id name s.by_id own))

tell_both-SameList :
    (from : ℕ) (d : Device) (peer_vip peer : ℕ) (addr : Addr) (s : Server)
    → SameList s (tell_both from d peer_vip peer addr s)
unfolding tell_both
tell_both-SameList from d peer_vip peer addr s =
    let first = send_msg-SameList (hole_notify peer_vip addr) from s in
    option_cases (SameList s) d.udp_addr (λ _. first)
      λ own e. SameList-trans first (send_msg-SameList (hole_notify d.vip own) peer _)

pub handle_hole_request-SameList :
    (from : ℕ) (d : Device) (peer_vip : ℕ) (s : Server)
    → SameList s (handle_hole_request from d peer_vip s)
unfolding handle_hole_request
handle_hole_request-SameList from d peer_vip s =
    option_cases (SameList s) (device_at peer_vip s)
      (λ _. send_msg-SameList (not_ready peer_vip) from s)
      λ found e.
        option_cases (SameList s) found.1.udp_addr
          (λ _. send_msg-SameList (not_ready peer_vip) from s)
          λ addr f. tell_both-SameList from d peer_vip found.0 addr s

pub notify_online-SameList : (id : ℕ) (d : Device) (s : Server) → SameList s (notify_online id d s)
unfolding notify_online
notify_online-SameList id d s =
    send_all-SameList
      (record (message msg_peer_online) { peers = record { name = d.name; vip = d.vip } ∷ [] })
      (others id s.devices) s

-- A state with other leases is the same list.
pub leases-SameList :
    (l : Leases) (s : Server)
    → l.pool.start ≡ s.leases.pool.start
    → SameList s (record s { leases = l })
unfolding vip_of name_of phase_of known
leases-SameList l s e = record {
  devices = refl;
  by_id = refl;
  vips = λ i. refl;
  names = λ i. refl;
  phases = λ i. refl;
  same_ids = λ i. refl;
  start = e;
}

pub retire-SameList : (d : Device) (s : Server) → SameList s (retire d s)
unfolding retire notify_offline release
retire-SameList d s =
    let freed = record s { leases = record s.leases { pool = release s.leases.pool d.vip } } in
    let released = not (d.vip == 0) && d.hwid ==ₛ [] && not (is_some (lookup d.vip s.devices)) in
    let s1 = if released then freed else s in
    let same : SameList s s1 =
      if_cases (SameList s) released (λ _. leases-SameList freed.leases s refl)
        λ _. SameList-refl s in
    if_cases (SameList s) (d.vip == 0) (λ _. same)
      λ _. SameList-trans same (
        send_all-SameList (record (message msg_peer_offline) { peer_vip = d.vip })
          (ids_of s1.devices) s1)

pub remove_device-Listed : {s : Server} (id : ℕ) → Listed s → Listed (remove_device id s)
unfolding remove_device
remove_device-Listed {s} id x =
    option_cases Listed (lookup id s.conns) (λ _. x)
      λ d here. SameList-Listed (retire-SameList d (delist id d s)) (delist-Listed id d x here)
