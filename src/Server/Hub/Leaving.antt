-- ===== src/Server/Hub/Leaving.antt =====
-- internal/server/server.go: what the clients are told when a connection ends.
use sulink_lan.Base.{
  ℕ, ◌≡◌, ◌≢◌, ◌∙◌, refl, Bool, true, false, ◌&&◌, List, [], ◌∷◌, ◌++◌, none, some, arith, Has,
  if_cases, ◌==◌, Bool-cases, ap, sym, ltb, if◌then◌else◌, length, inl, inr,
}
use sulink_lan.Base.Eq.{nat_eq, str_eq}
use mathlib.Core.Path.{subst}
use sulink_lan.Base.Map.{Map, lookup, lookup-insert}
use sulink_lan.Protocol.{Message, message, msg_peer_offline}
use sulink_lan.Server.Hub.Steps.{send_all-SameList}
use sulink_lan.Server.Hub.{
  Server, Device, enqueue, send_msg, send_all, queue_size, delete_own, delist, retire, is_some,
  remove_device, notify_offline, ids_of,
}

-- The messages in the queue of a device, and whether it takes one more.
unfoldable pub queue_of : ℕ → Server → List Message
queue_of id s = elim (lookup id s.conns) [ none ↦ [] | some d ↦ d.queue ]

Has-append : (m : Message) (xs ys : List Message) → Has m xs → Has m (xs ++ ys)
Has-append m [] ys h = absurd h
Has-append m (x ∷ xs) ys (inl e) = inl e
Has-append m (x ∷ xs) ys (inr h) = inr (Has-append m xs ys h)

Has-last : (m : Message) (xs : List Message) → Has m (xs ++ m ∷ [])
Has-last m [] = inl refl
Has-last m (x ∷ xs) = inr (Has-last m xs)

unfoldable pub room : ℕ → Server → Bool
room id s = elim (lookup id s.conns) [
  | none ↦ false
  | some d ↦ d.queue_open && ltb (length d.queue) queue_size
]

queue_of-send_msg :
    (m : Message) (i j : ℕ) (s : Server)
    → queue_of j (send_msg m i s)
      ≡ (if i == j && room j s then queue_of j s ++ m ∷ [] else queue_of j s)
unfolding queue_of room send_msg enqueue
queue_of-send_msg m i j s = grind (arith, lookup-insert)

room-send_msg : (m : Message) (i j : ℕ) (s : Server) → i ≢ j → room j (send_msg m i s) ≡ room j s
unfolding room send_msg enqueue
room-send_msg m i j s ne = grind (arith, lookup-insert)

sent_stays :
    (m n : Message) (i j : ℕ) (s : Server)
    → Has m (queue_of j s)
    → Has m (queue_of j (send_msg n i s))
sent_stays m n i j s h =
    rw (queue_of-send_msg n i j s)
      (if_cases (Has m) (i == j && room j s) (λ _. Has-append m (queue_of j s) (n ∷ []) h) λ _. h)

all_stays :
    (m n : Message) (ids : List ℕ) (j : ℕ) (s : Server)
    → Has m (queue_of j s)
    → Has m (queue_of j (send_all n ids s))
unfolding send_all
all_stays m n [] j s h = h
all_stays m n (i ∷ ids) j s h = all_stays m n ids j (send_msg n i s) (sent_stays m n i j s h)

sent_arrives :
    (m : Message) (j : ℕ) (s : Server) → room j s ≡ true → Has m (queue_of j (send_msg m j s))
sent_arrives m j s r = rw (queue_of-send_msg m j j s) (
    if_cases (Has m) (j == j && room j s) (λ _. Has-last m (queue_of j s))
      λ e. absurd (grind arith))

all_arrives :
    (m : Message) (ids : List ℕ) (j : ℕ) (s : Server)
    → Has j ids
    → room j s ≡ true
    → Has m (queue_of j (send_all m ids s))
unfolding send_all
all_arrives m [] j s h r = absurd h
all_arrives m (i ∷ ids) j s h r = elim (Bool-cases (i == j)) [
  | inl e ↦
      let same : i ≡ j = ground arith in
      all_stays m m ids j (send_msg m i s)
        (subst (λ x. Has m (queue_of j (send_msg m x s))) (sym same) (sent_arrives m j s r))
  | inr e ↦
      all_arrives m ids j (send_msg m i s) (grind arith)
        (room-send_msg m i j s (λ q. ground arith) ∙ r)
]

Has-ids_of : (m : Map ℕ ℕ) (vip id : ℕ) → lookup vip m ≡ some id → Has id (ids_of m)
unfolding lookup
Has-ids_of [] vip id e = grind arith
Has-ids_of ((v, i) ∷ m) vip id e = grind (arith, Has-ids_of m vip id)

abbrev pub offline : ℕ → Message
offline vip = record (message msg_peer_offline) { peer_vip = vip }

delist_other :
    (s : Server) (id new : ℕ) (d : Device)
    → lookup d.vip s.devices ≡ some new
    → new ≢ id
    → (delist id d s).devices ≡ s.devices
unfolding delist delete_own
delist_other s id new d taken ne = grind arith

retire_taken :
    (s : Server) (d : Device) {new : ℕ}
    → d.vip ≢ 0
    → lookup d.vip s.devices ≡ some new
    → retire d s ≡ send_all (offline d.vip) (ids_of s.devices) s
unfolding retire notify_offline is_some
retire_taken s d z taken = grind arith

remove_device_found :
    (s : Server) (id : ℕ) {d : Device}
    → lookup id s.conns ≡ some d
    → remove_device id s ≡ retire d (delist id d s)
unfolding remove_device
remove_device_found s id here = grind arith

-- When the connection ends that a newer one of the same address has replaced, the newer one stays
-- online, and yet it is told that its address is offline, if its queue has room.
pub remove_device_taken_over :
    (s : Server) (id new : ℕ) (d : Device)
    → lookup id s.conns ≡ some d
    → d.vip ≢ 0
    → lookup d.vip s.devices ≡ some new
    → new ≢ id
    → room new s ≡ true
    → (lookup d.vip (remove_device id s).devices ≡ some new)
      × Has (offline d.vip) (queue_of new (remove_device id s))
unfolding delist room queue_of
remove_device_taken_over s id new d here z taken ne r =
    let t = delist id d s in
    let still : lookup d.vip t.devices ≡ some new =
      ap (lookup d.vip) (delist_other s id new d taken ne) ∙ taken in
    let gone : remove_device id s ≡ send_all (offline d.vip) (ids_of t.devices) t =
      remove_device_found s id here ∙ retire_taken t d z still in
    subst (λ u. (lookup d.vip u.devices ≡ some new) × Has (offline d.vip) (queue_of new u))
      (sym gone)
      (
        ap (lookup d.vip) (send_all-SameList (offline d.vip) (ids_of t.devices) t).devices ∙ still,
        all_arrives (offline d.vip) (ids_of t.devices) new t (Has-ids_of t.devices d.vip new still)
            r,
      )
