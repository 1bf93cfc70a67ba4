-- ===== src/Client/Session/Run/Ahead.antt =====
-- internal/client/client.go: what the steps of a client leave to a goroutine of `startPunch`.
use sulink_lan.Base.{ℕ, suc, ◌+◌, ◌≤◌, ◌<◌, ◌≡◌, refl, List, [], ◌∷◌, Option, none, some, arith}
use sulink_lan.Base.Eq.{nat_eq}
use sulink_lan.Base.Map.{lookup, lookup-insert, lookup-delete}
use sulink_lan.Base.Bytes.{Bytes}
use sulink_lan.Protocol.{Addr, Peer, MsgType, Message}
use sulink_lan.Protocol.Packet.{Packet}
use sulink_lan.Protocol.Credentials.{Primitives}
use sulink_lan.Client.Peers.{set_candidate}
use sulink_lan.Client.Session.{Client, Puncher, Out}
use sulink_lan.Client.Session.Connect.{
  Setup, Outcome, connect_once, authenticate, exchange, on_register_reply, on_hello_reply, refused,
  open_session, announce_self,
}
use sulink_lan.Client.Session.Signals.{
  meet, peer_offline, apply_pushed_config, apply_rules, try_addrs, start_punch, by_type,
  punch_round, punch_with, stop_punch,
}
use sulink_lan.Client.Session.Data.{to_self, deliver, translate, on_card, on_udp}
use sulink_lan.Client.Session.Run.{Running, Stage, connect, after_connect, in_session}

-- The rounds that the goroutine has before it, the one counted in which it ends.
abbrev left_of : Option Puncher → ℕ
left_of none = 0
left_of (some q) = q.left + 1

abbrev pub ahead : ℕ → Client → ℕ
ahead g c = left_of (lookup g c.punchers)

-- The client `c'` comes after `c`: goroutine `g` has no more rounds than before, and its number is not
-- given to another.
unfoldable pub Later : ℕ → Client → Client → Type 0
Later g c c' = g < c.next_puncher → (ahead g c' ≤ ahead g c) × (g < c'.next_puncher)

-- Its goroutines are the same.
unfoldable pub Same : Client → Client → Type 0
Same c c' = (c'.punchers ≡ c.punchers) × (c'.next_puncher ≡ c.next_puncher)

pub Same-Later : (g : ℕ) (c c' : Client) → Same c c' → Later g c c'
unfolding Same Later
Same-Later g c c' e = λ h. (rw e.0 (omega arith), rw e.1 h)

start_punch-Later : (g vip : ℕ) (c : Client) → Later g c (start_punch vip c)
unfolding start_punch Later
start_punch-Later g vip c = λ h. grind (arith, lookup-insert)

Later-trans : (g : ℕ) (a b c : Client) → Later g a b → Later g b c → Later g a c
unfolding Later
Later-trans g a b c x y = λ h. let (l, k) = x h in let (m, n) = y k in (omega (arith, l, m), n)

one-Later :
    (g vip : ℕ) (o : Option Addr) (c : Client)
    → Later g c (elim o [
      | none ↦ c
      | some to ↦ start_punch vip (record c { peers = set_candidate vip to c.peers })
    ])
unfolding Later
one-Later g vip none c = λ h. (omega arith, h)
one-Later g vip (some to) c =
    start_punch-Later g vip (record c { peers = set_candidate vip to c.peers })

try_addrs-Later :
    (g vip : ℕ) (resolve : Addr → Option Addr) (as' : List Addr) (c : Client)
    → Later g c (try_addrs resolve vip as' c)
unfolding try_addrs Later
try_addrs-Later g vip resolve [] c = λ h. (omega arith, h)
try_addrs-Later g vip resolve (a ∷ rest) c =
    let c1 : Client = elim (resolve a) [
      | none ↦ c
      | some to ↦ start_punch vip (record c { peers = set_candidate vip to c.peers })
    ] in
    Later-trans g c c1 (try_addrs resolve vip rest c1) (one-Later g vip (resolve a) c)
      (try_addrs-Later g vip resolve rest c1)

meet-Same : (ps : List Peer) (c : Client) → Same c (meet ps c).0
unfolding meet Same
meet-Same [] c = (refl, refl)
meet-Same (p ∷ ps) c = grind (arith, meet-Same ps)

apply_rules-Same : (raw : List (List ℕ)) (c : Client) → Same c (apply_rules raw c)
unfolding apply_rules Same
apply_rules-Same raw c = grind arith

pub by_type-Later :
    (t : MsgType) (g : ℕ) (resolve : Addr → Option Addr) (m : Message) (c : Client)
    → Later g c (by_type t resolve m c).0
unfolding by_type apply_pushed_config peer_offline Later Same
by_type-Later _ g resolve m c = λ h. grind (
  arith,
  meet-Same m.peers c,
  try_addrs-Later g m.peer_vip resolve m.addrs c,
  apply_rules-Same m.rules c,
)

connect_once-Same :
    (p : Primitives) (os : Setup) (challenge : Option Message) (answer : Message → Option Message)
    (c : Client)
    → Same c (connect_once p os challenge answer c).1
unfolding connect_once authenticate exchange on_register_reply on_hello_reply refused open_session
    announce_self Same
connect_once-Same p os challenge answer c = grind arith

after_connect-Same : (o : Outcome) (r : Running) → Same o.1 (after_connect o r).0.client
unfolding after_connect Same
after_connect-Same o r = grind arith

pub connect-Same :
    (p : Primitives) (t : Stage) (os : Setup) (challenge : Option Message)
    (answer : Message → Option Message) (r : Running)
    → Same r.client (connect p t os challenge answer r).0.client
unfolding connect Same
connect-Same p _ os challenge answer r =
    grind (arith, connect_once-Same p os challenge answer r.client, after_connect-Same)

pub on_card-Same :
    (p : Primitives) (now : ℕ) (nonce pkt : Bytes) (c : Client)
    → Same c (on_card p now nonce pkt c).0
unfolding on_card translate Same
on_card-Same p now nonce pkt c = grind arith

deliver-Same : (now : ℕ) (pkt : Packet) (c : Client) → Same c (deliver now pkt c).0
unfolding deliver to_self Same
deliver-Same now pkt c = grind arith

pub on_udp-Same :
    (p : Primitives) (now : ℕ) (nonce buf : Bytes) (from : Addr) (c : Client)
    → Same c (on_udp p now nonce buf from c).0
unfolding on_udp Same
on_udp-Same p now nonce buf from c = grind (arith, deliver-Same now)

-- The rounds of other goroutines, and its own, which is one less.
pub punch_round-Later :
    (p : Primitives) (nonce : Bytes) (g h : ℕ) (c : Client) → Later g c (punch_round p nonce h c).0
unfolding punch_round punch_with stop_punch Later
punch_round-Later p nonce g h c = λ k. grind (arith, lookup-insert, lookup-delete)

pub punch_round_less :
    (p : Primitives) (nonce : Bytes) (g : ℕ) (c : Client) (n : ℕ)
    → ahead g c ≤ suc n
    → ahead g (punch_round p nonce g c).0 ≤ n
unfolding punch_round punch_with stop_punch
punch_round_less p nonce g c n h = grind (arith, lookup-insert, lookup-delete)

pub in_session-Later :
    (g : ℕ) (f : Client → Client × List Out) (r : Running)
    → Later g r.client (f r.client).0
    → Later g r.client (in_session f r).0.client
unfolding in_session Later
in_session-Later g f r e = λ h. grind (arith, e h)
