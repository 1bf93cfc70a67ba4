-- ===== src/Client/Session/Run/Kept.antt =====
-- internal/client/client.go: what leaves the direct addresses of the peers as they are.
use sulink_lan.Base.{ℕ, ◌≡◌, refl, List, [], ◌∷◌, Option, some, arith}
use sulink_lan.Base.Eq.{nat_eq}
use sulink_lan.Base.Bytes.{Bytes}
use sulink_lan.Protocol.{Addr, Peer, MsgType, Message}
use sulink_lan.Protocol.Credentials.{Primitives}
use sulink_lan.Protocol.Packet.{Packet}
use sulink_lan.Client.Peers.{direct_addr}
use sulink_lan.Client.Peers.Laws.{
  direct_addr-ensure_peer, direct_addr-set_candidate, direct_addr-delete,
}
use sulink_lan.Client.Session.{Client}
use sulink_lan.Client.Session.Connect.{
  Setup, Outcome, connect_once, authenticate, exchange, on_register_reply, on_hello_reply, refused,
  open_session, announce_self,
}
use sulink_lan.Client.Session.Signals.{
  meet, peer_offline, apply_pushed_config, apply_rules, try_addrs, start_punch, by_type,
  punch_round, punch_with, stop_punch,
}
use sulink_lan.Client.Session.Data.{to_self, deliver, translate, on_card}
use sulink_lan.Client.Session.Run.{Running, Stage, connect, after_connect}

abbrev pub direct : ℕ → Client → Option Addr
direct j c = direct_addr j c.peers

pub direct-meet : (ps : List Peer) (j : ℕ) (c : Client) → direct j (meet ps c).0 ≡ direct j c
unfolding meet
direct-meet [] j c = refl
direct-meet (p ∷ ps) j c = grind (arith, direct-meet ps j, direct_addr-ensure_peer)

pub direct-start_punch : (vip j : ℕ) (c : Client) → direct j (start_punch vip c) ≡ direct j c
unfolding start_punch
direct-start_punch vip j c = ground arith

pub direct-try_addrs :
    (resolve : Addr → Option Addr) (vip : ℕ) (as' : List Addr) (j : ℕ) (c : Client)
    → direct j (try_addrs resolve vip as' c) ≡ direct j c
unfolding try_addrs
direct-try_addrs resolve vip [] j c = refl
direct-try_addrs resolve vip (a ∷ rest) j c =
    grind
      (arith, direct-try_addrs resolve vip rest j, direct-start_punch, direct_addr-set_candidate)

pub direct-peer_offline :
    (vip j : ℕ) {a : Addr} (c : Client)
    → direct j (peer_offline vip c) ≡ some a
    → direct j c ≡ some a
unfolding peer_offline
direct-peer_offline vip j c e = grind (arith, direct_addr-delete j vip c.peers)

pub apply_rules_peers : (raw : List (List ℕ)) (c : Client) → (apply_rules raw c).peers ≡ c.peers
unfolding apply_rules
apply_rules_peers raw c = grind arith

pub direct-by_type :
    (t : MsgType) (resolve : Addr → Option Addr) (m : Message) (c : Client) (j : ℕ) {a : Addr}
    → direct j (by_type t resolve m c).0 ≡ some a
    → direct j c ≡ some a
unfolding by_type apply_pushed_config
direct-by_type _ resolve m c j e = grind (
  arith,
  direct-meet m.peers j c,
  direct-peer_offline m.peer_vip j,
  direct-try_addrs resolve m.peer_vip m.addrs j c,
  apply_rules_peers m.rules c,
)

pub punch_round_peers :
    (p : Primitives) (nonce : Bytes) (g : ℕ) (c : Client)
    → (punch_round p nonce g c).0.peers ≡ c.peers
unfolding punch_round punch_with stop_punch
punch_round_peers p nonce g c = grind arith

pub connect_once_peers :
    (p : Primitives) (os : Setup) (challenge : Option Message) (answer : Message → Option Message)
    (c : Client)
    → (connect_once p os challenge answer c).1.peers ≡ c.peers
unfolding connect_once authenticate exchange on_register_reply on_hello_reply refused open_session
    announce_self
connect_once_peers p os challenge answer c = grind arith

pub after_connect_peers :
    (o : Outcome) (r : Running) → (after_connect o r).0.client.peers ≡ o.1.peers
unfolding after_connect
after_connect_peers o r = grind arith

pub connect_peers :
    (p : Primitives) (t : Stage) (os : Setup) (challenge : Option Message)
    (answer : Message → Option Message) (r : Running)
    → (connect p t os challenge answer r).0.client.peers ≡ r.client.peers
unfolding connect
connect_peers p _ os challenge answer r =
    grind (arith, connect_once_peers p os challenge answer r.client, after_connect_peers)

pub on_card_peers :
    (p : Primitives) (now : ℕ) (nonce pkt : Bytes) (c : Client)
    → (on_card p now nonce pkt c).0.peers ≡ c.peers
unfolding on_card translate
on_card_peers p now nonce pkt c = grind arith

pub deliver_peers : (now : ℕ) (pkt : Packet) (c : Client) → (deliver now pkt c).0.peers ≡ c.peers
unfolding deliver to_self
deliver_peers now pkt c = grind arith
