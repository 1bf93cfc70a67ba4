-- ===== src/Client/Session/Run/Stale.antt =====
-- internal/client/push.go and internal/server/server.go: the pushed configuration over a reconnection.
use sulink_lan.Base.{ℕ, ◌≡◌, ◌≢◌, refl, List, [], ◌∷◌, Option, Str, All, arith, ◌∙◌}
use sulink_lan.Base.Bytes.{Bytes}
use sulink_lan.Protocol.{Addr, MsgType, Message, Peer, msg_config_push}
use sulink_lan.Protocol.Credentials.{Primitives}
use sulink_lan.Protocol.Packet.{Packet}
use sulink_lan.Server.Hub.{Server}
use sulink_lan.Server.Hub.Conn.{push_current, send_config}
use sulink_lan.Client.Session.{Client, Out}
use sulink_lan.Client.Session.Connect.{
  Setup, Outcome, connect_once, authenticate, exchange, on_register_reply, on_hello_reply, refused,
  open_session, announce_self,
}
use sulink_lan.Client.Session.Signals.{
  meet, peer_offline, apply_rules, try_addrs, start_punch, by_type, on_message, punch_round,
  punch_with, stop_punch,
}
use sulink_lan.Client.Session.Data.{
  note_direct, to_self, deliver, on_packet, on_udp, translate, on_card,
}
use sulink_lan.Client.Session.Run.{
  Running, Event, Stage, happen, run, in_session, heartbeat, connect, after_connect, take_closed,
  take_session, take_pause,
}

-- Two clients have one pushed configuration.
record SameConfig (c d : Client) : Type 0 where
  pushed : d.pushed ≡ c.pushed
  no_punch : d.no_punch ≡ c.no_punch

same : {c : Client} → SameConfig c c
same = record { pushed = refl; no_punch = refl }

both : {c d e : Client} → SameConfig c d → SameConfig d e → SameConfig c e
both x y = record { pushed = y.pushed ∙ x.pushed; no_punch = y.no_punch ∙ x.no_punch }

meet_same : (ps : List Peer) (c : Client) → SameConfig c (meet ps c).0
unfolding meet
meet_same [] c = same
meet_same (p ∷ ps) c = grind (arith, meet_same ps)

start_punch_same : (vip : ℕ) (c : Client) → SameConfig c (start_punch vip c)
unfolding start_punch
start_punch_same vip c = ground arith

try_addrs_same :
    (resolve : Addr → Option Addr) (vip : ℕ) (addrs : List Addr) (c : Client)
    → SameConfig c (try_addrs resolve vip addrs c)
unfolding try_addrs
try_addrs_same resolve vip [] c = same
try_addrs_same resolve vip (a ∷ rest) c =
    grind (arith, try_addrs_same resolve vip rest, start_punch_same)

apply_rules_same : (raw : List Str) (c : Client) → SameConfig c (apply_rules raw c)
unfolding apply_rules
apply_rules_same raw c = grind arith

by_type_same :
    (t : MsgType) (resolve : Addr → Option Addr) (m : Message) (c : Client)
    → t ≢ msg_config_push
    → SameConfig c (by_type t resolve m c).0
unfolding by_type peer_offline
by_type_same _ resolve m c other = grind (
  arith,
  meet_same m.peers c,
  try_addrs_same resolve m.peer_vip m.addrs c,
  apply_rules_same m.rules c,
)

connect_once_same :
    (p : Primitives) (os : Setup) (challenge : Option Message) (answer : Message → Option Message)
    (c : Client)
    → SameConfig c (connect_once p os challenge answer c).1
unfolding connect_once authenticate exchange on_register_reply on_hello_reply refused open_session
    announce_self
connect_once_same p os challenge answer c = grind arith

after_connect_client : (o : Outcome) (r : Running) → (after_connect o r).0.client ≡ o.1
unfolding after_connect
after_connect_client o r = grind arith

connect_same :
    (p : Primitives) (t : Stage) (os : Setup) (challenge : Option Message)
    (answer : Message → Option Message) (r : Running)
    → SameConfig r.client (connect p t os challenge answer r).0.client
unfolding connect
connect_same p _ os challenge answer r =
    grind (arith, connect_once_same p os challenge answer r.client, after_connect_client)

deliver_same : (now : ℕ) (pkt : Packet) (c : Client) → SameConfig c (deliver now pkt c).0
unfolding deliver to_self
deliver_same now pkt c = grind arith

note_direct_same : (pkt : Packet) (from : Addr) (c : Client) → SameConfig c (note_direct pkt from c)
unfolding note_direct
note_direct_same pkt from c = ground arith

on_udp_same :
    (p : Primitives) (now : ℕ) (nonce buf : Bytes) (from : Addr) (c : Client)
    → SameConfig c (on_udp p now nonce buf from c).0
unfolding on_udp on_packet
on_udp_same p now nonce buf from c = grind (arith, note_direct_same, deliver_same, both)

on_card_same :
    (p : Primitives) (now : ℕ) (nonce pkt : Bytes) (c : Client)
    → SameConfig c (on_card p now nonce pkt c).0
unfolding on_card translate
on_card_same p now nonce pkt c = grind arith

punch_round_same :
    (p : Primitives) (nonce : Bytes) (g : ℕ) (c : Client) → SameConfig c (punch_round p nonce g c).0
unfolding punch_round punch_with stop_punch
punch_round_same p nonce g c = grind arith

in_session_same :
    (f : Client → Client × List Out) (r : Running)
    → SameConfig r.client (f r.client).0
    → SameConfig r.client (in_session f r).0.client
unfolding in_session
in_session_same f r h = grind arith

take_same :
    (t : Stage) (r : Running)
    → (SameConfig r.client (take_closed t r).client)
      × (SameConfig r.client (take_session t r).client)
      × (SameConfig r.client (take_pause t r).client)
unfolding take_closed take_session take_pause
take_same _ r = ground arith

-- The event is no message that pushes a configuration.
abbrev pub NoPush : Event → Type 0
NoPush (Event.message resolve m) = m.type ≢ msg_config_push
NoPush _ = Unit

happen_same :
    (p : Primitives) (e : Event) (r : Running)
    → NoPush e
    → SameConfig r.client (happen p e r).0.client
unfolding happen on_message
happen_same p (Event.attempt os challenge answer) r n = connect_same p r.stage os challenge answer r
happen_same p (Event.message resolve m) r n =
    in_session_same (on_message resolve m) r (by_type_same m.type resolve m r.client n)
happen_same p (Event.udp now nonce buf from) r n =
    in_session_same (on_udp p now nonce buf from) r (on_udp_same p now nonce buf from r.client)
happen_same p (Event.card now nonce pkt) r n =
    in_session_same (on_card p now nonce pkt) r (on_card_same p now nonce pkt r.client)
happen_same p (Event.punch nonce g) r n = punch_round_same p nonce g r.client
happen_same p (Event.timer vip) r n = same
happen_same p Event.tick r n = in_session_same heartbeat r (unfold heartbeat in same)
happen_same p Event.lose r n = same
happen_same p Event.close r n = same
happen_same p Event.see_closed r n = (take_same r.stage r).0
happen_same p Event.see_session r n = (take_same r.stage r).1
happen_same p Event.see_pause r n = (take_same r.stage r).2

run_same :
    (p : Primitives) (es : List Event) (r : Running)
    → All NoPush es
    → SameConfig r.client (run p es r).client
unfolding run
run_same p [] r h = same
run_same p (e ∷ es) r h = both (happen_same p e r h.0) (run_same p es (happen p e r).0 h.1)

-- A server that has no configuration pushes none to a device that connects; and through any events
-- without such a message, reconnections included, a client keeps the configuration and the ban on
-- punching that it had.
pub run_keeps_config :
    (p : Primitives) (s : Server) (id : ℕ) (es : List Event) (r : Running)
    → s.pushed ≡ []
    → All NoPush es
    → (push_current id s ≡ s)
      × ((run p es r).client.pushed ≡ r.client.pushed)
      × ((run p es r).client.no_punch ≡ r.client.no_punch)
unfolding push_current send_config
run_keeps_config p s id es r cleared h =
    let kept = run_same p es r h in (ground arith, kept.pushed, kept.no_punch)
