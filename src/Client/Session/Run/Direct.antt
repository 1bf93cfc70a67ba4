-- ===== src/Client/Session/Run/Direct.antt =====
-- internal/client/client.go: where the addresses come from that `sendEnc` sends to.
use sulink_lan.Base.{ℕ, ◌≡◌, ◌⊎◌, inl, inr, List, [], ◌∷◌, Option, none, some, arith, Has}
use sulink_lan.Base.Eq.{nat_eq}
use sulink_lan.Base.Bytes.{Bytes, uint32_at}
use sulink_lan.Base.Map.{lookup}
use sulink_lan.Protocol.{Addr}
use sulink_lan.Protocol.Credentials.{Primitives}
use sulink_lan.Client.Peers.{direct_addr}
use sulink_lan.Client.Session.{
  Client, Out, to_server, datagram, to_card, ask_later, save_credential,
}
use sulink_lan.Client.Session.Data.{send_enc, translate, send_sealed, on_card}
use sulink_lan.Client.Session.Run.{Running, Event, happen, run, running}
use sulink_lan.Client.Session.Run.Heard.{Heard, happen-direct}
use sulink_lan.Client.Session.Run.Kept.{direct}

-- The event is one of a run.
abbrev pub EverHeard : Primitives → ℕ → Addr → List Event → Running → Type 0
EverHeard p vip a [] r = ⊥
EverHeard p vip a (e ∷ es) r = Heard p vip a e r ⊎ EverHeard p vip a es (happen p e r).0

run-direct :
    (p : Primitives) (es : List Event) (r : Running) (j : ℕ) {a : Addr}
    → direct j (run p es r).client ≡ some a
    → (direct j r.client ≡ some a) ⊎ EverHeard p j a es r
unfolding run
run-direct p [] r j h = inl h
run-direct p (e ∷ es) r j {a} h = elim (run-direct p es (happen p e r).0 j {a = a} h) [
  | inl q ↦ elim (happen-direct p e r j {a = a} q) [ inl old ↦ inl old | inr new ↦ inr (inl new) ]
  | inr later ↦ inr (inr later)
]

-- The receivers of the datagrams that go out.
abbrev pub receivers : List Out → List Addr
receivers [] = []
receivers (to_server m ∷ out) = receivers out
receivers (datagram a b ∷ out) = a ∷ receivers out
receivers (to_card b ∷ out) = receivers out
receivers (ask_later vip ∷ out) = receivers out
receivers (save_credential c ∷ out) = receivers out

send_enc-receivers :
    (enc : Bytes) (dst : ℕ) (c : Client) {to : Addr}
    → Has to (receivers (send_enc enc dst c))
    → (c.srv_udp ≡ some to) ⊎ (direct dst c ≡ some to)
unfolding send_enc
send_enc-receivers enc dst c h = grind arith

translate_peers :
    (p : Primitives) (now : ℕ) (pkt : Bytes) (c : Client)
    → ((translate p now pkt c).1.peers ≡ c.peers) × ((translate p now pkt c).1.srv_udp ≡ c.srv_udp)
unfolding translate
translate_peers p now pkt c = grind arith

send_sealed-receivers :
    (p : Primitives) (enc : Option Bytes) (dst : ℕ) (c : Client) {to : Addr}
    → Has to (receivers (send_sealed p enc dst c))
    → (c.srv_udp ≡ some to) ⊎ (direct dst c ≡ some to)
unfolding send_sealed
send_sealed-receivers p none dst c h = grind arith
send_sealed-receivers p (some enc) dst c h = send_enc-receivers enc dst c h

on_card-receivers :
    (p : Primitives) (now : ℕ) (nonce pkt : Bytes) (c : Client) {to : Addr}
    → Has to (receivers (on_card p now nonce pkt c).1)
    → (c.srv_udp ≡ some to) ⊎ (direct (uint32_at pkt 16) c ≡ some to)
unfolding on_card
on_card-receivers p now nonce pkt c h = grind (arith, send_sealed-receivers, translate_peers)

-- A packet of the card goes to the server, or to an address from which a sealed packet of its
-- destination came straight to this client in this run.
pub on_card_receiver_heard :
    (p : Primitives) (es : List Event) (c : Client) (now : ℕ) (nonce pkt : Bytes) {to : Addr}
    → c.peers ≡ []
    → let after = (run p es (running c)).client in
      Has to (receivers (on_card p now nonce pkt after).1)
      → (after.srv_udp ≡ some to) ⊎ EverHeard p (uint32_at pkt 16) to es (running c)
unfolding direct_addr running lookup
on_card_receiver_heard p es c now nonce pkt {to} fresh h =
    elim (on_card-receivers p now nonce pkt (run p es (running c)).client h) [
      | inl srv ↦ inl srv
      | inr d ↦ elim (run-direct p es (running c) (uint32_at pkt 16) {a = to} d) [
        | inl old ↦ absurd (grind (arith, fresh))
        | inr heard ↦ inr heard
      ]
    ]
