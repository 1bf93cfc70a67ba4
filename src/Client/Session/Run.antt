-- ===== src/Client/Session/Run.antt =====
-- internal/client/client.go: `Run` with the sessions that it opens, and `Close`. A run is a list of
-- events in any order; where a `select` of the code has several channels that are ready, each choice
-- is an event. A call of `connectOnce` is one event.
pub mod Direct
pub mod Heard
pub mod Kept
pub mod Stale
pub mod Closing
pub mod Ahead
pub mod Punches
pub mod Blocked
mod Tests
use sulink_lan.Base.{
  ℕ, true, false, ◌||◌, Bool, List, [], ◌∷◌, Option, none, some, Result, ok, err, if◌then◌else◌,
  Str, ◌==ₛ◌,
}
use sulink_lan.Base.Bytes.{Bytes}
use sulink_lan.Protocol.{Message, Addr, msg_heartbeat}
use sulink_lan.Protocol
use sulink_lan.Protocol.Credentials.{Primitives, Credential}
use sulink_lan.Client.Session.{Config, Crypto, Client, Out, to_server}
use sulink_lan.Client.Session.Connect.{
  ConnError, registered, name_taken, auth_failed, retry, Setup, Outcome, crypto_of, connect_once,
}
use sulink_lan.Client.Session.Signals.{on_message, punch_round, ask_again}
use sulink_lan.Client.Session.Data.{on_udp, on_card}

-- The errors of `Run` before its loop.
pub data StartError : Type 0 where
  no_server_or_name bad_key no_hwid : StartError

-- Where `Run` stands: about to connect, in the session, waiting a number of milliseconds, or returned.
pub data Stage : Type 0 where
  connecting serving : Stage
  pausing : ℕ → Stage
  returned : Option ConnError → Stage

-- A client under `Run`: `closed` and `session_over` are the channels of the code, and `is_open` tells
-- whether the sockets and the card of a session are open.
pub record Running : Type 0 where
  pub client : Client
  pub stage : Stage
  pub closed : Bool
  pub session_over : Bool
  pub is_open : Bool

pub data Event : Type 0 where
  attempt : Setup → Option Message → (Message → Option Message) → Event
  message : (Addr → Option Addr) → Message → Event
  udp : ℕ → Bytes → Bytes → Addr → Event
  card : ℕ → Bytes → Bytes → Event
  punch : Bytes → ℕ → Event
  timer : ℕ → Event
  -- The ticker of `heartbeatLoop`.
  tick : Event
  -- A loop of the session ends, or `Close` is called.
  lose close : Event
  -- What `Run` goes on with.
  see_closed see_session see_pause : Event

unfoldable pub new_client : Config → Str → Option Crypto → Client
new_client cfg hwid crypto = record {
  cfg = cfg;
  crypto = crypto;
  srv_udp = none;
  self = 0;
  nat = none;
  peers = [];
  punching = [];
  punchers = [];
  next_puncher = 0;
  no_punch = cfg.no_punch;
  pushed = [];
  hwid = hwid;
  lease_until = 0;
  rules = [];
}

-- The device's own identity, unless the configuration has one.
unfoldable pub own_hwid : Config → Option Str → Option Str
own_hwid cfg machine = if cfg.hwid ==ₛ [] then machine else some cfg.hwid

unfoldable pub running : Client → Running
running c = record {
  client = c;
  stage = connecting;
  closed = false;
  session_over = false;
  is_open = false;
}

unfoldable pub identified : Config → Option Str → Option Crypto → Result StartError Running
unfolding own_hwid new_client running
identified cfg machine crypto = elim (own_hwid cfg machine) [
  | none ↦ err no_hwid
  | some hwid ↦ ok (running (new_client cfg hwid crypto))
]

abbrev credential_of : Config → Credential
credential_of cfg = record {
  device_id = cfg.device_id;
  device_key = cfg.device_key;
  network_key = cfg.network_key;
}

-- What `Run` does with the result of `connectOnce`; every error but the two fatal ones closes the session.
unfoldable pub after_connect : Outcome → Running → Running × List Out
after_connect (ok _, c, out) r =
    (record r { client = c; stage = serving; session_over = false; is_open = true }, out)
after_connect (err registered, c, out) r =
    (record r { client = c; stage = pausing 200; session_over = false; is_open = false }, out)
after_connect (err retry, c, out) r =
    (record r { client = c; stage = pausing 2000; session_over = false; is_open = false }, out)
after_connect (err name_taken, c, out) r =
    (record r { client = c; stage = returned (some name_taken); session_over = false }, out)
after_connect (err auth_failed, c, out) r =
    (record r { client = c; stage = returned (some auth_failed); session_over = false }, out)

unfoldable pub is_serving : Stage → Bool
is_serving serving = true
is_serving _ = false

-- A loop of an open session handles something.
unfoldable pub in_session : (Client → Client × List Out) → Running → Running × List Out
unfolding is_serving
in_session f r =
    if is_serving r.stage
    then (let (c, out) = f r.client in (record r { client = c }, out))
    else (r, [])

-- One round of `heartbeatLoop`.
unfoldable pub heartbeat : Client → Client × List Out
heartbeat c = (c, to_server (Protocol.message msg_heartbeat) ∷ [])

-- The `select` of `Run` takes the closed channel.
unfoldable pub take_closed : Stage → Running → Running
take_closed serving r = if r.closed then record r { stage = returned none } else r
take_closed (pausing ms) r = if r.closed then record r { stage = returned none } else r
take_closed _ r = r

-- The `select` takes the end of the session, and `teardown` runs.
unfoldable pub take_session : Stage → Running → Running
take_session serving r =
    if r.session_over then record r { stage = connecting; is_open = false } else r
take_session _ r = r

unfoldable pub take_pause : Stage → Running → Running
take_pause (pausing ms) r = record r { stage = connecting }
take_pause _ r = r

module _ (p : Primitives) where
  -- `Run` up to its loop.
  unfoldable pub start : Config → Option Str → Result StartError Running
  unfolding identified
  start cfg machine =
      if cfg.server ==ₛ [] || cfg.name ==ₛ []
      then err no_server_or_name
      else if cfg.device_key ==ₛ []
      then identified cfg machine none
      else elim (crypto_of p (credential_of cfg)) [
        | none ↦ err bad_key
        | some k ↦ identified cfg machine (some k)
      ]

  unfoldable pub connect :
      Stage → Setup → Option Message → (Message → Option Message) → Running → Running × List Out
  unfolding after_connect
  connect connecting os challenge answer r =
      after_connect (connect_once p os challenge answer r.client) r
  connect _ os challenge answer r = (r, [])

  unfoldable pub happen : Event → Running → Running × List Out
  unfolding connect in_session heartbeat take_closed take_session take_pause
  happen (attempt os challenge answer) r = connect r.stage os challenge answer r
  happen (message resolve m) r = in_session (on_message resolve m) r
  happen (udp now nonce buf from) r = in_session (on_udp p now nonce buf from) r
  happen (card now nonce pkt) r = in_session (on_card p now nonce pkt) r
  happen (punch nonce g) r =
      let (c, out) = punch_round p nonce g r.client in (record r { client = c }, out)
  happen (timer vip) r = (r, ask_again vip r.client)
  happen tick r = in_session heartbeat r
  happen lose r = (record r { session_over = true }, [])
  happen close r = (record r { closed = true; session_over = true; is_open = false }, [])
  happen see_closed r = (take_closed r.stage r, [])
  happen see_session r = (take_session r.stage r, [])
  happen see_pause r = (take_pause r.stage r, [])

  unfoldable pub run : List Event → Running → Running
  run [] r = r
  run (e ∷ es) r = run es (happen e r).0
