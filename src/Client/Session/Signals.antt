-- ===== src/Client/Session/Signals.antt =====
-- internal/client/client.go and push.go: one message of `signalingLoop`, and the goroutine of
-- `startPunch`, cut at its pauses.
pub mod Settings
pub mod Punching
use sulink_lan.Base.{
  ℕ, zero, suc, ◌+◌, Bool, true, false, not, ◌&&◌, ◌||◌, List, [], ◌∷◌, ◌++◌, Option, none, some,
  Result, ok, err, ◌==◌, if◌then◌else◌, or_else, Str, codes, ◌==ₛ◌,
}
use sulink_lan.Base.Eq.{nat_eq, str_eq}
use sulink_lan.Base.Map.{Map, lookup, insert, delete}
use sulink_lan.Base.Text.{contains_text}
use sulink_lan.Base.Bytes.{Bytes}
use sulink_lan.Protocol.{
  MsgType, Message, Addr, Peer, message, parse_bool, cfg_no_punch, cfg_notice, msg_peer_list,
  msg_peer_online, msg_peer_offline, msg_config_push, msg_forward_push, msg_hole_notify, msg_error,
  msg_hole_request,
}
use sulink_lan.Protocol.Credentials.{Primitives}
use sulink_lan.Protocol.Packet.{encrypt, flag_probe}
use sulink_lan.Forward.{parse_list}
use sulink_lan.Client.Nat.{set_rules}
use sulink_lan.Client.Peers.{ensure_peer, set_candidate, is_p2p}
use sulink_lan.Client.Session.{Client, Puncher, Out, to_server, datagram, ask_later}

-- `setRules`; it is `apply_rules` here, since the rules go to the NAT's own `set_rules`.
unfoldable pub apply_rules : List Str → Client → Client
apply_rules raw c =
    let c1 = record c { rules = raw } in
    elim (parse_list raw) [
      | err _ ↦ c1
      | ok parsed ↦ elim c.nat [
        | none ↦ c1
        | some n ↦ record c1 { nat = some (set_rules parsed n) }
      ]
    ]

-- The entries that are not empty.
unfoldable pub given : Map Str Str → Map Str Str → Map Str Str
given [] out = out
given ((k, v) ∷ m) out = given m (if v ==ₛ [] then out else insert k v out)

unfoldable pub apply_pushed_config : Map Str Str → Client → Client
unfolding given
apply_pushed_config cfg c =
    let pushed = given cfg [] in
    record c {
      pushed = pushed;
      no_punch = elim (lookup cfg_no_punch pushed) [
        | none ↦ c.cfg.no_punch
        | some v ↦ parse_bool v
      ];
    }

-- `Notice`.
unfoldable pub notice : Client → Str
notice c = or_else (lookup cfg_notice c.pushed) []

-- `holeRequest`.
abbrev pub hole_request : ℕ → Out
hole_request vip = to_server (record (message msg_hole_request) { peer_vip = vip })

-- The peers of a list, or of a message that one of them is online.
unfoldable pub meet : List Peer → Client → Client × List Out
meet [] c = (c, [])
meet (p ∷ ps) c =
    let (c1, out) = meet ps (record c { peers = ensure_peer p.vip p.name c.peers }) in
    (c1, if c.no_punch then out else hole_request p.vip ∷ out)

unfoldable pub peer_offline : ℕ → Client → Client
peer_offline vip c = record c { peers = delete vip c.peers; punching = delete vip c.punching }

-- `startPunch`.
unfoldable pub start_punch : ℕ → Client → Client
start_punch vip c = if or_else (lookup vip c.punching) false then c else record c {
  punching = insert vip true c.punching;
  punchers = insert c.next_puncher (record { vip = vip; left = 20 }) c.punchers;
  next_puncher = c.next_puncher + 1;
}

-- `net.ResolveUDPAddr` is an argument.
unfoldable pub try_addrs : (Addr → Option Addr) → ℕ → List Addr → Client → Client
unfolding start_punch
try_addrs resolve vip [] c = c
try_addrs resolve vip (a ∷ rest) c = try_addrs resolve vip rest (elim (resolve a) [
  | none ↦ c
  | some to ↦ start_punch vip (record c { peers = set_candidate vip to c.peers })
])

-- An error of the server: that the peer is not ready yet starts a timer.
unfoldable pub on_error : Message → Client → List Out
on_error m c =
    if not (m.peer_vip == 0) && not c.no_punch && contains_text (codes "not ready") m.error
    then ask_later m.peer_vip ∷ []
    else []

-- The timer runs out.
unfoldable pub ask_again : ℕ → Client → List Out
ask_again vip c = elim (lookup vip c.peers) [ none ↦ [] | some _ ↦ hole_request vip ∷ [] ]

-- One message of `signalingLoop`, by its type.
unfoldable pub by_type : MsgType → (Addr → Option Addr) → Message → Client → Client × List Out
unfolding meet peer_offline apply_pushed_config apply_rules try_addrs on_error
by_type msg_peer_list resolve m c = meet m.peers c
by_type msg_peer_online resolve m c = meet m.peers c
by_type msg_peer_offline resolve m c = (peer_offline m.peer_vip c, [])
by_type msg_config_push resolve m c = (apply_pushed_config m.config c, [])
by_type msg_forward_push resolve m c = (apply_rules m.rules c, [])
by_type msg_hole_notify resolve m c =
    ((if c.no_punch then c else try_addrs resolve m.peer_vip m.addrs c), [])
by_type msg_error resolve m c = (c, on_error m c)
by_type _ resolve m c = (c, [])

unfoldable pub on_message : (Addr → Option Addr) → Message → Client → Client × List Out
unfolding by_type
on_message resolve m c = by_type m.type resolve m c

-- The deferred call of the goroutine.
unfoldable pub stop_punch : ℕ → ℕ → Client → Client
stop_punch g vip c = record c { punching = delete vip c.punching; punchers = delete g c.punchers }

abbrev pub cand_of : ℕ → Client → Option Addr
cand_of vip c = elim (lookup vip c.peers) [ none ↦ none | some p ↦ p.cand ]

module _ (p : Primitives) where
  -- The probe of one round; the goroutine runs only in a session, which has a cipher.
  unfoldable pub probe : Bytes → ℕ → Addr → Client → List Out
  probe nonce vip to c = elim c.crypto [
    | none ↦ []
    | some k ↦ elim (encrypt (p.gcm k.net_key) nonce flag_probe c.self vip []) [
      | err _ ↦ []
      | ok pkt ↦ datagram to pkt ∷ []
    ]
  ]

  -- A goroutine that has `left` rounds.
  unfoldable pub punch_with : ℕ → Bytes → ℕ → ℕ → Client → Client × List Out
  unfolding probe stop_punch
  punch_with zero nonce g vip c = (stop_punch g vip c, [])
  punch_with (suc left) nonce g vip c =
      if is_p2p vip c.peers then (stop_punch g vip c, []) else elim (cand_of vip c) [
        | none ↦ (stop_punch g vip c, [])
        | some to ↦ (
          record c { punchers = insert g (record { vip = vip; left = left }) c.punchers },
          probe nonce vip to c,
        )
      ]

  -- One round of the goroutine `g`.
  unfoldable pub punch_round : Bytes → ℕ → Client → Client × List Out
  unfolding punch_with
  punch_round nonce g c = elim (lookup g c.punchers) [
    | none ↦ (c, [])
    | some q ↦ punch_with q.left nonce g q.vip c
  ]
