-- ===== src/Client/Session/Signals/Settings.antt =====
-- internal/client/push.go and internal/server/settings.go: the configuration that the server pushes.
use sulink_lan.Base.{◌≡◌, refl, [], ◌∷◌, Option, none, some, if◌then◌else◌, Str, ◌==ₛ◌, arith}
use sulink_lan.Base.Eq.{str_eq, ==ₛ_iff}
use sulink_lan.Base.Map.{Map, lookup, lookup-insert, lookup-empty, insert}
use sulink_lan.Protocol.{parse_bool, cfg_no_punch}
use sulink_lan.Client.Session.{Client}
use sulink_lan.Client.Session.Signals.{given, apply_pushed_config}

-- No key stands twice, as in a Go map.
abbrev pub Distinct : Map Str Str → Type 0
Distinct [] = Unit
Distinct ((k, v) ∷ m) = (lookup k m ≡ none) × Distinct m

-- A value, if it is there and not empty.
abbrev pub not_empty : Option Str → Option Str
not_empty none = none
not_empty (some v) = if v ==ₛ [] then none else some v

abbrev pub or_old : Option Str → Option Str → Option Str
or_old none old = old
or_old (some v) old = some v

lookup-given :
    (cfg out : Map Str Str) (j : Str)
    → Distinct cfg
    → lookup j (given cfg out) ≡ or_old (not_empty (lookup j cfg)) (lookup j out)
unfolding lookup given
lookup-given [] out j h = refl
lookup-given ((k, v) ∷ m) out j h = ground (
  arith,
  lookup-given m (if v ==ₛ [] then out else insert k v out) j h.1,
  lookup-insert j k v out,
  ==ₛ_iff k j,
  ==ₛ_iff v [],
)

-- A pushed configuration replaces the old one as a whole: afterwards a key has the value of the message
-- if that is not empty, and no value otherwise, and whether punching is forbidden follows the message,
-- or the device's own setting if the message has no value for it.
pub lookup-apply_pushed_config :
    (cfg : Map Str Str) (c : Client) (j : Str)
    → Distinct cfg
    → (lookup j (apply_pushed_config cfg c).pushed ≡ not_empty (lookup j cfg))
      × ((apply_pushed_config cfg c).no_punch ≡ elim (not_empty (lookup cfg_no_punch cfg)) [
        | none ↦ c.cfg.no_punch
        | some v ↦ parse_bool v
      ])
unfolding apply_pushed_config
lookup-apply_pushed_config cfg c j h =
    grind (arith, lookup-given cfg [] j h, lookup-given cfg [] cfg_no_punch h, lookup-empty)
