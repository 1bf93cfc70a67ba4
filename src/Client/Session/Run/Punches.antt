-- ===== src/Client/Session/Run/Punches.antt =====
-- internal/client/client.go: the goroutines of `startPunch` while the session goes on.
use sulink_lan.Base.{ℕ, suc, List, [], ◌∷◌, ◌==◌, if◌then◌else◌}
use sulink_lan.Base.Eq.{nat_eq}
use sulink_lan.Base.Bytes.{Bytes}
use sulink_lan.Client.Session.{Client}
use sulink_lan.Client.Session.Run.{Event, punch}

-- The rounds of goroutine `g` among the events.
unfoldable pub rounds_of : ℕ → List Event → ℕ
rounds_of g [] = 0
rounds_of g (punch nonce h ∷ es) = let n = rounds_of g es in if h == g then suc n else n
rounds_of g (_ ∷ es) = rounds_of g es
