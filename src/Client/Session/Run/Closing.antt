-- ===== src/Client/Session/Run/Closing.antt =====
-- internal/client/client.go: `Close` against the two channels that `Run` waits for.
use sulink_lan.Base.{◌≡◌, true, [], ◌∷◌, Option, none, ok, arith}
use sulink_lan.Protocol.{Message}
use sulink_lan.Protocol.Credentials.{Primitives}
use sulink_lan.Client.Session.Connect.{Setup, connect_once}
use sulink_lan.Client.Session.Run.{
  Running, serving, returned, attempt, close, see_closed, see_session, happen, run, connect,
  after_connect, take_closed, take_session,
}

-- After `Close` both channels are ready. If `Run` takes the end of the session first and the
-- server can be reached, it opens another session, and then returns with that session open.
pub close_reopens :
    (p : Primitives) (r : Running) (os : Setup) (challenge : Option Message)
    (answer : Message → Option Message)
    → r.stage ≡ serving
    → (connect_once p os challenge answer r.client).0 ≡ ok tt
    → let end = run p (close ∷ see_session ∷ attempt os challenge answer ∷ see_closed ∷ []) r in
      (end.stage ≡ returned none) × (end.is_open ≡ true)
unfolding run happen connect after_connect take_closed take_session
close_reopens p r os challenge answer up again = grind arith
