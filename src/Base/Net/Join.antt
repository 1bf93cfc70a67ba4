-- ===== src/Base/Net/Join.antt =====
-- `net.JoinHostPort` and `net.SplitHostPort`.
use mathlib.Core.Path.{◌≡◌}
use mathlib.Core.Bool.{false}
use mathlib.Core.List.{[], ◌∷◌}
use mathlib.Core.Option.{some}
use native.Mathlib.Omega.{arith}
use sulink_lan.Base.Eq.{Str}
use sulink_lan.Base.Text.{contains}
use sulink_lan.Base.Text.Trim.{split_last-append}
use sulink_lan.Base.Net.{join_host_port, split_host_port, split_host}

split_host_plain :
    (host port : Str)
    → contains b':' host ≡ false
    → contains b'[' host ≡ false
    → contains b']' host ≡ false
    → contains b'[' port ≡ false
    → contains b']' port ≡ false
    → split_host host port ≡ some (host, port)
unfolding split_host contains
split_host_plain [] port a b c d e = ground arith
split_host_plain (h ∷ host) port a b c d e = ground arith

pub split_host_port-join_host_port :
    (host port : Str)
    → contains b':' host ≡ false
    → contains b'[' host ≡ false
    → contains b']' host ≡ false
    → contains b':' port ≡ false
    → contains b'[' port ≡ false
    → contains b']' port ≡ false
    → split_host_port (join_host_port host port) ≡ some (host, port)
unfolding split_host_port join_host_port
split_host_port-join_host_port host port a b c p d e =
    ground (arith, split_last-append b':' host port p, split_host_plain host port a b c d e)
