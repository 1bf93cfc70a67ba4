-- ===== src/Server/Icmp/Tests.antt =====
-- A ping of the server, and its answer.
use sulink_lan.Base.{◌≡◌, refl, [], ◌∷◌, some, arith}
use sulink_lan.Base.Bytes.{Bytes}
use sulink_lan.Server.Icmp.{echo_reply}
use sulink_lan.Server.Icmp.Answer.{Answered, echo_reply-Answered}

-- From 10.0.0.2 to 10.0.0.1: 20 bytes of header, then type 8, code 0, a checksum, and four bytes.
abbrev ping : Bytes
ping =
    0x45 ∷ 0 ∷ 0 ∷ 28 ∷ 0 ∷ 1 ∷ 0 ∷ 0 ∷ 64 ∷ 1 ∷ 0 ∷ 0 ∷ 10 ∷ 0 ∷ 0 ∷ 2 ∷ 10 ∷ 0 ∷ 0 ∷ 1 ∷ 8 ∷ 0 ∷ 0
    ∷ 0 ∷ 1 ∷ 2 ∷ 3 ∷ 4 ∷ []

abbrev pong : Bytes
pong =
    0x45 ∷ 0 ∷ 0 ∷ 28 ∷ 0 ∷ 1 ∷ 0 ∷ 0 ∷ 64 ∷ 1 ∷ 0x66 ∷ 0xde ∷ 10 ∷ 0 ∷ 0 ∷ 1 ∷ 10 ∷ 0 ∷ 0 ∷ 2 ∷ 0
    ∷ 0 ∷ 0xfb ∷ 0xf9 ∷ 1 ∷ 2 ∷ 3 ∷ 4 ∷ []

answered : echo_reply ping 167772161 ≡ some pong
unfolding echo_reply
answered = refl

echo_reply-Answered_example : Answered ping 167772161 (echo_reply ping 167772161)
echo_reply-Answered_example = echo_reply-Answered ping 167772161 (ground arith)
