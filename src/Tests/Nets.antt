-- ===== src/Tests/Nets.antt =====
-- A frame of three bytes that arrives in four pieces, the last with a byte of the next frame.
use rules_ostest.Network.Frames.{HasPieces, joined, send-receive}
use rules_ostest.Bytes.{Bytes}
use rules_ostest.Network.{Stream, send, receive, packet}
use rules_ostest.Base.{◌≡◌, refl, [], ◌∷◌, arith, ok}

abbrev frame : Bytes
frame = 1 ∷ 2 ∷ 3 ∷ []

abbrev pieces : Stream
pieces = (0 ∷ 0 ∷ []) ∷ (0 ∷ 3 ∷ 1 ∷ []) ∷ (2 ∷ []) ∷ (3 ∷ 9 ∷ []) ∷ []

send-receive_example :
    (left : Stream) × (receive pieces ≡ ok (frame, left)) × HasPieces left × (joined left ≡ 9 ∷ [])
unfolding send
send-receive_example =
    send-receive frame (packet frame) (9 ∷ []) pieces refl
      (omega arith, (omega arith, (omega arith, (omega arith, tt)))) refl
