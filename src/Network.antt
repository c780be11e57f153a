-- ===== src/Network.antt =====
-- ostest/python/network.py: the frames that endpoints and the hub exchange.
pub mod Frames
use rules_ostest.Iso.{to_be}
use rules_ostest.Bytes.{Bytes}
use rules_ostest.Base.{
  ℕ, zero, suc, ◌+◌, ◌-◌, ◌*◌, ◌&&◌, ◌||◌, List, [], ◌∷◌, ◌++◌, ltb, leb, ◌==◌, if◌then◌else◌,
  length, is_empty, take, drop, ◌>>=◌, ◌>>◌, guard, refuse, Result, ok, err,
}

-- `ValueError`, `EOFError` and `RuntimeError` of an invalid length.
pub data NetworkError : Type 0 where
  bad_frame_size end_of_stream invalid_length : NetworkError

abbrev pub max_frame_size : ℕ
max_frame_size = 1024 * 1024

-- What is on its way to a socket: the pieces in which it arrives, none of them empty.
abbrev pub Stream : Type 0
Stream = List Bytes

-- `connection.recv(n)`: at most `n` bytes of the next piece, and none at the end of the stream.
abbrev pub recv : ℕ → Stream → Bytes × Stream
recv n [] = ([], [])
recv n (piece ∷ stream) =
    (take n piece, if is_empty (drop n piece) then stream else drop n piece ∷ stream)

-- `while len(chunks) < size`; a round receives a byte at least, so `size` rounds are enough.
unfoldable pub receive_exact : ℕ → ℕ → Stream → Result NetworkError (Bytes × Stream)
receive_exact zero size stream = if size == 0 then ok ([], stream) else err end_of_stream
receive_exact (suc fuel) size stream =
    let chunk = recv size stream in
    let rest = receive_exact fuel (size - length chunk.0) chunk.1 in
    if size == 0
    then ok ([], stream)
    else if is_empty chunk.0
    then err end_of_stream
    else (do more ← rest; ok (chunk.0 ++ more.0, more.1))

-- `struct.pack("!I", n)` and its inverse.
abbrev pub from_be : ℕ → Bytes → ℕ
from_be n [] = n
from_be n (b ∷ bytes) = from_be (n * 256 + b) bytes

abbrev pub packet : Bytes → Bytes
packet frame = to_be 4 (length frame) ++ frame

-- `EthernetEndpoint.send`: the bytes that `sendall` is given.
unfoldable pub send : Bytes → Result NetworkError Bytes
send frame = do
  guard (ltb 0 (length frame) && leb (length frame) max_frame_size) bad_frame_size
  ok (packet frame)

-- `EthernetEndpoint.receive`, of a connection that does not time out.
unfoldable pub receive : Stream → Result NetworkError (Bytes × Stream)
unfolding receive_exact
receive stream = do
  header ← receive_exact 4 4 stream
  let size = from_be 0 header.0
  refuse ((size == 0) || ltb max_frame_size size) invalid_length
  receive_exact size size header.1
