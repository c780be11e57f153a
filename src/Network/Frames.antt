-- ===== src/Network/Frames.antt =====
-- Frames survive the way in which a stream is cut into pieces.
use rules_ostest.Iso.{to_be}
use rules_ostest.Bytes.{Bytes}
use rules_ostest.Network.{
  receive_exact, Stream, recv, from_be, send, receive, max_frame_size, bad_frame_size, NetworkError,
  end_of_stream,
}
use mathlib.Core.List.{append_assoc, append-nil}
use rules_ostest.Base.{
  ℕ, zero, suc, ◌-◌, ◌≤◌, ◌<◌, ◌≡◌, refl, sym, ap, ◌∙◌, Bool, true, false, ◌&&◌, ◌||◌, [], ◌∷◌,
  ◌++◌, arith, ltb, leb, ◌==◌, if◌then◌else◌, length, is_empty, take, drop, length-append,
  take-append-drop, length-take, length-drop, take-append, drop-append, All, ◌>>=◌, ok-injective,
  guard-eq-ok, Result, ok, err,
}

abbrev pub HasPieces : Stream → Type 0
HasPieces stream = All (λ piece. 0 < length piece) stream

abbrev pub joined : Stream → Bytes
joined [] = []
joined (piece ∷ stream) = piece ++ joined stream

-- What `recv` takes is the start of the stream.
record IsTaken (n : ℕ) (stream : Stream) (r : Bytes × Stream) : Type 0 where
  whole : r.0 ++ joined r.1 ≡ joined stream
  pieces : HasPieces r.1
  few : length r.0 ≤ n
  some : 0 < n → 0 < length (joined stream) → 0 < length r.0

recv-IsTaken : (n : ℕ) (stream : Stream) → HasPieces stream → IsTaken n stream (recv n stream)
recv-IsTaken n [] h = record { whole = refl; pieces = tt; few = omega arith; some = λ p q. q }
recv-IsTaken n (piece ∷ stream) (h, hs) =
    let start = take n piece in let size = length-take n piece in rest (drop n piece) refl
  where
    rest :
        (left : Bytes)
        → drop n piece ≡ left
        → IsTaken n (piece ∷ stream) (take n piece, if is_empty left then stream else left ∷ stream)
    rest [] e = record {
      whole = ap (◌++ joined stream) (
          sym (append-nil (take n piece))
          ∙ ap (take n piece ++◌) (sym e)
          ∙ take-append-drop n piece);
      pieces = hs;
      few = omega (arith, length-take n piece);
      some = λ p q. omega (arith, length-take n piece);
    }
    rest (b ∷ bs) e = record {
      whole =
          sym (append_assoc (take n piece) (b ∷ bs) (joined stream))
          ∙ ap (◌++ joined stream) (ap (take n piece ++◌) (sym e) ∙ take-append-drop n piece);
      pieces = (omega arith, hs);
      few = omega (arith, length-take n piece);
      some = λ p q. omega (arith, length-take n piece);
    }

take_within : (k : ℕ) (xs ys : Bytes) → k ≤ length xs → take k (xs ++ ys) ≡ take k xs
take_within zero xs ys h = refl
take_within (suc k) [] ys h = absurd (omega arith)
take_within (suc k) (x ∷ xs) ys h = ap (◌∷◌ x) (take_within k xs ys (omega arith))

drop_within : (k : ℕ) (xs ys : Bytes) → k ≤ length xs → drop k (xs ++ ys) ≡ drop k xs ++ ys
drop_within zero xs ys h = refl
drop_within (suc k) [] ys h = absurd (omega arith)
drop_within (suc k) (x ∷ xs) ys h = drop_within k xs ys (omega arith)

is_empty-false : (xs : Bytes) → 0 < length xs → is_empty xs ≡ false
is_empty-false [] h = absurd (omega arith)
is_empty-false (x ∷ xs) h = refl

-- A call of `receive_exact` that returns `bytes` and leaves `rest` to come.
Receives : ℕ → ℕ → Stream → Bytes → Bytes → Type 0
Receives fuel size stream bytes rest =
    (left : Stream) × (receive_exact fuel size stream ≡ ok (bytes, left))
    × HasPieces left
    × (joined left ≡ rest)

nothing-Receives :
    (fuel : ℕ) (stream : Stream) (bytes rest : Bytes)
    → HasPieces stream
    → length bytes ≡ 0
    → joined stream ≡ bytes ++ rest
    → Receives fuel 0 stream bytes rest
unfolding Receives receive_exact
nothing-Receives zero stream [] rest p l e = (stream, refl, p, e)
nothing-Receives (suc fuel) stream [] rest p l e = (stream, refl, p, e)
nothing-Receives fuel stream (b ∷ bytes) rest p l e = absurd (omega arith)

received-step :
    (done : Bool) (chunk : Bytes × Stream) (later : Result NetworkError (Bytes × Stream))
    (stream : Stream) (more : Bytes) (left : Stream)
    → done ≡ false
    → is_empty chunk.0 ≡ false
    → later ≡ ok (more, left)
    → (let outcome : Result NetworkError (Bytes × Stream) =
          if done
          then ok ([], stream)
          else if is_empty chunk.0
          then err end_of_stream
          else (do m ← later; ok (chunk.0 ++ m.0, m.1)) in
        outcome ≡ ok (chunk.0 ++ more, left))
received-step true chunk later stream more left d e l = cc
received-step false chunk later stream more left d e l = rw e (rw l refl)

-- As many bytes as are asked for, whatever the pieces are.
receive_exact-joined :
    (fuel size : ℕ) (stream : Stream) (bytes rest : Bytes)
    → size ≤ fuel
    → HasPieces stream
    → length bytes ≡ size
    → joined stream ≡ bytes ++ rest
    → Receives fuel size stream bytes rest
unfolding Receives receive_exact
receive_exact-joined fuel zero stream bytes rest h p l e =
    nothing-Receives fuel stream bytes rest p l e
receive_exact-joined zero (suc s) stream bytes rest h p l e = absurd (omega arith)
receive_exact-joined (suc fuel) (suc s) stream bytes rest h p l e =
    let r = recv (suc s) stream in
    let t = recv-IsTaken (suc s) stream p in
    let k = length r.0 in
    let start = t.whole ∙ e in
    let long : 0 < length (joined stream) = omega (arith, ap length e, length-append bytes rest) in
    let progress : 0 < k = t.some (omega arith) long in
    let front : r.0 ≡ take k bytes =
      sym (take-append k r.0 (joined r.1) refl)
      ∙ ap (take k) start
      ∙ take_within k bytes rest (omega (arith, t.few)) in
    let back : joined r.1 ≡ drop k bytes ++ rest =
      sym (drop-append k r.0 (joined r.1) refl)
      ∙ ap (drop k) start
      ∙ drop_within k bytes rest (omega (arith, t.few)) in
    let (left, received, pieces, same) =
      receive_exact-joined fuel (suc s - k) r.1 (drop k bytes) rest (omega arith) t.pieces
        (omega (arith, length-drop k bytes)) back in
    let bytes_are : r.0 ++ drop k bytes ≡ bytes =
      ap (◌++ drop k bytes) front ∙ take-append-drop k bytes in
    let more : (suc s == 0) ≡ false = ground arith in
    (
      left,
      received-step (suc s == 0) r (receive_exact fuel (suc s - k) r.1) stream (drop k bytes) left
            more (is_empty-false r.0 progress) received
          ∙ ap (λ b. ok (b, left)) bytes_are,
      pieces,
      same,
    )

from_be-to_be : (n : ℕ) → n < 4294967296 → from_be 0 (to_be 4 n) ≡ n
from_be-to_be n h = omega arith

-- However the bytes of a frame that was sent, and of what follows it, are cut into pieces on
-- their way, none of them empty, `receive` returns the frame and leaves exactly what follows.
pub send-receive :
    (frame sent rest : Bytes) (stream : Stream)
    → send frame ≡ ok sent
    → HasPieces stream
    → joined stream ≡ sent ++ rest
    → (left : Stream) × (receive stream ≡ ok (frame, left)) × HasPieces left × (joined left ≡ rest)
unfolding send receive Receives
send-receive frame sent rest stream e₀ p e =
    let n = length frame in
    let (size, e₁) = guard-eq-ok (ltb 0 n && leb n max_frame_size) bad_frame_size _ e₀ in
    let whole : joined stream ≡ to_be 4 n ++ (frame ++ rest) =
      e ∙ ap (◌++ rest) (sym (ok-injective e₁)) ∙ append_assoc (to_be 4 n) frame rest in
    let (stream', header, p', e') =
      receive_exact-joined 4 4 stream (to_be 4 n) (frame ++ rest) (omega arith) p refl whole in
    let (left, body, p'', e'') =
      receive_exact-joined n n stream' frame rest (omega arith) p' refl e' in
    let fits : from_be 0 (to_be 4 n) ≡ n = from_be-to_be n (ground (arith, size)) in
    let valid : ((n == 0) || ltb max_frame_size n) ≡ false = ground (arith, size) in
    (left, rw header (rw fits (rw valid body)), p'', e'')
