-- ===== src/Client/Endless.antt =====
-- The reading loop on a frame that claims to be empty.
use coconut.Base
use coconut.Base.{
  ℕ, zero, suc, ◌+◌, ◌<◌, ◌≡◌, refl, ap, ◌∙◌, arith, Bool, true, [], ◌++◌, Bytes, drop, int_sign,
  ltb, ok,
}
use coconut.Buffer
use coconut.Client.Frames.{frame_protocol}
use coconut.Client.Read.{out_of_fuel, read_loop, on_read_event, turn}
use coconut.Client.Stream.{Starts}
use coconut.Client.{ClientController}
use coconut.Protocol.Frame
use coconut.Protocol.Frame.Delivery.{with_header}
use coconut.Protocol.Frame.Parse.{IsHeader, encode}
use coconut.Protocol.Frame.Short.{process_read-short_length, process_read-short_size}
use coconut.Protocol.Frame.{FrameProtocol, FrameHeader}

module _ (le : Bool) (h : FrameHeader) (rest : Bytes) (i : IsHeader h) (empty : h.length ≡ 0)
    (room : Base.length rest + 16 < int_sign) where
  read_loop_endless :
      (fuel : ℕ) (c : ClientController FrameProtocol)
      → (read_loop (frame_protocol le) fuel (with_header le h rest) c).0 ≡ ok out_of_fuel
  unfolding read_loop Frame.add_to_reading_buffer Buffer.write
  read_loop_endless zero c = refl
  read_loop_endless (suc fuel) c =
      let short : h.length < 16 = omega arith in
      let (done, _, _, bytes) = process_read-short_length le h rest i short room in
      let size = process_read-short_size le h rest i short room in
      let p = (Frame.process_read le (with_header le h rest)).1 in
      let some_left : ltb 0 (Frame.remaining_buffer_size p) ≡ true = ground (arith, size, empty) in
      let same : Frame.remaining_bytes p ≡ ok (encode le h ++ rest) =
        bytes ∙ ap (λ (n : ℕ). ok (drop n (encode le h ++ rest))) empty in
      ap (λ r. (turn (frame_protocol le) (read_loop (frame_protocol le) fuel) (r, p) c).0) done
      ∙ rw (some_left, same) (read_loop_endless fuel _)

-- A frame whose header has length 0 reaches a controller whose next bytes begin a frame, with any
-- bytes behind it that an int can count: no fuel is enough for the loop to leave, since the bytes
-- that remain behind the frame are again those that were read.
pub on_read_event-endless :
    (le : Bool) (h : FrameHeader) (rest : Bytes) (fuel : ℕ) (c : ClientController FrameProtocol)
    → IsHeader h
    → h.length ≡ 0
    → Base.length rest + 16 < int_sign
    → Starts le c
    → (on_read_event (frame_protocol le) fuel (encode le h ++ rest) c).0 ≡ ok out_of_fuel
unfolding on_read_event Frame.add_to_reading_buffer Buffer.write
on_read_event-endless le h rest fuel c i empty room s =
    rw (s.factory, s.fresh) (read_loop_endless le h rest i empty room fuel _)
