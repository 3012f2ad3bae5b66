-- ===== src/Protocol/Rounds.antt =====
-- `fill_buffer_from` round by round: where it is right, and where its slice has moved too far.
use mathlib.Core.List.{append_assoc}
use state_proxy.Base.{
  ℕ, ◌+◌, ◌-◌, ◌*◌, ◌≤◌, ◌<◌, true, [], ◌∷◌, ◌++◌, some, Text, returned, panicked, ok, length, take,
  length-append, length-replicate, length-pos, ◌≡◌, ◌≢◌, sym, ◌∙◌, ap, arith,
}
use state_proxy.Protocol.Buffer.{
  arrives, Source, write_at, fill_loop, fill_buffer_from, message_buffer_size,
  max_message_binary_size, finish,
}
use state_proxy.Protocol.Slices.{
  zeros, round, round_panics, round_end, zeros-split, write_first, write_at-nil, filled, finish-eq,
  take_exact, take-write_at,
}

module _ (read_buffer piece : Text) (some_bytes : piece ≢ [])
    (small : length read_buffer + length piece ≤ max_message_binary_size) where
  room_left : ℕ
  room_left = message_buffer_size - length read_buffer

  first :
      (source : Source)
      → 2 * length read_buffer + length piece ≤ message_buffer_size
      → fill_buffer_from read_buffer (arrives piece ∷ source)
        ≡ finish (
            fill_loop message_buffer_size
              (read_buffer ++ (piece ++ zeros (room_left - length piece)))
              (length read_buffer + (length read_buffer + length piece))
              (length read_buffer + length piece)
              source)
  unfolding room_left
  first source in_range =
      let start = length read_buffer in
      filled read_buffer (arrives piece ∷ source) (omega arith)
      ∙ ap finish (
          round message_buffer_size (read_buffer ++ zeros room_left) start start piece source
            some_bytes (omega arith) small (omega arith)
          ∙ ap
              (λ (b : Text).
                fill_loop message_buffer_size b (start + (start + length piece))
                  (start + length piece) source)
              (write_first read_buffer piece room_left (omega arith)))

  -- A piece that arrives in one read is put behind what the buffer held, if both fit a message and
  -- what the buffer held fits twice.
  pub fill_buffer_from-one_read :
      2 * length read_buffer + length piece ≤ message_buffer_size
      → fill_buffer_from read_buffer (arrives piece ∷ [])
        ≡ some (returned (ok (read_buffer ++ piece, true, [])))
  fill_buffer_from-one_read in_range =
      let start = length read_buffer in
      let buffer = read_buffer ++ (piece ++ zeros (room_left - length piece)) in
      first [] in_range
      ∙ ap finish (
          round_end max_message_binary_size buffer (start + (start + length piece))
            (start + length piece))
      ∙ finish-eq (write_at (start + (start + length piece)) [] buffer) (read_buffer ++ piece)
          (start + length piece + 0) [] (omega arith)
          (ap (take (start + length piece + 0)) (
              write_at-nil (start + (start + length piece)) buffer
              ∙ sym (append_assoc read_buffer piece (zeros (room_left - length piece))))
            ∙ take_exact (read_buffer ++ piece) (zeros (room_left - length piece))
                (start + length piece + 0) (omega (arith, length-append {0} read_buffer piece)))

  -- If the first read leaves room for a message, but what the buffer held does not fit a second
  -- time, the slice moves behind its end and the task panics, whatever comes next.
  pub fill_buffer_from-panics :
      (source : Source)
      → message_buffer_size < 2 * length read_buffer + length piece
      → fill_buffer_from read_buffer (arrives piece ∷ source) ≡ some panicked
  unfolding room_left
  fill_buffer_from-panics source beyond =
      let start = length read_buffer in
      filled read_buffer (arrives piece ∷ source) (omega arith)
      ∙ ap finish (
          round_panics message_buffer_size (read_buffer ++ zeros room_left) start start piece source
            some_bytes (omega arith) small (omega arith))

-- Let a message come in two reads, neither of them empty, of which the second is no longer than what the
-- buffer held, and let three times what the buffer held, twice the first read and the second fit the buffer
-- together. The slice has moved too far by the length of what the buffer held, so the second piece is lost:
-- zeros stand in its place, and the call succeeds.
pub fill_buffer_from-loses :
    (read_buffer piece lost : Text)
    → piece ≢ []
    → lost ≢ []
    → length lost ≤ length read_buffer
    → 3 * length read_buffer + 2 * length piece + length lost ≤ message_buffer_size
    → fill_buffer_from read_buffer (arrives piece ∷ arrives lost ∷ [])
      ≡ some (returned (ok (read_buffer ++ (piece ++ zeros (length lost)), true, [])))
unfolding room_left
fill_buffer_from-loses read_buffer piece lost some_piece some_lost short fits =
    let p = length-pos piece some_piece in
    let q = length-pos lost some_lost in
    let start = length read_buffer in
    let total = start + length piece in
    let offset = start + total in
    let m = room_left read_buffer piece some_piece (omega arith) - length piece in
    let buffer = read_buffer ++ (piece ++ zeros m) in
    let written = write_at offset lost buffer in
    let whole : length buffer ≡ start + (length piece + m) = omega (
      arith,
      length-append {0} read_buffer (piece ++ zeros m),
      length-append {0} piece (zeros m),
      length-replicate {0} {A = ℕ} m 0,
    ) in
    let apart : buffer
        ≡ (read_buffer ++ (piece ++ zeros (length lost))) ++ zeros (m - length lost) =
      ap (λ (t : Text). read_buffer ++ (piece ++ t)) (zeros-split (length lost) m (omega arith))
      ∙ ap (λ (t : Text). read_buffer ++ t)
          (sym (append_assoc piece (zeros (length lost)) (zeros (m - length lost))))
      ∙ sym (append_assoc read_buffer (piece ++ zeros (length lost)) (zeros (m - length lost))) in
    let size : total + length lost + 0 ≡ length (read_buffer ++ (piece ++ zeros (length lost))) =
      omega (
        arith,
        length-append {0} read_buffer (piece ++ zeros (length lost)),
        length-append {0} piece (zeros (length lost)),
        length-replicate {0} {A = ℕ} (length lost) 0,
      ) in
    first read_buffer piece some_piece (omega arith) (arrives lost ∷ []) (omega arith)
    ∙ ap finish (
        round max_message_binary_size buffer offset total lost [] some_lost (omega arith)
          (omega arith) (omega arith)
        ∙ round_end 1023 written (offset + (total + length lost)) (total + length lost))
    ∙ finish-eq (write_at (offset + (total + length lost)) [] written)
        (read_buffer ++ (piece ++ zeros (length lost))) (total + length lost + 0) [] (omega arith)
        (ap (take (total + length lost + 0)) (write_at-nil (offset + (total + length lost)) written)
          ∙ take-write_at (total + length lost + 0) offset lost buffer (omega arith) (omega arith)
          ∙ ap (take (total + length lost + 0)) apart
          ∙ take_exact (read_buffer ++ (piece ++ zeros (length lost))) (zeros (m - length lost))
              (total + length lost + 0) size)
