-- ===== src/Protocol/Slices.antt =====
-- One round of `fill_buffer_from`, and writes into a buffer.
use mathlib.Core.List.{append_assoc}
use state_proxy.Base.{
  lt→ltb, ℕ, zero, suc, ◌+◌, ◌-◌, ◌≤◌, ◌<◌, true, [], ◌∷◌, ◌++◌, some, Text, returned, panicked, ok,
  length, take, drop, replicate, length-append, length-replicate, length-pos, take-append-drop,
  drop_left, take_left, ◌≡◌, ◌≢◌, refl, sym, ◌∙◌, ap, arith,
}
use state_proxy.Protocol.Buffer.{
  arrives, Source, read, write_at, fill_loop, fill_buffer_from, message_buffer_size,
  max_message_binary_size, enough_rounds, finish,
}

abbrev pub zeros : ℕ → Text
zeros n = replicate n 0

-- A round that reads a whole piece and goes on with the slice in range.
pub round :
    (fuel : ℕ) (buffer : Text) (offset in_buffer : ℕ) (piece : Text) (source : Source)
    → piece ≢ []
    → offset + length piece ≤ message_buffer_size
    → in_buffer + length piece ≤ max_message_binary_size
    → offset + (in_buffer + length piece) ≤ message_buffer_size
    → fill_loop (suc fuel) buffer offset in_buffer (arrives piece ∷ source)
      ≡ fill_loop fuel
          (write_at offset piece buffer)
          (offset + (in_buffer + length piece))
          (in_buffer + length piece)
          source
unfolding fill_loop read
round fuel buffer offset in_buffer piece source some_bytes fits small in_range =
    let positive = length-pos piece some_bytes in ground arith

-- A round behind which the slice would start behind its end.
pub round_panics :
    (fuel : ℕ) (buffer : Text) (offset in_buffer : ℕ) (piece : Text) (source : Source)
    → piece ≢ []
    → offset + length piece ≤ message_buffer_size
    → in_buffer + length piece ≤ max_message_binary_size
    → message_buffer_size < offset + (in_buffer + length piece)
    → fill_loop (suc fuel) buffer offset in_buffer (arrives piece ∷ source) ≡ some panicked
unfolding fill_loop read
round_panics fuel buffer offset in_buffer piece source some_bytes fits small beyond =
    let positive = length-pos piece some_bytes in ground arith

-- The round that finds the end of the source.
pub round_end :
    (fuel : ℕ) (buffer : Text) (offset in_buffer : ℕ)
    → fill_loop (suc fuel) buffer offset in_buffer []
      ≡ some (returned (ok (write_at offset [] buffer, in_buffer + 0, [])))
unfolding fill_loop read
round_end fuel buffer offset in_buffer = refl

write_at-append :
    (left bytes middle right : Text)
    → length middle ≡ length bytes
    → write_at (length left) bytes (left ++ (middle ++ right)) ≡ left ++ (bytes ++ right)
unfolding write_at
write_at-append left bytes middle right same =
    let front = take_left left (middle ++ right) in
    let there : length left + length bytes ≡ length (left ++ middle) =
      omega (arith, length-append {0} left middle) in
    let back : drop (length left + length bytes) (left ++ (middle ++ right)) ≡ right =
      ap (λ (n : ℕ). drop n (left ++ (middle ++ right))) there
      ∙ ap (drop (length (left ++ middle))) (sym (append_assoc left middle right))
      ∙ drop_left (left ++ middle) right in
    ap (λ (t : Text). t ++ (bytes ++ drop (length left + length bytes) (left ++ (middle ++ right))))
      front
    ∙ ap (λ (t : Text). left ++ (bytes ++ t)) back

pub zeros-split : (m n : ℕ) → m ≤ n → zeros n ≡ zeros m ++ zeros (n - m)
zeros-split zero n le = ap zeros (omega arith)
zeros-split (suc m) zero le = elim le [ ]
zeros-split (suc m) (suc n) le =
    ap (◌∷◌ 0) (zeros-split m n (omega arith) ∙ ap (λ (k : ℕ). zeros m ++ zeros k) (omega arith))

-- A first piece goes behind what is in the buffer.
pub write_first :
    (read_buffer piece : Text) (n : ℕ)
    → length piece ≤ n
    → write_at (length read_buffer) piece (read_buffer ++ zeros n)
      ≡ read_buffer ++ (piece ++ zeros (n - length piece))
write_first read_buffer piece n le =
    ap (λ (t : Text). write_at (length read_buffer) piece (read_buffer ++ t))
      (zeros-split (length piece) n le)
    ∙ write_at-append read_buffer piece (zeros (length piece)) (zeros (n - length piece))
        (length-replicate {0} {A = ℕ} (length piece) 0)

pub write_at-nil : (offset : ℕ) (buffer : Text) → write_at offset [] buffer ≡ buffer
unfolding write_at
write_at-nil offset buffer =
    ap (λ (n : ℕ). take offset buffer ++ drop n buffer) (omega arith)
    ∙ take-append-drop offset buffer

pub filled :
    (read_buffer : Text) (source : Source)
    → length read_buffer ≤ message_buffer_size
    → fill_buffer_from read_buffer source
      ≡ finish (
          fill_loop enough_rounds
            (read_buffer ++ zeros (message_buffer_size - length read_buffer))
            (length read_buffer)
            (length read_buffer)
            source)
unfolding fill_buffer_from
filled read_buffer source le = ground arith

-- `truncate` at the end of what was read.
pub finish-eq :
    (buffer out : Text) (total : ℕ) (source : Source)
    → total ≤ max_message_binary_size
    → take total buffer ≡ out
    → finish (some (returned (ok (buffer, total, source))))
      ≡ some (returned (ok (out, true, source)))
finish-eq buffer out total source small cut =
    let room = lt→ltb total message_buffer_size (omega arith) in rw (cut, room)

pub take_exact : (out tail : Text) (total : ℕ) → total ≡ length out → take total (out ++ tail) ≡ out
take_exact out tail total same = rw same (take_left out tail)

take-take-append :
    (m k : ℕ) (xs ys : Text) → m ≤ k → k ≤ length xs → take m (take k xs ++ ys) ≡ take m xs
take-take-append zero k xs ys le h = refl
take-take-append (suc m) zero xs ys le h = elim le [ ]
take-take-append (suc m) (suc k) [] ys le h = elim h [ ]
take-take-append (suc m) (suc k) (x ∷ xs) ys le h =
    ap (◌∷◌ x) (take-take-append m k xs ys (omega arith) (omega arith))

-- A write behind the first bytes leaves them.
pub take-write_at :
    (total offset : ℕ) (bytes buffer : Text)
    → total ≤ offset
    → offset ≤ length buffer
    → take total (write_at offset bytes buffer) ≡ take total buffer
unfolding write_at
take-write_at total offset bytes buffer le h =
    take-take-append total offset buffer (bytes ++ drop (offset + length bytes) buffer) le h
