-- ===== src/Protocol/Filling.antt =====
-- What `fill_buffer_from` leaves in the buffer, and where it goes wrong.
use state_proxy.Base.{
  ℕ, zero, suc, ◌+◌, ◌-◌, ◌≤◌, ◌<◌, Bool, true, [], ◌∷◌, ◌++◌, Option, none, some, Text, Outcome,
  returned, panicked, Result, ok, err, length, take, drop, replicate, ltb, leb, length-append,
  length-replicate, length-drop, length-take, length-take-le, ◌≡◌, ◌≢◌, ◌⊎◌, refl, arith,
  Bool-cases, inl, inr,
}
use state_proxy.Protocol.Buffer.{
  arrives, breaks, Source, read, ReadError, FillError, io_failed, io_error, write_at, fill_loop,
  fill_buffer_from, message_buffer_size, enough_rounds, finish,
}

read-le :
    (room : ℕ) (source : Source) {bytes : Text} {rest : Source}
    → read room source ≡ ok (bytes, rest)
    → length bytes ≤ room
unfolding read
read-le room [] h = ground arith
read-le room (breaks ∷ source) h = cc
read-le room (arrives a ∷ source) h = elim (Bool-cases (leb (length a) room)) [
  | inl fits ↦ ground arith
  | inr over ↦ ground (arith, length-take-le room a)
]

read-cases :
    (room : ℕ) (source : Source)
    → (read room source ≡ err io_error)
      ⊎ ((bytes : Text) × (rest : Source) × (read room source ≡ ok (bytes, rest)))
read-cases room source = go (read room source) refl
  where
    go :
        (r : Result ReadError (Text × Source))
        → read room source ≡ r
        → (read room source ≡ err io_error)
          ⊎ ((bytes : Text) × (rest : Source) × (read room source ≡ ok (bytes, rest)))
    go (ok (bytes, rest)) e = inr (bytes, rest, e)
    go (err io_error) e = inl e

length-write_at :
    (offset : ℕ) (bytes buffer : Text)
    → offset + length bytes ≤ length buffer
    → length (write_at offset bytes buffer) ≡ length buffer
unfolding write_at
length-write_at offset bytes buffer h = omega (
  arith,
  length-append {0} (take offset buffer) (bytes ++ drop (offset + length bytes) buffer),
  length-append {0} bytes (drop (offset + length bytes) buffer),
  length-drop {0} (offset + length bytes) buffer,
  length-take {0} offset buffer,
)

-- Each round reads a byte or is the last.
fill_loop-ne-none :
    (fuel : ℕ) (buffer : Text) (offset in_buffer : ℕ) (source : Source)
    → message_buffer_size < in_buffer + fuel
    → in_buffer ≤ message_buffer_size
    → fill_loop fuel buffer offset in_buffer source ≢ none
unfolding fill_loop
fill_loop-ne-none zero buffer offset in_buffer source h le = absurd (omega arith)
fill_loop-ne-none (suc fuel) buffer offset in_buffer source h le =
    elim (read-cases (message_buffer_size - offset) source) [
      | inl e ↦ rw (e, fill_loop) (λ c. cc)
      | inr (bytes, rest, e) ↦
          let total = in_buffer + length bytes in
          let ih =
            fill_loop-ne-none fuel (write_at offset bytes buffer) (offset + total) total rest in
          rw (e, fill_loop) (ground (arith, ih))
    ]

finish-ne-none :
    (o : Option (Outcome (Result FillError (Text × ℕ × Source)))) → o ≢ none → finish o ≢ none
finish-ne-none none h = λ _. h refl
finish-ne-none (some panicked) h = λ c. cc
finish-ne-none (some (returned r)) h = λ c. cc

-- The buffer is filled in finitely many rounds, whatever the source gives.
pub fill_buffer_from-ne-none :
    (read_buffer : Text) (source : Source) → fill_buffer_from read_buffer source ≢ none
unfolding fill_buffer_from
fill_buffer_from-ne-none read_buffer source =
    elim (Bool-cases (leb (length read_buffer) message_buffer_size)) [
      | inl fits ↦
          let start = length read_buffer in
          let buffer = read_buffer ++ replicate (message_buffer_size - start) 0 in
          rw fits (
            finish-ne-none (fill_loop enough_rounds buffer start start source) (
              fill_loop-ne-none enough_rounds buffer start start source (omega arith)
                (ground arith)))
      | inr over ↦ rw over (λ c. cc)
    ]

record Fits (buffer : Text) (offset in_buffer : ℕ) : Type 0 where
  whole : length buffer ≡ message_buffer_size
  inside : in_buffer ≤ offset
  room : offset ≤ message_buffer_size

fill_loop-Fits :
    (fuel : ℕ) (buffer : Text) (offset in_buffer : ℕ) (source : Source) {out : Text} {total : ℕ}
    {rest : Source}
    → Fits buffer offset in_buffer
    → fill_loop fuel buffer offset in_buffer source ≡ some (returned (ok (out, total, rest)))
    → (length out ≡ message_buffer_size) × (total ≤ message_buffer_size)
unfolding fill_loop
fill_loop-Fits zero buffer offset in_buffer source f h = cc
fill_loop-Fits (suc fuel) buffer offset in_buffer source {out} {total} {rest} f h =
    elim (read-cases (message_buffer_size - offset) source) [
      | inl e ↦ absurd (ground arith)
      | inr (bytes, later, e) ↦
          let next = in_buffer + length bytes in
          let small = read-le (message_buffer_size - offset) source e in
          let kept = length-write_at offset bytes buffer in
          let ih =
            fill_loop-Fits fuel (write_at offset bytes buffer) (offset + next) next later
              {out = out} {total = total} {rest = rest} in
          ground (arith, ih)
    ]

start_Fits :
    (read_buffer : Text)
    → leb (length read_buffer) message_buffer_size ≡ true
    → Fits
        (read_buffer ++ replicate (message_buffer_size - length read_buffer) 0)
        (length read_buffer)
        (length read_buffer)
start_Fits read_buffer fits =
    let n = message_buffer_size - length read_buffer in
    let zeros : Text = replicate n 0 in
    let parts = length-append {0} read_buffer zeros in
    let size = length-replicate {0} {A = ℕ} n 0 in
    record { whole = ground arith; inside = omega arith; room = ground arith }

finished :
    (o : Option (Outcome (Result FillError (Text × ℕ × Source)))) {out : Text} {is_exhausted : Bool}
    {rest : Source}
    → ((all : Text) (total : ℕ) (later : Source)
        → o ≡ some (returned (ok (all, total, later)))
        → (length all ≡ message_buffer_size) × (total ≤ message_buffer_size))
    → finish o ≡ some (returned (ok (out, is_exhausted, rest)))
    → (length out ≤ message_buffer_size) × (is_exhausted ≡ ltb (length out) message_buffer_size)
finished none k h = cc
finished (some panicked) k h = cc
finished (some (returned (err e))) k h = absurd (ground arith)
finished (some (returned (ok (all, total, later)))) k h =
    let (whole, small) = k all total later refl in
    let cut = length-take {0} total all in ground arith

-- What comes back fits the buffer, and the flag says whether there is room left in it.
pub fill_buffer_from-length-le :
    (read_buffer : Text) (source : Source) {out : Text} {is_exhausted : Bool} {rest : Source}
    → fill_buffer_from read_buffer source ≡ some (returned (ok (out, is_exhausted, rest)))
    → (length out ≤ message_buffer_size) × (is_exhausted ≡ ltb (length out) message_buffer_size)
unfolding fill_buffer_from
fill_buffer_from-length-le read_buffer source {out} {is_exhausted} {rest} h =
    elim (Bool-cases (leb (length read_buffer) message_buffer_size)) [
      | inl fits ↦
          let start = length read_buffer in
          let buffer = read_buffer ++ replicate (message_buffer_size - start) 0 in
          finished (fill_loop enough_rounds buffer start start source) {out = out}
            {is_exhausted = is_exhausted} {rest = rest}
            (λ all total later e.
              fill_loop-Fits enough_rounds buffer start start source (start_Fits read_buffer fits)
                e)
            (ground arith)
      | inr over ↦ absurd (ground arith)
    ]

fill_loop_failed :
    (fuel : ℕ) (buffer : Text) (offset in_buffer : ℕ) (source : Source) {left : Text}
    → Fits buffer offset in_buffer
    → fill_loop fuel buffer offset in_buffer source ≡ some (returned (err (io_failed left)))
    → length left ≡ message_buffer_size
unfolding fill_loop
fill_loop_failed zero buffer offset in_buffer source f h = cc
fill_loop_failed (suc fuel) buffer offset in_buffer source {left} f h =
    elim (read-cases (message_buffer_size - offset) source) [
      | inl e ↦ ground arith
      | inr (bytes, later, e) ↦
          let next = in_buffer + length bytes in
          let small = read-le (message_buffer_size - offset) source e in
          let kept = length-write_at offset bytes buffer in
          let ih =
            fill_loop_failed fuel (write_at offset bytes buffer) (offset + next) next later
              {left = left} in
          ground (arith, ih)
    ]

finish_failed :
    (o : Option (Outcome (Result FillError (Text × ℕ × Source)))) {left : Text}
    → finish o ≡ some (returned (err (io_failed left)))
    → o ≡ some (returned (err (io_failed left)))
finish_failed none h = cc
finish_failed (some panicked) h = cc
finish_failed (some (returned (err e))) h = ground arith
finish_failed (some (returned (ok (all, total, later)))) h = absurd (ground arith)

-- A failed read leaves a full buffer.
pub fill_buffer_from_failed :
    (read_buffer : Text) (source : Source) {left : Text}
    → fill_buffer_from read_buffer source ≡ some (returned (err (io_failed left)))
    → length left ≡ message_buffer_size
unfolding fill_buffer_from
fill_buffer_from_failed read_buffer source {left} h =
    elim (Bool-cases (leb (length read_buffer) message_buffer_size)) [
      | inl fits ↦
          let start = length read_buffer in
          let buffer = read_buffer ++ replicate (message_buffer_size - start) 0 in
          fill_loop_failed enough_rounds buffer start start source (start_Fits read_buffer fits)
            (finish_failed (fill_loop enough_rounds buffer start start source) (ground arith))
      | inr over ↦ absurd (ground arith)
    ]
