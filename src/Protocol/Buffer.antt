-- ===== src/Protocol/Buffer.antt =====
-- src/protocol/proxy/endpoint.rs: `fill_buffer_from`. A source is what its reads will give: a piece
-- that arrives whole, or an error; at the end it gives nothing. A read takes no more than its slice
-- has room for. The slice is the part of the buffer behind an offset.
use state_proxy.Base.{
  ℕ, zero, suc, ◌+◌, ◌-◌, Bool, List, [], ◌∷◌, ◌++◌, Option, none, some, Text, Outcome, returned,
  panicked, Result, ok, err, length, take, drop, replicate, ltb, leb, ◌==◌, ◌||◌, if◌then◌else◌,
}

abbrev pub max_message_binary_size : ℕ
max_message_binary_size = 1024

abbrev pub message_buffer_size : ℕ
message_buffer_size = max_message_binary_size + 1

pub data Piece : Type 0 where
  arrives : Text → Piece
  breaks : Piece

abbrev pub Source : Type 0
Source = List Piece

pub data ReadError : Type 0 where
  io_error : ReadError

-- A failed read leaves the buffer at its full size, with what was read so far.
pub data FillError : Type 0 where
  io_failed : Text → FillError

-- One `read` into a slice with the given room: the bytes, and what is left of the source.
unfoldable pub read : ℕ → Source → Result ReadError (Text × Source)
read room [] = ok ([], [])
read room (breaks ∷ source) = err io_error
read room (arrives bytes ∷ source) =
    if leb (length bytes) room
    then ok (bytes, source)
    else ok (take room bytes, arrives (drop room bytes) ∷ source)

-- The bytes are written at an offset of the buffer.
unfoldable pub write_at : ℕ → Text → Text → Text
write_at offset bytes buffer = take offset buffer ++ (bytes ++ drop (offset + length bytes) buffer)

-- The loop: the buffer, the offset of the slice, and `in_buffer`. The slice that is taken next
-- starts `in_buffer` further on, and a start behind the end of the slice panics. The result is the
-- buffer and `in_buffer`; `none` means that the fuel ran out.
unfoldable pub fill_loop :
    ℕ → Text → ℕ → ℕ → Source → Option (Outcome (Result FillError (Text × ℕ × Source)))
unfolding read write_at
fill_loop zero buffer offset in_buffer source = none
fill_loop (suc fuel) buffer offset in_buffer source =
    elim (read (message_buffer_size - offset) source) [
      | err e ↦ some (returned (err (io_failed buffer)))
      | ok (bytes, source') ↦
          let total = in_buffer + length bytes in
          let buffer' = write_at offset bytes buffer in
          let rest = fill_loop fuel buffer' (offset + total) total source' in
          if length bytes == 0 || ltb max_message_binary_size total
          then some (returned (ok (buffer', total, source')))
          else if ltb (message_buffer_size - offset) total
          then some panicked
          else rest
    ]

-- `truncate`, and the result of the function.
abbrev pub truncated :
    Result FillError (Text × ℕ × Source) → Result FillError (Text × Bool × Source)
truncated (err e) = err e
truncated (ok (buffer, in_buffer, source)) =
    ok (take in_buffer buffer, ltb in_buffer message_buffer_size, source)

-- Each round but the last reads a byte, so this many rounds are enough.
abbrev pub enough_rounds : ℕ
enough_rounds = message_buffer_size + 1

abbrev pub finish :
    Option (Outcome (Result FillError (Text × ℕ × Source)))
    → Option (Outcome (Result FillError (Text × Bool × Source)))
finish none = none
finish (some panicked) = some panicked
finish (some (returned r)) = some (returned (truncated r))

-- `fill_buffer_from`.
unfoldable pub fill_buffer_from :
    Text → Source → Option (Outcome (Result FillError (Text × Bool × Source)))
fill_buffer_from read_buffer source =
    let in_buffer = length read_buffer in
    if leb in_buffer message_buffer_size
    then finish (
        fill_loop enough_rounds (read_buffer ++ replicate (message_buffer_size - in_buffer) 0)
          in_buffer in_buffer source)
    else some panicked
