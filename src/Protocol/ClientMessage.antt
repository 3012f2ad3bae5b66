-- ===== src/Protocol/ClientMessage.antt =====
-- src/protocol/proxy/endpoint.rs: the messages of the client, and their channel IDs.
use state_proxy.Base.{ℕ, Option, none, some, Text, codes, List, ◌≡◌, refl, arith}
use state_proxy.Backend.Endpoint.{SocketAddr}
use state_proxy.Protocol.ServerMessage.{TakeChannelIdResult, id, uneeded, taken}

pub data ClientMessageV0 : Type 0 where
  hello : ℕ → List Text → ClientMessageV0
  new_channel : Option ℕ → SocketAddr → ClientMessageV0
  recover_channel : Option ℕ → SocketAddr → Text → ClientMessageV0
  close_channel : Option ℕ → Option Text → ClientMessageV0
  data_start : Option ℕ → Option ℕ → ClientMessageV0
  data_chunk : Option ℕ → Option ℕ → ClientMessageV0
  data_end : Option ℕ → ClientMessageV0
  socket_opened : Option ℕ → ℕ → ClientMessageV0
  socket_not_opened : Option ℕ → ℕ → Text → ClientMessageV0
  socket_error : Option ℕ → ℕ → Text → ClientMessageV0
  socket_data_start : Option ℕ → ℕ → Option ℕ → ClientMessageV0
  socket_closed : Option ℕ → ℕ → ClientMessageV0

-- `name`: the name of the variant.
unfoldable pub name : ClientMessageV0 → Text
name (hello _ _) = codes "Hello"
name (new_channel _ _) = codes "NewChannel"
name (recover_channel _ _ _) = codes "RecoverChannel"
name (close_channel _ _) = codes "CloseChannel"
name (data_start _ _) = codes "DataStart"
name (data_chunk _ _) = codes "DataChunk"
name (data_end _) = codes "DataEnd"
name (socket_opened _ _) = codes "SocketOpened"
name (socket_not_opened _ _ _) = codes "SocketNotOpened"
name (socket_error _ _ _) = codes "SocketError"
name (socket_data_start _ _ _) = codes "SocketDataStart"
name (socket_closed _ _) = codes "SocketClosed"

-- `take_channel_id`: the result, and the message with the channel ID taken out.
unfoldable pub take_channel_id : ClientMessageV0 → TakeChannelIdResult × ClientMessageV0
take_channel_id (hello a b) = (uneeded, hello a b)
take_channel_id (new_channel channel_id a) = (taken channel_id, new_channel none a)
take_channel_id (recover_channel channel_id a b) = (taken channel_id, recover_channel none a b)
take_channel_id (close_channel channel_id a) = (taken channel_id, close_channel none a)
take_channel_id (data_start channel_id a) = (taken channel_id, data_start none a)
take_channel_id (data_chunk channel_id a) = (taken channel_id, data_chunk none a)
take_channel_id (data_end channel_id) = (taken channel_id, data_end none)
take_channel_id (socket_opened channel_id a) = (taken channel_id, socket_opened none a)
take_channel_id (socket_not_opened channel_id a b) = (taken channel_id, socket_not_opened none a b)
take_channel_id (socket_error channel_id a b) = (taken channel_id, socket_error none a b)
take_channel_id (socket_data_start channel_id a b) = (taken channel_id, socket_data_start none a b)
take_channel_id (socket_closed channel_id a) = (taken channel_id, socket_closed none a)

-- `set_channel_id`.
unfoldable pub set_channel_id : ClientMessageV0 → ℕ → ClientMessageV0
set_channel_id (hello a b) new_channel_id = hello a b
set_channel_id (new_channel channel_id a) new_channel_id = new_channel (some new_channel_id) a
set_channel_id (recover_channel channel_id a b) new_channel_id =
    recover_channel (some new_channel_id) a b
set_channel_id (close_channel channel_id a) new_channel_id = close_channel (some new_channel_id) a
set_channel_id (data_start channel_id a) new_channel_id = data_start (some new_channel_id) a
set_channel_id (data_chunk channel_id a) new_channel_id = data_chunk (some new_channel_id) a
set_channel_id (data_end channel_id) new_channel_id = data_end (some new_channel_id)
set_channel_id (socket_opened channel_id a) new_channel_id = socket_opened (some new_channel_id) a
set_channel_id (socket_not_opened channel_id a b) new_channel_id =
    socket_not_opened (some new_channel_id) a b
set_channel_id (socket_error channel_id a b) new_channel_id = socket_error (some new_channel_id) a b
set_channel_id (socket_data_start channel_id a b) new_channel_id =
    socket_data_start (some new_channel_id) a b
set_channel_id (socket_closed channel_id a) new_channel_id = socket_closed (some new_channel_id) a

-- A channel ID that was taken out of a message and is set again gives the message back.
pub set-take_channel_id :
    (m : ClientMessageV0) {k : ℕ} {rest : ClientMessageV0}
    → take_channel_id m ≡ (id k, rest)
    → set_channel_id rest k ≡ m
unfolding take_channel_id set_channel_id
set-take_channel_id (hello a b) h = cc
set-take_channel_id (new_channel none a) h = cc
set-take_channel_id (new_channel (some j) a) h = ground arith
set-take_channel_id (recover_channel none a b) h = cc
set-take_channel_id (recover_channel (some j) a b) h = ground arith
set-take_channel_id (close_channel none a) h = cc
set-take_channel_id (close_channel (some j) a) h = ground arith
set-take_channel_id (data_start none a) h = cc
set-take_channel_id (data_start (some j) a) h = ground arith
set-take_channel_id (data_chunk none a) h = cc
set-take_channel_id (data_chunk (some j) a) h = ground arith
set-take_channel_id (data_end none) h = cc
set-take_channel_id (data_end (some j)) h = ground arith
set-take_channel_id (socket_opened none a) h = cc
set-take_channel_id (socket_opened (some j) a) h = ground arith
set-take_channel_id (socket_not_opened none a b) h = cc
set-take_channel_id (socket_not_opened (some j) a b) h = ground arith
set-take_channel_id (socket_error none a b) h = cc
set-take_channel_id (socket_error (some j) a b) h = ground arith
set-take_channel_id (socket_data_start none a b) h = cc
set-take_channel_id (socket_data_start (some j) a b) h = ground arith
set-take_channel_id (socket_closed none a) h = cc
set-take_channel_id (socket_closed (some j) a) h = ground arith

-- Setting a channel ID makes it the one that is taken, whatever stood there, and changes nothing
-- else; a `Hello` has none and stays as it is.
pub take-set_channel_id :
    (m : ClientMessageV0) (k : ℕ)
    → take_channel_id (set_channel_id m k)
      ≡ (elim (take_channel_id m).0 [ uneeded ↦ uneeded | _ ↦ id k ], (take_channel_id m).1)
unfolding take_channel_id set_channel_id
take-set_channel_id (hello a b) k = refl
take-set_channel_id (new_channel none a) k = refl
take-set_channel_id (new_channel (some j) a) k = refl
take-set_channel_id (recover_channel none a b) k = refl
take-set_channel_id (recover_channel (some j) a b) k = refl
take-set_channel_id (close_channel none a) k = refl
take-set_channel_id (close_channel (some j) a) k = refl
take-set_channel_id (data_start none a) k = refl
take-set_channel_id (data_start (some j) a) k = refl
take-set_channel_id (data_chunk none a) k = refl
take-set_channel_id (data_chunk (some j) a) k = refl
take-set_channel_id (data_end none) k = refl
take-set_channel_id (data_end (some j)) k = refl
take-set_channel_id (socket_opened none a) k = refl
take-set_channel_id (socket_opened (some j) a) k = refl
take-set_channel_id (socket_not_opened none a b) k = refl
take-set_channel_id (socket_not_opened (some j) a b) k = refl
take-set_channel_id (socket_error none a b) k = refl
take-set_channel_id (socket_error (some j) a b) k = refl
take-set_channel_id (socket_data_start none a b) k = refl
take-set_channel_id (socket_data_start (some j) a b) k = refl
take-set_channel_id (socket_closed none a) k = refl
take-set_channel_id (socket_closed (some j) a) k = refl
