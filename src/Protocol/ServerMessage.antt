-- ===== src/Protocol/ServerMessage.antt =====
-- src/protocol/proxy/endpoint.rs: the messages of the server, and their channel IDs. Bytes and text
-- are lists of numbers.
use state_proxy.Base.{ℕ, Option, none, some, Text, codes, ◌≡◌, refl, arith}

pub data ServerMessageV0 : Type 0 where
  hello : ℕ → Text → ServerMessageV0
  accept : Option ℕ → ServerMessageV0
  deny : Option ℕ → Text → ServerMessageV0
  data_start : Option ℕ → Option ℕ → Option Text → ServerMessageV0
  data_chunk : Option ℕ → ℕ → Option Text → ServerMessageV0
  data_end : Option ℕ → Option Text → ServerMessageV0
  set_state : Option ℕ → Option Text → ServerMessageV0
  open_socket : Option ℕ → ℕ → Text → Text → ServerMessageV0
  socket_data_start : Option ℕ → ℕ → Option ℕ → ServerMessageV0
  close_socket : Option ℕ → ℕ → ServerMessageV0

pub data TakeChannelIdResult : Type 0 where
  id : ℕ → TakeChannelIdResult
  uneeded : TakeChannelIdResult
  missing : TakeChannelIdResult

-- `if let Some(channel_id) = channel_id.take()`.
abbrev pub taken : Option ℕ → TakeChannelIdResult
taken none = missing
taken (some channel_id) = id channel_id

-- `name`: the name of the variant.
unfoldable pub name : ServerMessageV0 → Text
name (hello _ _) = codes "Hello"
name (accept _) = codes "Accept"
name (deny _ _) = codes "Deny"
name (data_start _ _ _) = codes "DataStart"
name (data_chunk _ _ _) = codes "DataChunk"
name (data_end _ _) = codes "DataEnd"
name (set_state _ _) = codes "SetState"
name (open_socket _ _ _ _) = codes "OpenSocket"
name (socket_data_start _ _ _) = codes "SocketDataStart"
name (close_socket _ _) = codes "CloseSocket"

-- `take_channel_id`: the result, and the message with the channel ID taken out.
unfoldable pub take_channel_id : ServerMessageV0 → TakeChannelIdResult × ServerMessageV0
take_channel_id (hello a b) = (uneeded, hello a b)
take_channel_id (accept channel_id) = (taken channel_id, accept none)
take_channel_id (deny channel_id a) = (taken channel_id, deny none a)
take_channel_id (data_start channel_id a b) = (taken channel_id, data_start none a b)
take_channel_id (data_chunk channel_id a b) = (taken channel_id, data_chunk none a b)
take_channel_id (data_end channel_id a) = (taken channel_id, data_end none a)
take_channel_id (set_state channel_id a) = (taken channel_id, set_state none a)
take_channel_id (open_socket channel_id a b c) = (taken channel_id, open_socket none a b c)
take_channel_id (socket_data_start channel_id a b) = (taken channel_id, socket_data_start none a b)
take_channel_id (close_socket channel_id a) = (taken channel_id, close_socket none a)

-- `set_channel_id`.
unfoldable pub set_channel_id : ServerMessageV0 → ℕ → ServerMessageV0
set_channel_id (hello a b) new_channel_id = hello a b
set_channel_id (accept channel_id) new_channel_id = accept (some new_channel_id)
set_channel_id (deny channel_id a) new_channel_id = deny (some new_channel_id) a
set_channel_id (data_start channel_id a b) new_channel_id = data_start (some new_channel_id) a b
set_channel_id (data_chunk channel_id a b) new_channel_id = data_chunk (some new_channel_id) a b
set_channel_id (data_end channel_id a) new_channel_id = data_end (some new_channel_id) a
set_channel_id (set_state channel_id a) new_channel_id = set_state (some new_channel_id) a
set_channel_id (open_socket channel_id a b c) new_channel_id =
    open_socket (some new_channel_id) a b c
set_channel_id (socket_data_start channel_id a b) new_channel_id =
    socket_data_start (some new_channel_id) a b
set_channel_id (close_socket channel_id a) new_channel_id = close_socket (some new_channel_id) a

-- A channel ID that was taken out of a message and is set again gives the message back.
pub set-take_channel_id_server :
    (m : ServerMessageV0) {k : ℕ} {rest : ServerMessageV0}
    → take_channel_id m ≡ (id k, rest)
    → set_channel_id rest k ≡ m
unfolding take_channel_id set_channel_id
set-take_channel_id_server (hello a b) h = cc
set-take_channel_id_server (accept none) h = cc
set-take_channel_id_server (accept (some j)) h = ground arith
set-take_channel_id_server (deny none a) h = cc
set-take_channel_id_server (deny (some j) a) h = ground arith
set-take_channel_id_server (data_start none a b) h = cc
set-take_channel_id_server (data_start (some j) a b) h = ground arith
set-take_channel_id_server (data_chunk none a b) h = cc
set-take_channel_id_server (data_chunk (some j) a b) h = ground arith
set-take_channel_id_server (data_end none a) h = cc
set-take_channel_id_server (data_end (some j) a) h = ground arith
set-take_channel_id_server (set_state none a) h = cc
set-take_channel_id_server (set_state (some j) a) h = ground arith
set-take_channel_id_server (open_socket none a b c) h = cc
set-take_channel_id_server (open_socket (some j) a b c) h = ground arith
set-take_channel_id_server (socket_data_start none a b) h = cc
set-take_channel_id_server (socket_data_start (some j) a b) h = ground arith
set-take_channel_id_server (close_socket none a) h = cc
set-take_channel_id_server (close_socket (some j) a) h = ground arith

-- Setting a channel ID makes it the one that is taken, whatever stood there, and changes nothing
-- else; a `Hello` has none and stays as it is.
pub take-set_channel_id_server :
    (m : ServerMessageV0) (k : ℕ)
    → take_channel_id (set_channel_id m k)
      ≡ (elim (take_channel_id m).0 [ uneeded ↦ uneeded | _ ↦ id k ], (take_channel_id m).1)
unfolding take_channel_id set_channel_id
take-set_channel_id_server (hello a b) k = refl
take-set_channel_id_server (accept none) k = refl
take-set_channel_id_server (accept (some j)) k = refl
take-set_channel_id_server (deny none a) k = refl
take-set_channel_id_server (deny (some j) a) k = refl
take-set_channel_id_server (data_start none a b) k = refl
take-set_channel_id_server (data_start (some j) a b) k = refl
take-set_channel_id_server (data_chunk none a b) k = refl
take-set_channel_id_server (data_chunk (some j) a b) k = refl
take-set_channel_id_server (data_end none a) k = refl
take-set_channel_id_server (data_end (some j) a) k = refl
take-set_channel_id_server (set_state none a) k = refl
take-set_channel_id_server (set_state (some j) a) k = refl
take-set_channel_id_server (open_socket none a b c) k = refl
take-set_channel_id_server (open_socket (some j) a b c) k = refl
take-set_channel_id_server (socket_data_start none a b) k = refl
take-set_channel_id_server (socket_data_start (some j) a b) k = refl
take-set_channel_id_server (close_socket none a) k = refl
take-set_channel_id_server (close_socket (some j) a) k = refl
