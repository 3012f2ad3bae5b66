-- ===== src/Protocol/Message.antt =====
-- src/protocol/mod.rs: `Message`, over the type of sockets, and `ConnectionState`. The data of a message, its `contents`,
-- is a source of bytes. A cursor over a buffer gives what is left of it, as much as a read has room for.
use state_proxy.Base.{
  ℕ, ◌-◌, ◌^◌, List, [], ◌∷◌, Option, none, some, Text, Outcome, returned, panicked, length, ltb,
  if◌then◌else◌,
}
use state_proxy.Protocol.Buffer.{Source, arrives}

pub record Message (Socket : Type 0) : Type 0 where
  pub contents : Option Source
  pub size : Option ℕ
  pub channel_id : Option ℕ
  pub sockets : List Socket
  pub meta : List (Text × Text)

-- `ConnectionState`.
pub record ConnectionState (Socket : Type 0) : Type 0 where
  pub stream : Option Socket
  pub internal : Text

-- `Cursor::new`.
abbrev pub cursor : Text → Source
cursor [] = []
cursor (byte ∷ bytes) = arrives (byte ∷ bytes) ∷ []

-- The largest `u64`.
abbrev pub max_size : ℕ
max_size = 2 ^ 64 - 1

module _ {Socket : Type 0} where
  unfoldable pub default_message : Message Socket
  default_message = record {
    contents = none;
    size = none;
    channel_id = none;
    sockets = [];
    meta = [];
  }

  -- `with_data`.
  unfoldable pub with_data : Source → Message Socket
  with_data source = record default_message { contents = some source }

  -- `with_data_from_buffer`: a length that does not fit a `u64` panics.
  unfoldable pub with_data_from_buffer : Text → Outcome (Message Socket)
  with_data_from_buffer buffer =
      if ltb max_size (length buffer)
      then panicked
      else returned (record (with_data (cursor buffer)) { size = some (length buffer) })
