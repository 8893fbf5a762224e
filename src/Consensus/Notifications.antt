-- ===== src/Consensus/Notifications.antt =====
-- The messages between the validator and the driver in sawtooth_sdk/consensus/zmq_driver.py, with
-- `StartupState` and `PeerMessage` of sawtooth_sdk/consensus/engine.py. The encoding is consensus_pb2.
use sci_ledger_sawtooth.Prelude.{ℕ, Option, List}
use sci_ledger_sawtooth.Text.{Text, Bytes}
use sci_ledger_sawtooth.Errors.{Result}
use sci_ledger_sawtooth.Consensus.Service.{Block}

pub record PeerInfo : Type 0 where
  pub peer_id : Bytes

pub record PeerHeader : Type 0 where
  pub signer_id : Bytes
  pub content_sha512 : Bytes
  pub message_type : Text
  pub name : Text
  pub version : Text

pub record PeerMessage : Type 0 where
  pub header : PeerHeader
  pub header_bytes : Bytes
  pub header_signature : Bytes
  pub content : Bytes

pub record StartupState : Type 0 where
  pub chain_head : Block
  pub peers : List PeerInfo
  pub local_peer_info : PeerInfo

-- What is put on the queue of updates beside the type of the message.
pub data Update : Type 0 where
  peer_connected : PeerInfo → Update
  peer_disconnected : Bytes → Update
  peer_sent : PeerMessage → Bytes → Update
  block_new : Block → Update
  block_update : Bytes → Update
  no_data : Update

pub record SentMessage : Type 0 where
  pub header : Bytes
  pub header_signature : Bytes
  pub content : Bytes

pub record Registered : Type 0 where
  pub status : ℕ
  pub chain_head : Option Block
  pub peers : List PeerInfo
  pub local_peer_info : Option PeerInfo

-- The messages of consensus_pb2 that the driver reads and writes.
pub record Codec : Type 0 where
  pub register_request : Text → Text → List (Text × Text) → Bytes
  pub register_response : Bytes → Result Registered
  pub activated : Bytes → Result StartupState
  pub peer_connected_of : Bytes → Result PeerInfo
  pub peer_disconnected_of : Bytes → Result Bytes
  pub peer_message_of : Bytes → Result (SentMessage × Bytes)
  pub peer_header_of : Bytes → Result PeerHeader
  pub block_new_of : Bytes → Result Block
  pub block_valid_of : Bytes → Result Bytes
  pub block_invalid_of : Bytes → Result Bytes
  pub block_commit_of : Bytes → Result Bytes
  pub ack : Bytes
