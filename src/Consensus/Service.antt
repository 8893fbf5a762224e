-- ===== src/Consensus/Service.antt =====
-- `ZmqService` of sawtooth_sdk/consensus/zmq_service.py. The encoding of the requests and responses
-- is the generated consensus_pb2, a parameter; the numbers of the statuses are those of its
-- enumerations.
pub mod Outcomes
pub mod Interface
use sci_ledger_sawtooth.Prelude.{ℕ, Bool, not, Option, none, some, List, [], ◌∷◌, ◌==◌}
use sci_ledger_sawtooth.Text.{Text, Bytes, truthy}
use sci_ledger_sawtooth.Dict.{Dict, put}
use sci_ledger_sawtooth.Errors.{
  Exn, Result, plain, format, number, invalid_state, unknown_block, block_not_ready, no_chain_head,
  receive_error,
}
use sci_ledger_sawtooth.Action.{Action, pure, lift, raise_if, ◌>>=◌, ◌>>◌}
use sci_ledger_sawtooth.Messaging.{Link, content_of}

-- A ConsensusBlock, and the fields that `Block` takes from it.
pub record Block : Type 0 where
  pub block_id : Bytes
  pub previous_id : Bytes
  pub signer_id : Bytes
  pub block_num : ℕ
  pub payload : Bytes
  pub summary : Bytes

-- The requests, with the fields that the calls fill in.
pub data Request : Type 0 where
  send_to_request : Bytes → Text → Bytes → Request
  broadcast_request : Text → Bytes → Request
  initialize_request : Option Bytes → Request
  summarize_request : Request
  finalize_request : Bytes → Request
  cancel_request : Request
  check_request : List Bytes → Request
  commit_request : Bytes → Request
  ignore_request : Bytes → Request
  fail_request : Bytes → Request
  blocks_request : List Bytes → Request
  chain_head_request : Request
  settings_request : Bytes → List Text → Request
  state_request : Bytes → List Text → Request

pub record Response (A : Type 0) : Type 0 where
  pub status : ℕ
  pub body : A

-- A response without a body is parsed by the type that belongs to the request's number.
pub record Codec : Type 0 where
  pub serialize : Request → Bytes
  pub parse_plain : ℕ → Bytes → Result (Response (Unit {0}))
  pub parse_summary : Bytes → Result (Response Bytes)
  pub parse_block_id : Bytes → Result (Response Bytes)
  pub parse_blocks : Bytes → Result (Response (List Block))
  pub parse_chain_head : Bytes → Result (Response Block)
  pub parse_settings : Bytes → Result (Response (List (Text × Text)))
  pub parse_state : Bytes → Result (Response (List (Text × Bytes)))

abbrev pub status_ok : ℕ
status_ok = 1

-- of summarize, finalize, cancel and initialize
abbrev pub status_invalid_state : ℕ
status_invalid_state = 5

-- of initialize
abbrev pub status_unknown_previous : ℕ
status_unknown_previous = 6

-- of summarize and finalize
abbrev pub status_block_not_ready : ℕ
status_block_not_ready = 6

-- of the directives and the queries by block
abbrev pub status_unknown_block : ℕ
status_unknown_block = 5

abbrev pub status_no_chain_head : ℕ
status_no_chain_head = 5

abbrev pub failed_with : ℕ → Exn
failed_with status = receive_error (format "Failed with status {}" (number status))

-- `previous_id=previous_id` only `if previous_id`
abbrev pub given : Option Bytes → Option Bytes
given none = none
given (some []) = none
given (some (b ∷ bs)) = some (b ∷ bs)

unfoldable pub blocks_by_id : List Block → Dict Block → Dict Block
blocks_by_id [] d = d
blocks_by_id (block ∷ blocks) d = blocks_by_id blocks (put d block.block_id block)

unfoldable pub dict_of : List (Text × Text) → Dict Text → Dict Text
dict_of [] d = d
dict_of ((k, v) ∷ entries) d = dict_of entries (put d k v)

module _ {S : Type 0} (link : Link S) (codec : Codec) (timeout : ℕ) where
  -- `_send`
  unfoldable pub exchange : {A : Type 0} → Request → ℕ → (Bytes → Result A) → Action S A
  exchange request message_type parse = do
    future ← link.send message_type (codec.serialize request)
    reply ← link.result future (some timeout)
    content ← lift (content_of reply)
    lift (parse content)

  unfoldable pub send_to : Bytes → Text → Bytes → Action S (Unit {0})
  send_to receiver_id message_type payload = do
    response ←
        exchange (send_to_request receiver_id message_type payload) 802 (codec.parse_plain 802)
    raise_if (not (response.status == status_ok)) (failed_with response.status)

  unfoldable pub broadcast : Text → Bytes → Action S (Unit {0})
  broadcast message_type payload = do
    response ← exchange (broadcast_request message_type payload) 804 (codec.parse_plain 804)
    raise_if (not (response.status == status_ok)) (failed_with response.status)

  unfoldable pub initialize_block : Option Bytes → Action S (Unit {0})
  initialize_block previous_id = do
    response ← exchange (initialize_request (given previous_id)) 806 (codec.parse_plain 806)
    raise_if (response.status == status_invalid_state)
        (invalid_state (plain "Cannot initialize block in current state"))
    raise_if (response.status == status_unknown_previous) unknown_block
    raise_if (not (response.status == status_ok)) (failed_with response.status)

  unfoldable pub summarize_block : Action S Bytes
  summarize_block = do
    response ← exchange summarize_request 828 codec.parse_summary
    raise_if (response.status == status_invalid_state)
        (invalid_state (plain "Cannot summarize block in current state"))
    raise_if (response.status == status_block_not_ready)
        (block_not_ready (plain "Block not ready to be summarize"))
    raise_if (not (response.status == status_ok)) (failed_with response.status)
    pure response.body

  unfoldable pub finalize_block : Bytes → Action S Bytes
  finalize_block block_data = do
    response ← exchange (finalize_request block_data) 808 codec.parse_block_id
    raise_if (response.status == status_invalid_state)
        (invalid_state (plain "Cannot finalize block in current state"))
    raise_if (response.status == status_block_not_ready)
        (block_not_ready (plain "Block not ready to be finalized"))
    raise_if (not (response.status == status_ok)) (failed_with response.status)
    pure response.body

  unfoldable pub cancel_block : Action S (Unit {0})
  cancel_block = do
    response ← exchange cancel_request 810 (codec.parse_plain 810)
    raise_if (response.status == status_invalid_state)
        (invalid_state (plain "Cannot cancel block in current state"))
    raise_if (not (response.status == status_ok)) (failed_with response.status)

  unfoldable pub check_blocks : List Bytes → Action S (Unit {0})
  check_blocks priority = do
    response ← exchange (check_request priority) 812 (codec.parse_plain 812)
    raise_if (response.status == status_unknown_block) unknown_block
    raise_if (not (response.status == status_ok)) (failed_with response.status)

  unfoldable pub commit_block : Bytes → Action S (Unit {0})
  commit_block block_id = do
    response ← exchange (commit_request block_id) 814 (codec.parse_plain 814)
    raise_if (response.status == status_unknown_block) unknown_block
    raise_if (not (response.status == status_ok)) (failed_with response.status)

  unfoldable pub ignore_block : Bytes → Action S (Unit {0})
  ignore_block block_id = do
    response ← exchange (ignore_request block_id) 816 (codec.parse_plain 816)
    raise_if (response.status == status_unknown_block) unknown_block
    raise_if (not (response.status == status_ok)) (failed_with response.status)

  unfoldable pub fail_block : Bytes → Action S (Unit {0})
  fail_block block_id = do
    response ← exchange (fail_request block_id) 818 (codec.parse_plain 818)
    raise_if (response.status == status_unknown_block) unknown_block
    raise_if (not (response.status == status_ok)) (failed_with response.status)

  unfoldable pub get_blocks : List Bytes → Action S (Dict Block)
  get_blocks block_ids = do
    response ← exchange (blocks_request block_ids) 824 codec.parse_blocks
    raise_if (response.status == status_unknown_block) unknown_block
    raise_if (not (response.status == status_ok)) (failed_with response.status)
    pure (blocks_by_id response.body [])

  unfoldable pub get_chain_head : Action S Block
  get_chain_head = do
    response ← exchange chain_head_request 826 codec.parse_chain_head
    raise_if (response.status == status_no_chain_head) no_chain_head
    raise_if (not (response.status == status_ok)) (failed_with response.status)
    pure response.body

  unfoldable pub get_settings : Bytes → List Text → Action S (Dict Text)
  get_settings block_id settings = do
    response ← exchange (settings_request block_id settings) 820 codec.parse_settings
    raise_if (response.status == status_unknown_block) unknown_block
    raise_if (not (response.status == status_ok)) (failed_with response.status)
    pure (dict_of response.body [])

  unfoldable pub get_state : Bytes → List Text → Action S (Dict Bytes)
  get_state block_id addresses = do
    response ← exchange (state_request block_id addresses) 822 codec.parse_state
    raise_if (response.status == status_unknown_block) unknown_block
    raise_if (not (response.status == status_ok)) (failed_with response.status)
    pure (dict_of response.body [])
