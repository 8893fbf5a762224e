-- ===== src/Consensus/Service/Interface.antt =====
-- The abstract class `Service` of sawtooth_sdk/consensus/service.py, which an engine is given, as a
-- record of its calls, and `ZmqService` as one.
use sci_ledger_sawtooth.Prelude.{ℕ, ◌≡◌, Option, List, All}
use sci_ledger_sawtooth.Text.{Text, Bytes}
use sci_ledger_sawtooth.Dict.{Dict, IsDistinct}
use sci_ledger_sawtooth.Errors.{ok}
use sci_ledger_sawtooth.Action.{Action}
use sci_ledger_sawtooth.Messaging.{Link}
use sci_ledger_sawtooth.Consensus.Service.{
  Block, Codec, send_to, broadcast, initialize_block, summarize_block, finalize_block, cancel_block,
  check_blocks, commit_block, ignore_block, fail_block, get_blocks, get_chain_head, get_settings,
  get_state,
}

pub record Service (S : Type 0) : Type 0 where
  pub send_to : Bytes → Text → Bytes → Action S (Unit {0})
  pub broadcast : Text → Bytes → Action S (Unit {0})
  pub initialize_block : Option Bytes → Action S (Unit {0})
  pub summarize_block : Action S Bytes
  pub finalize_block : Bytes → Action S Bytes
  pub cancel_block : Action S (Unit {0})
  pub check_blocks : List Bytes → Action S (Unit {0})
  pub commit_block : Bytes → Action S (Unit {0})
  pub ignore_block : Bytes → Action S (Unit {0})
  pub fail_block : Bytes → Action S (Unit {0})
  pub get_blocks : List Bytes → Action S (Dict Block)
  pub get_chain_head : Action S Block
  pub get_settings : Bytes → List Text → Action S (Dict Text)
  pub get_state : Bytes → List Text → Action S (Dict Bytes)

-- `ZmqService(stream, timeout)`
unfoldable pub zmq_service : {S : Type 0} → Link S → Codec → ℕ → Service S
zmq_service link codec timeout = record {
  send_to = send_to link codec timeout;
  broadcast = broadcast link codec timeout;
  initialize_block = initialize_block link codec timeout;
  summarize_block = summarize_block link codec timeout;
  finalize_block = finalize_block link codec timeout;
  cancel_block = cancel_block link codec timeout;
  check_blocks = check_blocks link codec timeout;
  commit_block = commit_block link codec timeout;
  ignore_block = ignore_block link codec timeout;
  fail_block = fail_block link codec timeout;
  get_blocks = get_blocks link codec timeout;
  get_chain_head = get_chain_head link codec timeout;
  get_settings = get_settings link codec timeout;
  get_state = get_state link codec timeout;
}

-- Every block stands under its id.
abbrev pub IsById : Dict Block → Type 0
IsById d = All (λ e. e.1.block_id ≡ e.0) d × IsDistinct d

-- The dictionaries that the queries return: blocks stand under their own ids, and no block, setting or
-- address stands twice.
pub record ReturnsDicts {S : Type 0} (service : Service S) : Type 0 where
  pub blocks :
      (ids : List Bytes) (s s' : S) (d : Dict Block)
      → service.get_blocks ids s ≡ (ok d, s')
      → IsById d
  pub settings :
      (b : Bytes) (keys : List Text) (s s' : S) (d : Dict Text)
      → service.get_settings b keys s ≡ (ok d, s')
      → IsDistinct d
  pub state :
      (b : Bytes) (keys : List Text) (s s' : S) (d : Dict Bytes)
      → service.get_state b keys s ≡ (ok d, s')
      → IsDistinct d
