-- ===== src/Consensus/Tests.antt =====
-- The theorems on the consensus service and driver at small validators.
use sci_ledger_sawtooth.Prelude.{
  ℕ, suc, ◌-◌, ◌≡◌, refl, true, false, none, some, List, [], ◌∷◌, ◌++◌, arith,
}
use sci_ledger_sawtooth.Text.{Text, Bytes, codes}
use sci_ledger_sawtooth.Errors.{
  Result, ok, err, decode_error, attribute_error, concurrent_timeout_error,
}
use sci_ledger_sawtooth.Messaging.{
  Link, future_result, Event, reconnect_event, arrived, ValidatorMessage,
}
use sci_ledger_sawtooth.Consensus.Notifications.{
  PeerInfo, StartupState, Update, block_update, Registered, Codec,
}
use sci_ledger_sawtooth.Consensus.Service
use sci_ledger_sawtooth.Consensus.Service.{Block}
use sci_ledger_sawtooth.Consensus.Service.Outcomes.{
  DirectivesEnd, ProposalsEnd, QueriesEnd, outcomes_lem,
}
use sci_ledger_sawtooth.Consensus.Driver.{
  register_once, registered, Engine, Driver, driver_step, driver_loop, register_once, registered,
}
use sci_ledger_sawtooth.Consensus.Driver.Rounds.{driver_loop-reconnect}
use sci_ledger_sawtooth.Consensus.Driver.Start.{
  Running, Move, loops, takes, engine_ends, waiting, joining,
}
use sci_ledger_sawtooth.Consensus.Driver.Activation.{startup_lem, no_wait, passed_over}
use sci_ledger_sawtooth.Consensus.Driver.Start.{startup}
use sci_ledger_sawtooth.Consensus.Driver.Registration.{NotReady, answered_all, not_yet}

-- The state is what waits to be received, and the correlation ids that were acknowledged.
abbrev State : Type 0
State = List ValidatorMessage × List Text

abbrev pending : State → List ValidatorMessage
pending s = s.0

abbrev acks : State → List Text
acks s = s.1

abbrev next_event : State → Result Event × State
next_event ([], ids) = (err concurrent_timeout_error, ([], ids))
next_event (m ∷ ms, ids) = (ok (arrived m), (ms, ids))

abbrev link : Link State
link = record {
  send = λ t b s. (ok [], s);
  result = λ future timeout s. (ok (future_result 0 []), s);
  send_back = λ t id b s. (ok tt, (s.0, s.1 ++ (id ∷ [])));
  receive = λ s. (ok 0, s);
  received = λ future timeout s. next_event s;
  is_ready = λ s. (ok true, s);
  wait_for_ready = λ s. (ok tt, s);
  close = λ s. (ok tt, s);
}

abbrev block : Block
block = record {
  block_id = [];
  previous_id = [];
  signer_id = [];
  block_num = 0;
  payload = [];
  summary = [];
}

abbrev info : PeerInfo
info = record { peer_id = [] }

-- A registration that is not ready while the first byte of the response is not 0.
abbrev response_of : Bytes → Registered
response_of (suc n ∷ b) = record {
  status = 4;
  chain_head = none;
  peers = [];
  local_peer_info = none;
}
response_of b = record {
  status = 1;
  chain_head = some block;
  peers = [];
  local_peer_info = some info;
}

abbrev codec : Codec
codec = record {
  register_request = λ n v ps. [];
  register_response = λ b. ok (response_of b);
  activated = λ b. err decode_error;
  peer_connected_of = λ b. ok info;
  peer_disconnected_of = λ b. ok b;
  peer_message_of = λ b. err decode_error;
  peer_header_of = λ b. err decode_error;
  block_new_of = λ b. ok block;
  block_valid_of = λ b. ok b;
  block_invalid_of = λ b. ok b;
  block_commit_of = λ b. ok b;
  ack = [];
}

abbrev engine : {S : Type 0} → Engine S
engine = record {
  name = [];
  version = [];
  additional_protocols = [];
  stop_engine = λ s. (ok tt, s);
}

-- A valid block, a ping and a message of another protocol.
abbrev valid : ValidatorMessage
valid = record { message_type = 904; correlation_id = codes "m1"; content = codes "b7" }

abbrev ping : ValidatorMessage
ping = record { message_type = 700; correlation_id = codes "m2"; content = [] }

abbrev other : ValidatorMessage
other = record { message_type = 5; correlation_id = codes "m3"; content = [] }

abbrev arrivals : List ValidatorMessage
arrivals = valid ∷ ping ∷ other ∷ []

abbrev carried : List (ℕ × Update)
carried = (904, block_update (codes "b7")) ∷ []

abbrev answered : List Text
answered = codes "m1" ∷ codes "m2" ∷ []

abbrev driver : Driver State
driver = record { exit = false; updates = []; outside = (arrivals, []) }

-- A connection that was lost and found again.
abbrev reconnected : Link State
reconnected = record link { received = λ future timeout s. (ok reconnect_event, s) }

driver_loop-reconnect_example :
    (driver_step reconnected codec engine 0 driver ≡ (err attribute_error, driver))
    × (driver_loop reconnected codec engine 10 driver ≡ (ok none, driver))
driver_loop-reconnect_example =
    driver_loop-reconnect reconnected codec engine 9 0 0 driver (arrivals, []) (arrivals, [])
      (arrivals, []) refl refl refl refl

-- A validator that is not ready n times, and then sends the messages that are listed.
abbrev Later : Type 0
Later = ℕ × List ValidatorMessage

abbrev next_later : Later → Result Event × Later
next_later (n, []) = (err concurrent_timeout_error, (n, []))
next_later (n, m ∷ ms) = (ok (arrived m), (n, ms))

abbrev later : Link Later
later = record {
  send = λ t b s. (ok [], s);
  result = λ future timeout s. (ok (future_result 801 (s.0 ∷ [])), (s.0 - 1, s.1));
  send_back = λ t id b s. (ok tt, s);
  receive = λ s. (ok 0, s);
  received = λ future timeout s. next_later s;
  is_ready = λ s. (ok true, s);
  wait_for_ready = λ s. (ok tt, s);
  close = λ s. (ok tt, s);
}

abbrev at_start : StartupState
at_start = record { chain_head = block; peers = []; local_peer_info = info }

abbrev plain_response : Bytes → Registered
plain_response (suc n ∷ b) = record {
  status = 4;
  chain_head = none;
  peers = [];
  local_peer_info = none;
}
plain_response b = record { status = 1; chain_head = none; peers = []; local_peer_info = none }

abbrev later_codec : Codec
later_codec = record codec {
  register_response = λ b. ok (plain_response b);
  activated = λ b. ok at_start;
}

abbrev activation : ValidatorMessage
activation = record { message_type = 907; correlation_id = codes "m4"; content = [] }

later-NotReady :
    NotReady later later_codec engine 1 (1, other ∷ activation ∷ []) (0, other ∷ activation ∷ [])
unfolding register_once registered
later-NotReady =
    not_yet 0 (1, other ∷ activation ∷ []) (0, other ∷ activation ∷ []) (0, other ∷ activation ∷ [])
      refl (answered_all (0, other ∷ activation ∷ []))

startup_lem_example :
    startup later later_codec engine 5 (1, other ∷ activation ∷ [])
    ≡ (ok (some (some at_start)), (0, []))
unfolding register_once registered
startup_lem_example =
    startup_lem later later_codec engine 1 1 5 0 0 (1, other ∷ activation ∷ [])
      (1, other ∷ activation ∷ []) (0, other ∷ activation ∷ []) (0, other ∷ activation ∷ [])
      (0, other ∷ activation ∷ []) (0, activation ∷ []) (0, []) at_start (omega arith) (omega arith)
      refl later-NotReady refl refl
      (passed_over 0 0 0 0 (0, other ∷ activation ∷ []) (0, activation ∷ []) (0, activation ∷ [])
        (0, activation ∷ []) other refl (omega arith) refl (no_wait 0 (0, activation ∷ [])))
      (record {
        message = activation;
        arrives = (0, []);
        comes = refl;
        type = refl;
        parsed = refl;
        acked = refl;
      })

-- A service whose validator answers every request with the same status.
abbrev service_codec : ℕ → Service.Codec
service_codec n = record {
  serialize = λ r. [];
  parse_plain = λ t b. ok (record { status = n; body = tt });
  parse_summary = λ b. ok (record { status = n; body = b });
  parse_block_id = λ b. ok (record { status = n; body = b });
  parse_blocks = λ b. ok (record { status = n; body = block ∷ [] });
  parse_chain_head = λ b. ok (record { status = n; body = block });
  parse_settings = λ b. ok (record { status = n; body = [] });
  parse_state = λ b. ok (record { status = n; body = [] });
}

outcomes_lem_example :
    DirectivesEnd link (service_codec 5) 300 (codes "b7") [] (codes "t") [] none ([], [])
    × ProposalsEnd link (service_codec 5) 300 (codes "d") ([], [])
    × QueriesEnd link (service_codec 5) 300 [] [] (codes "k" ∷ []) ([], [])
outcomes_lem_example =
    outcomes_lem link (service_codec 5) 300 (codes "b7") [] (codes "d") (codes "t") [] none
      (codes "k" ∷ []) ([], [])

-- The loop takes the first message while the engine waits, and the engine takes the update and ends.
abbrev moves : List (Move State)
moves = loops ∷ loops ∷ takes ∷ engine_ends ∷ []

abbrev after_moves : Running State
after_moves = record {
  driver = record { exit = true; updates = []; outside = (ping ∷ other ∷ [], codes "m1" ∷ []) };
  loop = waiting 0;
  main = joining;
  taken = carried;
}
