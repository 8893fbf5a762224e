-- ===== src/Processor/Tests.antt =====
-- The theorems on the transaction processor at small handlers and connections.
use sci_ledger_sawtooth.Prelude.{
  ℕ, ◌≡◌, refl, inl, inr, true, false, Option, none, some, List, [], ◌∷◌, ◌++◌, arith, length,
}
use sci_ledger_sawtooth.Text.{Text, Bytes, codes, text_eq}
use sci_ledger_sawtooth.Errors.{
  Exn, decode_error, Result, ok, err, plain, invalid, key_error, keyboard_interrupt,
  concurrent_timeout_error, validator_version_error,
}
use sci_ledger_sawtooth.Messaging.{Link, future_result, ValidatorMessage}
use sci_ledger_sawtooth.Processor.Access.{Access}
use sci_ledger_sawtooth.Processor.Core.{
  Header, ProcessRequest, Codec, Handler, Processor, matches, find_handler, register_requests,
  requests_of, handler_requests, is_in, process,
}
use sci_ledger_sawtooth.Processor.Core.Responses.{Reaches, process_answers, process_raises}
use sci_ledger_sawtooth.Processor.Core.Routing.{asks_for, is_found, asks_for-register_requests}
use sci_ledger_sawtooth.Processor.Running.{
  register, unregister, serve, start, process_future, send_all, read_all, read_registration,
  receive_future,
}
use sci_ledger_sawtooth.Processor.Running.Registering.{Registers, register-Registers}
use sci_ledger_sawtooth.Processor.Running.Shutdown.{timed_out, start_spins, start_stops}

-- The state is the list of the correlation ids that were answered.
abbrev Answers : Type 0
Answers = List Text

abbrev header : Header
header = record {
  signer_public_key = codes "ab12";
  family_name = codes "xo";
  family_version = codes "1.0";
}

abbrev request : ProcessRequest
request = record {
  header = header;
  header_bytes = [];
  payload = [];
  signature = [];
  context_id = codes "c1";
}

-- A validator that speaks another protocol version, where `version` is not 0.
abbrev codec : ℕ → Codec
codec version = record {
  process_request = λ b. ok request;
  transaction_header = λ b. ok header;
  process_response = λ r. [];
  register_request = λ r. [];
  register_response = λ b. ok (record { status = 1; protocol_version = version });
  unregister_request = [];
  unregister_response = λ b. ok 1;
  ping_response = [];
}

abbrev link : Link Answers
link = record {
  send = λ t b s. (ok [], s);
  result = λ future timeout s. (ok (future_result 0 []), s);
  send_back = λ t id b s. (ok tt, s ++ (id ∷ []));
  receive = λ s. (ok 4, s);
  received = λ future timeout s. (err concurrent_timeout_error, s);
  is_ready = λ s. (ok true, s);
  wait_for_ready = λ s. (ok tt, s);
  close = λ s. (ok tt, s);
}

abbrev context : Text → Access Answers
context id = record {
  get_state = λ a t s. (ok [], s);
  set_state = λ a t s. (ok [], s);
  delete_state = λ a t s. (ok [], s);
}

-- A handler that ends in the same way on every transaction.
abbrev ending : Result (Unit {0}) → Handler Answers
ending r = record {
  family_name = codes "xo";
  family_versions = codes "1.0" ∷ codes "1.1" ∷ [];
  namespaces = [];
  apply = λ request access s. (r, s);
}

abbrev with_handler : Result (Unit {0}) → Processor Answers
with_handler r = record {
  handlers = ending r ∷ [];
  highest_sdk_feature_requested = 0;
  header_style = 0;
}

abbrev msg : ValidatorMessage
msg = record { message_type = 5; correlation_id = codes "m1"; content = [] }

msg-Reaches :
    (r : Result (Unit {0}))
    → Reaches link (codec 0) context (with_handler r) msg [] (ending r) request []
unfolding find_handler matches is_in text_eq
msg-Reaches r = record {
  asks = refl;
  parsed = refl;
  header = header;
  has_header = refl;
  ready = refl;
  routed = refl;
}

abbrev refused : Result (Unit {0})
refused = err (invalid (plain "no"))

process_answers_example :
    process link (codec 0) context (with_handler refused) msg [] ≡ (ok tt, codes "m1" ∷ [])
process_answers_example =
    process_answers link (codec 0) context (with_handler refused) msg [] [] [] (ending refused)
      request refused (msg-Reaches refused) refl
      (record { status = 2; message = some (plain "no"); extended_data = none }) (ok tt)
      (codes "m1" ∷ []) refl (inl refl) refl

process_raises_example :
    process link (codec 0) context (with_handler (err key_error)) msg [] ≡ (err key_error, [])
process_raises_example =
    process_raises link (codec 0) context (with_handler (err key_error)) msg [] [] []
      (ending (err key_error)) request (err key_error) (msg-Reaches (err key_error)) refl refl

asks_for-register_requests_example :
    asks_for (register_requests (with_handler (ok tt))) header
    ≡ is_found (find_handler (with_handler (ok tt)).handlers header)
asks_for-register_requests_example = asks_for-register_requests (with_handler (ok tt)) header

decode_fails : (b : Bytes) (x : Exn) → (codec 0).register_response b ≡ err x → x ≡ decode_error
decode_fails b x e = cc

register-Registers_example :
    (futures : List Text) × (s1 : Answers) × (send_all link
        (codec 0)
        context
        (with_handler (ok tt))
        (register_requests (with_handler (ok tt)))
        []
      ≡ (ok futures, s1))
    × (length futures ≡ 2)
    × Registers link (codec 0) context (with_handler (ok tt)) futures s1 []
unfolding register read_all read_registration send_all requests_of handler_requests
register-Registers_example =
    register-Registers link (codec 0) context (with_handler (ok tt)) decode_fails [] [] refl

start_spins_example :
    start link (codec 9) context (with_handler (ok tt)) 100 (none, []) ≡ (ok false, (none, []))
unfolding register unregister send_all read_all read_registration requests_of handler_requests
start_spins_example =
    start_spins link (codec 9) context (with_handler (ok tt)) 100 [] [] [] validator_version_error
      (inr refl) refl refl

-- A connection that is interrupted from the keyboard while the first message is waited for.
abbrev interrupted : Link Answers
interrupted = record link {
  received = λ future timeout s. elim timeout [
    | none ↦ (err keyboard_interrupt, s)
    | some t ↦ (err concurrent_timeout_error, s)
  ];
}

start_stops_example :
    (fut : Option ℕ) × (start interrupted (codec 0) context (with_handler (ok tt)) 1 (none, [])
      ≡ (ok true, (fut, [])))
unfolding register unregister send_all read_all read_registration requests_of handler_requests serve
    receive_future process_future
start_stops_example =
    start_stops interrupted (codec 0) context (with_handler (ok tt)) 0 1 4 [] [] [] []
      keyboard_interrupt (omega arith) (inl refl) refl refl (timed_out 4 [] [] refl)
