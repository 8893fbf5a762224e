-- ===== src/Processor/Running.antt =====
-- The rest of sawtooth_sdk/processor/core.py: registering with the validator, the futures of received
-- messages, and `start`. A loop runs for a number of rounds; the result of `start` tells whether it
-- has ended within them.
pub mod Shutdown
pub mod Registering
use sci_ledger_sawtooth.Prelude.{
  ℕ, zero, suc, Bool, true, false, not, Option, none, some, List, [], ◌∷◌, ◌==◌, if◌then◌else◌,
}
use sci_ledger_sawtooth.Text.{Text, Bytes}
use sci_ledger_sawtooth.Errors.{
  Exn, Result, ok, err, plain, runtime_error, keyboard_interrupt, validator_version_error,
  cancelled_error, concurrent_timeout_error, future_timeout_error,
}
use sci_ledger_sawtooth.Action.{Action, pure, raise, lift, raise_if, try, ◌>>=◌, ◌>>◌}
use sci_ledger_sawtooth.Messaging.{Link, Event, reconnect_event, arrived, content_of}
use sci_ledger_sawtooth.Processor.Access.{Access}
use sci_ledger_sawtooth.Processor.Core.{
  Codec, Processor, RegisterRequest, register_requests, disconnected, process,
}

-- `except CancelledError`
abbrev pub cancelled : {S : Type 0} → Exn → Action S (Option Event)
cancelled cancelled_error = pure none
cancelled e = raise e

-- The `except` clauses around the draining of the last futures: the usual ways to exit.
abbrev pub usual_exit : {S : Type 0} → Exn → Action S Bool
usual_exit concurrent_timeout_error = pure true
usual_exit future_timeout_error = pure true
usual_exit e = raise e

-- The variable `fut` after `fut = ...`: an exception leaves it as it was.
abbrev pub assigned : Option ℕ → Result ℕ → Option ℕ
assigned fut (ok f) = some f
assigned fut (err e) = fut

-- A call that does not assign the variable `fut` of `start`.
abbrev pub inward : {S A : Type 0} → Action S A → Action (Option ℕ × S) A
inward m (fut, s) = let (r, s') = m s in (r, (fut, s'))

module _ {S : Type 0} (link : Link S) (codec : Codec) (context : Text → Access S)
    (p : Processor S) where
  unfoldable pub send_all : List RegisterRequest → Action S (List Text)
  send_all [] = pure []
  send_all (m ∷ ms) = do
    link.wait_for_ready
    future ← link.send 1 (codec.register_request m)
    futures ← send_all ms
    pure (future ∷ futures)

  -- the body of the second loop of `_register`
  unfoldable pub read_registration : Text → Action S (Unit {0})
  read_registration future =
      try
        (do
          reply ← link.result future none
          content ← lift (content_of reply)
          resp ← lift (codec.register_response content)
          raise_if (not (resp.protocol_version == p.highest_sdk_feature_requested))
              validator_version_error
          raise_if (resp.status == 2)
              (runtime_error (plain "Transaction processor registration failed")))
        disconnected

  unfoldable pub read_all : List Text → Action S (Unit {0})
  read_all [] = pure tt
  read_all (future ∷ futures) = read_registration future >> read_all futures

  -- `_register`
  unfoldable pub register : Action S (Unit {0})
  register = do futures ← send_all (register_requests p); read_all futures

  -- `_unregister`
  unfoldable pub unregister : Action S (Unit {0})
  unregister = do
    link.wait_for_ready
    future ← link.send 3 codec.unregister_request
    try
        (do
          reply ← link.result future (some 1)
          content ← lift (content_of reply)
          status ← lift (codec.unregister_response content)
          pure tt)
        disconnected

  -- `_process_future` of a future that is resolved
  unfoldable pub process_event : Bool → Event → Action S (Unit {0})
  process_event sigint reconnect_event = if sigint then pure tt else link.wait_for_ready >> register
  process_event sigint (arrived msg) =
      if msg.message_type == 700
      then link.send_back 701 msg.correlation_id codec.ping_response
      else process link codec context p msg

  -- `_process_future`
  unfoldable pub process_future : ℕ → Option ℕ → Bool → Action S (Unit {0})
  process_future future timeout sigint = do
    event ← try (link.received future timeout >>= (λ event. pure (some event))) cancelled
    elim event [ none ↦ pure tt | some event ↦ process_event sigint event ]

  -- `fut = self._stream.receive()`
  unfoldable pub receive_future : Action (Option ℕ × S) ℕ
  receive_future (fut, s) = let (r, s') = link.receive s in (r, (assigned fut r, s'))

  -- the loop of `start`
  unfoldable pub serve : ℕ → Action (Option ℕ × S) Bool
  serve zero = pure false
  serve (suc n) = do fut ← receive_future; inward (process_future fut none false); serve n

  -- the loop after the interrupt
  unfoldable pub drain : ℕ → Action (Option ℕ × S) Bool
  drain zero w = (ok false, w)
  drain (suc n) (none, s) = drain n (none, s)
  drain (suc n) (some fut, s) =
      (inward (process_future fut (some 1) true) >> (receive_future >>= (λ f. drain n)))
        (some fut, s)

  -- the `except` clauses of `start`
  unfoldable pub end_start : ℕ → Exn → Action (Option ℕ × S) Bool
  end_start n keyboard_interrupt = try (inward unregister >> drain n) usual_exit
  end_start n validator_version_error = try (inward unregister >> drain n) usual_exit
  end_start n (runtime_error m) = inward link.close >> pure true
  end_start n e = raise e

  -- `start`
  unfoldable pub start : ℕ → Action (Option ℕ × S) Bool
  start n = try (inward register >> serve n) (end_start n)
