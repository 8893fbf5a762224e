-- ===== src/Xo/Processing.antt =====
-- `XoTransactionHandler` of examples/xo_python/sawtooth_xo/processor/handler.py as a handler of the
-- transaction processor: from a message of the validator to the response.
use sci_ledger_sawtooth.Prelude.{◌≡◌, refl, ◌⊎◌, inl, inr, true, none, some, [], ◌∷◌, All}
use sci_ledger_sawtooth.Text.{Text, Bytes, codes, truthy}
use sci_ledger_sawtooth.Errors.{Result, ok, err, invalid_transaction, validator_connection_error}
use sci_ledger_sawtooth.Messaging.{Link, ValidatorMessage}
use sci_ledger_sawtooth.Processor.Access.{Access}
use sci_ledger_sawtooth.Processor.Context.{context_access}
use sci_ledger_sawtooth.Processor.Context.Serving.{Serves, context_access-IsStore}
use sci_ledger_sawtooth.Processor.Core.{
  ProcessRequest, ProcessResponse, Handler, Processor, tp_process_response, process,
}
use sci_ledger_sawtooth.Processor.Core.Responses.{verdict, Reaches, process_answers}
use sci_ledger_sawtooth.Xo.Game.RoundTrip.{IsPlain}
use sci_ledger_sawtooth.Xo.Payload.{CharTable}
use sci_ledger_sawtooth.Xo.State.{Sha512, xo_namespace}
use sci_ledger_sawtooth.Xo.State.Refinement.{Represents}
use sci_ledger_sawtooth.Xo.Handler.{Transaction, apply}
use sci_ledger_sawtooth.Xo.Handler.Transactions.{Ledger}
use sci_ledger_sawtooth.Xo.Handler.Rules.{IsLedger, IsVerdict, apply-IsVerdict}

abbrev pub transaction_of : ProcessRequest → Transaction
transaction_of request = record {
  signer_public_key = request.header.signer_public_key;
  payload = request.payload;
}

abbrev pub xo_handler : {S : Type 0} → Sha512 → CharTable → Handler S
xo_handler sha512 u = record {
  family_name = codes "xo";
  family_versions = codes "1.0" ∷ [];
  namespaces = xo_namespace sha512 ∷ [];
  apply = λ request access. apply access sha512 u (transaction_of request);
}

-- The statuses of the responses that the end of an xo transaction calls for: OK with the games kept
-- to the rules, or INVALID_TRANSACTION with the games as they were.
abbrev pub IsAnswer : Ledger → Ledger → ProcessResponse → Type 0
IsAnswer games games' response =
    ((response.status ≡ 1) × IsLedger games') ⊎ ((response.status ≡ 2) × (games' ≡ games))

verdict-IsAnswer :
    (games games' : Ledger) (r : Result (Unit {0}))
    → IsVerdict games (r, games')
    → (response : ProcessResponse) × (verdict r ≡ some response) × IsAnswer games games' response
verdict-IsAnswer games games' (ok tt) v = (_, refl, inl (refl, v))
verdict-IsAnswer games games' (err (invalid_transaction m none)) v = (_, refl, inr (refl, v))
verdict-IsAnswer games games' (err e) v = absurd v

module _ {S : Type 0} (link : Link S) (codec : sci_ledger_sawtooth.Processor.Core.Codec)
    (states : sci_ledger_sawtooth.Processor.Context.Codec) (sha512 : Sha512) (u : CharTable)
    (read : S → Text → Bytes) where
  -- A message that brings an xo transaction, of a signer with a key without separators and with any
  -- payload, on a link to a validator that serves it, where sending back raises at most that the
  -- connection is lost, and whose state represents games that were played by the rules, is answered
  -- once, under its correlation id: with OK, and the state then represents games that were played by
  -- the rules; or with INVALID_TRANSACTION, and the games are as they were.
  pub process-xo_handler :
      (p : Processor S) (msg : ValidatorMessage) (s s1 : S) (request : ProcessRequest)
      (games : Ledger)
      → Reaches link codec (context_access link states) p msg s (xo_handler sha512 u) request s1
      → Serves link states request.context_id read
      → truthy request.header.signer_public_key ≡ true
      → All IsPlain request.header.signer_public_key
      → Represents sha512 read games s1
      → IsLedger games
      → ((id : Text) (b : Bytes) (s2 : S)
          → ((link.send_back tp_process_response id b s2).0 ≡ ok tt)
            ⊎ ((link.send_back tp_process_response id b s2).0 ≡ err validator_connection_error))
      → (games' : Ledger) × (response : ProcessResponse) × (s2 : S) × IsAnswer games games' response
        × Represents sha512 read games' s2
        × (process link codec (context_access link states) p msg s ≡ (
          ok tt,
          (link.send_back tp_process_response msg.correlation_id
              (codec.process_response response)
              s2).1,
        ))
  process-xo_handler p msg s s1 request games at serves st plain r l sends =
      let access : Access S = context_access link states request.context_id in
      let t = transaction_of request in
      let (games', v, r') =
        apply-IsVerdict access sha512 read
          (context_access-IsStore link states request.context_id read serves) u t games s1 st plain
          r l in
      let (response, found, is) = verdict-IsAnswer games games' (apply access sha512 u t s1).0 v in
      (
        games',
        response,
        (apply access sha512 u t s1).1,
        is,
        r',
        process_answers link codec (context_access link states) p msg s s1
            (apply access sha512 u t s1).1 (xo_handler sha512 u) request
            (apply access sha512 u t s1).0 at refl response
            (link.send_back tp_process_response msg.correlation_id (codec.process_response response)
              (apply access sha512 u t s1).1).0
            (link.send_back tp_process_response msg.correlation_id (codec.process_response response)
              (apply access sha512 u t s1).1).1
            found
            (sends msg.correlation_id (codec.process_response response)
              (apply access sha512 u t s1).1)
            refl,
      )
