-- ===== src/Messaging/Stream/Tests.antt =====
-- The theorems on the stream at a connection with one request under way.
use sci_ledger_sawtooth.Prelude.{◌≡◌, ◌≢◌, refl, ◌⊎◌, true, none, [], ◌∷◌, arith}
use sci_ledger_sawtooth.Text.{codes, text_eq_iff}
use sci_ledger_sawtooth.Dict.{get}
use sci_ledger_sawtooth.Errors.{ok}
use sci_ledger_sawtooth.Messaging.{ValidatorMessage}
use sci_ledger_sawtooth.Messaging.Stream.{Connection, receive_message}
use sci_ledger_sawtooth.Messaging.Stream.Responses.{IsKeyed, Resolves, Queues, receive_message_lem}

abbrev waiting : Connection
waiting = record {
  ready = true;
  results = (codes "r1", none) ∷ [];
  futures = (codes "r1", codes "r1") ∷ [];
  send_queue = [];
  recv_queue = [];
}

abbrev response : ValidatorMessage
response = record { message_type = 8; correlation_id = codes "r1"; content = codes "ok" }

waiting-IsKeyed : IsKeyed waiting
unfolding get
waiting-IsKeyed k f e = ground (arith, e, text_eq_iff (codes "r1") k)

receive_message_lem_example :
    (c' : Connection) × (receive_message response waiting ≡ (ok tt, c'))
    × (((get waiting.futures (codes "r1") ≢ none) × Resolves response waiting c')
        ⊎ ((get waiting.futures (codes "r1") ≡ none) × Queues response waiting c'))
receive_message_lem_example = receive_message_lem response waiting refl waiting-IsKeyed
