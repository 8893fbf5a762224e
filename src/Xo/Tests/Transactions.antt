-- ===== src/Xo/Tests/Transactions.antt =====
-- The theorems on transactions, on the validator of the examples with no game yet.
use sci_ledger_sawtooth.Prelude.{◌≡◌, refl, inl, none, some, [], ◌∷◌, arith, All}
use sci_ledger_sawtooth.Text.{Text, codes, text_eq, prefix}
use sci_ledger_sawtooth.Text.Utf8.{encode}
use sci_ledger_sawtooth.Dict.{get}
use sci_ledger_sawtooth.Errors.{ok}
use sci_ledger_sawtooth.Messaging.{ValidatorMessage}
use sci_ledger_sawtooth.Processor.Access.{Access, IsStore}
use sci_ledger_sawtooth.Processor.Context.{context_access}
use sci_ledger_sawtooth.Processor.Context.Serving.{context_access-IsStore}
use sci_ledger_sawtooth.Processor.Core.{
  Header, ProcessRequest, ProcessResponse, Codec, Processor, find_handler, matches, is_in, process,
}
use sci_ledger_sawtooth.Processor.Core.Responses.{Reaches}
use sci_ledger_sawtooth.Xo.Processing.{xo_handler, IsAnswer, process-xo_handler}
use sci_ledger_sawtooth.Xo.Game.RoundTrip.{IsPlain, IsClean}
use sci_ledger_sawtooth.Xo.Payload.{XoPayload, raw}
use sci_ledger_sawtooth.Xo.Rules.{new_game}
use sci_ledger_sawtooth.Xo.State.{Cache, make_xo_address, xo_namespace, set_game, delete_game}
use sci_ledger_sawtooth.Xo.State.Loading.{IsCoherent}
use sci_ledger_sawtooth.Xo.State.Refinement.{Represents, bind, set_game_binds, delete_game_unbinds}
use sci_ledger_sawtooth.Xo.Handler.{Transaction, apply}
use sci_ledger_sawtooth.Xo.Handler.Transactions.{Ledger}
use sci_ledger_sawtooth.Xo.Handler.Rules.{IsVerdict, apply-IsVerdict}
use sci_ledger_sawtooth.Example.{ascii, sha512, states, link, link-Serves, read, State}

context_access-IsStore_example : IsStore (context_access link states (codes "c1")) read
context_access-IsStore_example =
    context_access-IsStore link states (codes "c1") read (link-Serves (codes "c1"))

abbrev access : Access State
access = context_access link states (codes "c1")

store : IsStore access read
store = context_access-IsStore link states (codes "c1") read (link-Serves (codes "c1"))

abbrev no_games : Ledger
no_games name = none

no_games-Represents : Represents sha512 read no_games []
unfolding read get
no_games-Represents = record { at = λ name a e. ([], refl, refl) }

abbrev name : Text
name = codes "g1"

name-IsPlain : All IsPlain name
name-IsPlain = ground arith

abbrev address : Text
address = codes "xog1"

name-address : make_xo_address sha512 name ≡ ok address
unfolding make_xo_address xo_namespace encode prefix
name-address = refl

empty-IsCoherent : IsCoherent read ([], [])
unfolding get
empty-IsCoherent = record { agrees = λ a o p. cc }

new-IsClean : IsClean (name, new_game name)
new-IsClean = record { named = refl; fields = ground arith }

-- The state after the game has been set, for the deletion.
abbrev with_game : Ledger
with_game = bind no_games name (some (new_game name))

set_game_binds_example :
    (c' : Cache) × (s' : State) × (set_game access sha512 name (new_game name) ([], [])
      ≡ (ok tt, (c', s')))
    × IsCoherent read (c', s')
    × Represents sha512 read (bind no_games name (some (new_game name))) s'
set_game_binds_example =
    set_game_binds access sha512 read store no_games name address [] [] name-address
      empty-IsCoherent no_games-Represents (new_game name) new-IsClean

abbrev creation : Transaction
creation = record { signer_public_key = codes "ab12"; payload = codes "g1,create," }

signer-IsPlain : All IsPlain (codes "ab12")
signer-IsPlain = ground arith

apply-IsVerdict_example :
    (games' : Ledger) × IsVerdict no_games ((apply access sha512 ascii creation []).0, games')
    × Represents sha512 read games' (apply access sha512 ascii creation []).1
apply-IsVerdict_example =
    apply-IsVerdict access sha512 read store ascii creation no_games [] refl signer-IsPlain
      no_games-Represents (λ n g e. cc)

abbrev accepted : XoPayload
accepted = record { name = name; action = codes "create"; space = raw [] }

-- The cache and the state after the game has been set, what they represent, and the deletion.
created :
    (c' : Cache) × (s' : State) × (set_game access sha512 name (new_game name) ([], [])
      ≡ (ok tt, (c', s')))
    × IsCoherent read (c', s')
    × Represents sha512 read with_game s'
created =
    set_game_binds access sha512 read store no_games name address [] [] name-address
      empty-IsCoherent no_games-Represents (new_game name) new-IsClean

delete_game_unbinds_example :
    (c' : Cache) × (s' : State) × (delete_game access sha512 name (created.0, created.1)
      ≡ (ok tt, (c', s')))
    × IsCoherent read (c', s')
    × Represents sha512 read (bind with_game name none) s'
unfolding text_eq
delete_game_unbinds_example =
    delete_game_unbinds access sha512 read store with_game name address created.0 created.1
      name-address created.3 created.4 (new_game name) refl

abbrev header : Header
header = record {
  signer_public_key = codes "ab12";
  family_name = codes "xo";
  family_version = codes "1.0";
}

abbrev request : ProcessRequest
request = record {
  header = header;
  header_bytes = [];
  payload = codes "g1,create,";
  signature = [];
  context_id = codes "c1";
}

abbrev codec : Codec
codec = record {
  process_request = λ b. ok request;
  transaction_header = λ b. ok header;
  process_response = λ r. [];
  register_request = λ r. [];
  register_response = λ b. ok (record { status = 1; protocol_version = 0 });
  unregister_request = [];
  unregister_response = λ b. ok 1;
  ping_response = [];
}

abbrev processor : Processor State
processor = record {
  handlers = xo_handler sha512 ascii ∷ [];
  highest_sdk_feature_requested = 0;
  header_style = 0;
}

abbrev msg : ValidatorMessage
msg = record { message_type = 5; correlation_id = codes "m1"; content = [] }

msg-Reaches :
    Reaches link codec
      (context_access link states)
      processor
      msg
      []
      (xo_handler sha512 ascii)
      request
      []
unfolding find_handler matches is_in text_eq
msg-Reaches = record {
  asks = refl;
  parsed = refl;
  header = header;
  has_header = refl;
  ready = refl;
  routed = refl;
}

process-xo_handler_example :
    (games' : Ledger) × (response : ProcessResponse) × (s2 : State) × IsAnswer no_games games'
      response
    × Represents sha512 read games' s2
    × (process link codec (context_access link states) processor msg [] ≡ (ok tt, s2))
process-xo_handler_example =
    process-xo_handler link codec states sha512 ascii read processor msg [] [] request no_games
      msg-Reaches (link-Serves (codes "c1")) refl signer-IsPlain no_games-Represents (λ n g e. cc)
      (λ id b s. inl refl)
