-- ===== src/Xo/Client/Batches.antt =====
-- The messages that `XoClient` builds and `_create_batch_list` of xo_client.py. The encodings of
-- transaction_pb2 and batch_pb2 are the parameter `pb`.
use sci_ledger_sawtooth.Prelude.{suc, Option, none, some, List, [], ◌∷◌, ◌++◌, map}
use sci_ledger_sawtooth.Text.{Text, Bytes, codes}
use sci_ledger_sawtooth.Text.Parts.{join}
use sci_ledger_sawtooth.Text.Utf8.{encode}
use sci_ledger_sawtooth.Text.Numbers.{str}
use sci_ledger_sawtooth.Errors.{Result, ok, err, value_error, attribute_error}
use sci_ledger_sawtooth.Action.{Action, pure, lift, ◌>>=◌}
use sci_ledger_sawtooth.Signing.{Signer, sign, get_public_key}
use sci_ledger_sawtooth.Signing.Keys.{
  Secp256k1, Secp256k1PrivateKey, Secp256k1PublicKey, public_as_hex,
}
use sci_ledger_sawtooth.Xo.Payload.{ℤ, pos, negsuc}
use sci_ledger_sawtooth.Xo.Client.{XoClient}

pub record TransactionHeader : Type 0 where
  pub signer_public_key : Text
  pub family_name : Text
  pub family_version : Text
  pub inputs : List Text
  pub outputs : List Text
  pub dependencies : List Text
  pub payload_sha512 : Text
  pub batcher_public_key : Text
  pub nonce : Text

pub record Transaction : Type 0 where
  pub header : Bytes
  pub payload : Bytes
  pub header_signature : Text

pub record BatchHeader : Type 0 where
  pub signer_public_key : Text
  pub transaction_ids : List Text

pub record Batch : Type 0 where
  pub header : Bytes
  pub transactions : List Transaction
  pub header_signature : Text

pub record BatchList : Type 0 where
  pub batches : List Batch

-- `SerializeToString()`
pub record Protobuf : Type 0 where
  pub transaction_header : TransactionHeader → Bytes
  pub batch_header : BatchHeader → Bytes
  pub batch_list : BatchList → Bytes

-- `str(space)`
abbrev pub str_of : ℤ → Text
str_of (pos n) = str n
str_of (negsuc n) = codes "-" ++ str (suc n)

abbrev pub space_text : Option ℤ → Text
space_text none = []
space_text (some n) = str_of n

-- `",".join([name, action, str(space)]).encode()`
unfoldable pub payload_of : Text → Text → Option ℤ → Result Bytes
payload_of name action space = elim (encode (join b',' (name ∷ action ∷ space_text space ∷ []))) [
  | none ↦ err value_error
  | some payload ↦ ok payload
]

module _ {W K P : Type 0} where
  -- a call of a library from a method of the client
  abbrev pub outside : {A : Type 0} → Action W A → Action (XoClient W K P × W) A
  outside m (client, w) = let (r, w') = m w in (r, (client, w'))

  -- `self._signer`: a method of None is an AttributeError
  abbrev pub the_signer :
      Action (XoClient W K P × W) (Signer W (Secp256k1PrivateKey K) (Secp256k1PublicKey P))
  the_signer (client, w) = elim (client.signer) [
    | none ↦ (err attribute_error, (client, w))
    | some s ↦ (ok s, (client, w))
  ]

  -- `self._signer.sign(header)`
  unfoldable pub sign_header : Bytes → Action (XoClient W K P × W) Text
  sign_header header = do s ← the_signer; lift (sign s header)

module _ {W K P S : Type 0} (lib : Secp256k1 W K P S) where
  -- `self._signer.get_public_key().as_hex()`
  abbrev pub public_key_hex : Action (XoClient W K P × W) Text
  public_key_hex (client, w) = elim (client.signer) [
    | none ↦ (err attribute_error, (client, w))
    | some s ↦
        let (public_key, s') = get_public_key s in
        (ok (public_as_hex lib public_key), (record client { signer = some s' }, w))
  ]

  module _ (pb : Protobuf) where
    -- `_create_batch_list`
    unfoldable pub create_batch_list : List Transaction → Action (XoClient W K P × W) BatchList
    unfolding sign_header
    create_batch_list transactions = do
      signer_public_key ← public_key_hex
      let transaction_signatures = map (λ t. t.header_signature) transactions in
          let header = pb.batch_header (record {
            signer_public_key = signer_public_key;
            transaction_ids = transaction_signatures;
          }) in
          (do
            signature ← sign_header header
            pure (record {
              batches =
                  record {
                    header = header;
                    transactions = transactions;
                    header_signature = signature;
                  }
                  ∷ [];
            }))
