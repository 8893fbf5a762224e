-- ===== src/Xo/Client/Authentic.antt =====
-- The transactions that `XoClient` builds are what a validator accepts: every signature is recognised
-- under the key that the header names.
use sci_ledger_sawtooth.Prelude.{◌≡◌, refl, Option, [], ◌∷◌, arith, inl, inr}
use sci_ledger_sawtooth.Text.{Text, Bytes, codes}
use sci_ledger_sawtooth.Text.Numbers.{hex}
use sci_ledger_sawtooth.Errors.{ok, Result-cases}
use sci_ledger_sawtooth.Signing.Keys.{Secp256k1, IsSecp256k1, Secp256k1PrivateKey}
use sci_ledger_sawtooth.Xo.Payload.{ℤ}
use sci_ledger_sawtooth.Xo.State.{Sha512}
use sci_ledger_sawtooth.Xo.Client.{XoClient, get_address}
use sci_ledger_sawtooth.Xo.Client.World.{Libraries}
use sci_ledger_sawtooth.Xo.Client.Batches.{
  TransactionHeader, Transaction, BatchList, Protobuf, payload_of, sign_header,
}
use sci_ledger_sawtooth.Xo.Client.Transactions.{build_txn, sign_txn}
use sci_ledger_sawtooth.Xo.Client.Signed.{
  IsReady, IsVerified, key_text, IsBatch, public_key_hex-IsReady, sign_header-IsVerified,
  create_batch_list-IsBatch,
}

module _ {W K P S : Type 0} (lib : Secp256k1 W K P S) where
  -- What a validator asks of the batch list of one transaction: the transaction names the address and
  -- the family, has the digest of the payload, and is signed by the key that it names; so is the batch.
  pub record IsAuthentic (sha512 : Sha512) (pb : Protobuf) (key : Secp256k1PrivateKey K)
      (address : Text) (payload : Bytes) (b : BatchList) : Type 0 where
    pub header : TransactionHeader
    pub transaction : Transaction
    pub batch : IsBatch lib key pb (transaction ∷ []) b
    pub serialized : transaction.header ≡ pb.transaction_header header
    pub carries : transaction.payload ≡ payload
    pub digest : header.payload_sha512 ≡ sha512 payload
    pub inputs : header.inputs ≡ address ∷ []
    pub outputs : header.outputs ≡ address ∷ []
    pub signer : header.signer_public_key ≡ key_text lib key
    pub batcher : header.batcher_public_key ≡ key_text lib key
    pub family : (header.family_name ≡ codes "xo") × (header.family_version ≡ codes "1.0")
    pub verified : IsVerified lib transaction.header transaction.header_signature (key_text lib key)

  -- The header that is built for a transaction.
  abbrev pub header_for : Sha512 → Secp256k1PrivateKey K → Text → Bytes → Text → TransactionHeader
  header_for sha512 key address payload nonce = record {
    signer_public_key = key_text lib key;
    family_name = codes "xo";
    family_version = codes "1.0";
    inputs = address ∷ [];
    outputs = address ∷ [];
    dependencies = [];
    payload_sha512 = sha512 payload;
    batcher_public_key = key_text lib key;
    nonce = nonce;
  }

module _ {W Y K P S : Type 0} (lib : Secp256k1 W K P S) (law : IsSecp256k1 lib) (io : Libraries W Y)
    (pb : Protobuf) (sha512 : Sha512) where
  sign_txn-IsAuthentic :
      (client : XoClient W K P) (w : W) (key : Secp256k1PrivateKey K) (address : Text)
      (payload : Bytes) (nonce : Text) (b : BatchList) (s' : XoClient W K P × W)
      → IsReady lib client key
      → sign_txn lib io pb sha512 address payload
          (header_for lib sha512 key address payload nonce)
          (client, w)
        ≡ (ok b, s')
      → IsAuthentic lib sha512 pb key address payload b
  unfolding sign_txn
  sign_txn-IsAuthentic client w key address payload nonce b s' h e =
      elim (Result-cases (io.print address w).0) [
        | inr (x, p) ↦ absurd (ground (arith, p, e))
        | inl (t, p) ↦
            let w' = (io.print address w).1 in
            let header = header_for lib sha512 key address payload nonce in
            elim (Result-cases (sign_header (pb.transaction_header header) (client, w')).0) [
              | inr (x, u) ↦ absurd (ground (arith, p, u, e))
              | inl (signature, u) ↦
                  let v =
                    sign_header-IsVerified lib law client w' key (pb.transaction_header header)
                      signature (sign_header (pb.transaction_header header) (client, w')).1 h
                      (ground (arith, u)) in
                  let transaction : Transaction = record {
                    header = pb.transaction_header header;
                    payload = payload;
                    header_signature = signature;
                  } in
                  record {
                    header = header;
                    transaction = transaction;
                    batch =
                        create_batch_list-IsBatch lib law pb client w' key (transaction ∷ []) b s' h
                          (ground (arith, p, u, v.unchanged, e));
                    serialized = refl;
                    carries = refl;
                    digest = refl;
                    inputs = refl;
                    outputs = refl;
                    signer = refl;
                    batcher = refl;
                    family = (refl, refl);
                    verified = v.verified;
                  }
            ]
      ]

  -- What a ready client builds is authentic, for the address of the name and the payload of the order.
  pub build_txn-IsAuthentic :
      (client : XoClient W K P) (w : W) (key : Secp256k1PrivateKey K) (name action : Text)
      (space : Option ℤ) (b : BatchList) (s' : XoClient W K P × W)
      → IsReady lib client key
      → build_txn lib io pb sha512 name action space (client, w) ≡ (ok b, s')
      → (address : Text) × (payload : Bytes) × (get_address sha512 name ≡ ok address)
        × (payload_of name action space ≡ ok payload)
        × IsAuthentic lib sha512 pb key address payload b
  unfolding build_txn
  build_txn-IsAuthentic client w key name action space b s' h e =
      elim (Result-cases (payload_of name action space)) [
        | inr (x, u) ↦ absurd (ground (arith, u, e))
        | inl (payload, u) ↦ elim (Result-cases (get_address sha512 name)) [
          | inr (x, v) ↦ absurd (ground (arith, u, v, e))
          | inl (address, v) ↦ elim (Result-cases (io.print address w).0) [
            | inr (x, p) ↦ absurd (ground (arith, u, v, p, e))
            | inl (t, p) ↦
                let w1 = (io.print address w).1 in
                let a = public_key_hex-IsReady lib client w1 key h in
                let a' = public_key_hex-IsReady lib a.next w1 key a.ready in
                elim (Result-cases (io.randint 0 18446744073709551616 w1).0) [
                  | inr (x, r) ↦ absurd (ground (arith, u, v, p, a.answer, a'.answer, r, e))
                  | inl (random, r) ↦ (
                    address,
                    payload,
                    v,
                    u,
                    sign_txn-IsAuthentic a'.next (io.randint 0 18446744073709551616 w1).1 key
                        address payload (hex random) b s' a'.ready
                        (ground (arith, u, v, p, a.answer, a'.answer, r, e)),
                  )
                ]
          ]
        ]
      ]
