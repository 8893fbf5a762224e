-- ===== src/Xo/Client/Signed.antt =====
-- The transactions that `XoClient` builds are what a validator accepts: every signature is recognised
-- under the key that the header names.
use sci_ledger_sawtooth.Prelude.{
  ◌≡◌, refl, sym, ap, ◌∙◌, some, true, List, [], ◌∷◌, arith, inl, inr, map,
}
use sci_ledger_sawtooth.Text.{Text, Bytes}
use sci_ledger_sawtooth.Errors.{ok, Result-cases}
use sci_ledger_sawtooth.Signing.{Signer, sign, get_public_key}
use sci_ledger_sawtooth.Signing.Core.{IsSound}
use sci_ledger_sawtooth.Signing.Keys.{
  Secp256k1, IsSecp256k1, Secp256k1PrivateKey, Secp256k1PublicKey, public_as_hex, public_from_hex,
  secp256k1_context,
}
use sci_ledger_sawtooth.Signing.Soundness.{public_from_hex-public_as_hex, secp256k1_context-IsSound}
use sci_ledger_sawtooth.Signing.Signatures.{IsFaithful, get_public_key_same, get_public_key-IsKept}
use sci_ledger_sawtooth.Xo.Client.{XoClient}
use sci_ledger_sawtooth.Xo.Client.Batches.{
  Transaction, BatchHeader, Batch, BatchList, Protobuf, public_key_hex, sign_header,
  create_batch_list,
}

module _ {W K P S : Type 0} (lib : Secp256k1 W K P S) where
  -- A client whose signer is of the context `secp256k1` and remembers no wrong public key.
  pub record IsReady (client : XoClient W K P) (key : Secp256k1PrivateKey K) : Type 0 where
    pub signer : Signer W (Secp256k1PrivateKey K) (Secp256k1PublicKey P)
    pub has_signer : client.signer ≡ some signer
    pub faithful : IsFaithful signer
    pub has_context : signer.context ≡ secp256k1_context lib
    pub has_key : signer.private_key ≡ key

  -- A signature that is recognised under a public key in hexadecimal.
  pub record IsVerified (message : Bytes) (signature public_key_text : Text) : Type 0 where
    public_key : Secp256k1PublicKey P
    pub read : public_from_hex lib public_key_text ≡ ok public_key
    pub valid : (secp256k1_context lib).verify signature message public_key ≡ ok true

  -- The text of the public key.
  unfoldable pub key_text : Secp256k1PrivateKey K → Text
  key_text key = public_as_hex lib ((secp256k1_context lib).get_public_key key)

  pub record AfterKey (client : XoClient W K P) (w : W) (key : Secp256k1PrivateKey K) : Type 0 where
    pub next : XoClient W K P
    pub answer : public_key_hex lib (client, w) ≡ (ok (key_text key), (next, w))
    pub ready : IsReady next key

  public_key_hex_lem :
      (client : XoClient W K P) (w : W)
      (s : Signer W (Secp256k1PrivateKey K) (Secp256k1PublicKey P))
      → client.signer ≡ some s
      → public_key_hex lib (client, w) ≡ (
        ok (public_as_hex lib (get_public_key s).0),
        (record client { signer = some (get_public_key s).1 }, w),
      )
  public_key_hex_lem client w s h = rw h refl

  same_key :
      (s : Signer W (Secp256k1PrivateKey K) (Secp256k1PublicKey P)) (key : Secp256k1PrivateKey K)
      → IsFaithful s
      → s.context ≡ secp256k1_context lib
      → s.private_key ≡ key
      → (get_public_key s).0 ≡ (secp256k1_context lib).get_public_key key
  same_key s key f c k =
      get_public_key_same s f
      ∙ ap (λ d. d.get_public_key s.private_key) c
      ∙ ap (secp256k1_context lib).get_public_key k

  pub public_key_hex-IsReady :
      (client : XoClient W K P) (w : W) (key : Secp256k1PrivateKey K)
      → IsReady client key
      → AfterKey client w key
  unfolding key_text
  public_key_hex-IsReady client w key h =
      let kept = get_public_key-IsKept h.signer h.faithful in
      record {
        next = record client { signer = some (get_public_key h.signer).1 };
        answer =
            public_key_hex_lem client w h.signer h.has_signer
            ∙ ap
                (λ p. (
                  ok (public_as_hex lib p),
                  (record client { signer = some (get_public_key h.signer).1 }, w),
                ))
                (same_key h.signer key h.faithful h.has_context h.has_key);
        ready = record {
          signer = (get_public_key h.signer).1;
          has_signer = refl;
          faithful = kept.faithful;
          has_context = kept.context ∙ h.has_context;
          has_key = kept.private_key ∙ h.has_key;
        };
      }

  -- What is known of a signature that the client has made.
  pub record AfterSign (client : XoClient W K P) (w : W) (key : Secp256k1PrivateKey K)
      (message : Bytes) (signature : Text) (s' : XoClient W K P × W) : Type 0 where
    pub unchanged : s' ≡ (client, w)
    pub verified : IsVerified message signature (key_text key)

  -- A batch list of one batch, whose signature is recognised under the key that it names.
  pub record IsBatch (key : Secp256k1PrivateKey K) (pb : Protobuf) (transactions : List Transaction)
      (b : BatchList) : Type 0 where
    pub batch_header : BatchHeader
    pub batch : Batch
    pub one : b ≡ record { batches = batch ∷ [] }
    pub holds : batch.transactions ≡ transactions
    pub serialized : batch.header ≡ pb.batch_header batch_header
    pub signer : batch_header.signer_public_key ≡ key_text key
    pub ids : batch_header.transaction_ids ≡ map (λ t. t.header_signature) transactions
    pub verified : IsVerified batch.header batch.header_signature (key_text key)

  module _ (law : IsSecp256k1 lib) where
    pub sign_header-IsVerified :
        (client : XoClient W K P) (w : W) (key : Secp256k1PrivateKey K) (message : Bytes)
        (signature : Text) (s' : XoClient W K P × W)
        → IsReady client key
        → sign_header message (client, w) ≡ (ok signature, s')
        → AfterSign client w key message signature s'
    unfolding sign_header sign key_text IsSound
    sign_header-IsVerified client w key message signature s' h e =
        let q : sign_header message (client, w)
            ≡ (h.signer.context.sign message h.signer.private_key, (client, w)) =
          rw (h.has_signer) refl in
        let r : (secp256k1_context lib).sign message key ≡ ok signature =
          sym (
            ap (λ c. c.sign message h.signer.private_key) h.has_context
            ∙ ap ((secp256k1_context lib).sign message) h.has_key)
          ∙ ap (λ v. v.0) (sym q ∙ e) in
        record {
          unchanged = sym (ap (λ v. v.1) (sym q ∙ e));
          verified = record {
            public_key = (secp256k1_context lib).get_public_key key;
            read =
                public_from_hex-public_as_hex lib law ((secp256k1_context lib).get_public_key key);
            valid = secp256k1_context-IsSound lib law key message signature r;
          };
        }

    pub create_batch_list-IsBatch :
        (pb : Protobuf) (client : XoClient W K P) (w : W) (key : Secp256k1PrivateKey K)
        (transactions : List Transaction) (b : BatchList) (s' : XoClient W K P × W)
        → IsReady client key
        → create_batch_list lib pb transactions (client, w) ≡ (ok b, s')
        → IsBatch key pb transactions b
    unfolding create_batch_list
    create_batch_list-IsBatch pb client w key transactions b s' h e =
        let a = public_key_hex-IsReady client w key h in
        let header : BatchHeader = record {
          signer_public_key = key_text key;
          transaction_ids = map (λ t. t.header_signature) transactions;
        } in
        elim (Result-cases (sign_header (pb.batch_header header) (a.next, w)).0) [
          | inr (x, u) ↦ absurd (ground (arith, a.answer, u, e))
          | inl (signature, u) ↦
              let v =
                sign_header-IsVerified a.next w key (pb.batch_header header) signature
                  (sign_header (pb.batch_header header) (a.next, w)).1 a.ready
                  (ground (arith, u)) in
              record {
                batch_header = header;
                batch = record {
                  header = pb.batch_header header;
                  transactions = transactions;
                  header_signature = signature;
                };
                one = ground (arith, a.answer, u, e);
                holds = refl;
                serialized = refl;
                signer = refl;
                ids = refl;
                verified = v.verified;
              }
        ]
