-- ===== src/Xo/Client/Accepted.antt =====
-- A client whose libraries work builds a transaction that is authentic, and that the processor of the
-- family reads as it was meant, at the address that it reads and writes.
use sci_ledger_sawtooth.Prelude.{
  ◌≡◌, refl, sym, ap, ◌∙◌, Option, true, List, [], ◌∷◌, arith, map, All, ℕ, ◌++◌,
}
use sci_ledger_sawtooth.Text.{Text, Bytes, prefix, truthy}
use sci_ledger_sawtooth.Text.Numbers.{hex}
use sci_ledger_sawtooth.Errors.{ok}
use sci_ledger_sawtooth.Signing.{sign}
use sci_ledger_sawtooth.Signing.Keys.{
  Secp256k1, IsSecp256k1, Secp256k1PrivateKey, secp256k1_context,
}
use sci_ledger_sawtooth.Xo.Payload.{ℤ}
use sci_ledger_sawtooth.Xo.State.{Sha512}
use sci_ledger_sawtooth.Xo.Client.{XoClient, get_address}
use sci_ledger_sawtooth.Xo.Client.World.{Libraries}
use sci_ledger_sawtooth.Xo.Client.Batches.{
  Transaction, BatchList, Protobuf, payload_of, sign_header, create_batch_list,
}
use sci_ledger_sawtooth.Xo.Client.Transactions.{build_txn, sign_txn}
use sci_ledger_sawtooth.Xo.Client.Signed.{IsReady, key_text, public_key_hex-IsReady}
use sci_ledger_sawtooth.Xo.Client.Authentic.{IsAuthentic, header_for, build_txn-IsAuthentic}
use sci_ledger_sawtooth.Text.Utf8.Scalar.{encode_total}
use sci_ledger_sawtooth.Xo.State.{make_xo_address, xo_namespace}
use sci_ledger_sawtooth.Xo.Game.RoundTrip.{IsPlain, IsPlain-IsScalar}
use sci_ledger_sawtooth.Xo.Payload.{CharTable, from_bytes}
use sci_ledger_sawtooth.Xo.Client.{get_prefix}
use sci_ledger_sawtooth.Xo.Client.Payloads.{
  IsAscii, Order, action_of, space_arg, understood, from_bytes-payload_of,
}

-- The client's address is the processor's.
get_address-make_xo_address :
    (sha512 : Sha512) (name : Text) → get_address sha512 name ≡ make_xo_address sha512 name
unfolding get_address make_xo_address get_prefix xo_namespace
get_address-make_xo_address sha512 name = refl

make_xo_address_total :
    (sha512 : Sha512) (name : Text)
    → All IsPlain name
    → (address : Text) × (make_xo_address sha512 name ≡ ok address)
unfolding make_xo_address
make_xo_address_total sha512 name h =
    let (b, e) = encode_total name (IsPlain-IsScalar name h) in
    (xo_namespace sha512 ++ prefix 64 (sha512 b), ground (arith, e))

module _ {W Y K P S : Type 0} (lib : Secp256k1 W K P S) (io : Libraries W Y) where
  -- Printing, drawing a number, and signing with the key succeed.
  pub record Works (key : Secp256k1PrivateKey K) : Type 0 where
    pub prints : (t : Text) (w : W) → (io.print t w).0 ≡ ok tt
    pub draws : (low high : ℕ) (w : W) → (n : ℕ) × ((io.randint low high w).0 ≡ ok n)
    pub signs :
        (message : Bytes)
        → (signature : Text) × ((secp256k1_context lib).sign message key ≡ ok signature)

  sign_header_total :
      (client : XoClient W K P) (w : W) (key : Secp256k1PrivateKey K) (message : Bytes)
      → IsReady lib client key
      → Works key
      → (signature : Text) × (sign_header message (client, w) ≡ (ok signature, (client, w)))
  unfolding sign_header sign
  sign_header_total client w key message h works =
      let (signature, e) = works.signs message in
      let q : sign_header message (client, w)
          ≡ (h.signer.context.sign message h.signer.private_key, (client, w)) =
        rw (h.has_signer) refl in
      let r =
        ap (λ c. c.sign message h.signer.private_key) h.has_context
        ∙ ap ((secp256k1_context lib).sign message) h.has_key
        ∙ e in
      (signature, q ∙ ap (λ v. (v, (client, w))) r)

  module _ (pb : Protobuf) (sha512 : Sha512) where
    create_batch_list_total :
        (client : XoClient W K P) (w : W) (key : Secp256k1PrivateKey K)
        (transactions : List Transaction)
        → IsReady lib client key
        → Works key
        → (b : BatchList) × (s' : XoClient W K P × W) × (create_batch_list lib pb transactions
              (client, w)
            ≡ (ok b, s'))
    unfolding create_batch_list
    create_batch_list_total client w key transactions h works =
        let a = public_key_hex-IsReady lib client w key h in
        let header = pb.batch_header (record {
          signer_public_key = key_text lib key;
          transaction_ids = map (λ t. t.header_signature) transactions;
        }) in
        let (signature, e) = sign_header_total a.next w key header a.ready works in
        (
          record {
            batches =
                record {
                  header = header;
                  transactions = transactions;
                  header_signature = signature;
                }
                ∷ [];
          },
          (a.next, w),
          ground (arith, a.answer, e),
        )

    build_txn_total :
        (client : XoClient W K P) (w : W) (key : Secp256k1PrivateKey K) (name action : Text)
        (space : Option ℤ) (address : Text) (payload : Bytes)
        → IsReady lib client key
        → Works key
        → get_address sha512 name ≡ ok address
        → payload_of name action space ≡ ok payload
        → (b : BatchList) × (s' : XoClient W K P × W) × (build_txn lib io pb sha512 name action
              space
              (client, w)
            ≡ (ok b, s'))
    unfolding build_txn sign_txn
    build_txn_total client w key name action space address payload h works v u =
        let p = works.prints address w in
        let w1 = (io.print address w).1 in
        let a = public_key_hex-IsReady lib client w1 key h in
        let a' = public_key_hex-IsReady lib a.next w1 key a.ready in
        let (random, r) = works.draws 0 18446744073709551616 w1 in
        let w2 = (io.randint 0 18446744073709551616 w1).1 in
        let p' = works.prints address w2 in
        let w3 = (io.print address w2).1 in
        let header =
          pb.transaction_header (header_for lib sha512 key address payload (hex random)) in
        let (signature, e) = sign_header_total a'.next w3 key header a'.ready works in
        let (b, s', c) =
          create_batch_list_total a'.next w3 key
            (record { header = header; payload = payload; header_signature = signature } ∷ [])
            a'.ready works in
        (b, s', ground (arith, v, u, p, a.answer, a'.answer, r, p', e, c))

    -- What becomes of an order.
    pub record IsAccepted (u : CharTable) (client : XoClient W K P) (w : W)
        (key : Secp256k1PrivateKey K) (name : Text) (o : Order) : Type 0 where
      pub b : BatchList
      pub s' : XoClient W K P × W
      pub address : Text
      pub payload : Bytes
      pub built :
          build_txn lib io pb sha512 name (action_of o) (space_arg o) (client, w) ≡ (ok b, s')
      pub addressed : make_xo_address sha512 name ≡ ok address
      pub read : from_bytes u payload ≡ understood name o
      pub authentic : IsAuthentic lib sha512 pb key address payload b

    -- Where printing, drawing random numbers and signing succeed, a client with a signer builds a batch
    -- list for every create, delete or take of a name that is there and holds no comma, bar or
    -- surrogate. It is one batch of one transaction. The headers of both name the client's public key in
    -- hexadecimal, which is read back, and under it the signatures of both are recognised. The
    -- transaction's inputs and outputs are just the address at which the processor keeps the name, its
    -- header has the digest of its payload, and from that payload the processor reads the order.
    pub build_txn-IsAccepted :
        (law : IsSecp256k1 lib) (u : CharTable) (ascii : IsAscii u) (client : XoClient W K P)
        (w : W) (key : Secp256k1PrivateKey K) (name : Text) (o : Order)
        → IsReady lib client key
        → Works key
        → truthy name ≡ true
        → All IsPlain name
        → IsAccepted u client w key name o
    build_txn-IsAccepted law u ascii client w key name o h works t plain_name =
        let (address, v) = make_xo_address_total sha512 name plain_name in
        let (payload, p, r) = from_bytes-payload_of u ascii name o t plain_name in
        let v' = get_address-make_xo_address sha512 name ∙ v in
        let (b, s', e) =
          build_txn_total client w key name (action_of o) (space_arg o) address payload h works v'
            p in
        let (address', payload', v'', p', a) =
          build_txn-IsAuthentic lib law io pb sha512 client w key name (action_of o) (space_arg o) b
            s' h e in
        record {
          b = b;
          s' = s';
          address = address';
          payload = payload';
          built = e;
          addressed = sym (get_address-make_xo_address sha512 name) ∙ v'';
          read = let q : payload' ≡ payload = ground (arith, p, p') in rw q r;
          authentic = a;
        }
