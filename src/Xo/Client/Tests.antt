-- ===== src/Xo/Client/Tests.antt =====
-- Runs of the xo client over the stand-ins of `Example`, and the theorems on them.
use sci_ledger_sawtooth.Prelude.{ℕ, Bool, refl, true, none, some, [], ◌∷◌, arith, inl, All}
use sci_ledger_sawtooth.Text.{codes}
use sci_ledger_sawtooth.Text.Hex.{hexlify}
use sci_ledger_sawtooth.Errors.{Result}
use sci_ledger_sawtooth.Example.{ascii, sha512}
use sci_ledger_sawtooth.Example.Library.{all_bytes, signed_by, toy, toy-IsSecp256k1}
use sci_ledger_sawtooth.Example.Web.{web, protobuf}
use sci_ledger_sawtooth.Signing.{new_signer, sign}
use sci_ledger_sawtooth.Signing.Keys
use sci_ledger_sawtooth.Signing.Keys.{Secp256k1PrivateKey, secp256k1_context}
use sci_ledger_sawtooth.Signing.Signatures.{IsFaithful}
use sci_ledger_sawtooth.Xo.Game.RoundTrip.{IsPlain}
use sci_ledger_sawtooth.Xo.Payload.{pos}
use sci_ledger_sawtooth.Xo.Client.{XoClient}
use sci_ledger_sawtooth.Xo.Client.World.{Auth}
use sci_ledger_sawtooth.Xo.Client.Batches.{BatchList}
use sci_ledger_sawtooth.Xo.Client.Transactions.{build_txn}
use sci_ledger_sawtooth.Xo.Client.Payloads.{IsAscii, taking}
use sci_ledger_sawtooth.Xo.Client.Signed.{IsReady}
use sci_ledger_sawtooth.Xo.Client.Accepted.{Works, IsAccepted, build_txn-IsAccepted}

abbrev key : Secp256k1PrivateKey Bool
key = record { secp256k1_private_key = true }

abbrev client : XoClient ℕ Bool Bool
client = record {
  base_url = codes "rest-api";
  signer = some (new_signer (record { context = secp256k1_context toy }) key);
}

client-IsReady : IsReady toy client key
unfolding new_signer IsFaithful
client-IsReady = record {
  signer = new_signer (record { context = secp256k1_context toy }) key;
  has_signer = refl;
  faithful = inl refl;
  has_context = refl;
  has_key = refl;
}

web-Works : Works toy web key
unfolding secp256k1_context Keys.sign all_bytes
web-Works = record {
  prints = λ t w. refl;
  draws = λ low high w. (low, refl);
  signs = λ message. (hexlify (signed_by true message), ground arith);
}

ascii-IsAscii : IsAscii ascii
ascii-IsAscii = record {
  digit = λ c h. ground arith;
  digit_not_space = λ c h. ground arith;
  minus_not_space = refl;
}

name-IsPlain : All IsPlain (codes "ab")
name-IsPlain = (
  (omega arith, omega arith, inl (omega arith)),
  ((omega arith, omega arith, inl (omega arith)), tt),
)

build_txn-IsAccepted_example :
    IsAccepted toy web protobuf sha512 ascii client 0 key (codes "ab") (taking (pos 5))
build_txn-IsAccepted_example =
    build_txn-IsAccepted toy web protobuf sha512 toy-IsSecp256k1 ascii ascii-IsAscii client 0 key
      (codes "ab") (taking (pos 5)) client-IsReady web-Works refl name-IsPlain

abbrev no_auth : Auth
no_auth = record { auth_user = none; auth_password = none }

abbrev built : Result BatchList × (XoClient ℕ Bool Bool × ℕ)
built = build_txn toy web protobuf sha512 (codes "ab") (codes "take") (some (pos 5)) (client, 0)

abbrev batch_list : BatchList
batch_list = record {
  batches =
      record {
        header = codes "02";
        transactions =
            record {
              header = codes "ab,take,5";
              payload = codes "ab,take,5";
              header_signature = codes "0261";
            }
            ∷ [];
        header_signature = codes "0230";
      }
      ∷ [];
}

abbrev after : XoClient ℕ Bool Bool
after = record {
  base_url = codes "rest-api";
  signer = some (record {
    context = secp256k1_context toy;
    private_key = key;
    public_key = some (record { secp256k1_public_key = true });
  });
}
