-- ===== src/Xo/Client.antt =====
-- `XoClient` of examples/xo_python/sawtooth_xo/xo_client.py: its construction and what it asks of the state. The libraries that it calls are the parameter `io`.
pub mod World
pub mod Reading
pub mod Requests
pub mod Batches
pub mod Transactions
pub mod Payloads
pub mod Signed
pub mod Authentic
pub mod Accepted
pub mod Waiting
pub mod Sending
mod Tests
use sci_ledger_sawtooth.Prelude.{
  ℕ, ◌+◌, ◌*◌, ◌-◌, ◌/◌, Bool, true, false, not, ◌&&◌, Option, none, some, List, [], ◌∷◌, ◌++◌,
  ◌==◌, if◌then◌else◌,
}
use sci_ledger_sawtooth.Text.{Text, Bytes, codes, prefix, starts_with, truthy}
use sci_ledger_sawtooth.Text.Utf8.{encode}
use sci_ledger_sawtooth.Text.Numbers.{str}
use sci_ledger_sawtooth.Dict.{Dict, put}
use sci_ledger_sawtooth.Errors.{
  Exn, Arg, text, number, optional, cause, Message, plain, format, Result, ok, err, value_error,
  xo_exception, parse_error, os_error, connection_error, attribute_error,
}
use sci_ledger_sawtooth.Action.{Action, pure, raise, lift, try, ◌>>=◌, ◌>>◌}
use sci_ledger_sawtooth.Signing.{Signer, CryptoFactory, new_signer, create_context}
use sci_ledger_sawtooth.Signing.Keys.{
  Secp256k1, Secp256k1PrivateKey, Secp256k1PublicKey, private_from_hex, secp256k1_name,
}
use sci_ledger_sawtooth.Xo.Payload.{CharTable, ℤ, pos, negsuc, drop_space}
use sci_ledger_sawtooth.Xo.State.{Sha512}
use sci_ledger_sawtooth.Xo.Client.World.{Libraries, Auth, strip}
use sci_ledger_sawtooth.Xo.Client.Reading.{entries_in, data_in}
use sci_ledger_sawtooth.Xo.Client.Requests.{send_request}

-- `try: m except BaseException: return None`
abbrev pub or_none {ℓ} : {A : Type ℓ} → Result A → Option A
or_none (ok a) = some a
or_none (err e) = none

pub record XoClient (W K P : Type 0) : Type 0 where
  pub base_url : Text
  pub signer : Option (Signer W (Secp256k1PrivateKey K) (Secp256k1PublicKey P))

-- `_sha512` gives a text of hexadecimal digits; the literal is ASCII
unfoldable pub get_prefix : Sha512 → Text
get_prefix sha512 = prefix 6 (sha512 (codes "xo"))

unfoldable pub get_address : Sha512 → Text → Result Text
unfolding get_prefix
get_address sha512 name = elim (encode name) [
  | none ↦ err value_error
  | some b ↦
      let xo_prefix = get_prefix sha512 in
      let game_address = prefix 64 (sha512 b) in ok (xo_prefix ++ game_address)
]

-- The private key that a key file holds.
abbrev unreadable : Text → Exn → Exn
unreadable keyfile os_error =
    xo_exception
      (record { template = "Failed to read private key {}: {}"; args = text keyfile ∷ cause ∷ [] })
unreadable keyfile e = e

abbrev unparsed : Exn → Exn
unparsed (parse_error m) = xo_exception (format "Unable to load private key: {}" cause)
unparsed e = e

module _ {W Y : Type 0} (io : Libraries W Y) where
  module _ {K P : Type 0} (sha512 : Sha512) (client : XoClient W K P) where
    -- `XoClient.list`
    unfoldable pub list : Auth → Action W (Option (List Bytes))
    unfolding send_request entries_in get_prefix
    list auth = do
      result ←
          send_request io client.base_url (codes "state?address=" ++ get_prefix sha512) none none
            none auth
      pure (or_none (entries_in io result))

    -- `XoClient.show`
    unfoldable pub show : Text → Auth → Action W (Option Bytes)
    unfolding send_request data_in get_address
    show name auth = do
      address ← lift (get_address sha512 name)
      result ←
          send_request io client.base_url (codes "state/" ++ address) none none (some name) auth
      pure (or_none (data_in io result))

  -- `XoClient.__init__`
  unfoldable pub new_client :
      {K P S : Type 0}
      → Secp256k1 W K P S
      → CharTable
      → Text
      → Option Text
      → Action W (XoClient W K P)
  new_client lib u base_url none = pure (record { base_url = base_url; signer = none })
  new_client lib u base_url (some keyfile) = do
    fd_text ← try (io.read_file keyfile) (λ e. raise (unreadable keyfile e))
    private_key ← try (lift (private_from_hex lib (strip u fd_text))) (λ e. raise (unparsed e))
    context ← lift (create_context lib secp256k1_name)
    pure (record {
      base_url = base_url;
      signer = some (new_signer (record { context = context }) private_key);
    })
