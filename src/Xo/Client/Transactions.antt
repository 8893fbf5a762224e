-- ===== src/Xo/Client/Transactions.antt =====
-- The transactions of `XoClient`: `_send_xo_txn` with its waiting, `create`, `delete` and `take` of
-- xo_client.py.
use sci_ledger_sawtooth.Prelude.{
  ℕ, zero, suc, ◌+◌, ◌*◌, ◌-◌, ◌/◌, Bool, true, Option, none, some, [], ◌∷◌, leb, ltb,
  if◌then◌else◌,
}
use sci_ledger_sawtooth.Text.{Text, Bytes, codes}
use sci_ledger_sawtooth.Text.Numbers.{hex}
use sci_ledger_sawtooth.Errors.{Result, ok, err, index_error}
use sci_ledger_sawtooth.Action.{Action, pure, lift, gets, ◌>>=◌, ◌>>◌}
use sci_ledger_sawtooth.Signing.Keys.{Secp256k1}
use sci_ledger_sawtooth.Xo.Payload.{ℤ, pos, negsuc, act_create, act_delete, act_take}
use sci_ledger_sawtooth.Xo.State.{Sha512}
use sci_ledger_sawtooth.Xo.Client.{XoClient, get_address}
use sci_ledger_sawtooth.Xo.Client.World.{Libraries, Auth}
use sci_ledger_sawtooth.Xo.Client.Requests.{send_request, get_status, octet_stream}
use sci_ledger_sawtooth.Xo.Client.Batches.{
  TransactionHeader, BatchList, Protobuf, payload_of, outside, public_key_hex, sign_header,
  create_batch_list,
}

abbrev pub second : ℕ
second = 1000000

-- `time.time() - start_time` in microseconds; the clock may have been set back
abbrev pub since : ℕ → ℕ → ℤ
since start_time now =
    if leb start_time now then pos (now - start_time) else negsuc (start_time - now - 1)

-- `wait_time < wait`
abbrev pub still_waits : ℤ → ℕ → Bool
still_waits (pos t) wait = ltb t (wait * second)
still_waits (negsuc t) wait = true

-- `wait - int(wait_time)`: `int` rounds towards zero
abbrev pub time_left : ℤ → ℕ → ℕ
time_left (pos t) wait = wait - t / second
time_left (negsuc t) wait = wait + (t + 1) / second

-- `if wait and wait > 0`
abbrev pub waiting_of : Option ℤ → Option ℕ
waiting_of (some (pos (suc n))) = some (suc n)
waiting_of _ = none

abbrev pub pending : Text
pending = codes "PENDING"

-- `batch_list.batches[0].header_signature`
abbrev pub batch_id_of : BatchList → Result Text
batch_id_of b = elim (b.batches) [
  | [] ↦ err index_error
  | batch ∷ rest ↦ ok (batch.header_signature)
]

module _ {W Y : Type 0} (io : Libraries W Y) where
  -- the loop `while wait_time < wait`; None when the fuel has run out before the loop has ended
  unfoldable pub poll : ℕ → Text → Text → ℕ → ℕ → Auth → ℤ → Action W (Option (Unit {0}))
  poll zero base_url batch_id wait start_time auth wait_time = pure none
  poll (suc fuel) base_url batch_id wait start_time auth wait_time =
      if still_waits wait_time wait
      then (do
        status ← get_status io base_url batch_id (time_left wait_time wait) auth
        now ← io.time
        (if io.is_text status pending
            then poll fuel base_url batch_id wait start_time auth (since start_time now)
            else pure (some tt)))
      else pure (some tt)

  -- the branch of `_send_xo_txn` that waits: the response of the first request is returned
  unfoldable pub send_and_wait :
      ℕ → Text → Text → BatchList → Protobuf → ℕ → Auth → Action W (Option Text)
  unfolding poll
  send_and_wait fuel base_url batch_id batch_list pb wait auth = do
    start_time ← io.time
    response ←
        send_request io base_url (codes "batches") (some (pb.batch_list batch_list))
          (some octet_stream) none auth
    ended ← poll fuel base_url batch_id wait start_time auth (pos 0)
    pure (elim ended [ none ↦ none | some done ↦ some response ])

module _ {W Y K P S : Type 0} (lib : Secp256k1 W K P S) (io : Libraries W Y) (pb : Protobuf)
    (sha512 : Sha512) where
  -- `_send_xo_txn` from the header on
  unfoldable pub sign_txn : Text → Bytes → TransactionHeader → Action (XoClient W K P × W) BatchList
  sign_txn address payload txn_header = do
    outside (io.print address)
    signature ← sign_header (pb.transaction_header txn_header)
    create_batch_list lib pb (
        record {
          header = pb.transaction_header txn_header;
          payload = payload;
          header_signature = signature;
        }
        ∷ [])

  -- `_send_xo_txn` up to the batch list
  unfoldable pub build_txn : Text → Text → Option ℤ → Action (XoClient W K P × W) BatchList
  unfolding sign_txn
  build_txn name action space = do
    payload ← lift (payload_of name action space)
    address ← lift (get_address sha512 name)
    outside (io.print address)
    signer_public_key ← public_key_hex lib
    batcher_public_key ← public_key_hex lib
    random ← outside (io.randint 0 18446744073709551616)
    sign_txn address payload (record {
      signer_public_key = signer_public_key;
      family_name = codes "xo";
      family_version = codes "1.0";
      inputs = address ∷ [];
      outputs = address ∷ [];
      dependencies = [];
      payload_sha512 = sha512 payload;
      batcher_public_key = batcher_public_key;
      nonce = hex random;
    })

  -- `_send_xo_txn`; None when the fuel of the waiting has run out
  unfoldable pub send_xo_txn :
      ℕ → Text → Text → Option ℤ → Option ℤ → Auth → Action (XoClient W K P × W) (Option Text)
  unfolding build_txn send_and_wait
  send_xo_txn fuel name action space wait auth = do
    batch_list ← build_txn name action space
    batch_id ← lift (batch_id_of batch_list)
    base_url ← gets (λ s. s.0.base_url)
    outside (elim (waiting_of wait) [
      | some seconds ↦ send_and_wait io fuel base_url batch_id batch_list pb seconds auth
      | none ↦
          send_request io base_url (codes "batches") (some (pb.batch_list batch_list))
            (some octet_stream) none auth
          >>= λ response. pure (some response)
    ])

  unfoldable pub create : ℕ → Text → ℤ → Option ℤ → Auth → Action (XoClient W K P × W) (Option Text)
  unfolding send_xo_txn
  create fuel name dimensions wait auth =
      send_xo_txn fuel name act_create (some dimensions) wait auth

  unfoldable pub delete : ℕ → Text → Option ℤ → Auth → Action (XoClient W K P × W) (Option Text)
  unfolding send_xo_txn
  delete fuel name wait auth = send_xo_txn fuel name act_delete none wait auth

  unfoldable pub take : ℕ → Text → ℤ → Option ℤ → Auth → Action (XoClient W K P × W) (Option Text)
  unfolding send_xo_txn
  take fuel name space wait auth = send_xo_txn fuel name act_take (some space) wait auth
