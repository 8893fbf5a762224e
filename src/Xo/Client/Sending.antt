-- ===== src/Xo/Client/Sending.antt =====
-- What `_send_xo_txn` of xo_client.py comes to, once the batch list is built.
use sci_ledger_sawtooth.Prelude.{ℕ, ◌*◌, ◌<◌, ◌≡◌, ◌⊎◌, Option, none, some}
use sci_ledger_sawtooth.Text.{Text}
use sci_ledger_sawtooth.Errors.{Exn, Result, ok, err}
use sci_ledger_sawtooth.Action.{Action, pure, ◌>>=◌}
use sci_ledger_sawtooth.Signing.Keys.{Secp256k1}
use sci_ledger_sawtooth.Xo.State.{Sha512}
use sci_ledger_sawtooth.Xo.Client.World.{Libraries, Auth}
use sci_ledger_sawtooth.Xo.Client.Batches.{BatchList, Protobuf}
use sci_ledger_sawtooth.Xo.Client.Transactions.{second, send_and_wait}
use sci_ledger_sawtooth.Xo.Client.Waiting.{IsClock, Ended, posting_of}

-- Fuel above the microseconds to wait.
abbrev pub Enough : Option ℕ → ℕ → Type 0
Enough none fuel = Unit
Enough (some n) fuel = n * second < fuel

module _ {W Y K P S : Type 0} (lib : Secp256k1 W K P S) (io : Libraries W Y) (pb : Protobuf)
    (sha512 : Sha512) (clock : W → ℕ) (law : IsClock io clock) where
  -- With waiting the batch list is posted after the time is read; without, its response is returned.
  abbrev pub Outcome : Option ℕ → Text → BatchList → Auth → W → Result (Option Text) → Type 0
  Outcome none base_url b auth w r =
      ((e : Exn) × ((posting_of io base_url b pb auth w).0 ≡ err e) × (r ≡ err e))
      ⊎ ((response : Text) × ((posting_of io base_url b pb auth w).0 ≡ ok response)
          × (r ≡ ok (some response)))
  Outcome (some n) base_url b auth w r =
      Ended io (posting_of io base_url b pb auth (io.time w).1).0 r

  -- What is left to do when the batch list is built.
  abbrev last : Option ℕ → ℕ → Text → Text → BatchList → Auth → Action W (Option Text)
  last none fuel base_url batch_id b auth =
      posting_of io base_url b pb auth >>= λ response. pure (some response)
  last (some n) fuel base_url batch_id b auth = send_and_wait io fuel base_url batch_id b pb n auth
