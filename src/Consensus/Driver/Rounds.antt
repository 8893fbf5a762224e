-- ===== src/Consensus/Driver/Rounds.antt =====
-- The loop of the driver puts the notifications on the queue of updates, in their order.
use sci_ledger_sawtooth.Prelude.{ℕ, suc, ◌≡◌, false, none, some, List, [], ◌++◌, arith}
use sci_ledger_sawtooth.Text.{Text}
use sci_ledger_sawtooth.Errors.{ok, err, attribute_error}
use sci_ledger_sawtooth.Messaging.{Link, ValidatorMessage, reconnect_event}
use sci_ledger_sawtooth.Consensus.Notifications.{Update, Codec}
use sci_ledger_sawtooth.Consensus.Driver.{
  Engine, Driver, take_event, message_and_next, driver_step, driver_rounds, driver_loop,
}
use sci_ledger_sawtooth.Consensus.Driver.Delivery.{IsQueue}

module _ {S : Type 0} (link : Link S) (codec : Codec) (engine : Engine S)
    (pending : S → List ValidatorMessage) (acks : S → List Text)
    (queue : IsQueue link pending acks) where
  -- What the rounds have made of the driver.
  abbrev pub HasDelivered : ℕ → ℕ → Driver S → List (ℕ × Update) → List Text → Type 0
  HasDelivered n f d us ids =
      (f' : ℕ) × (d' : Driver S) × (driver_rounds link codec engine n f d ≡ (ok (some f'), d'))
      × (d'.updates ≡ d.updates ++ us)
      × (acks d'.outside ≡ acks d.outside ++ ids)
      × (pending d'.outside ≡ [])
      × (d'.exit ≡ false)

module _ {S : Type 0} (link : Link S) (codec : Codec) (engine : Engine S) where
  -- When the connection has been lost and found again, the future brings RECONNECT_EVENT, which has no
  -- message type: the round raises AttributeError, nothing is put on the queue, and the loop, which
  -- had begun with that future, has ended.
  pub driver_loop-reconnect :
      (n f f' : ℕ) (d : Driver S) (s1 s2 s3 : S)
      → d.exit ≡ false
      → link.receive d.outside ≡ (ok f, s1)
      → link.received f (some 1) s1 ≡ (ok reconnect_event, s2)
      → link.receive s2 ≡ (ok f', s3)
      → (driver_step link codec engine f (record d { outside = s1 })
          ≡ (err attribute_error, record d { outside = s3 }))
        × (driver_loop link codec engine (suc n) d ≡ (ok none, record d { outside = s3 }))
  unfolding driver_step message_and_next take_event driver_loop driver_rounds
  driver_loop-reconnect n f f' d s1 s2 s3 run a b c =
      (ground (arith, run, a, b, c), ground (arith, run, a, b, c))
