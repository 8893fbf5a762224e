-- ===== src/Consensus/Driver/Activation.antt =====
-- The beginning of `ZmqDriver.start` under a validator that sends the startup state later.
use sci_ledger_sawtooth.Prelude.{ℕ, zero, suc, ◌<◌, ◌≡◌, ◌≢◌, none, some, arith}
use sci_ledger_sawtooth.Errors.{ok, err, concurrent_timeout_error}
use sci_ledger_sawtooth.Messaging.{Link, ValidatorMessage, arrived}
use sci_ledger_sawtooth.Consensus.Notifications.{StartupState, Codec}
use sci_ledger_sawtooth.Consensus.Driver.{
  Engine, register_once, register, wait_until_active, notify_activated, notify_ack,
}
use sci_ledger_sawtooth.Consensus.Driver.Registration.{NotReady, register_loop_lem}
use sci_ledger_sawtooth.Consensus.Driver.Start.{startup}

module _ {S : Type 0} (link : Link S) (codec : Codec) (engine : Engine S) where
  -- Rounds of `_wait_until_active` without the activation: nothing comes within the time, or a message
  -- of another type, which is passed over. From the future and the state at the first round to those
  -- after the last.
  pub data Waits : ℕ → ℕ → S → ℕ → S → Type 0 where
    no_wait : (f : ℕ) (s : S) → Waits zero f s f s
    in_vain :
        (k f f' : ℕ) (s s1 s' : S)
        → link.received f (some 1) s ≡ (err concurrent_timeout_error, s1)
        → Waits k f s1 f' s'
        → Waits (suc k) f s f' s'
    passed_over :
        (k f f1 f' : ℕ) (s s1 s2 s' : S) (m : ValidatorMessage)
        → link.received f (some 1) s ≡ (ok (arrived m), s1)
        → m.message_type ≢ notify_activated
        → link.receive s1 ≡ (ok f1, s2)
        → Waits k f1 s2 f' s'
        → Waits (suc k) f s f' s'

  -- The activation comes and is acknowledged.
  pub record Activates (f : ℕ) (s s' : S) (state : StartupState) : Type 0 where
    pub message : ValidatorMessage
    pub arrives : S
    pub comes : link.received f (some 1) s ≡ (ok (arrived message), arrives)
    pub type : message.message_type ≡ notify_activated
    pub parsed : codec.activated message.content ≡ ok state
    pub acked : link.send_back notify_ack message.correlation_id codec.ack arrives ≡ (ok tt, s')

  wait_until_active_lem :
      (k n f f' : ℕ) (s s1 s' : S) (state : StartupState)
      → k < n
      → Waits k f s f' s1
      → Activates f' s1 s' state
      → wait_until_active link codec engine n f s ≡ (ok (some state), s')
  unfolding wait_until_active
  wait_until_active_lem k zero f f' s s1 s' state lt w a = absurd (omega arith)
  wait_until_active_lem zero (suc n) f f' s s1 s' state lt (no_wait _ _) a =
      ground (arith, a.comes, a.type, a.parsed, a.acked)
  wait_until_active_lem (suc k) (suc n) f f' s s1 s' state lt (in_vain _ _ _ _ t1 _ e w) a =
      let rest = wait_until_active_lem k n f f' t1 s1 s' state (omega arith) w a in
      ground (arith, e, rest)
  wait_until_active_lem (suc k) (suc n) f f' s s1 s' state lt
        (passed_over _ _ f1 _ _ t1 t2 _ m e o r w) a =
      let rest = wait_until_active_lem k n f1 f' t2 s1 s' state (omega arith) w a in
      ground (arith, e, o, r, rest)

  -- Where the connection is ready and the validator answers k registrations with NOT_READY and the next
  -- with OK but no startup state, and the activation comes after j rounds of waiting, in which nothing
  -- or messages of other types came, then within any more than k and j rounds `start` has the startup
  -- state of the activation, which it has acknowledged.
  pub startup_lem :
      (k j n f f' : ℕ) (s s0 s1 s2 s3 s4 s' : S) (state : StartupState)
      → k < n
      → j < n
      → link.wait_for_ready s ≡ (ok tt, s0)
      → NotReady link codec engine k s0 s1
      → register_once link codec engine s1 ≡ (ok (some none), s2)
      → link.receive s2 ≡ (ok f, s3)
      → Waits j f s3 f' s4
      → Activates f' s4 s' state
      → startup link codec engine n s ≡ (ok (some (some state)), s')
  unfolding startup register
  startup_lem k j n f f' s s0 s1 s2 s3 s4 s' state lt lt' ready busy once asked waits active =
      let settled = register_loop_lem link codec engine k n s0 s1 s2 (ok none) lt busy once in
      let activated = wait_until_active_lem j n f f' s3 s4 s' state lt' waits active in
      ground (arith, ready, settled, asked, activated)
