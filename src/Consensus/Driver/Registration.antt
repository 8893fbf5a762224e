-- ===== src/Consensus/Driver/Registration.antt =====
-- The registration loop of the driver under a validator that is not ready at first.
use sci_ledger_sawtooth.Prelude.{ℕ, zero, suc, ◌<◌, ◌≡◌, Option, none, some, arith}
use sci_ledger_sawtooth.Errors.{Result, ok, err}
use sci_ledger_sawtooth.Messaging.{Link}
use sci_ledger_sawtooth.Consensus.Notifications.{StartupState, Codec}
use sci_ledger_sawtooth.Consensus.Driver.{Engine, register_once, register_loop}

-- What ends the loop: a startup state or none, or an exception.
abbrev pub loop_end : Result (Option StartupState) → Result (Option (Option StartupState))
loop_end (ok startup) = ok (some startup)
loop_end (err e) = err e

module _ {S : Type 0} (link : Link S) (codec : Codec) (engine : Engine S) where
  -- k registrations, one after the other, that are all answered with NOT_READY.
  pub data NotReady : ℕ → S → S → Type 0 where
    answered_all : (s : S) → NotReady zero s s
    not_yet :
        (k : ℕ) (s s1 s' : S)
        → register_once link codec engine s ≡ (ok none, s1)
        → NotReady k s1 s'
        → NotReady (suc k) s s'

  -- If the validator answers k registrations with NOT_READY and the next one otherwise, the loop asks
  -- k + 1 times and ends as that answer says, with a startup state, none, or an exception, however
  -- many more rounds it may run.
  pub register_loop_lem :
      (k n : ℕ) (s s' s2 : S) (r : Result (Option StartupState))
      → k < n
      → NotReady k s s'
      → register_once link codec engine s' ≡ (loop_end r, s2)
      → register_loop link codec engine n s ≡ (loop_end r, s2)
  unfolding register_loop
  register_loop_lem k zero s s' s2 r lt h e = absurd (omega arith)
  register_loop_lem zero (suc n) s s' s2 (ok x) lt (answered_all _) e = ground (arith, e)
  register_loop_lem zero (suc n) s s' s2 (err x) lt (answered_all _) e = ground (arith, e)
  register_loop_lem (suc k) (suc n) s s' s2 r lt (not_yet _ _ s1 _ a h) e =
      rw (a, register_loop) (register_loop_lem k n s1 s' s2 r (omega arith) h e)
