-- ===== src/Processor/Running/Shutdown.antt =====
-- How `start` ends, and when it does not.
use sci_ledger_sawtooth.Prelude.{
  ℕ, zero, suc, ◌<◌, ◌≡◌, refl, ◌⊎◌, inl, inr, true, false, Option, none, some, arith,
}
use sci_ledger_sawtooth.Text.{Text}
use sci_ledger_sawtooth.Errors.{
  Exn, ok, err, keyboard_interrupt, validator_version_error, concurrent_timeout_error,
}
use sci_ledger_sawtooth.Action.{◌>>◌}
use sci_ledger_sawtooth.Messaging.{Link}
use sci_ledger_sawtooth.Processor.Access.{Access}
use sci_ledger_sawtooth.Processor.Core.{Codec, Processor}
use sci_ledger_sawtooth.Processor.Running.{
  inward, register, unregister, process_future, receive_future, serve, drain, end_start, start,
}

-- The exceptions that make `start` unregister.
abbrev pub Interrupts : Exn → Type 0
Interrupts e = (e ≡ keyboard_interrupt) ⊎ (e ≡ validator_version_error)

module _ {S : Type 0} (link : Link S) (codec : Codec) (context : Text → Access S)
    (p : Processor S) where
  drain-none : (n : ℕ) (s : S) → drain link codec context p n (none, s) ≡ (ok false, (none, s))
  unfolding drain
  drain-none zero s = refl
  drain-none (suc n) s = drain-none n s

  -- If the first registration is interrupted from the keyboard or finds a validator of another protocol
  -- version, and the processor can unregister, then `start` never ends: however many rounds it runs, it
  -- has not returned and has done nothing more.
  pub start_spins :
      (n : ℕ) (s s1 s2 : S) (e : Exn)
      → Interrupts e
      → register link codec context p s ≡ (err e, s1)
      → unregister link codec context p s1 ≡ (ok tt, s2)
      → start link codec context p n (none, s) ≡ (ok false, (none, s2))
  unfolding start end_start
  start_spins n s s1 s2 e (inl k) reg unreg = ground (arith, k, reg, unreg, drain-none n s2)
  start_spins n s s1 s2 e (inr k) reg unreg = ground (arith, k, reg, unreg, drain-none n s2)

  -- The futures that are still to be processed after the interrupt: each is processed and the next one
  -- received, until the processing of one ends with a timeout.
  pub data Drains : ℕ → S → ℕ → S → Type 0 where
    timed_out :
        (f : ℕ) (s s' : S)
        → process_future link codec context p f (some 1) true s ≡ (err concurrent_timeout_error, s')
        → Drains f s 0 s'
    one_more :
        (f f' n : ℕ) (s s1 s2 s' : S)
        → process_future link codec context p f (some 1) true s ≡ (ok tt, s1)
        → link.receive s1 ≡ (ok f', s2)
        → Drains f' s2 n s'
        → Drains f s (suc n) s'

  drained :
      (n m f : ℕ) (s s' : S)
      → n < m
      → Drains f s n s'
      → (fut : Option ℕ) × (drain link codec context p m (some f, s)
          ≡ (err concurrent_timeout_error, (fut, s')))
  unfolding drain receive_future
  drained n zero f s s' lt h = absurd (omega arith)
  drained n (suc m) f s s' lt (timed_out _ _ _ e) = (some f, ground (arith, e))
  drained n (suc m) f s s' lt (one_more _ f' k _ s1 s2 _ e r h) =
      let (fut, q) = drained k m f' s2 s' (omega arith) h in (fut, ground (arith, e, r, q))

  -- If `start` is interrupted while it waits for the future f or processes it, can unregister, and
  -- then k more futures are processed before one times out, it returns, having run through them once,
  -- in as many rounds as that takes.
  pub start_stops :
      (k n f : ℕ) (s s0 s1 s' : S) (e : Exn)
      → k < n
      → Interrupts e
      → (inward (register link codec context p) >> serve link codec context p n) (none, s)
        ≡ (err e, (some f, s0))
      → unregister link codec context p s0 ≡ (ok tt, s1)
      → Drains f s1 k s'
      → (fut : Option ℕ) × (start link codec context p n (none, s) ≡ (ok true, (fut, s')))
  unfolding start end_start
  start_stops k n f s s0 s1 s' e lt (inl i) run unreg h =
      let (fut, q) = drained k n f s1 s' lt h in (fut, ground (arith, i, run, unreg, q))
  start_stops k n f s s0 s1 s' e lt (inr i) run unreg h =
      let (fut, q) = drained k n f s1 s' lt h in (fut, ground (arith, i, run, unreg, q))
