-- ===== src/Xo/Main.antt =====
-- `main` of examples/xo_python/sawtooth_xo/processor/main.py: from the configuration to the running
-- processor. argparse, the opening of the stream and logging are the parameter `program`.
use sci_ledger_sawtooth.Prelude.{
  ℕ, Bool, true, false, Option, none, some, List, ◌++◌, ◌≡◌, ◌≢◌, ◌⊎◌, inl, inr, arith,
}
use sci_ledger_sawtooth.Text.{Text, codes}
use sci_ledger_sawtooth.Dict.{Dict}
use sci_ledger_sawtooth.Errors.{Exn, Result, ok, err, keyboard_interrupt}
use sci_ledger_sawtooth.Action.{Action, pure, try, ◌>>=◌, ◌>>◌}
use sci_ledger_sawtooth.Messaging.{Link}
use sci_ledger_sawtooth.Processor.Access.{Access}
use sci_ledger_sawtooth.Processor.Config.{Environment, get_log_config, get_log_dir}
use sci_ledger_sawtooth.Processor.Core.{Codec, new_processor, add_handler}
use sci_ledger_sawtooth.Processor.Running.{start}
use sci_ledger_sawtooth.Xo.Config.{create_xo_config, load_xo_config}
use sci_ledger_sawtooth.Xo.Payload.{CharTable}
use sci_ledger_sawtooth.Xo.Processing.{xo_handler}
use sci_ledger_sawtooth.Xo.State.{Sha512}

-- The options of the command line that `main` reads.
pub record Opts (V : Type 0) : Type 0 where
  pub connect : Option V
  pub verbose : ℕ

-- `open_stream` is the making of the stream in `TransactionProcessor(url=...)`.
pub record Program (S V : Type 0) : Type 0 where
  pub parse_args : List Text → Action S (Opts V ⊎ ℕ)
  pub open_stream : Option V → Action S (Unit {0})
  pub zmq_id : Action S Text
  pub configure_log : Dict V → Action S (Unit {0})
  pub configure_log_files : V → Text → Action S (Unit {0})
  pub init_console_logging : ℕ → Action S (Unit {0})
  pub print_error : Exn → Action S (Unit {0})

module _ {S V : Type 0} (env : Environment S V) (program : Program S V) (link : Link S)
    (codec : Codec) (context : Text → Access S) (sha512 : Sha512) (u : CharTable) where
  -- the first log configuration that there is
  unfoldable pub log_config : Action S (Option (Dict V))
  log_config = do
    toml ← get_log_config env (some (codes "xo_log_config.toml"))
    elim toml [
      | some c ↦ pure (some c)
      | none ↦ get_log_config env (some (codes "xo_log_config.yaml"))
    ]

  unfoldable pub set_up_log : Action S (Unit {0})
  unfolding log_config
  set_up_log = do
    config ← log_config
    elim config [
      | some c ↦ program.configure_log c
      | none ↦ (do
        log_dir ← get_log_dir env
        id ← program.zmq_id
        program.configure_log_files log_dir (codes "xo-" ++ id))
    ]

  -- a call beside the flag that the processor has been made
  abbrev beside : {A : Type 0} → Action S A → Action (Bool × S) A
  beside m (made, s) = let (r, s') = m s in (r, (made, s'))

  abbrev mark_made : Action (Bool × S) (Unit {0})
  mark_made (made, s) = (ok tt, (true, s))

  -- `processor.start()`, within n rounds; `fut` starts as None
  abbrev started : ℕ → Action S Bool
  started n s =
      let p = add_handler new_processor (xo_handler sha512 u) in
      let (r, w) = start link codec context p n (none, s) in (r, w.1)

  -- the body of the `try`
  unfoldable pub run_processor : ℕ → Opts V → Action (Bool × S) Bool
  unfolding set_up_log
  run_processor n opts = do
    xo_config ← beside (load_xo_config env (create_xo_config env opts.connect))
    beside (program.open_stream xo_config.connect)
    mark_made
    beside set_up_log
    beside (program.init_console_logging opts.verbose)
    beside (started n)

  -- the `except` clauses
  abbrev caught : Exn → Action (Bool × S) Bool
  caught keyboard_interrupt = pure true
  caught e = beside (program.print_error e) >> pure true

  -- `finally`: what was raised goes on after the stop; a processor that is still running is not stopped
  abbrev finished : Result Bool × (Bool × S) → Result Bool × S
  finished (ok false, (made, s)) = (ok false, s)
  finished (r, (false, s)) = (r, s)
  finished (r, (true, s)) = let (c, s') = link.close s in (elim c [ ok t ↦ r | err e ↦ err e ], s')

  -- `main`; the result tells whether it has ended within n rounds, `inr` is the status to exit with
  unfoldable pub main : ℕ → List Text → Action S (Bool ⊎ ℕ)
  unfolding run_processor
  main n argv = do
    parsed ← program.parse_args argv
    elim parsed [
      | inr status ↦ pure (inr status)
      | inl opts ↦
          (λ s. finished (try (run_processor n opts) caught (false, s))) >>= λ end. pure (inl end)
    ]

  -- Where the configuration cannot be loaded, no processor is made: the error is printed, and `main`
  -- returns with nothing to stop.
  pub main-load_xo_config :
      (n : ℕ) (argv : List Text) (opts : Opts V) (s s1 s2 s3 : S) (e : Exn)
      → program.parse_args argv s ≡ (ok (inl opts), s1)
      → load_xo_config env (create_xo_config env opts.connect) s1 ≡ (err e, s2)
      → e ≢ keyboard_interrupt
      → program.print_error e s2 ≡ (ok tt, s3)
      → main n argv s ≡ (ok (inl true), s3)
  unfolding main run_processor
  main-load_xo_config n argv opts s s1 s2 s3 e p l k q = ground (arith, p, l, k, q)
