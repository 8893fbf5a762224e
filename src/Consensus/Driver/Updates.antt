-- ===== src/Consensus/Driver/Updates.antt =====
-- What the loop of the driver and the engine make of the queue of updates, in whatever order they move.
use sci_ledger_sawtooth.Prelude.{
  ℕ, ◌≡◌, refl, sym, ◌∙◌, ◌⊎◌, inl, inr, true, false, none, some, List, [], ◌∷◌, ◌++◌, split_first,
  ◌==◌, split_first-eq, append_assoc, append-nil, arith, Option-cases, Bool-cases,
}
use sci_ledger_sawtooth.Errors.{Exn, Result-cases}
use sci_ledger_sawtooth.Messaging.{Link, ValidatorMessage, Event, reconnect_event, arrived}
use sci_ledger_sawtooth.Consensus.Notifications.{Update, Codec}
use sci_ledger_sawtooth.Consensus.Driver.{
  Engine, Driver, stop, driver_step, update_of, process, take_event, refused, ping_request,
  message_and_next,
}
use sci_ledger_sawtooth.Consensus.Driver.Start.{
  Running, Move, loops, takes, works, engine_ends, joins, loop_move, take_update, work, end_engine,
  join, move, run, beginning, waiting, over, Loop,
}

module _ {S : Type 0} where
  -- The updates are as they were, and the flag to exit is not taken back.
  abbrev Keeps : Driver S → Driver S → Type 0
  Keeps d d' = (d'.updates ≡ d.updates) × (d.exit ≡ true → d'.exit ≡ true)

  -- The updates have grown at their end, or not at all.
  abbrev pub Grows : Driver S → Driver S → Type 0
  Grows d d' =
      ((more : List (ℕ × Update)) × (d'.updates ≡ d.updates ++ more))
      × (d.exit ≡ true → d'.exit ≡ true)

  -- The updates that the engine has taken, and those that still wait.
  abbrev pub received : Running S → List (ℕ × Update)
  received s = s.taken ++ s.driver.updates

  Keeps-Grows : (d d' : Driver S) → Keeps d d' → Grows d d'
  Keeps-Grows d d' (u, e) = (([], u ∙ sym (append-nil d.updates)), e)

pub Loop-cases : (l : Loop) → (l ≡ beginning) ⊎ (((f : ℕ) × (l ≡ waiting f)) ⊎ (l ≡ over))
Loop-cases beginning = inl refl
Loop-cases (waiting f) = inr (inl (f, refl))
Loop-cases over = inr (inr refl)

refused-state : {S : Type 0} (x : Exn) (d : Driver S) → (refused x d).1 ≡ d
refused-state x d = ground arith

module _ {S : Type 0} (link : Link S) (codec : Codec) (engine : Engine S) where
  stop-Keeps : (d : Driver S) → Keeps d (stop link codec engine d).1
  unfolding stop
  stop-Keeps d = ground arith

  update_of-Keeps :
      (m : ValidatorMessage) (d : Driver S) → Keeps d (update_of link codec engine m d).1
  unfolding update_of
  update_of-Keeps m d = ground (arith, stop-Keeps d)

  process-Keeps : (m : ValidatorMessage) (d : Driver S) → Keeps d (process link codec engine m d).1
  unfolding process
  process-Keeps m d = ground (arith, update_of-Keeps m d)

  take_event-Grows : (e : Event) (d : Driver S) → Grows d (take_event link codec engine e d).1
  unfolding take_event
  take_event-Grows reconnect_event d = Keeps-Grows d d (refl, λ e. e)
  take_event-Grows (arrived m) d =
      let d' = (process link codec engine m d).1 in
      let kept = process-Keeps m d in
      elim (Result-cases ((process link codec engine m d).0)) [
        | inl (r, e) ↦ elim (Bool-cases (r.0 == ping_request)) [
          | inl y ↦
              Keeps-Grows d (take_event link codec engine (arrived m) d).1
                (ground (arith, e, y, kept))
          | inr n ↦ ((r ∷ [], ground (arith, e, n, kept)), ground (arith, e, n, kept))
        ]
        | inr (x, e) ↦
            Keeps-Grows d (take_event link codec engine (arrived m) d).1
              (ground (arith, e, kept, refused-state x d'))
      ]

  driver_step-exit :
      (f : ℕ) (d : Driver S) → d.exit ≡ true → Keeps d (driver_step link codec engine f d).1
  unfolding driver_step
  driver_step-exit f d y = ground (arith, y)

  -- A round that does not break: nothing comes, or an event is taken.
  driver_step-state :
      (f : ℕ) (d : Driver S)
      → d.exit ≡ false
      → (s : S) × (((driver_step link codec engine f d).1 ≡ record d { outside = s })
          ⊎ ((e : Event) × ((driver_step link codec engine f d).1
                ≡ (take_event link codec engine e (record d { outside = s })).1)))
  unfolding driver_step
  driver_step-state f d run =
      let s = (message_and_next link codec engine f d.outside).1 in
      (
        s,
        elim (Result-cases ((message_and_next link codec engine f d.outside).0)) [
          | inl (none, e) ↦ inl (ground (arith, run, e))
          | inl (some (event, next), e) ↦ inr (event, ground (arith, run, e))
          | inr (x, e) ↦ inl (ground (arith, run, e))
        ],
      )

  driver_step-Grows : (f : ℕ) (d : Driver S) → Grows d (driver_step link codec engine f d).1
  driver_step-Grows f d = elim (Bool-cases (d.exit)) [
    | inl y ↦ Keeps-Grows d (driver_step link codec engine f d).1 (driver_step-exit f d y)
    | inr n ↦
        let (s, how) = driver_step-state f d n in
        elim how [
          | inl e ↦ rw (e) (Keeps-Grows d (record d { outside = s }) (refl, λ p. p))
          | inr (event, e) ↦ rw (e) (take_event-Grows event (record d { outside = s }))
        ]
  ]

  pub loop_move-Grows :
      (s u : Running S) → loop_move link codec engine s ≡ some u → Grows s.driver u.driver
  unfolding loop_move
  loop_move-Grows s u e = elim (Loop-cases (s.loop)) [
    | inl l ↦ Keeps-Grows s.driver u.driver (ground (arith, l, e))
    | inr (inl (f, l)) ↦
        let same : u.driver ≡ (driver_step link codec engine f s.driver).1 = ground (arith, l, e) in
        rw (same) (driver_step-Grows f s.driver)
    | inr (inr l) ↦ absurd (ground (arith, l, e))
  ]

  take_update-eq :
      (s u : Running S)
      → take_update link codec engine s ≡ some u
      → (received u ≡ received s) × (u.driver.exit ≡ s.driver.exit)
  unfolding take_update
  take_update-eq s u e = elim (Option-cases (split_first s.driver.updates)) [
    | inl g ↦ absurd (ground (arith, g, e))
    | inr ((x, xs), g) ↦
        let here = split_first-eq s.driver.updates x xs g in
        let new : received u ≡ (s.taken ++ (x ∷ [])) ++ xs = ground (arith, g, e) in
        (new ∙ rw (append_assoc s.taken (x ∷ []) xs, here) refl, ground (arith, g, e))
  ]

  -- What a move makes of the updates received, and of the flag to exit.
  abbrev Extends : Running S → Running S → Type 0
  Extends s u =
      ((more : List (ℕ × Update)) × (received u ≡ received s ++ more))
      × (s.driver.exit ≡ true → u.driver.exit ≡ true)

  Same-Extends :
      (s u : Running S)
      → received u ≡ received s
      → (s.driver.exit ≡ true → u.driver.exit ≡ true)
      → Extends s u
  Same-Extends s u e x = (([], e ∙ sym (append-nil (received s))), x)

  work-Same :
      (f : S → S) (s u : Running S)
      → work link codec engine f s ≡ some u
      → (received u ≡ received s) × (u.driver.exit ≡ s.driver.exit)
  unfolding work
  work-Same f s u e = ground (arith, e)

  end_engine-Same :
      (s u : Running S)
      → end_engine link codec engine s ≡ some u
      → (received u ≡ received s) × (u.driver.exit ≡ true)
  unfolding end_engine stop
  end_engine-Same s u e = ground (arith, e)

  join-Same :
      (s u : Running S)
      → join link codec engine s ≡ some u
      → (received u ≡ received s) × (u.driver.exit ≡ s.driver.exit)
  unfolding join
  join-Same s u e = ground (arith, e)

  loop_move-taken : (s u : Running S) → loop_move link codec engine s ≡ some u → u.taken ≡ s.taken
  unfolding loop_move
  loop_move-taken s u e = elim (Loop-cases (s.loop)) [
    | inl l ↦ ground (arith, l, e)
    | inr (inl (f, l)) ↦ ground (arith, l, e)
    | inr (inr l) ↦ absurd (ground (arith, l, e))
  ]

  pub move-Extends :
      (x : Move S) (s u : Running S) → move link codec engine x s ≡ some u → Extends s u
  unfolding move
  move-Extends loops s u e =
      let ((more, grown), exit) = loop_move-Grows s u e in
      let taken = loop_move-taken s u e in
      ((more, rw (taken, grown) (sym (append_assoc s.taken s.driver.updates more))), exit)
  move-Extends takes s u e = let (r, x) = take_update-eq s u e in Same-Extends s u r (λ p. x ∙ p)
  move-Extends (works f) s u e = let (r, x) = work-Same f s u e in Same-Extends s u r (λ p. x ∙ p)
  move-Extends engine_ends s u e = let (r, x) = end_engine-Same s u e in Same-Extends s u r (λ p. x)
  move-Extends joins s u e = let (r, x) = join-Same s u e in Same-Extends s u r (λ p. x ∙ p)
