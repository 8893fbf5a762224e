-- ===== src/Messaging/Stream/Threads/Receiving.antt =====
-- The futures of `receive`: each is waited for, scheduled, or done, once.
use mathlib.Core.List.{Perm}
use mathlib.Core.List.Perm
use sci_ledger_sawtooth.Prelude.{
  inl, inr, ℕ, zero, suc, ◌≡◌, refl, sym, ap, ◌∙◌, Option, none, some, List, [], ◌∷◌, ◌++◌, arith,
  Option-cases, Bool-cases, map, split_first, split_first-eq, append_assoc, append-nil, length,
  ◌==◌,
}
use sci_ledger_sawtooth.Messaging.Stream.{put_future}
use sci_ledger_sawtooth.Messaging.{Event}
use sci_ledger_sawtooth.Messaging.Stream.Threads.{
  Threads, Move, begins, answers, puts, enters, schedules, shuts, opens, fails_to_open, readies,
  starts_task, runs_task, sends_next, receives, disconnects, fails_next, ends, init, asks,
  starts_get, gets_next,
}
use sci_ledger_sawtooth.Messaging.Stream.Threads.Clients.{
  begin, answer, put_call, enter, schedule, ask,
}
use sci_ledger_sawtooth.Messaging.Stream.Threads.EventLoop.{
  receive_next, fail_next, stop_loop, open_queues, fail_to_open, get_ready, start_task, run_task,
  send_next, begin_disconnect, end_loop, start_get, get_next, take_at, failing_of,
}
use sci_ledger_sawtooth.Messaging.Stream.Threads.Moves.{move, run}
use sci_ledger_sawtooth.Messaging.Stream.Threads.Reach.{run-keeps}

-- The numbers of the calls that are done.
abbrev pub numbers : List (ℕ × Option Event) → List ℕ
numbers [] = []
numbers ((n, e) ∷ done) = n ∷ numbers done

abbrev pub upto : ℕ → List ℕ
upto zero = []
upto (suc n) = upto n ++ (n ∷ [])

-- All calls: those that are done, those that wait, and those that are scheduled.
abbrev pub all_calls : Threads → List ℕ
all_calls s = (numbers s.got ++ s.getting) ++ s.asked

IsCounted : Threads → Type 0
IsCounted s = Perm (all_calls s) (upto s.next_get)

numbers-append : (xs ys : List (ℕ × Option Event)) → numbers (xs ++ ys) ≡ numbers xs ++ numbers ys
numbers-append [] ys = refl
numbers-append ((n, e) ∷ xs) ys = ap (λ l. n ∷ l) (numbers-append xs ys)

numbers-cancelled : (ns : List ℕ) → numbers (map (λ n. (n, none)) ns) ≡ ns
numbers-cancelled [] = refl
numbers-cancelled (n ∷ ns) = ap (λ l. n ∷ l) (numbers-cancelled ns)

take_at-Perm :
    (k : ℕ) (xs : List ℕ) (y : ℕ) (ys : List ℕ) → take_at k xs ≡ some (y, ys) → Perm xs (y ∷ ys)
unfolding take_at
take_at-Perm k [] y ys e = cc
take_at-Perm zero (x ∷ xs) y ys e =
    let same : (x ∷ xs) ≡ (y ∷ ys) = ground (arith, e) in rw (same) (Perm.refl (y ∷ ys))
take_at-Perm (suc k) (x ∷ xs) y ys e = elim (Option-cases (take_at k xs)) [
  | inl g ↦ absurd (ground (arith, g, e))
  | inr ((z, zs), g) ↦
      let same : (y ∷ ys) ≡ (z ∷ x ∷ zs) = ground (arith, g, e) in
      rw (same) (Perm.trans (Perm.cons x (take_at-Perm k xs z zs g)) (Perm.swap z x zs))
]

-- The calls are as they were.
same-IsCounted :
    (s u : Threads)
    → all_calls u ≡ all_calls s
    → u.next_get ≡ s.next_get
    → IsCounted s
    → IsCounted u
unfolding IsCounted
same-IsCounted s u c n h = rw (c, n) h

ask-IsCounted : (s u : Threads) → ask s ≡ some u → IsCounted s → IsCounted u
unfolding IsCounted ask
ask-IsCounted s u e h =
    let calls : all_calls u ≡ (numbers s.got ++ s.getting) ++ (s.asked ++ (s.next_get ∷ [])) =
      ground (arith, e) in
    let next : u.next_get ≡ suc s.next_get = ground (arith, e) in
    rw (calls, next, sym (append_assoc (numbers s.got ++ s.getting) s.asked (s.next_get ∷ [])))
      (Perm.append_right (s.next_get ∷ []) h)

start_get-IsCounted : (s u : Threads) → start_get s ≡ some u → IsCounted s → IsCounted u
unfolding start_get
start_get-IsCounted s u e h = elim (Option-cases (split_first s.asked)) [
  | inl g ↦ absurd (ground (arith, g, e))
  | inr ((n, rest), g) ↦
      let here = split_first-eq s.asked n rest g in
      let calls : all_calls u ≡ (numbers s.got ++ (s.getting ++ (n ∷ []))) ++ rest =
        ground (arith, g, e) in
      same-IsCounted s u
        (calls
          ∙ rw
              (
                here,
                sym (append_assoc (numbers s.got) s.getting (n ∷ [])),
                append_assoc (numbers s.got ++ s.getting) (n ∷ []) rest,
              )
              refl)
        (ground (arith, g, e)) h
]

get_next-IsCounted : (k : ℕ) (s u : Threads) → get_next k s ≡ some u → IsCounted s → IsCounted u
unfolding get_next IsCounted
get_next-IsCounted k s u e h = elim (Option-cases (take_at k s.getting)) [
  | inl g ↦ absurd (ground (arith, g, e))
  | inr ((n, rest), g) ↦ elim (Option-cases (split_first s.conn.recv_queue)) [
    | inl q ↦ absurd (ground (arith, g, q, e))
    | inr ((event, events), q) ↦
        let done = s.got ++ ((n, some event) ∷ []) in
        let calls : all_calls u ≡ (numbers done ++ rest) ++ s.asked = ground (arith, g, q, e) in
        let next : u.next_get ≡ s.next_get = ground (arith, g, q, e) in
        rw
          (
            calls,
            next,
            numbers-append s.got ((n, some event) ∷ []),
            append_assoc (numbers s.got) (n ∷ []) rest,
          )
          (Perm.trans
            (Perm.append_right s.asked
              (Perm.append_left (numbers s.got) (Perm.symm (take_at-Perm k s.getting n rest g))))
            h)
  ]
]

-- The tasks that wait are cancelled.
cancel-IsCounted :
    (s u : Threads)
    → u.got ≡ s.got ++ map (λ n. (n, none)) s.getting
    → u.getting ≡ []
    → u.asked ≡ s.asked
    → u.next_get ≡ s.next_get
    → IsCounted s
    → IsCounted u
cancel-IsCounted s u g w a n h =
    same-IsCounted s u
      (rw
        (
          g,
          w,
          a,
          numbers-append s.got (map (λ n. (n, none)) s.getting),
          numbers-cancelled s.getting,
          append-nil (numbers s.got ++ s.getting),
        )
        refl)
      n h

end_loop-IsCounted : (s u : Threads) → end_loop s ≡ some u → IsCounted s → IsCounted u
unfolding end_loop
end_loop-IsCounted s u e h =
    cancel-IsCounted s u (ground (arith, e)) (ground (arith, e)) (ground (arith, e))
      (ground (arith, e)) h

-- The calls of `receive` are as they were.
record Leaves (s u : Threads) : Type 0 where
  asked : u.asked ≡ s.asked
  getting : u.getting ≡ s.getting
  got : u.got ≡ s.got
  next : u.next_get ≡ s.next_get

Leaves-IsCounted : (s u : Threads) → Leaves s u → IsCounted s → IsCounted u
Leaves-IsCounted s u l h = same-IsCounted s u (rw (l.got, l.getting, l.asked) refl) l.next h

fail_next-IsCounted : (s u : Threads) → fail_next s ≡ some u → IsCounted s → IsCounted u
unfolding fail_next stop_loop
fail_next-IsCounted s u e h = elim (Option-cases (failing_of s.phase)) [
  | inl g ↦ absurd (ground (arith, g, e))
  | inr ((rest, size), g) ↦ elim (Bool-cases (length s.conn.futures == size)) [
    | inr n ↦ Leaves-IsCounted s u (ground (arith, g, n, e)) h
    | inl y ↦ elim (Option-cases (split_first rest)) [
      | inl z ↦
          cancel-IsCounted s u (ground (arith, g, y, z, e)) (ground (arith, g, y, z, e))
            (ground (arith, g, y, z, e)) (ground (arith, g, y, z, e)) h
      | inr (((id, f), rest'), z) ↦ Leaves-IsCounted s u (ground (arith, g, y, z, e)) h
    ]
  ]
]

move-IsCounted : (x : Move) (s u : Threads) → move x s ≡ some u → IsCounted s → IsCounted u
unfolding move begin answer put_call enter schedule open_queues fail_to_open get_ready start_task
    run_task send_next receive_next begin_disconnect put_future
move-IsCounted (begins who m) s u e h = Leaves-IsCounted s u (ground (arith, e)) h
move-IsCounted (answers who m) s u e h = Leaves-IsCounted s u (ground (arith, e)) h
move-IsCounted (puts who) s u e h = Leaves-IsCounted s u (ground (arith, e)) h
move-IsCounted (enters who) s u e h = Leaves-IsCounted s u (ground (arith, e)) h
move-IsCounted (schedules who) s u e h = Leaves-IsCounted s u (ground (arith, e)) h
move-IsCounted opens s u e h = Leaves-IsCounted s u (ground (arith, e)) h
move-IsCounted (fails_to_open x) s u e h = Leaves-IsCounted s u (ground (arith, e)) h
move-IsCounted readies s u e h = Leaves-IsCounted s u (ground (arith, e)) h
move-IsCounted starts_task s u e h = Leaves-IsCounted s u (ground (arith, e)) h
move-IsCounted runs_task s u e h = Leaves-IsCounted s u (ground (arith, e)) h
move-IsCounted sends_next s u e h = Leaves-IsCounted s u (ground (arith, e)) h
move-IsCounted (receives m) s u e h = Leaves-IsCounted s u (ground (arith, e)) h
move-IsCounted disconnects s u e h = Leaves-IsCounted s u (ground (arith, e)) h
move-IsCounted shuts s u e h = Leaves-IsCounted s u (ground (arith, e)) h
move-IsCounted fails_next s u e h = fail_next-IsCounted s u e h
move-IsCounted ends s u e h = end_loop-IsCounted s u e h
move-IsCounted asks s u e h = ask-IsCounted s u e h
move-IsCounted starts_get s u e h = start_get-IsCounted s u e h
move-IsCounted (gets_next k) s u e h = get_next-IsCounted k s u e h

-- In every state that the threads reach, each call of `receive` that was made is either done, with what
-- was received or cancelled, or waits, or is scheduled, and it is only one of these and only once: a
-- disconnect loses no future of `receive` and resolves none twice.
pub run-Perm :
    (xs : List Move) (s : Threads) → run xs init ≡ some s → Perm (all_calls s) (upto s.next_get)
unfolding IsCounted
run-Perm xs s e = run-keeps IsCounted move-IsCounted xs init s e (Perm.refl [])
