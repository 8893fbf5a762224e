-- ===== src/Messaging/Stream/Threads/Sending.antt =====
-- The moves of the threads that call `send` and `send_back` keep the futures of the stream safe.
use sci_ledger_sawtooth.Prelude.{
  ◌≡◌, refl, ◌⊎◌, inl, inr, Option, none, some, arith, Bool-cases, Option-cases,
}
use sci_ledger_sawtooth.Text.{Text, text_eq, text_eq_iff}
use sci_ledger_sawtooth.Dict.{get, put, has_key, get-put, get-remove}
use sci_ledger_sawtooth.Messaging.{ValidatorMessage}
use sci_ledger_sawtooth.Messaging.Stream.{put_future}
use sci_ledger_sawtooth.Messaging.Stream.Threads.{Threads, Call, made, entering, admitted}
use sci_ledger_sawtooth.Messaging.Stream.Threads.Clients.{
  begin, answer, put_call, enter, schedule, made_of, entering_of, admitted_of,
}
use sci_ledger_sawtooth.Messaging.Stream.Threads.Safe.{IsSafe, calls-IsSafe}

pub begin_cases :
    (who : Text) (m : ValidatorMessage) (s u : Threads)
    → begin who m s ≡ some u
    → (u ≡ s)
      ⊎ ((get s.calls who ≡ none)
          × (get s.conn.results m.correlation_id ≡ none)
          × (u ≡ record s {
            conn = record s.conn { results = put s.conn.results m.correlation_id none };
            calls = put s.calls who (made m);
          }))
unfolding begin has_key
begin_cases who m s u e = elim (Bool-cases (s.conn.ready)) [
  | inr n ↦ inl (ground (arith, n, e))
  | inl y ↦ elim (Option-cases (get s.calls who)) [
    | inr (c, g) ↦ absurd (ground (arith, y, g, e))
    | inl g ↦ elim (Option-cases (get s.conn.results m.correlation_id)) [
      | inr (c, i) ↦ absurd (ground (arith, y, g, i, e))
      | inl i ↦ inr (g, i, ground (arith, y, g, i, e))
    ]
  ]
]

pub begin-IsSafe :
    (who : Text) (m : ValidatorMessage) (s u : Threads)
    → begin who m s ≡ some u
    → IsSafe s
    → IsSafe u
begin-IsSafe who m s u e h = elim (begin_cases who m s u e) [
  | inl same ↦ rw (same) h
  | inr (free, fresh, new) ↦ rw (new) (record {
    keyed = h.keyed;
    waited = λ k g. elim (Bool-cases (text_eq m.correlation_id k)) [
      | inl y ↦ inr (
        who,
        m,
        ground (arith, get-put s.calls who who (made m), text_eq_iff who who),
        ground (arith, text_eq_iff m.correlation_id k),
      )
      | inr n ↦
          elim (h.waited k (ground (arith, n, g, get-put s.conn.results m.correlation_id k none))) [
            | inl p ↦ inl p
            | inr (w, m', p, q) ↦ inr (
              w,
              m',
              ground (arith, p, free, get-put s.calls who w (made m), text_eq_iff who w),
              q,
            )
          ]
    ];
    genuine = λ k t b g.
        h.genuine k t b (ground (arith, g, get-put s.conn.results m.correlation_id k none));
  })
]

pub answer-IsSafe :
    (who : Text) (m : ValidatorMessage) (s u : Threads)
    → answer who m s ≡ some u
    → IsSafe s
    → IsSafe u
unfolding answer has_key
answer-IsSafe who m s u e h = elim (Bool-cases (s.conn.ready)) [
  | inr n ↦ let same : u ≡ s = ground (arith, n, e) in rw (same) h
  | inl y ↦ elim (Option-cases (get s.calls who)) [
    | inr (c, g) ↦ absurd (ground (arith, y, g, e))
    | inl g ↦
        let new : u ≡ record s { calls = put s.calls who (entering m) } = ground (arith, y, g, e) in
        rw (new) (
          calls-IsSafe s (record s { calls = put s.calls who (entering m) }) refl refl
            (λ w m' p. ground (arith, p, g, get-put s.calls who w (entering m), text_eq_iff who w))
            h)
  ]
]

pub made_of-eq : (c : Option Call) (m : ValidatorMessage) → made_of c ≡ some m → c ≡ some (made m)
made_of-eq none m e = cc
made_of-eq (some (made n)) m e = ground (arith, e)
made_of-eq (some (entering n)) m e = cc
made_of-eq (some (admitted n)) m e = cc

pub put_call-IsSafe : (who : Text) (s u : Threads) → put_call who s ≡ some u → IsSafe s → IsSafe u
unfolding put_call put_future
put_call-IsSafe who s u e h = elim (Option-cases (made_of (get s.calls who))) [
  | inl g ↦ absurd (ground (arith, g, e))
  | inr (m, g) ↦
      let call = made_of-eq (get s.calls who) m g in
      let id = m.correlation_id in
      let v = record s {
        conn = record s.conn { futures = put s.conn.futures id id };
        calls = put s.calls who (entering m);
      } in
      let new : u ≡ v = ground (arith, g, e) in
      rw (new) (record {
        keyed = λ k f p. elim (Bool-cases (text_eq id k)) [
          | inl y ↦ ground (arith, y, p, get-put s.conn.futures id k id, text_eq_iff id k)
          | inr n ↦ h.keyed k f (ground (arith, n, p, get-put s.conn.futures id k id))
        ];
        waited = λ k p. elim (Bool-cases (text_eq id k)) [
          | inl y ↦ inl (ground (arith, y, get-put s.conn.futures id k id, text_eq_iff id k))
          | inr n ↦ elim (h.waited k p) [
            | inl f ↦ inl (ground (arith, n, f, get-put s.conn.futures id k id))
            | inr (w, m', q, same) ↦ inr (
              w,
              m',
              ground (
                arith,
                n,
                q,
                same,
                call,
                get-put s.calls who w (entering m),
                text_eq_iff who w,
                text_eq_iff id k,
              ),
              same,
            )
          ]
        ];
        genuine = h.genuine;
      })
]

pub entering_of-eq :
    (c : Option Call) (m : ValidatorMessage) → entering_of c ≡ some m → c ≡ some (entering m)
entering_of-eq none m e = cc
entering_of-eq (some (made n)) m e = cc
entering_of-eq (some (entering n)) m e = ground (arith, e)
entering_of-eq (some (admitted n)) m e = cc

pub admitted_of-eq :
    (c : Option Call) (m : ValidatorMessage) → admitted_of c ≡ some m → c ≡ some (admitted m)
admitted_of-eq none m e = cc
admitted_of-eq (some (made n)) m e = cc
admitted_of-eq (some (entering n)) m e = cc
admitted_of-eq (some (admitted n)) m e = ground (arith, e)

pub enter-IsSafe : (who : Text) (s u : Threads) → enter who s ≡ some u → IsSafe s → IsSafe u
unfolding enter
enter-IsSafe who s u e h = elim (Option-cases (entering_of (get s.calls who))) [
  | inl g ↦ absurd (ground (arith, g, e))
  | inr (m, g) ↦
      let call = entering_of-eq (get s.calls who) m g in
      elim (Bool-cases (s.conn.ready)) [
        | inl y ↦
            calls-IsSafe s u (ground (arith, g, y, e)) (ground (arith, g, y, e))
              (λ w m' p.
                ground
                  (arith, g, y, e, p, call, get-put s.calls who w (admitted m), text_eq_iff who w))
              h
        | inr n ↦
            calls-IsSafe s u (ground (arith, g, n, e)) (ground (arith, g, n, e))
              (λ w m' p.
                ground (arith, g, n, e, p, call, get-remove s.calls who w, text_eq_iff who w))
              h
      ]
]

pub schedule-IsSafe : (who : Text) (s u : Threads) → schedule who s ≡ some u → IsSafe s → IsSafe u
unfolding schedule
schedule-IsSafe who s u e h = elim (Option-cases (admitted_of (get s.calls who))) [
  | inl g ↦ absurd (ground (arith, g, e))
  | inr (m, g) ↦
      let call = admitted_of-eq (get s.calls who) m g in
      elim (Bool-cases (s.has_queues)) [
        | inl y ↦
            calls-IsSafe s u (ground (arith, g, y, e)) (ground (arith, g, y, e))
              (λ w m' p.
                ground (arith, g, y, e, p, call, get-remove s.calls who w, text_eq_iff who w))
              h
        | inr n ↦ absurd (ground (arith, g, n, e))
      ]
]
