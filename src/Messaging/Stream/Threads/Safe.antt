-- ===== src/Messaging/Stream/Threads/Safe.antt =====
-- What holds of the futures of a stream in every state that its threads can reach.
use sci_ledger_sawtooth.Prelude.{ℕ, ◌≡◌, sym, ◌⊎◌, inl, inr, none, some, arith}
use mathlib.Core.List.{Mem}
use sci_ledger_sawtooth.Text.{Text, Bytes}
use sci_ledger_sawtooth.Dict.{get}
use sci_ledger_sawtooth.Messaging.{ValidatorMessage, future_result}
use sci_ledger_sawtooth.Messaging.Stream.Responses.{IsKeyed}
use sci_ledger_sawtooth.Messaging.Stream.Threads.{Threads, made}

-- A thread has made the future k and not yet put it into the collection.
abbrev pub IsMade : Threads → Text → Type 0
IsMade s k =
    (who : Text) × (m : ValidatorMessage) × (get s.calls who ≡ some (made m))
    × (m.correlation_id ≡ k)

abbrev pub response : Text → ℕ → Bytes → ValidatorMessage
response id t b = record { message_type = t; correlation_id = id; content = b }

-- The futures stand under their ids, none that is unresolved is lost, and what a future was resolved
-- with has come from the validator under its id.
pub record IsSafe (s : Threads) : Type 0 where
  pub keyed : IsKeyed s.conn
  pub waited :
      (k : Text) → get s.conn.results k ≡ some none → (get s.conn.futures k ≡ some k) ⊎ IsMade s k
  pub genuine :
      (k : Text) (t : ℕ) (b : Bytes)
      → get s.conn.results k ≡ some (some (future_result t b))
      → Mem (response k t b) s.inbox

pub same-IsSafe :
    (s u : Threads)
    → u.conn.results ≡ s.conn.results
    → u.conn.futures ≡ s.conn.futures
    → u.calls ≡ s.calls
    → u.inbox ≡ s.inbox
    → IsSafe s
    → IsSafe u
same-IsSafe s u r f c i h = record {
  keyed = λ k g e. h.keyed k g (rw (sym f) e);
  waited = λ k e. rw (f, c) (h.waited k (rw (sym r) e));
  genuine = λ k t b e. rw (i) (h.genuine k t b (rw (sym r) e));
}

-- A call that has no future in its hands may change.
pub calls-IsSafe :
    (s u : Threads)
    → u.conn ≡ s.conn
    → u.inbox ≡ s.inbox
    → ((who : Text) (m : ValidatorMessage)
        → get s.calls who ≡ some (made m)
        → get u.calls who ≡ some (made m))
    → IsSafe s
    → IsSafe u
calls-IsSafe s u c i keep h = record {
  keyed = rw (c) h.keyed;
  waited = λ k e. elim (h.waited k (ground (arith, c, e))) [
    | inl f ↦ inl (ground (arith, c, f))
    | inr (who, m, p, q) ↦ inr (who, m, keep who m p, q)
  ];
  genuine = λ k t b e. rw (i) (h.genuine k t b (ground (arith, c, e)));
}
