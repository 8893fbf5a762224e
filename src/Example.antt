-- ===== src/Example.antt =====
-- A small validator for the examples: its state is a dictionary of data by address, and a request of
-- one address is answered at once, in the future itself.
pub mod Library
pub mod Web
use sci_ledger_sawtooth.Prelude.{
  ℕ, zero, suc, ◌≡◌, refl, ap, true, Option, none, some, [], ◌∷◌, ◌++◌, arith, length,
  if◌then◌else◌, ◌==◌, leb, ◌&&◌, ◌-◌,
}
use sci_ledger_sawtooth.Text.{Text, Bytes}
use sci_ledger_sawtooth.Dict.{Dict, get, put, remove, get-put, get-remove}
use sci_ledger_sawtooth.Errors.{ok, err, decode_error, concurrent_timeout_error}
use sci_ledger_sawtooth.Action.{Action}
use sci_ledger_sawtooth.Messaging.{Link, future_result}
use sci_ledger_sawtooth.Processor.Access.{Entry}
use sci_ledger_sawtooth.Processor.Context.{
  Request, get_request, set_request, delete_request, Codec, ask,
}
use sci_ledger_sawtooth.Processor.Context.Serving.{Serves}
use sci_ledger_sawtooth.Xo.Payload.{CharTable}
use sci_ledger_sawtooth.Xo.State.{Sha512}

abbrev pub State : Type 0
State = Dict Bytes

abbrev found_or_empty : Option Bytes → Bytes
found_or_empty none = []
found_or_empty (some b) = b

unfoldable pub read : State → Text → Bytes
read s a = found_or_empty (get s a)

-- The first n elements, and the rest.
unfoldable pub cut : ℕ → Text → Text × Text
cut zero t = ([], t)
cut (suc n) [] = ([], [])
cut (suc n) (c ∷ t) = let (a, b) = cut n t in (c ∷ a, b)

cut-append : (a b : Text) → cut (length a) (a ++ b) ≡ (a, b)
unfolding cut
cut-append [] b = refl
cut-append (c ∷ a) b = ap (λ w. (c ∷ w.0, w.1)) (cut-append a b)

unfoldable pub serve : Bytes → Action State Text
unfolding read cut
serve (zero ∷ a) s = (ok (length a ∷ a ++ read s a), s)
serve (suc zero ∷ n ∷ rest) s = let (a, b) = cut n rest in (ok a, put s a b)
serve (suc (suc zero) ∷ a) s = (ok a, remove s a)
serve _ s = (ok [], s)

abbrev encoded : Request → Bytes
encoded (get_request c (a ∷ [])) = 0 ∷ a
encoded (set_request c ((a, b) ∷ [])) = 1 ∷ length a ∷ a ++ b
encoded (delete_request c (a ∷ [])) = 2 ∷ a
encoded _ = []

abbrev entry_of : Text × Text → Entry
entry_of e = record { address = e.0; content = e.1 }

abbrev pub states : Codec
states = record {
  serialize = encoded;
  get_response = λ content. elim content [
    | [] ↦ err decode_error
    | n ∷ rest ↦ ok (record { status = 1; body = entry_of (cut n rest) ∷ [] })
  ];
  set_response = λ content. ok (record { status = 1; body = content ∷ [] });
  delete_response = λ content. ok (record { status = 1; body = content ∷ [] });
  receipt_response = λ content. ok (record { status = 1; body = tt });
  event_response = λ content. ok (record { status = 1; body = tt });
}

abbrev pub link : Link State
link = record {
  send = λ message_type content. serve content;
  result = λ future timeout s. (ok (future_result 0 future), s);
  send_back = λ message_type correlation_id content s. (ok tt, s);
  receive = λ s. (ok 0, s);
  received = λ future timeout s. (err concurrent_timeout_error, s);
  is_ready = λ s. (ok true, s);
  wait_for_ready = λ s. (ok tt, s);
  close = λ s. (ok tt, s);
}

pub link-Serves : (c : Text) → Serves link states c read
unfolding ask serve read
link-Serves c = record {
  get_answer = λ s a t. (
    length a ∷ a ++ read s a,
    entry_of (a, read s a) ∷ [],
    1,
    refl,
    ap (λ w. ok (record { status = 1; body = entry_of w ∷ [] })) (cut-append a (read s a)),
    omega arith,
    refl,
  );
  set_answer = λ s a b t. (
    a,
    a ∷ [],
    1,
    put s a b,
    ap (λ w. (ok w.0, put s w.0 w.1)) (cut-append a b),
    refl,
    omega arith,
    λ j. ground (arith, get-put s a j b),
  );
  delete_answer = λ s a t.
      (a, a ∷ [], 1, remove s a, refl, refl, omega arith, λ j. ground (arith, get-remove s a j));
}

-- A digest that tells short texts apart, and the ASCII characters.
abbrev pub sha512 : Sha512
sha512 = λ b. b

abbrev ascii_digit : ℕ → Option ℕ
ascii_digit c = if leb 48 c && leb c 57 then some (c - 48) else none

abbrev pub ascii : CharTable
ascii = record { decimal = ascii_digit; is_space = λ c. c == 32 }
