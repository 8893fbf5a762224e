-- ===== src/Processor/Context/Serving.antt =====
-- A context on a link to a validator that serves the transaction is a store.
use sci_ledger_sawtooth.Prelude.{ℕ, ◌≡◌, ◌≢◌, Option, List, [], ◌∷◌, arith, if◌then◌else◌}
use sci_ledger_sawtooth.Text.{Text, Bytes, text_eq}
use sci_ledger_sawtooth.Errors.{ok}
use sci_ledger_sawtooth.Messaging.{Link}
use sci_ledger_sawtooth.Processor.Access.{Entry, IsStore}
use sci_ledger_sawtooth.Processor.Context.{
  get_request, set_request, delete_request, Codec, authorization_error, with_data, ask, get_state,
  set_state, delete_state, context_access,
}

-- What the validator answers on the three kinds of requests, for a transaction whose inputs and
-- outputs name the addresses: the status is not AUTHORIZATION_ERROR, a read gives the address with
-- its data, or with empty data or not at all where it is not set, and a write or a deletion sets or
-- unsets the address and no other.
pub record Serves {S : Type 0} (link : Link S) (codec : Codec) (context_id : Text)
    (read : S → Text → Bytes) : Type 0 where
  pub get_answer :
      (s : S) (a : Text) (t : Option ℕ)
      → (content : Bytes) × (entries : List Entry) × (status : ℕ) × (ask link codec context_id 7
            (get_request context_id (a ∷ []))
            t
            s
          ≡ (ok content, s))
        × (codec.get_response content ≡ ok (record { status = status; body = entries }))
        × (status ≢ authorization_error)
        × (with_data entries ≡ with_data (record { address = a; content = read s a } ∷ []))
  pub set_answer :
      (s : S) (a : Text) (b : Bytes) (t : Option ℕ)
      → (content : Bytes) × (changed : List Text) × (status : ℕ) × (s' : S) × (ask link codec
            context_id 9
            (set_request context_id ((a, b) ∷ []))
            t
            s
          ≡ (ok content, s'))
        × (codec.set_response content ≡ ok (record { status = status; body = changed }))
        × (status ≢ authorization_error)
        × ((j : Text) → read s' j ≡ (if text_eq a j then b else read s j))
  pub delete_answer :
      (s : S) (a : Text) (t : Option ℕ)
      → (content : Bytes) × (changed : List Text) × (status : ℕ) × (s' : S) × (ask link codec
            context_id 11
            (delete_request context_id (a ∷ []))
            t
            s
          ≡ (ok content, s'))
        × (codec.delete_response content ≡ ok (record { status = status; body = changed }))
        × (status ≢ authorization_error)
        × ((j : Text) → read s' j ≡ (if text_eq a j then [] else read s j))

module _ {S : Type 0} (link : Link S) (codec : Codec) (context_id : Text) (read : S → Text → Bytes)
    (serves : Serves link codec context_id read) where
  -- The three calls of a context, on a link to a validator that serves the transaction, are those of a
  -- store: a read returns the entry of the address, or none where no data is, and a write or deletion
  -- changes the data at its address only.
  pub context_access-IsStore : IsStore (context_access link codec context_id) read
  unfolding get_state set_state delete_state with_data
  context_access-IsStore = record {
    get_lem = λ s a t.
        let (content, entries, status, asked, parsed, allowed, found) = serves.get_answer s a t in
        ground (arith, asked, parsed, allowed, found);
    set_lem = λ s a b t.
        let (content, changed, status, s', asked, parsed, allowed, other) =
          serves.set_answer s a b t in
        (s', changed, ground (arith, asked, parsed, allowed), other);
    delete_lem = λ s a t.
        let (content, changed, status, s', asked, parsed, allowed, other) =
          serves.delete_answer s a t in
        (s', changed, ground (arith, asked, parsed, allowed), other);
  }
