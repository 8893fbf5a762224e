-- ===== src/Processor/Access.antt =====
-- What a transaction handler sees of the validator's state: the three calls of `Context` in
-- sawtooth_sdk/processor/context.py, over a state S behind them. `IsStore` is what the calls do
-- when the validator answers and the transaction may read and write the addresses.
use sci_ledger_sawtooth.Prelude.{ℕ, ◌≡◌, Option, List, [], ◌∷◌, if◌then◌else◌}
use sci_ledger_sawtooth.Text.{Text, Bytes, text_eq, truthy}
use sci_ledger_sawtooth.Errors.{ok}
use sci_ledger_sawtooth.Action.{Action}

pub record Entry : Type 0 where
  pub address : Text
  pub content : Bytes

pub record Access (S : Type 0) : Type 0 where
  pub get_state : List Text → Option ℕ → Action S (List Entry)
  pub set_state : List (Text × Bytes) → Option ℕ → Action S (List Text)
  pub delete_state : List Text → Option ℕ → Action S (List Text)

-- The entries that a read of one address returns: none for an address that is not set.
abbrev pub entries_at : Text → Bytes → List Entry
entries_at a b = if truthy b then record { address = a; content = b } ∷ [] else []

-- `read s a` is the data at address a, and no data where it is not set.
pub record IsStore {S : Type 0} (access : Access S) (read : S → Text → Bytes) : Type 0 where
  pub get_lem :
      (s : S) (a : Text) (t : Option ℕ)
      → access.get_state (a ∷ []) t s ≡ (ok (entries_at a (read s a)), s)
  pub set_lem :
      (s : S) (a : Text) (b : Bytes) (t : Option ℕ)
      → (s' : S) × (changed : List Text) × (access.set_state ((a, b) ∷ []) t s ≡ (ok changed, s'))
        × ((j : Text) → read s' j ≡ (if text_eq a j then b else read s j))
  pub delete_lem :
      (s : S) (a : Text) (t : Option ℕ)
      → (s' : S) × (changed : List Text) × (access.delete_state (a ∷ []) t s ≡ (ok changed, s'))
        × ((j : Text) → read s' j ≡ (if text_eq a j then [] else read s j))
