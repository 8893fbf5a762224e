-- ===== src/Consensus/Service/Outcomes.antt =====
-- How the calls of the consensus service end: by a table from the status of the response to the
-- exception, written here once for all calls.
use sci_ledger_sawtooth.Prelude.{
  ℕ, String, ◌≡◌, refl, not, Option, none, some, List, [], ◌∷◌, arith, ◌==◌, if◌then◌else◌,
}
use sci_ledger_sawtooth.Text.{Text, Bytes}
use sci_ledger_sawtooth.Errors.{
  Exn, Result, ok, err, plain, invalid_state, unknown_block, block_not_ready, no_chain_head,
}
use sci_ledger_sawtooth.Action.{Action, continue, raise_if, pure, ◌>>◌}
use sci_ledger_sawtooth.Messaging.{Link}
use sci_ledger_sawtooth.Consensus.Service.{
  Response, Codec, Request, send_to_request, broadcast_request, initialize_request,
  summarize_request, finalize_request, cancel_request, check_request, commit_request,
  ignore_request, fail_request, blocks_request, chain_head_request, settings_request, state_request,
  status_ok, failed_with, given, blocks_by_id, dict_of, exchange, send_to, broadcast,
  initialize_block, summarize_block, finalize_block, cancel_block, check_blocks, commit_block,
  ignore_block, fail_block, get_blocks, get_chain_head, get_settings, get_state,
}

-- The exception of a status: none for OK, the row's if there is one, else ReceiveError.
unfoldable pub refusal : List (ℕ × Exn) → ℕ → Option Exn
refusal [] status = if status == status_ok then none else some (failed_with status)
refusal ((n, e) ∷ rows) status = if status == n then some e else refusal rows status

abbrev pub answer : {A : Type 0} → Option Exn → A → Result A
answer none a = ok a
answer (some e) a = err e

-- What a call makes of the exchange with the validator, and no more is done to the connection.
abbrev pub settled :
    {S A B : Type 0} → List (ℕ × Exn) → (A → B) → Result (Response A) × S → Result B × S
settled rows f (err e, s) = (err e, s)
settled rows f (ok r, s) = (answer (refusal rows r.status) (f r.body), s)

continue-settled :
    {S A B : Type 0} (rows : List (ℕ × Exn)) (f : A → B) (k : Response A → Action S B)
    → ((r : Response A) (s : S) → k r s ≡ settled rows f (ok r, s))
    → (w : Result (Response A) × S) → continue w.0 k w.1 ≡ settled rows f w
continue-settled rows f k h (ok r, s) = h r s
continue-settled rows f k h (err e, s) = refl

-- The tests of the status in the order of the code.
abbrev test_ok : {S : Type 0} → ℕ → Action S (Unit {0})
test_ok status = raise_if (not (status == status_ok)) (failed_with status)

ok_only :
    {S : Type 0} (w : Result (Response (Unit {0})) × S)
    → continue w.0 (λ r. test_ok r.status) w.1 ≡ settled [] (λ u. u) w
unfolding refusal
ok_only w = continue-settled [] (λ u. u) (λ r. test_ok r.status) (λ r s. ground arith) w

one_row :
    {S : Type 0} (n : ℕ) (x : Exn) (w : Result (Response (Unit {0})) × S)
    → continue w.0 (λ r. raise_if (r.status == n) x >> test_ok r.status) w.1
      ≡ settled ((n, x) ∷ []) (λ u. u) w
unfolding refusal
one_row n x w =
    continue-settled ((n, x) ∷ []) (λ u. u) (λ r. raise_if (r.status == n) x >> test_ok r.status)
      (λ r s. ground arith) w

two_rows :
    {S : Type 0} (n : ℕ) (x : Exn) (m : ℕ) (y : Exn) (w : Result (Response (Unit {0})) × S)
    → continue w.0
        (λ r. raise_if (r.status == n) x >> (raise_if (r.status == m) y >> test_ok r.status))
        w.1
      ≡ settled ((n, x) ∷ (m, y) ∷ []) (λ u. u) w
unfolding refusal
two_rows n x m y w =
    continue-settled ((n, x) ∷ (m, y) ∷ []) (λ u. u)
      (λ r. raise_if (r.status == n) x >> (raise_if (r.status == m) y >> test_ok r.status))
      (λ r s. ground arith) w

one_row_then :
    {S A B : Type 0} (n : ℕ) (x : Exn) (f : A → B) (w : Result (Response A) × S)
    → continue w.0 (λ r. raise_if (r.status == n) x >> (test_ok r.status >> pure (f r.body))) w.1
      ≡ settled ((n, x) ∷ []) f w
unfolding refusal
one_row_then n x f w =
    continue-settled ((n, x) ∷ []) f
      (λ r. raise_if (r.status == n) x >> (test_ok r.status >> pure (f r.body)))
      (λ r s. ground arith) w

two_rows_then :
    {S A B : Type 0} (n : ℕ) (x : Exn) (m : ℕ) (y : Exn) (f : A → B) (w : Result (Response A) × S)
    → continue w.0
        (λ r.
          raise_if (r.status == n) x
          >> (raise_if (r.status == m) y >> (test_ok r.status >> pure (f r.body))))
        w.1
      ≡ settled ((n, x) ∷ (m, y) ∷ []) f w
unfolding refusal
two_rows_then n x m y f w =
    continue-settled ((n, x) ∷ (m, y) ∷ []) f
      (λ r.
        raise_if (r.status == n) x
        >> (raise_if (r.status == m) y >> (test_ok r.status >> pure (f r.body))))
      (λ r s. ground arith) w

abbrev pub no_state : String → List (ℕ × Exn)
no_state m = (5, invalid_state (plain m)) ∷ []

abbrev pub no_block : List (ℕ × Exn)
no_block = (5, unknown_block) ∷ []

module _ {S : Type 0} (link : Link S) (codec : Codec) (timeout : ℕ) where
  -- A call that ends by a table from the one exchange that it makes.
  abbrev pub EndsBy :
      {A B : Type 0}
      → Request
      → ℕ
      → (Bytes → Result (Response A))
      → List (ℕ × Exn)
      → (A → B)
      → Action S B
      → S
      → Type 0
  EndsBy request message_type parse rows f call s =
      call s ≡ settled rows f (exchange link codec timeout request message_type parse s)

  -- The ends of the calls, by the table of each: the request, its number, the parsing of the response,
  -- and the statuses with exceptions of their own.
  abbrev pub DirectivesEnd : Bytes → Bytes → Text → List Bytes → Option Bytes → S → Type 0
  DirectivesEnd a b t ids p s =
      EndsBy (send_to_request a t b) 802 (codec.parse_plain 802) [] (λ u. u)
        (send_to link codec timeout a t b) s
      × EndsBy (broadcast_request t b) 804 (codec.parse_plain 804) [] (λ u. u)
          (broadcast link codec timeout t b) s
      × EndsBy (initialize_request (given p)) 806 (codec.parse_plain 806)
          ((5, invalid_state (plain "Cannot initialize block in current state"))
            ∷ (6, unknown_block)
            ∷ [])
          (λ u. u) (initialize_block link codec timeout p) s
      × EndsBy cancel_request 810 (codec.parse_plain 810)
          (no_state "Cannot cancel block in current state") (λ u. u)
          (cancel_block link codec timeout) s
      × EndsBy (check_request ids) 812 (codec.parse_plain 812) no_block (λ u. u)
          (check_blocks link codec timeout ids) s
      × EndsBy (commit_request a) 814 (codec.parse_plain 814) no_block (λ u. u)
          (commit_block link codec timeout a) s
      × EndsBy (ignore_request a) 816 (codec.parse_plain 816) no_block (λ u. u)
          (ignore_block link codec timeout a) s
      × EndsBy (fail_request a) 818 (codec.parse_plain 818) no_block (λ u. u)
          (fail_block link codec timeout a) s

  -- Sending to one peer or to all, and each of the directives on blocks, makes one exchange with the
  -- validator and returns if the status of the response is OK; the statuses 5 and 6, where the call
  -- knows them, raise their own exceptions, and all others raise ReceiveError.
  directives_lem :
      (a b : Bytes) (t : Text) (ids : List Bytes) (p : Option Bytes) (s : S)
      → DirectivesEnd a b t ids p s
  unfolding send_to broadcast initialize_block cancel_block check_blocks commit_block ignore_block
      fail_block refusal
  directives_lem a b t ids p s = (
    ok_only (exchange link codec timeout (send_to_request a t b) 802 (codec.parse_plain 802) s),
    ok_only (exchange link codec timeout (broadcast_request t b) 804 (codec.parse_plain 804) s),
    two_rows 5 (invalid_state (plain "Cannot initialize block in current state")) 6 unknown_block
        (exchange link codec timeout (initialize_request (given p)) 806 (codec.parse_plain 806) s),
    one_row 5 (invalid_state (plain "Cannot cancel block in current state"))
        (exchange link codec timeout cancel_request 810 (codec.parse_plain 810) s),
    one_row 5 unknown_block
        (exchange link codec timeout (check_request ids) 812 (codec.parse_plain 812) s),
    one_row 5 unknown_block
        (exchange link codec timeout (commit_request a) 814 (codec.parse_plain 814) s),
    one_row 5 unknown_block
        (exchange link codec timeout (ignore_request a) 816 (codec.parse_plain 816) s),
    one_row 5 unknown_block
        (exchange link codec timeout (fail_request a) 818 (codec.parse_plain 818) s),
  )

  abbrev pub ProposalsEnd : Bytes → S → Type 0
  ProposalsEnd b s =
      EndsBy summarize_request 828 codec.parse_summary
        ((5, invalid_state (plain "Cannot summarize block in current state"))
          ∷ (6, block_not_ready (plain "Block not ready to be summarize"))
          ∷ [])
        (λ x. x) (summarize_block link codec timeout) s
      × EndsBy (finalize_request b) 808 codec.parse_block_id
          ((5, invalid_state (plain "Cannot finalize block in current state"))
            ∷ (6, block_not_ready (plain "Block not ready to be finalized"))
            ∷ [])
          (λ x. x) (finalize_block link codec timeout b) s

  -- Summarizing and finalizing a block make one exchange and return the summary and the block's id if the status
  -- is OK; the status 5 raises InvalidState, 6 BlockNotReady, and all others ReceiveError.
  proposals_lem : (b : Bytes) (s : S) → ProposalsEnd b s
  unfolding summarize_block finalize_block
  proposals_lem b s = (
    two_rows_then 5 (invalid_state (plain "Cannot summarize block in current state")) 6
        (block_not_ready (plain "Block not ready to be summarize")) (λ x. x)
        (exchange link codec timeout summarize_request 828 codec.parse_summary s),
    two_rows_then 5 (invalid_state (plain "Cannot finalize block in current state")) 6
        (block_not_ready (plain "Block not ready to be finalized")) (λ x. x)
        (exchange link codec timeout (finalize_request b) 808 codec.parse_block_id s),
  )

  abbrev pub QueriesEnd : Bytes → List Bytes → List Text → S → Type 0
  QueriesEnd b ids keys s =
      EndsBy (blocks_request ids) 824 codec.parse_blocks no_block (λ x. blocks_by_id x [])
        (get_blocks link codec timeout ids) s
      × EndsBy chain_head_request 826 codec.parse_chain_head ((5, no_chain_head) ∷ []) (λ x. x)
          (get_chain_head link codec timeout) s
      × EndsBy (settings_request b keys) 820 codec.parse_settings no_block (λ x. dict_of x [])
          (get_settings link codec timeout b keys) s
      × EndsBy (state_request b keys) 822 codec.parse_state no_block (λ x. dict_of x [])
          (get_state link codec timeout b keys) s

  -- Each query makes one exchange and returns what the response holds if the status is OK, the
  -- blocks, the settings and the entries of the state as a dictionary; the status 5 raises
  -- UnknownBlock, or NoChainHead for the chain head, and all others ReceiveError.
  pub queries_lem :
      (b : Bytes) (ids : List Bytes) (keys : List Text) (s : S) → QueriesEnd b ids keys s
  unfolding get_blocks get_chain_head get_settings get_state
  queries_lem b ids keys s = (
    one_row_then 5 unknown_block (λ x. blocks_by_id x [])
        (exchange link codec timeout (blocks_request ids) 824 codec.parse_blocks s),
    one_row_then 5 no_chain_head (λ x. x)
        (exchange link codec timeout chain_head_request 826 codec.parse_chain_head s),
    one_row_then 5 unknown_block (λ x. dict_of x [])
        (exchange link codec timeout (settings_request b keys) 820 codec.parse_settings s),
    one_row_then 5 unknown_block (λ x. dict_of x [])
        (exchange link codec timeout (state_request b keys) 822 codec.parse_state s),
  )

  -- Each of the fourteen calls of the service makes one exchange with the validator, of a request that
  -- carries its arguments, and ends by the status of the response: OK returns what the response holds,
  -- the statuses that the call knows raise their own exceptions, and all others ReceiveError.
  pub outcomes_lem :
      (a b d : Bytes) (t : Text) (ids : List Bytes) (p : Option Bytes) (keys : List Text) (s : S)
      → DirectivesEnd a b t ids p s × ProposalsEnd d s × QueriesEnd b ids keys s
  outcomes_lem a b d t ids p keys s =
      (directives_lem a b t ids p s, proposals_lem d s, queries_lem b ids keys s)
