-- ===== src/Processor/Core/Routing.antt =====
-- The handler that a transaction is routed to, and what is registered with the validator.
use sci_ledger_sawtooth.Prelude.{
  ℕ, ◌≤◌, ◌≡◌, refl, Bool, true, false, ◌&&◌, ◌||◌, Option, none, some, List, [], ◌∷◌, ◌++◌, arith,
  Bool-cases, inl, inr, All, All-append,
}
use sci_ledger_sawtooth.Text.{Text, text_eq}
use sci_ledger_sawtooth.Processor.Core.{
  Header, RegisterRequest, Handler, Processor, is_in, set_header_style, matches, find_handler,
  handler_requests, requests_of, register_requests,
}

-- Whether some request asks the validator for the transactions with this header.
unfoldable pub asks_for : List RegisterRequest → Header → Bool
asks_for [] header = false
asks_for (r ∷ rs) header =
    (text_eq header.family_name r.family && text_eq header.family_version r.version)
    || asks_for rs header

abbrev pub is_found {ℓ} : {A : Type ℓ} → Option A → Bool
is_found none = false
is_found (some _) = true

asks_for-append :
    (rs ts : List RegisterRequest) (header : Header)
    → asks_for (rs ++ ts) header ≡ (asks_for rs header || asks_for ts header)
unfolding asks_for
asks_for-append [] ts header = refl
asks_for-append (r ∷ rs) ts header = ground (arith, asks_for-append rs ts header)

module _ {S : Type 0} where
  asks_for-handler_requests :
      (p : Processor S) (h : Handler S) (vs : List Text) (header : Header)
      → asks_for (handler_requests p h vs) header
        ≡ (text_eq header.family_name h.family_name && is_in header.family_version vs)
  unfolding asks_for handler_requests is_in
  asks_for-handler_requests p h [] header = ground arith
  asks_for-handler_requests p h (v ∷ vs) header =
      ground (arith, asks_for-handler_requests p h vs header)

  asks_for-requests_of :
      (p : Processor S) (hs : List (Handler S)) (header : Header)
      → asks_for (requests_of p hs) header ≡ is_found (find_handler hs header)
  unfolding asks_for requests_of find_handler matches
  asks_for-requests_of p [] header = refl
  asks_for-requests_of p (h ∷ hs) header = ground (
    arith,
    asks_for-append (handler_requests p h h.family_versions) (requests_of p hs) header,
    asks_for-handler_requests p h h.family_versions header,
    asks_for-requests_of p hs header,
  )

  -- The processor finds a handler for a header exactly if one of the requests that it registers with
  -- asks the validator for the transactions of that family and version.
  pub asks_for-register_requests :
      (p : Processor S) (header : Header)
      → asks_for (register_requests p) header ≡ is_found (find_handler p.handlers header)
  asks_for-register_requests p header = asks_for-requests_of p p.handlers header

  -- The handler that is found matches the header, and none that was added before it does.
  pub find_handler_first :
      (hs : List (Handler S)) (header : Header) (h : Handler S)
      → find_handler hs header ≡ some h
      → (before : List (Handler S)) × (after : List (Handler S)) × (hs ≡ before ++ (h ∷ after))
        × All (λ k. matches k header ≡ false) before
        × (matches h header ≡ true)
  unfolding find_handler
  find_handler_first [] header h e = cc
  find_handler_first (k ∷ hs) header h e = elim (Bool-cases (matches k header)) [
    | inl m ↦ let same : k ≡ h = ground arith in ([], hs, rw same refl, tt, rw (← same) m)
    | inr m ↦
        let (before, after, q, none_before, found) =
          find_handler_first hs header h (ground (arith, m)) in
        (k ∷ before, after, rw q refl, (m, none_before), found)
  ]

  handler_styled :
      (p : Processor S) (style : ℕ) (h : Handler S)
      → p.header_style ≡ style
      → 1 ≤ p.highest_sdk_feature_requested
      → (vs : List Text)
      → All
          (λ r. (r.request_header_style ≡ style) × (1 ≤ r.protocol_version))
          (handler_requests p h vs)
  unfolding handler_requests
  handler_styled p style h e f [] = tt
  handler_styled p style h e f (v ∷ vs) = ((e, f), handler_styled p style h e f vs)

  styled :
      (p : Processor S) (style : ℕ) (hs : List (Handler S))
      → p.header_style ≡ style
      → 1 ≤ p.highest_sdk_feature_requested
      → All (λ r. (r.request_header_style ≡ style) × (1 ≤ r.protocol_version)) (requests_of p hs)
  unfolding requests_of
  styled p style [] e f = tt
  styled p style (h ∷ hs) e f =
      All-append (λ r. (r.request_header_style ≡ style) × (1 ≤ r.protocol_version))
        (handler_requests p h h.family_versions) (requests_of p hs)
        (handler_styled p style h e f h.family_versions) (styled p style hs e f)

  -- After the header style is set, every request to register asks for that style, and for a protocol
  -- version that has the feature.
  pub register_requests-set_header_style :
      (p : Processor S) (style : ℕ)
      → All
          (λ r. (r.request_header_style ≡ style) × (1 ≤ r.protocol_version))
          (register_requests (set_header_style p style))
  unfolding set_header_style
  register_requests-set_header_style p style =
      styled (set_header_style p style) style (set_header_style p style).handlers (ground arith)
        (ground arith)
