-- ===== src/Processor/Running/Registering.antt =====
-- What has happened at the validator when `_register` of sawtooth_sdk/processor/core.py returns.
use sci_ledger_sawtooth.Prelude.{
  ℕ, ◌≡◌, ◌≢◌, ◌⊎◌, inl, inr, none, List, [], ◌∷◌, ◌==◌, arith, length, Bool-cases,
}
use sci_ledger_sawtooth.Text.{Text, Bytes}
use sci_ledger_sawtooth.Errors.{
  Exn, decode_error, ok, err, validator_connection_error, Result-cases,
}
use sci_ledger_sawtooth.Messaging.{Link, future_result, future_error}
use sci_ledger_sawtooth.Processor.Access.{Access}
use sci_ledger_sawtooth.Processor.Core.{
  Codec, Processor, RegisterRequest, RegisterResponse, register_requests, disconnected,
}
use sci_ledger_sawtooth.Processor.Running.{send_all, read_registration, read_all, register}

module _ {S : Type 0} (link : Link S) (codec : Codec) (context : Text → Access S)
    (p : Processor S) where
  -- The response to a registration has come, in the version asked for, and is no error.
  pub record Accepts (future : Text) (s s' : S) : Type 0 where
    pub message_type : ℕ
    pub content : Bytes
    pub resp : RegisterResponse
    pub reply : link.result future none s ≡ (ok (future_result message_type content), s')
    pub parsed : codec.register_response content ≡ ok resp
    pub version : resp.protocol_version ≡ p.highest_sdk_feature_requested
    pub status : resp.status ≢ 2

  -- The connection was lost before the response came.
  abbrev pub Loses : Text → S → S → Type 0
  Loses future s s' =
      (link.result future none s ≡ (ok future_error, s'))
      ⊎ (link.result future none s ≡ (err validator_connection_error, s'))

  -- Every response was read, in the order of the requests: each is good, or was lost.
  pub data Registers : List Text → S → S → Type 0 where
    all_read : (s : S) → Registers [] s s
    accepted :
        (future : Text) (futures : List Text) (s s1 s' : S)
        → Accepts future s s1
        → Registers futures s1 s'
        → Registers (future ∷ futures) s s'
    lost :
        (future : Text) (futures : List Text) (s s1 s' : S)
        → Loses future s s1
        → Registers futures s1 s'
        → Registers (future ∷ futures) s s'

  send_all-length :
      (ms : List RegisterRequest) (s s' : S) (futures : List Text)
      → send_all link codec context p ms s ≡ (ok futures, s')
      → length futures ≡ length ms
  unfolding send_all
  send_all-length [] s s' futures e = ground (arith, e)
  send_all-length (m ∷ ms) s s' futures e =
      let s1 = (link.wait_for_ready s).1 in
      let sent = link.send 1 (codec.register_request m) s1 in
      elim (Result-cases ((link.wait_for_ready s).0)) [
        | inr (x, r) ↦ absurd (ground (arith, r, e))
        | inl (_, r) ↦ elim (Result-cases (sent.0)) [
          | inr (x, q) ↦ absurd (ground (arith, r, q, e))
          | inl (future, q) ↦ elim (Result-cases ((send_all link codec context p ms sent.1).0)) [
            | inr (x, t) ↦ absurd (ground (arith, r, q, t, e))
            | inl (rest, t) ↦
                let shorter = send_all-length ms sent.1 s' rest (ground (arith, r, q, t, e)) in
                ground (arith, r, q, t, e, shorter)
          ]
        ]
      ]

  disconnected_ok :
      (x : Exn) (s s' : S)
      → disconnected x s ≡ (ok tt, s')
      → (x ≡ validator_connection_error) × (s ≡ s')
  disconnected_ok x s s' e = ground (arith, e)

  module _
      (parse_fails : (b : Bytes) (x : Exn)
        → codec.register_response b ≡ err x
        → x ≡ decode_error) where
    parsed_ok :
        (future : Text) (s s1 s' : S) (t : ℕ) (b : Bytes)
        → link.result future none s ≡ (ok (future_result t b), s1)
        → read_registration link codec context p future s ≡ (ok tt, s')
        → Accepts future s s'
    unfolding read_registration
    parsed_ok future s s1 s' t b r e = elim (Result-cases (codec.register_response b)) [
      | inr (x, g) ↦ absurd (ground (arith, r, e, g, parse_fails b x g))
      | inl (resp, g) ↦
          elim (Bool-cases (resp.protocol_version == p.highest_sdk_feature_requested)) [
            | inr v ↦ absurd (ground (arith, r, e, g, v))
            | inl v ↦ elim (Bool-cases (resp.status == 2)) [
              | inl z ↦ absurd (ground (arith, r, e, g, v, z))
              | inr z ↦
                  let same : s1 ≡ s' = ground (arith, r, e, g, v, z) in
                  record {
                    message_type = t;
                    content = b;
                    resp = resp;
                    reply = ground (arith, r, same);
                    parsed = g;
                    version = ground (arith, v);
                    status = ground (arith, z);
                  }
            ]
          ]
    ]

    read_registration-ok :
        (future : Text) (s s' : S)
        → read_registration link codec context p future s ≡ (ok tt, s')
        → Accepts future s s' ⊎ Loses future s s'
    unfolding read_registration
    read_registration-ok future s s' e =
        let s1 = (link.result future none s).1 in
        elim (Result-cases ((link.result future none s).0)) [
          | inl (future_result t b, r) ↦ inl (parsed_ok future s s1 s' t b (ground (arith, r)) e)
          | inl (future_error, r) ↦ inr (inl (ground (arith, r, e)))
          | inr (x, r) ↦
              let raised : disconnected x s1 ≡ (ok tt, s') = ground (arith, r, e) in
              let (same, here) = disconnected_ok x s1 s' raised in
              inr (inr (ground (arith, r, same, here)))
        ]

    read_all-ok :
        (futures : List Text) (s s' : S)
        → read_all link codec context p futures s ≡ (ok tt, s')
        → Registers futures s s'
    unfolding read_all
    read_all-ok [] s s' e = let same : s ≡ s' = ground (arith, e) in rw (same) (all_read s')
    read_all-ok (future ∷ futures) s s' e =
        let s1 = (read_registration link codec context p future s).1 in
        elim (Result-cases ((read_registration link codec context p future s).0)) [
          | inr (x, r) ↦ absurd (ground (arith, r, e))
          | inl (_, r) ↦
              let rest = read_all-ok futures s1 s' (ground (arith, r, e)) in
              elim (read_registration-ok future s s1 (ground (arith, r))) [
                | inl a ↦ accepted future futures s s1 s' a rest
                | inr l ↦ lost future futures s s1 s' l rest
              ]
        ]

    -- Where decoding fails with nothing but its own exception: if `_register` returns, it has sent one
    -- request for each that it makes, and read a response to each, in order, of which every one was
    -- lost with the connection, or has the version asked for and is not an error.
    pub register-Registers :
        (s s' : S)
        → register link codec context p s ≡ (ok tt, s')
        → (futures : List Text) × (s1 : S) × (send_all link codec context p (register_requests p) s
            ≡ (ok futures, s1))
          × (length futures ≡ length (register_requests p))
          × Registers futures s1 s'
    unfolding register
    register-Registers s s' e =
        let s1 = (send_all link codec context p (register_requests p) s).1 in
        elim (Result-cases ((send_all link codec context p (register_requests p) s).0)) [
          | inr (x, r) ↦ absurd (ground (arith, r, e))
          | inl (futures, r) ↦
              let sent : send_all link codec context p (register_requests p) s ≡ (ok futures, s1) =
                ground (arith, r) in
              (
                futures,
                s1,
                sent,
                send_all-length (register_requests p) s s1 futures sent,
                read_all-ok futures s1 s' (ground (arith, r, e)),
              )
        ]
