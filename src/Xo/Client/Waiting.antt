-- ===== src/Xo/Client/Waiting.antt =====
-- The waiting of `_send_xo_txn` in xo_client.py ends, and what it gives back.
use sci_ledger_sawtooth.Prelude.{
  ℕ, zero, suc, ◌+◌, ◌*◌, ◌-◌, ◌/◌, ◌<◌, ◌≤◌, ◌≡◌, ◌⊎◌, inl, inr, refl, Option, none, some, ◌++◌,
  arith, ltb, Bool-cases,
}
use sci_ledger_sawtooth.Text.{Text, Bytes, codes}
use sci_ledger_sawtooth.Text.Numbers.{str}
use sci_ledger_sawtooth.Errors.{Exn, Message, Result, ok, err, xo_exception, Result-cases}
use sci_ledger_sawtooth.Action.{Action}
use sci_ledger_sawtooth.Dict.{Dict}
use sci_ledger_sawtooth.Xo.Payload.{pos}
use sci_ledger_sawtooth.Xo.Client.World.{Libraries, Auth}
use sci_ledger_sawtooth.Xo.Client.Reading.{status_in}
use sci_ledger_sawtooth.Xo.Client.Requests.{
  send_request, get_status, octet_stream, wrapped, headers_of, fetch, url_of, answered,
}
use sci_ledger_sawtooth.Xo.Client.Batches.{BatchList, Protobuf}
use sci_ledger_sawtooth.Xo.Client.Transactions.{second, pending, poll, send_and_wait}

module _ {W Y : Type 0} (io : Libraries W Y) where
  -- A clock that is not set back, and that goes on by a microsecond at least during a request.
  pub record IsClock (clock : W → ℕ) : Type 0 where
    pub reads : (w : W) → (io.time w).0 ≡ ok (clock w)
    pub goes_on : (w : W) → clock w ≤ clock (io.time w).1
    pub getting :
        (url : Text) (headers : Dict Text) (w : W) → clock w < clock (io.get url headers w).1
    pub posting :
        (url : Text) (headers : Dict Text) (data_bytes : Bytes) (w : W)
        → clock w < clock (io.post url headers data_bytes w).1

  -- An exception of the client.
  abbrev pub Failed : {A : Type 0} → Result A → Type 0
  Failed r = (m : Message) × (r ≡ err (xo_exception m))

  wrapped_lem : (e : Exn) → (m : Message) × (wrapped e ≡ xo_exception m)
  wrapped_lem (xo_exception m) = (m, refl)
  wrapped_lem e = (_, refl)

  -- After a request the world is as it was, if the headers could not be written, or as the library
  -- left it.
  record Sent (url : Text) (data_bytes : Option Bytes) (w : W) (r : Result Text × W) : Type 0 where
    headers : Dict Text
    left : r.1 ≡ (fetch io url headers data_bytes w).1

  send_request_lem :
      (base_url suffix : Text) (data_bytes : Option Bytes) (content_type name : Option Text)
      (auth : Auth) (w : W)
      → ((e : Exn) × (send_request io base_url suffix data_bytes content_type name auth w
            ≡ (err e, w)))
        ⊎ Sent
            (url_of base_url suffix)
            data_bytes
            w
            (send_request io base_url suffix data_bytes content_type name auth w)
  unfolding send_request
  send_request_lem base_url suffix data_bytes content_type name auth w =
      elim (Result-cases (headers_of io content_type auth)) [
        | inr (e, h) ↦ inl (e, ground (arith, h))
        | inl (headers, h) ↦
            elim (Result-cases (fetch io (url_of base_url suffix) headers data_bytes w).0) [
              | inr (e, f) ↦ inr (record { headers = headers; left = ground (arith, h, f) })
              | inl (result, f) ↦ elim (Result-cases (answered io name result)) [
                | inr (e, a) ↦ inr (record { headers = headers; left = ground (arith, h, f, a) })
                | inl (t, a) ↦ inr (record { headers = headers; left = ground (arith, h, f, a) })
              ]
            ]
      ]

  -- How a posted batch list ends: with the exception of posting it, or with the response to it,
  -- unless asking for the status has failed.
  unfoldable pub Ended : Result Text → Result (Option Text) → Type 0
  Ended posted r =
      ((e : Exn) × (posted ≡ err e) × (r ≡ err e))
      ⊎ ((response : Text) × (posted ≡ ok response) × ((r ≡ ok (some response)) ⊎ Failed r))

  unfoldable pub posting_of : Text → BatchList → Protobuf → Auth → Action W Text
  posting_of base_url batch_list pb auth =
      send_request io base_url (codes "batches") (some (pb.batch_list batch_list))
        (some octet_stream) none auth

  module _ (clock : W → ℕ) (law : IsClock clock) where
    fetch_later :
        (url : Text) (headers : Dict Text) (data_bytes : Option Bytes) (w : W)
        → clock w < clock (fetch io url headers data_bytes w).1
    unfolding fetch
    fetch_later url headers none w = law.getting url headers w
    fetch_later url headers (some b) w = law.posting url headers b w

    send_request_later :
        (base_url suffix : Text) (data_bytes : Option Bytes) (content_type name : Option Text)
        (auth : Auth) (w : W)
        → ((e : Exn) × (send_request io base_url suffix data_bytes content_type name auth w
              ≡ (err e, w)))
          ⊎ (clock w
              < clock (send_request io base_url suffix data_bytes content_type name auth w).1)
    send_request_later base_url suffix data_bytes content_type name auth w =
        elim (send_request_lem base_url suffix data_bytes content_type name auth w) [
          | inl (e, h) ↦ inl (e, h)
          | inr s ↦ inr (rw (s.left) (fetch_later (url_of base_url suffix) s.headers data_bytes w))
        ]

    -- A request for the status takes time, or fails with an XoException.
    get_status_lem :
        (base_url batch_id : Text) (wait : ℕ) (auth : Auth) (w : W)
        → Failed (get_status io base_url batch_id wait auth w).0
          ⊎ ((y : Y) × ((get_status io base_url batch_id wait auth w).0 ≡ ok y)
              × (clock w < clock (get_status io base_url batch_id wait auth w).1))
    unfolding get_status
    get_status_lem base_url batch_id wait auth w =
        let suffix = codes "batch_statuses?id=" ++ batch_id ++ codes "&wait=" ++ str wait in
        elim (Result-cases (send_request io base_url suffix none none none auth w).0) [
          | inr (e, h) ↦ let (m, p) = wrapped_lem e in inl (m, ground (arith, h, p))
          | inl (result, h) ↦ elim (Result-cases (status_in io result)) [
            | inr (e, g) ↦ let (m, p) = wrapped_lem e in inl (m, ground (arith, h, g, p))
            | inl (y, g) ↦ elim (send_request_later base_url suffix none none none auth w) [
              | inl (e, q) ↦ absurd (ground (arith, q, h))
              | inr l ↦
                  let k : (get_status io base_url batch_id wait auth w).1
                      ≡ (send_request io base_url suffix none none none auth w).1 =
                    ground (arith, h, g) in
                  inr (y, ground (arith, h, g), rw k l)
            ]
          ]
        ]

    -- The loop ends with fuel above the microseconds that are left.
    poll_ends :
        (fuel : ℕ) (base_url batch_id : Text) (wait start_time : ℕ) (auth : Auth) (t : ℕ) (w : W)
        → start_time + t ≤ clock w
        → 0 < fuel
        → wait * second < fuel + t
        → ((poll io fuel base_url batch_id wait start_time auth (pos t) w).0 ≡ ok (some tt))
          ⊎ Failed (poll io fuel base_url batch_id wait start_time auth (pos t) w).0
    unfolding poll
    poll_ends zero base_url batch_id wait start_time auth t w s f h = absurd (omega arith)
    poll_ends (suc fuel) base_url batch_id wait start_time auth t w s z h =
        elim (Bool-cases (ltb t (wait * second))) [
          | inr e ↦ inl (ground (arith, e))
          | inl e ↦ elim (get_status_lem base_url batch_id (wait - t / second) auth w) [
            | inl (m, f) ↦ inr (m, ground (arith, e, f))
            | inr (y, f, g) ↦
                let w1 = (get_status io base_url batch_id (wait - t / second) auth w).1 in
                let r = law.reads w1 in
                elim (Bool-cases (io.is_text y pending)) [
                  | inr p ↦ inl (ground (arith, e, f, r, p))
                  | inl p ↦
                      let q : poll io (suc fuel) base_url batch_id wait start_time auth (pos t) w
                          ≡ poll io fuel base_url batch_id wait start_time auth
                              (pos (clock w1 - start_time)) (io.time w1).1 =
                        ground (arith, e, f, r, p) in
                      rw q (
                        poll_ends fuel base_url batch_id wait start_time auth
                          (clock w1 - start_time) (io.time w1).1 (ground (arith, law.goes_on w1))
                          (ground arith) (ground arith))
                ]
          ]
        ]

    pub send_and_wait_ends :
        (fuel : ℕ) (base_url batch_id : Text) (batch_list : BatchList) (pb : Protobuf) (wait : ℕ)
        (auth : Auth) (w : W)
        → wait * second < fuel
        → Ended
            (posting_of base_url batch_list pb auth (io.time w).1).0
            (send_and_wait io fuel base_url batch_id batch_list pb wait auth w).0
    unfolding send_and_wait posting_of Ended
    send_and_wait_ends fuel base_url batch_id batch_list pb wait auth w h =
        let w1 = (io.time w).1 in
        let r = law.reads w in
        elim (Result-cases (posting_of base_url batch_list pb auth w1).0) [
          | inr (e, p) ↦ inl (e, p, ground (arith, r, p))
          | inl (response, p) ↦
              let w2 = (posting_of base_url batch_list pb auth w1).1 in
              elim (send_request_later base_url (codes "batches") (some (pb.batch_list batch_list))
                (some octet_stream) none auth w1) [
                  | inl (e, q) ↦ absurd (ground (arith, q, p))
                  | inr l ↦
                      elim (poll_ends fuel base_url batch_id wait (clock w) auth 0 w2
                        (ground (arith, law.goes_on w, l)) (ground arith) (ground arith)) [
                          | inl d ↦ inr (response, p, inl (ground (arith, r, p, d)))
                          | inr (m, d) ↦ inr (response, p, inr (m, ground (arith, r, p, d)))
                        ]
                ]
        ]
