-- ===== src/Xo/Client/Requests.antt =====
-- The requests of `XoClient` to the REST API: `_send_request` and `_get_status` of xo_client.py.
use sci_ledger_sawtooth.Prelude.{ℕ, not, Option, none, some, [], ◌∷◌, ◌++◌, ◌==◌, if◌then◌else◌}
use sci_ledger_sawtooth.Text.{Text, Bytes, codes, starts_with}
use sci_ledger_sawtooth.Text.Utf8.{encode}
use sci_ledger_sawtooth.Text.Numbers.{str}
use sci_ledger_sawtooth.Dict.{Dict, put}
use sci_ledger_sawtooth.Errors.{
  Exn, text, number, optional, cause, format, Result, ok, err, value_error, xo_exception,
  connection_error,
}
use sci_ledger_sawtooth.Action.{Action, raise, lift, try, ◌>>=◌}
use sci_ledger_sawtooth.Xo.Client.World.{Libraries, Response, Auth, shown}
use sci_ledger_sawtooth.Xo.Client.Reading.{status_in}

-- `XoException(err)`: its text is that of `err`
abbrev pub wrapped : Exn → Exn
wrapped (xo_exception m) = xo_exception m
wrapped e = xo_exception (format "{}" cause)

abbrev pub authorization : Text
authorization = codes "Authorization"

abbrev pub content_type_key : Text
content_type_key = codes "Content-Type"

abbrev pub octet_stream : Text
octet_stream = codes "application/octet-stream"

-- The exceptions of a request: a lost connection has a message of its own.
abbrev pub failed_request : Text → Exn → Exn
failed_request url connection_error =
    xo_exception (record { template = "Failed to connect to {}: {}"; args = text url ∷ cause ∷ [] })
failed_request url e = wrapped e

-- `"{}/{}".format(self._base_url, suffix)`, with the scheme if it is not there
unfoldable pub url_of : Text → Text → Text
url_of base_url suffix =
    if starts_with base_url (codes "http://")
    then base_url ++ codes "/" ++ suffix
    else codes "http://" ++ base_url ++ codes "/" ++ suffix

module _ {W Y : Type 0} (io : Libraries W Y) where
  unfoldable pub headers_of : Option Text → Auth → Result (Dict Text)
  headers_of content_type auth =
      let headers : Result (Dict Text) = elim (auth.auth_user) [
        | none ↦ ok []
        | some auth_user ↦ elim (encode (auth_user ++ codes ":" ++ shown auth.auth_password)) [
          | none ↦ err value_error
          | some b ↦ ok (put [] authorization (codes "Basic " ++ io.b64encode b))
        ]
      ] in
      elim content_type [
        | none ↦ headers
        | some c ↦ elim headers [ err e ↦ err e | ok h ↦ ok (put h content_type_key c) ]
      ]

  -- the calls under `try`: the response, or an exception by its status
  unfoldable pub answered : Option Text → Response → Result Text
  answered name result =
      if result.status_code == 404
      then err (xo_exception (format "No such game: {}" (optional name)))
      else if not result.is_ok
      then err (
          xo_exception (record {
            template = "Error {}: {}";
            args = number result.status_code ∷ text result.reason ∷ [];
          }))
      else ok (result.text_of)

  unfoldable pub fetch : Text → Dict Text → Option Bytes → Action W Response
  fetch url headers (some data_bytes) = io.post url headers data_bytes
  fetch url headers none = io.get url headers

  unfoldable pub send_request :
      Text → Text → Option Bytes → Option Text → Option Text → Auth → Action W Text
  unfolding headers_of answered fetch url_of
  send_request base_url suffix data_bytes content_type name auth = do
    headers ← lift (headers_of content_type auth)
    try (do result ← fetch (url_of base_url suffix) headers data_bytes; lift (answered name result))
        (λ e. raise (failed_request (url_of base_url suffix) e))

  unfoldable pub get_status : Text → Text → ℕ → Auth → Action W Y
  unfolding send_request status_in
  get_status base_url batch_id wait auth =
      try
        (do
          result ←
              send_request base_url
                (codes "batch_statuses?id=" ++ batch_id ++ codes "&wait=" ++ str wait) none none
                none auth
          lift (status_in io result))
        (λ e. raise (wrapped e))
