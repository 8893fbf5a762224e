-- ===== src/Example/Web.antt =====
-- A small stand-in for the libraries of the xo client: the world is the time of its clock in
-- microseconds, which each request moves on by a second; the REST API says PENDING for three seconds.
use sci_ledger_sawtooth.Prelude.{ℕ, ◌+◌, refl, true, [], ◌∷◌, arith, ltb, if◌then◌else◌}
use sci_ledger_sawtooth.Text.{Text, codes, text_eq}
use sci_ledger_sawtooth.Errors.{ok}
use sci_ledger_sawtooth.Xo.Client.World.{Libraries, Response}
use sci_ledger_sawtooth.Xo.Client.Waiting.{IsClock}
use sci_ledger_sawtooth.Xo.Client.Batches.{Protobuf}

abbrev response_at : ℕ → Response
response_at w = record {
  status_code = 200;
  is_ok = true;
  reason = codes "OK";
  text_of = if ltb w 3000000 then codes "PENDING" else codes "COMMITTED";
}

-- A document of YAML is its text, whatever is looked up in it.
abbrev pub web : Libraries ℕ Text
web = record {
  post = λ url headers data_bytes w. (ok (response_at w), w + 1000000);
  get = λ url headers w. (ok (response_at w), w + 1000000);
  time = λ w. (ok w, w);
  randint = λ low high w. (ok low, w);
  read_file = λ name w. (ok (codes "02"), w);
  print = λ t w. (ok tt, w);
  safe_load = λ t. ok t;
  item = λ y k. ok y;
  first = λ y. ok y;
  elements = λ y. ok (y ∷ []);
  is_text = text_eq;
  b64decode = λ y. ok y;
  b64encode = λ b. b;
}

pub web-IsClock : IsClock web (λ w. w)
web-IsClock = record {
  reads = λ w. refl;
  goes_on = λ w. omega arith;
  getting = λ url headers w. omega arith;
  posting = λ url headers data_bytes w. omega arith;
}

-- Encodings that keep some of what they encode.
abbrev pub protobuf : Protobuf
protobuf = record {
  transaction_header = λ h. h.payload_sha512;
  batch_header = λ h. h.signer_public_key;
  batch_list = λ b. [];
}
