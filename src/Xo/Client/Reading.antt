-- ===== src/Xo/Client/Reading.antt =====
-- What xo_client.py reads from the answers of the REST API.
use sci_ledger_sawtooth.Prelude.{List, [], ◌∷◌}
use sci_ledger_sawtooth.Text.{Text, Bytes, codes}
use sci_ledger_sawtooth.Errors.{Result, ok, ◌>>=◌}
use sci_ledger_sawtooth.Xo.Client.World.{Libraries}

module _ {W Y : Type 0} (io : Libraries W Y) where
  -- `yaml.safe_load(result)["data"]`
  unfoldable pub data_of : Text → Result Y
  data_of result = do top ← io.safe_load result; io.item top (codes "data")

  -- `yaml.safe_load(result)['data'][0]['status']`
  unfoldable pub status_in : Text → Result Y
  unfolding data_of
  status_in result = do
    entries ← data_of result
    entry ← io.first entries
    io.item entry (codes "status")

  -- `base64.b64decode(entry["data"])` of every entry
  unfoldable pub decoded_entries : List Y → Result (List Bytes)
  decoded_entries [] = ok []
  decoded_entries (entry ∷ entries) = do
    data_text ← io.item entry (codes "data")
    b ← io.b64decode data_text
    bs ← decoded_entries entries
    ok (b ∷ bs)

  unfoldable pub entries_in : Text → Result (List Bytes)
  unfolding data_of decoded_entries
  entries_in result = do
    encoded_entries ← data_of result
    entries ← io.elements encoded_entries
    decoded_entries entries

  unfoldable pub data_in : Text → Result Bytes
  unfolding data_of
  data_in result = do data_text ← data_of result; io.b64decode data_text
