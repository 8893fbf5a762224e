-- ===== src/Xo/Client/World.antt =====
-- The libraries that examples/xo_python/sawtooth_xo/xo_client.py calls, and the values that they share.
use sci_ledger_sawtooth.Prelude.{
  ℕ, Bool, not, ◌&&◌, Option, none, some, List, [], ◌∷◌, if◌then◌else◌,
}
use sci_ledger_sawtooth.Text.{Text, Bytes, codes, truthy}
use sci_ledger_sawtooth.Dict.{Dict}
use sci_ledger_sawtooth.Errors.{Result}
use sci_ledger_sawtooth.Action.{Action}
use sci_ledger_sawtooth.Xo.Payload.{CharTable, drop_space}

pub record Response : Type 0 where
  pub status_code : ℕ
  pub is_ok : Bool
  pub reason : Text
  pub text_of : Text

-- The calls of requests, time, random, yaml, base64, open and print, over the state of the world W and
-- the values Y that YAML has; the time is in microseconds.
pub record Libraries (W Y : Type 0) : Type 0 where
  pub post : Text → Dict Text → Bytes → Action W Response
  pub get : Text → Dict Text → Action W Response
  pub time : Action W ℕ
  pub randint : ℕ → ℕ → Action W ℕ
  pub read_file : Text → Action W Text
  pub print : Text → Action W (Unit {0})
  pub safe_load : Text → Result Y
  pub item : Y → Text → Result Y
  pub first : Y → Result Y
  pub elements : Y → Result (List Y)
  pub is_text : Y → Text → Bool
  pub b64decode : Y → Result Bytes
  pub b64encode : Bytes → Text

-- `text.strip()`
unfoldable pub drop_end : CharTable → Text → Text
drop_end u [] = []
drop_end u (c ∷ s) =
    let rest = drop_end u s in if not (truthy rest) && u.is_space c then [] else c ∷ rest

abbrev pub strip : CharTable → Text → Text
strip u s = drop_end u (drop_space u s)

-- The user and the password; None prints as "None".
pub record Auth : Type 0 where
  pub auth_user : Option Text
  pub auth_password : Option Text

abbrev pub shown : Option Text → Text
shown none = codes "None"
shown (some s) = s
