-- ===== src/Xo/Handler/Refinement.antt =====
-- `apply` against the transition: accepted payloads, refused payloads, and games played by the rules.
use sci_ledger_sawtooth.Prelude.{◌≡◌, refl, inl, inr, [], Bool-cases, All}
use sci_ledger_sawtooth.Text.{Text, Bytes, text_eq}
use sci_ledger_sawtooth.Dict.{get}
use sci_ledger_sawtooth.Errors.{ok}
use sci_ledger_sawtooth.Processor.Access.{Access, IsStore}
use sci_ledger_sawtooth.Xo.Game.RoundTrip.{IsPlain}
use sci_ledger_sawtooth.Xo.Payload.{
  CharTable, XoPayload, act_create, act_take, act_delete, from_bytes,
}
use sci_ledger_sawtooth.Xo.Payload.Checks.{IsPayload, from_bytes-Read}
use sci_ledger_sawtooth.Xo.State.{Sha512}
use sci_ledger_sawtooth.Xo.State.Loading.{IsCoherent}
use sci_ledger_sawtooth.Xo.State.Refinement.{Represents}
use sci_ledger_sawtooth.Xo.Handler.{Transaction, apply_payload, apply}
use sci_ledger_sawtooth.Xo.Handler.Transactions.{
  Ledger, transition, address_of, EndsAs, deletes_lem, creates_lem, takes_lem,
}

-- An accepted payload, as the reading of it says.
pub from_bytes-IsPayload :
    (u : CharTable) (b : Bytes) (p : XoPayload) → from_bytes u b ≡ ok p → IsPayload p
from_bytes-IsPayload u b p e = rw e at (from_bytes-Read u b)

module _ {S : Type 0} (access : Access S) (sha512 : Sha512) (read : S → Text → Bytes)
    (store : IsStore access read) where
  fresh : (s : S) → IsCoherent read ([], s)
  unfolding get
  fresh s = record { agrees = λ a o p. cc }

  apply_payload_lem :
      (games : Ledger) (signer : Text) (p : XoPayload) (s : S)
      → All IsPlain signer
      → All IsPlain p.name
      → Represents sha512 read games s
      → EndsAs access sha512 read store
          (transition games signer p)
          (apply_payload access sha512 signer p ([], s))
  unfolding transition apply_payload
  apply_payload_lem games signer p s ps pn r =
      let (a, e) = address_of sha512 p.name pn in
      elim (Bool-cases (text_eq p.action act_delete)) [
        | inl d ↦ rw d (deletes_lem access sha512 read store games p.name a [] s pn e (fresh s) r)
        | inr d ↦ elim (Bool-cases (text_eq p.action act_create)) [
          | inl c ↦
              rw (d, c) (creates_lem access sha512 read store games p.name a [] s pn e (fresh s) r)
          | inr c ↦ elim (Bool-cases (text_eq p.action act_take)) [
            | inl t ↦
                rw (d, c, t)
                  (takes_lem access sha512 read store games p.name a [] s pn e (fresh s) r signer
                    p.space ps)
            | inr t ↦ rw (d, c, t) (refl, r)
          ]
        ]
      ]

  pub apply-transition :
      (u : CharTable) (t : Transaction) (p : XoPayload) (games : Ledger) (s : S)
      → from_bytes u t.payload ≡ ok p
      → All IsPlain t.signer_public_key
      → Represents sha512 read games s
      → ((apply access sha512 u t s).0 ≡ (transition games t.signer_public_key p).0)
        × Represents sha512 read
            (transition games t.signer_public_key p).1
            (apply access sha512 u t s).1
  unfolding apply
  apply-transition u t p games s e ps r =
      rw (e, apply)
        (apply_payload_lem games t.signer_public_key p s ps
          (from_bytes-IsPayload u t.payload p e).storable r)
