-- ===== src/Pages/Drops/Inbox.antt =====
-- `loadInbox` of web/static/app.js, on the deliveries that the server lists: their keys, and the
-- notes of their senders. The files of a delivery are for the pages of links.
pub mod Read
use k_quickshare.Base.{
  ◌>>=◌, ◌++◌, ◌∷◌, [], List, Option, some, none, ℕ, ◌+◌, Bytes, Result, ok, err,
}
use k_quickshare.Json.{Text, Value}
use k_quickshare.E2e.Base64.{b64u_decode}
use k_quickshare.E2e.Blobs.{Note, or_empty, open_note}
use k_quickshare.E2e.Keys.{SubmissionKeys, drop_decapsulate, derive_submission_keys}
use k_quickshare.E2e.Platform.{Aead, Kdf, Kem, Utf8}

-- A delivery as the server has it. A missing note is the empty text.
pub record Delivery : Type 0 where
  pub id : Text
  pub kem_ct : Text
  pub enc_note : Text

-- `group`, with the keys that its members get.
pub record Group (Key : Type 0) : Type 0 where
  pub id : Text
  pub index : ℕ
  pub keys : SubmissionKeys Key
  pub from : Value
  pub message : Value

-- The deliveries that have opened, and how often `t('inbox_note_sealed')` was noted, which is shown
-- once.
pub record Inbox (Key : Type 0) : Type 0 where
  pub groups : List (Group Key)
  pub sealed_notes : ℕ

module _ (a : Aead) (kdf : Kdf) (u : Utf8) where
  open a use {Key}

  unfoldable pub derive_delivery : Option Kem → Bytes → ℕ → Text → Result (SubmissionKeys Key)
  derive_delivery kem kem_seed v kem_ct = do
    ct ← b64u_decode kem_ct
    ss ← drop_decapsulate kem kem_seed ct
    derive_submission_keys a kdf u ss ct v

  unfoldable pub read_note : SubmissionKeys Key → Text → Text → Result Note
  read_note keys id [] = ok (record { from = Value.str []; message = Value.str [] })
  read_note keys id (c ∷ t) = do
    sealed ← b64u_decode (c ∷ t)
    opened ← open_note a u keys.note id (some sealed)
    ok (record { from = or_empty (some opened.from); message = or_empty (some opened.message) })

  abbrev pub grouped : Delivery → ℕ → SubmissionKeys Key → Value → Value → Inbox Key → Inbox Key
  grouped d index keys from message box = record box {
    groups =
        box.groups
        ++ record { id = d.id; index = index; keys = keys; from = from; message = message } ∷ [];
  }

  -- A round of the loop. A delivery that these keys do not open is passed over, with a note.
  unfoldable pub open_delivery : Option Kem → Bytes → ℕ → ℕ → Delivery → Inbox Key → Inbox Key
  unfolding derive_delivery read_note
  open_delivery kem kem_seed v index d box =
      let noted = record box { sealed_notes = box.sealed_notes + 1 } in
      elim (derive_delivery kem kem_seed v d.kem_ct) [
        | err e ↦ noted
        | ok keys ↦ elim (read_note keys d.id d.enc_note) [
          | err e ↦ grouped d index keys (Value.str []) (Value.str []) noted
          | ok n ↦ grouped d index keys n.from n.message box
        ]
      ]

  unfoldable pub open_deliveries :
      Option Kem → Bytes → ℕ → ℕ → List Delivery → Inbox Key → Inbox Key
  unfolding open_delivery
  open_deliveries kem kem_seed v index [] box = box
  open_deliveries kem kem_seed v index (d ∷ ds) box =
      open_deliveries kem kem_seed v (index + 1) ds (open_delivery kem kem_seed v index d box)
