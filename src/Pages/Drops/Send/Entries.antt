-- ===== src/Pages/Drops/Send/Entries.antt =====
-- The roster of a delivery as it is read.
use k_quickshare.Base.{
  refl, malformed_roster, arith, ◌∷◌, [], List, Option, some, none, ℕ, ok, ◌≡◌, All, Bytes, length,
}
use k_quickshare.Json.{Json, Members, Text, value}
use k_quickshare.Json.Steps.{IsText, HaveTexts, HasTexts}
use k_quickshare.Json.Write.{stringify}
use k_quickshare.E2e.{seal_nonce}
use k_quickshare.E2e.Blobs.{roster_aad, check_roster, seal_roster, open_roster}
use k_quickshare.E2e.Blobs.Contents.{text_eq_self}
use k_quickshare.E2e.Blobs.Opens.{open_sealed-encrypt}
use k_quickshare.E2e.Manifest.RoundTrip.{read_json-stringify}
use k_quickshare.E2e.Platform.{Aead, Utf8, Coercion}
use k_quickshare.Pages.Drops.Send.{with_id, SentFile, entry_json, entries_json, delivery_json}

abbrev pub IdHasText : Option Text → Type 0
IdHasText none = Unit {0}
IdHasText (some id) = IsText id

abbrev pub SentHasTexts : SentFile → Type 0
SentHasTexts m = IdHasText m.id × IsText m.name × IsText m.type × IsText m.manifest

with_id-HasTexts :
    (id : Option Text) (rest : Members)
    → IdHasText id
    → HasTexts (Json.obj rest)
    → HasTexts (Json.obj (with_id id rest))
unfolding with_id
with_id-HasTexts none rest h hr = hr
with_id-HasTexts (some id) rest h hr = (omega arith, h, hr)

entry_json-HasTexts : (m : SentFile) → SentHasTexts m → HasTexts (entry_json m)
unfolding entry_json
entry_json-HasTexts m (hi, hn, ht, hm) =
    with_id-HasTexts m.id _ hi
      (omega arith, hn, (omega arith, tt, (omega arith, ht, (omega arith, hm, tt))))

entries_json-HaveTexts :
    (files : List SentFile) → All SentHasTexts files → HaveTexts (entries_json files)
unfolding entries_json
entries_json-HaveTexts [] h = tt
entries_json-HaveTexts (m ∷ ms) (h, hs) = (entry_json-HasTexts m h, entries_json-HaveTexts ms hs)

delivery_json-HasTexts :
    (batch : Text) (seq : ℕ) (files : List SentFile)
    → IsText batch
    → All SentHasTexts files
    → HasTexts (delivery_json batch seq files)
unfolding delivery_json
delivery_json-HasTexts batch seq files hb hf = (
  omega arith,
  tt,
  (omega arith, hb, (omega arith, tt, (omega arith, entries_json-HaveTexts files hf, tt))),
)

check_roster-delivery :
    (co : Coercion) (batch : Text) (seq : ℕ) (files : List SentFile)
    → check_roster co batch (value (delivery_json batch seq files))
      ≡ ok (value (delivery_json batch seq files))
unfolding check_roster delivery_json
check_roster-delivery co batch seq files = rw (text_eq_self batch) refl

module _ (a : Aead) (u : Utf8) where
  open a use {Key}

  pub open_roster-delivery :
      (co : Coercion) (nonce : Bytes) (roster_key : Key) (batch : Text) (seq : ℕ)
      (files : List SentFile)
      → length nonce ≡ seal_nonce
      → IsText batch
      → All SentHasTexts files
      → open_roster a u co roster_key batch
          (some (seal_roster a u nonce roster_key batch (delivery_json batch seq files)))
        ≡ ok (value (delivery_json batch seq files))
  unfolding open_roster seal_roster
  open_roster-delivery co nonce roster_key batch seq files h hb hf =
      rw
        (
          open_sealed-encrypt a malformed_roster roster_key (roster_aad u batch) nonce
              (u.encode (stringify (delivery_json batch seq files))) h,
          read_json-stringify u (delivery_json batch seq files)
              (delivery_json-HasTexts batch seq files hb hf),
        )
        (check_roster-delivery co batch seq files)
