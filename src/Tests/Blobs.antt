-- ===== src/Tests/Blobs.antt =====
-- Sealed blobs and keys at concrete inputs.
use k_quickshare.Base.{
  arith, ◌++◌, ◌∷◌, [], List, some, refl, ◌≡◌, ok, All, replicate, take, Bytes, ◌>>=◌,
}
use k_quickshare.E2e.Blobs.{
  Member, note_json, name_json, roster_json, lay_sealed, wrap_file_key, unwrap_file_key, seal_note,
  seal_name, open_name, seal_roster, open_roster, name_aad, note_aad, roster_aad,
}
use k_quickshare.E2e.Blobs.RoundTrip.{
  unwrap_file_key-wrap_file_key, open_name-seal_name, open_name_sound, open_roster-seal_roster,
  open_roster_sound,
}
use k_quickshare.E2e.Keys.{
  SubmissionKeys, OwnerKeys, Encapsulation, derive_drop_owner_keys, derive_submission_keys,
  drop_encapsulate, drop_decapsulate, hkdf32, drop_labels_v1, drop_labels,
}
use k_quickshare.E2e.Blobs.Contents.{MemberHasTexts}
use k_quickshare.E2e.Keys.Agree.{delivery-opens}
use k_quickshare.E2e.Manifest.{get_field, read_json}
use k_quickshare.E2e.Padding.{pad_name_body, unpad_name_body}
use k_quickshare.Json.{Value, Values, value, codes}
use k_quickshare.Json.Steps.{IsText}
use k_quickshare.Json.Write.{stringify}
use k_quickshare.Tests.Instances.{toy, plain, no_numbers, toy_kdf, toy_kem}

abbrev nonce : Bytes
nonce = replicate 12 9

abbrev raw : Bytes
raw = replicate 32 5

abbrev key : Bytes
key = replicate 32 7

unwraps_raw : unwrap_file_key toy key (some (wrap_file_key toy nonce key raw)) ≡ ok raw
unwraps_raw = unwrap_file_key-wrap_file_key toy nonce key raw refl

ascii : IsText (codes "a.txt")
ascii = omega arith

abbrev sealed_name : Bytes
sealed_name = lay_sealed nonce (
    toy.encrypt key nonce (name_aad plain (codes "f1"))
      (pad_name_body (stringify (name_json (codes "a.txt") []))))

seals_name : seal_name toy plain nonce key (codes "f1") (codes "a.txt") [] ≡ ok sealed_name
unfolding seal_name name_json stringify
seals_name = refl

opens_name :
    open_name toy plain key (codes "f1") (some sealed_name)
    ≡ ok (value (name_json (codes "a.txt") []))
opens_name =
    open_name-seal_name toy plain nonce key (codes "f1") 97 (codes ".txt") [] sealed_name refl ascii
      tt seals_name

open_name_sound_example :
    (body json : Bytes) × (lay_sealed
        (take 12 sealed_name)
        (toy.encrypt key (take 12 sealed_name) (name_aad plain (codes "f1")) body)
      ≡ sealed_name)
    × (unpad_name_body body ≡ ok json)
    × (read_json plain json ≡ ok (value (name_json (codes "a.txt") [])))
open_name_sound_example =
    open_name_sound toy plain key (codes "f1") sealed_name (value (name_json (codes "a.txt") []))
      opens_name

abbrev sealed_note : Bytes
sealed_note = lay_sealed nonce (
    toy.encrypt key nonce (note_aad plain (codes "b1"))
      (pad_name_body (stringify (note_json (codes "Ann") (codes "hello")))))

seals_note :
    seal_note toy plain nonce key (codes "b1") (codes "Ann") (codes "hello") ≡ ok sealed_note
unfolding seal_note note_json stringify
seals_note = refl

ann : IsText (codes "Ann")
ann = omega arith

hello : IsText (codes "hello")
hello = omega arith

abbrev one_file : List Member
one_file =
    record {
      id = codes "f1";
      name = codes "a.txt";
      size = 3;
      type = codes "text/plain";
      manifest = codes "mm";
    }
    ∷ []

abbrev sealed_roster : Bytes
sealed_roster = seal_roster toy plain nonce key (codes "b1") (roster_json (codes "b1") 1 one_file)

batch_ascii : IsText (codes "b1")
batch_ascii = omega arith

file_ascii : All MemberHasTexts one_file
file_ascii = (omega arith, tt)

opens_roster :
    open_roster toy plain no_numbers key (codes "b1") (some sealed_roster)
    ≡ ok (value (roster_json (codes "b1") 1 one_file))
opens_roster =
    open_roster-seal_roster toy plain no_numbers nonce key (codes "b1") 1 one_file refl batch_ascii
      file_ascii

open_roster_sound_example :
    (body : Bytes) × (lay_sealed
        (take 12 sealed_roster)
        (toy.encrypt key (take 12 sealed_roster) (roster_aad plain (codes "b1")) body)
      ≡ sealed_roster)
    × (read_json plain body ≡ ok (value (roster_json (codes "b1") 1 one_file)))
    × (get_field (codes "batch") (value (roster_json (codes "b1") 1 one_file))
        ≡ ok (some (Value.str (codes "b1"))))
    × ((vs : Values) × (get_field (codes "files") (value (roster_json (codes "b1") 1 one_file))
          ≡ ok (some (Value.arr vs))))
open_roster_sound_example =
    open_roster_sound toy plain no_numbers key (codes "b1") sealed_roster
      (value (roster_json (codes "b1") 1 one_file)) opens_roster

abbrev owner : OwnerKeys
owner = record {
  kem_seed = hkdf32 toy toy_kdf plain raw [] drop_labels_v1.kem;
  share_secret = hkdf32 toy toy_kdf plain raw [] drop_labels_v1.share;
  public_key = hkdf32 toy toy_kdf plain raw [] drop_labels_v1.kem;
}

is_owner : derive_drop_owner_keys toy toy_kdf plain (some toy_kem) raw 1 ≡ ok owner
unfolding derive_drop_owner_keys drop_labels
is_owner = refl

abbrev sent_key : Encapsulation
sent_key = record { ct = nonce; ss = nonce ++ owner.public_key }

is_sent : drop_encapsulate (some toy_kem) nonce owner.public_key ≡ ok sent_key
unfolding drop_encapsulate
is_sent = refl

delivery-opens_example :
    (sent : SubmissionKeys Bytes) × (derive_submission_keys toy toy_kdf plain sent_key.ss
        sent_key.ct 1
      ≡ ok sent)
    × ((drop_decapsulate (some toy_kem) owner.kem_seed sent_key.ct >>= λ ss.
          derive_submission_keys toy toy_kdf plain ss sent_key.ct 1 >>= λ received.
          unwrap_file_key toy received.key (some (wrap_file_key toy nonce sent.key raw)))
        ≡ toy.import_key raw)
delivery-opens_example =
    delivery-opens toy toy_kdf plain toy_kem raw nonce nonce raw 1 owner sent_key refl is_owner
      is_sent
