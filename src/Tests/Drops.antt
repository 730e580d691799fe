-- ===== src/Tests/Drops.antt =====
-- Creating a drop and sending to it.
use k_quickshare.Pages.Drops.Inbox.Read.{Reaches, delivery_read}
use k_quickshare.Pages.Drops.Inbox.{Inbox}
use k_quickshare.E2e.Blobs.{seal_note, note_json, note_aad}
use k_quickshare.Base.{map, subst, ok-injective, ◌>>=◌, All, AreBytes, ap}
use k_quickshare.Tests.Files.{all_bytes-AreBytes}
use k_quickshare.E2e.Blobs.{wrap_file_key, open_roster}
use k_quickshare.E2e.Base64.RoundTrip.{IsUrlChar, b64u_encode_shape}
use k_quickshare.E2e.Keys.{drop_decapsulate, derive_submission_keys}
use k_quickshare.Tests.Instances.{no_numbers}
use k_quickshare.Json.{value}
use k_quickshare.Json.Steps.{IsText}
use k_quickshare.E2e.Manifest.{build_manifest}
use k_quickshare.Pages.Drops.Send.{SentFile, delivery_json, SendPage, Outcome}
use k_quickshare.Pages.Drops.Send.Rosters.{delivery_roster_opens}
use k_quickshare.Tests.Instances.{toy, toy_kdf, toy_kem, plain}
use k_quickshare.Tests.Files.{on_disk, hello, hello_manifest, sealed_hello, key}
use k_quickshare.Base.{
  true, arith, ◌++◌, ◌∷◌, [], some, refl, ok, replicate, drop, length, AreBytes, Bytes, ◌≡◌,
}
use k_quickshare.Pages.Drops.Create.{
  unseal_key, drop_version, is_decimal_digit, password_params, leading_number, DropKey,
  parse_positive, drop_params, with_sealed_key, DropDraws, mb_to_bytes, create_drop, NewDrop,
  DropForm,
}
use k_quickshare.E2e.Keys.{
  labels_v1, drop_labels_v1, labels_table, labels, derive_batch_keys, derive_submission_keys,
  drop_encapsulate, SubmissionKeys, drop_labels, hkdf32, OwnerKeys, derive_drop_owner_keys,
  ShareKeys, derive_drop_share_keys,
}
use k_quickshare.Json.{Text, codes}
use k_quickshare.E2e.Blobs.{
  name_aad, seal_roster, name_json, seal_name, lay_sealed, drop_pk_aad, seal_drop_public_key,
}
use k_quickshare.Pages.Upload.Options.{Params}
use k_quickshare.Pages.Drops.Send.{
  new_page, check_opened, note_params, parcel_entry, enter_file, StoreAnswer, store_file, Parcel,
  open_submission, OpenAnswer, send_one, ensure_submission, SendSite, send_all, Upload, Turn,
  seal_parcel, RosterPost, Submission,
}
use k_quickshare.Pages.Upload.Forms.{Draws}
use k_quickshare.E2e.Base64.{b64u_encode}
use k_quickshare.Pages.Upload.Rows.{trim_start}
use k_quickshare.Json.Write.{decimal, stringify}
use k_quickshare.Pages.Drops.Create.Opens.{drop_link_opens}
use k_quickshare.E2e.Padding.{pad_name_body}
use k_quickshare.Pages.Drops.Send.Entries.{SentHasTexts}
use k_quickshare.Pages.Drops.Send.Stored.{stored_files, said}

abbrev secret : Bytes
secret = replicate 32 1

abbrev owner : OwnerKeys
owner = record {
  kem_seed = toy_kdf.hkdf secret [] drop_labels_v1.kem;
  share_secret = toy_kdf.hkdf secret [] drop_labels_v1.share;
  public_key = toy_kdf.hkdf secret [] drop_labels_v1.kem;
}

owns : derive_drop_owner_keys toy toy_kdf plain (some toy_kem) secret drop_version ≡ ok owner
unfolding derive_drop_owner_keys hkdf32 drop_labels
owns = refl

abbrev share : ShareKeys Bytes
share = record {
  pk = toy_kdf.hkdf owner.share_secret [] drop_labels_v1.pk;
  token = toy_kdf.hkdf owner.share_secret [] drop_labels_v1.up;
}

shares : derive_drop_share_keys toy toy_kdf plain owner.share_secret drop_version ≡ ok share
unfolding derive_drop_share_keys hkdf32 drop_labels
shares = refl

abbrev draws : DropDraws
draws = record { secret = secret; salt = []; key_nonce = replicate 12 9; public_id = codes "d1" }

abbrev form : DropForm
form = record {
  label = codes " photos ";
  note = [];
  expires = codes "24";
  max_files = codes "5";
  max_per_sub = [];
  max_subs = codes "1";
  max_file_mb = codes "20";
  max_total_mb = [];
  password = [];
}

abbrev sealed_key : Bytes
sealed_key = seal_drop_public_key toy plain (replicate 12 9) share.pk (codes "d1") owner.public_key

abbrev created : NewDrop
created = record {
  body =
      (drop_params toy toy_kdf plain (codes "x-wing") form
        ++ (codes "upload_verifier", b64u_encode (toy_kdf.sha256 share.token)) ∷ [])
      ++ (codes "public_id", codes "d1") ∷ (codes "enc_pk", b64u_encode sealed_key) ∷ [];
  public_fragment = 35 ∷ b64u_encode owner.share_secret;
  private_fragment = 35 ∷ b64u_encode secret;
}

creates : create_drop toy toy_kdf plain (some toy_kem) (codes "x-wing") draws form ≡ ok created
unfolding create_drop with_sealed_key password_params
creates = rw (owns, shares) refl

share-AreBytes : AreBytes owner.share_secret
share-AreBytes = omega arith

sealed-AreBytes : AreBytes sealed_key
unfolding seal_drop_public_key drop_pk_aad lay_sealed
sealed-AreBytes = omega arith

drop_link_opens_example :
    (guarded : Params) × (enc_pk : Text) × (k : DropKey) × (created.body
      ≡ (drop_params toy toy_kdf plain (codes "x-wing") form
          ++ (codes "upload_verifier", b64u_encode (toy_kdf.sha256 k.token)) ∷ guarded)
        ++ (codes "public_id", codes "d1") ∷ (codes "enc_pk", enc_pk) ∷ [])
    × (unseal_key toy toy_kdf plain
          (some (length owner.public_key))
          (codes "d1")
          drop_version
          (drop 1 created.public_fragment)
          enc_pk
        ≡ ok k)
    × (k.public_key ≡ owner.public_key)
drop_link_opens_example =
    drop_link_opens toy toy_kdf plain toy_kem (codes "x-wing") draws form owner share created refl
      owns shares share-AreBytes sealed-AreBytes creates

twenty_mb : mb_to_bytes (codes " 20 MB") ≡ codes "20971520"
unfolding mb_to_bytes parse_positive leading_number is_decimal_digit trim_start decimal
twenty_mb = refl

abbrev site : SendSite
site = record {
  kem = some toy_kem;
  public_key = owner.public_key;
  token = share.token;
  version = 1;
  max_upload = 0;
  max_files = 0;
}

abbrev root : Bytes
root = toy_kdf.hkdf owner.public_key [] drop_labels_v1.sub

abbrev keys : SubmissionKeys Bytes
keys = record {
  key = toy_kdf.hkdf root [] labels_v1.batch;
  roster = toy_kdf.hkdf root [] labels_v1.roster;
  name = toy_kdf.hkdf root [] labels_v1.name;
  note = toy_kdf.hkdf root [] drop_labels_v1.note;
}

abbrev file_draws : Draws
file_draws = record {
  raw_key = key;
  key_nonce = replicate 12 9;
  name_nonce = replicate 12 9;
  file_id = codes "f1";
}

abbrev turn : Turn
turn = record {
  coins = [];
  new_id = codes "b1";
  from = [];
  message = [];
  note_nonce = [];
  draws = file_draws;
  roster_nonce = replicate 12 9;
  open_answer = OpenAnswer.opened (codes "b1");
  store_answer = StoreAnswer.stored (some (codes "s1"));
  roster_stored = true;
}

abbrev upload : Upload
upload = record { name = codes "a.txt"; type = codes "text/plain"; contents = on_disk hello }

abbrev member : SentFile
member = record {
  id = some (codes "s1");
  name = codes "a.txt";
  size = 3;
  type = codes "text/plain";
  manifest = b64u_encode hello_manifest;
}

abbrev opened : Submission Bytes
opened = record { id = codes "b1"; keys = keys; roster = []; seq = 0; ct = [] }

abbrev grown : Submission Bytes
grown = record { id = codes "b1"; keys = keys; roster = member ∷ []; seq = 1; ct = [] }

abbrev post : RosterPost
post = record {
  to = codes "b1";
  roster = b64u_encode (
      seal_roster toy plain (replicate 12 9) keys.roster (codes "b1")
        (delivery_json (codes "b1") 1 (member ∷ [])));
  seq = 1;
}

opens_submission : ensure_submission toy toy_kdf plain site turn new_page ≡ ok opened
unfolding ensure_submission open_submission drop_encapsulate derive_submission_keys
    derive_batch_keys hkdf32 drop_labels labels labels_table note_params check_opened
opens_submission = refl

abbrev sealed_name : Bytes
sealed_name = lay_sealed (replicate 12 9) (
    toy.encrypt keys.name (replicate 12 9) (name_aad plain (codes "f1"))
      (pad_name_body (stringify (name_json (codes "a.txt") (codes "text/plain")))))

seals_name :
    seal_name toy plain (replicate 12 9) keys.name (codes "f1") (codes "a.txt") (codes "text/plain")
    ≡ ok sealed_name
unfolding seal_name name_json stringify
seals_name = refl

abbrev parcel : Parcel
parcel = record {
  file = sealed_hello.0;
  file_name = codes "f1.enc";
  e2e = codes "1";
  e2e_version = codes "5";
  plain_size = codes "3";
  manifest = b64u_encode hello_manifest;
  enc_name = b64u_encode sealed_name;
  wrapped_key = b64u_encode (wrap_file_key toy (replicate 12 9) keys.key key);
}

seals_parcel : seal_parcel toy toy_kdf plain file_draws opened upload ≡ ok parcel
unfolding seal_parcel decimal
seals_parcel = rw (seals_name, sealed_hello.1) refl

abbrev after : SendPage Bytes
after = record { submission = some grown; sent = 1; posts = post ∷ [] }

sends_one : send_one toy toy_kdf plain site turn upload new_page ≡ (after, Outcome.delivered)
unfolding send_one store_file enter_file parcel_entry
sends_one = rw (send_one, opens_submission, seals_parcel) refl

sends : send_all toy toy_kdf plain site ((turn, upload) ∷ []) new_page ≡ after
unfolding send_all
sends = rw (send_all, sends_one) refl

url-IsText : (t : Text) → All IsUrlChar t → IsText t
url-IsText [] h = tt
url-IsText (c ∷ t) (h, hs) = (ground arith, url-IsText t hs)

manifest-AreBytes : AreBytes hello_manifest
unfolding build_manifest stringify
manifest-AreBytes = all_bytes-AreBytes hello_manifest refl

member-SentHasTexts : SentHasTexts member
member-SentHasTexts = (
  omega arith,
  omega arith,
  omega arith,
  url-IsText member.manifest (b64u_encode_shape hello_manifest manifest-AreBytes).0,
)

delivery_roster_opens_example :
    (blob : Bytes) × (post.roster ≡ b64u_encode blob)
    × (post.to ≡ grown.id)
    × (post.seq ≡ length grown.roster)
    × (map said grown.roster ≡ stored_files toy toy_kdf plain site ((turn, upload) ∷ []) new_page)
    × ((drop_decapsulate (some toy_kem) owner.kem_seed grown.ct >>= λ ss.
          derive_submission_keys toy toy_kdf plain ss grown.ct 1 >>= λ keys.
          open_roster toy plain no_numbers keys.roster grown.id (some blob))
        ≡ ok (value (delivery_json grown.id post.seq grown.roster)))
delivery_roster_opens_example =
    delivery_roster_opens toy toy_kdf plain toy_kem owner 1 secret owns no_numbers site
      ((turn, upload) ∷ []) grown post [] (refl, refl, refl) (refl, tt)
      (ap (λ p. p.submission) sends) (ap (λ p. p.posts) sends) (omega arith)
      (member-SentHasTexts, tt)

abbrev written : Turn
written = record turn { from = codes "Ann"; message = codes "hi"; note_nonce = replicate 12 9 }

abbrev sealed_note : Bytes
sealed_note = lay_sealed (replicate 12 9) (
    toy.encrypt keys.note (replicate 12 9) (note_aad plain (codes "b1"))
      (pad_name_body (stringify (note_json (codes "Ann") (codes "hi")))))

seals_note :
    seal_note toy plain (replicate 12 9) keys.note (codes "b1") (codes "Ann") (codes "hi")
    ≡ ok sealed_note
unfolding seal_note note_json stringify
seals_note = refl

note-AreBytes :
    (k : Bytes) (note : Bytes)
    → seal_note toy plain (replicate 12 9) k (codes "b1") (codes "Ann") (codes "hi") ≡ ok note
    → AreBytes note
unfolding seal_note lay_sealed note_json stringify note_aad pad_name_body
note-AreBytes k note e = subst AreBytes (ok-injective e) (omega arith)

abbrev request : Params
request =
    (codes "token", b64u_encode site.token)
    ∷ (codes "id", codes "b1")
    ∷ (codes "kem_ct", b64u_encode opened.ct)
    ∷ (codes "enc_note", b64u_encode sealed_note)
    ∷ []

opens_written : open_submission toy toy_kdf plain site written ≡ ok (request, opened)
unfolding open_submission drop_encapsulate derive_submission_keys derive_batch_keys hkdf32
    drop_labels labels labels_table note_params check_opened
opens_written = rw seals_note refl

abbrev empty_box : Inbox Bytes
empty_box = record { groups = []; sealed_notes = 0 }

delivery_read_example :
    Reaches toy toy_kdf plain toy_kem owner 1 secret owns site written 1 empty_box (request, opened)
delivery_read_example =
    delivery_read toy toy_kdf plain toy_kem owner 1 secret owns site written (request, opened) 1
      empty_box (refl, refl, refl) opens_written refl tt note-AreBytes refl (omega arith)
      (omega arith)
