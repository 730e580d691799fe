-- ===== src/Pages/Drops/Send.antt =====
-- Sending files to a drop, in web/static/app.js: `ensureSubmission`, `sendOne` and `enqueueFiles`.
-- Files are sent one after the other, each with the answers that the server gives to it.
pub mod Entries
pub mod Stored
pub mod Rosters
use k_quickshare.Base.{
  ◌>>=◌, ◌>>◌, ◌++◌, ◌∷◌, [], List, Option, some, none, Bool, true, false, ◌&&◌, ℕ, ◌+◌, ◌-◌, Bytes,
  Result, Error, ok, err, if◌then◌else◌, ◌==◌, ltb, length, take, drop_full, drop_closed,
  http_status, network_error, syntax_error,
}
use k_quickshare.Json.{Text, Json, Jsons, Members, codes}
use k_quickshare.Json.Write.{decimal}
use k_quickshare.E2e.{version}
use k_quickshare.E2e.Base64.{b64u_encode}
use k_quickshare.E2e.Blobs.{wrap_file_key, seal_name, seal_note, seal_roster}
use k_quickshare.E2e.Chunks.{Blob, File, encrypt_file, or_text, octet_stream}
use k_quickshare.E2e.Keys.{SubmissionKeys, drop_encapsulate, derive_submission_keys}
use k_quickshare.E2e.Manifest.{build_manifest}
use k_quickshare.E2e.Platform.{Aead, Kdf, Kem, Utf8}
use k_quickshare.Pages.Upload.Forms.{Draws}
use k_quickshare.Pages.Upload.Options.{Params}

-- What the page knows: the KEM, the recipient's key and the token that it has opened, the drop's
-- version and the limits, 0 for none.
pub record SendSite : Type 0 where
  pub kem : Option Kem
  pub public_key : Bytes
  pub token : Bytes
  pub version : ℕ
  pub max_upload : ℕ
  pub max_files : ℕ

-- A file of a submission. `JSON.stringify` leaves an id out that the answer did not have.
pub record SentFile : Type 0 where
  pub id : Option Text
  pub name : Text
  pub size : ℕ
  pub type : Text
  pub manifest : Text

unfoldable pub with_id : Option Text → Members → Members
with_id none rest = rest
with_id (some id) rest = Members.member (codes "id") (Json.str id) rest

unfoldable pub entry_json : SentFile → Json
unfolding with_id
entry_json m = Json.obj (
    with_id m.id (
      Members.member (codes "name") (Json.str m.name) (
        Members.member (codes "size") (Json.num m.size) (
          Members.member (codes "type") (Json.str m.type)
            (Members.member (codes "manifest") (Json.str m.manifest) Members.done)))))

unfoldable pub entries_json : List SentFile → Jsons
unfolding entry_json
entries_json [] = Jsons.nil
entries_json (m ∷ ms) = Jsons.item (entry_json m) (entries_json ms)

unfoldable pub delivery_json : Text → ℕ → List SentFile → Json
unfolding entries_json
delivery_json batch seq files = Json.obj (
    Members.member (codes "v") (Json.num version) (
      Members.member (codes "batch") (Json.str batch) (
        Members.member (codes "seq") (Json.num seq)
          (Members.member (codes "files") (Json.arr (entries_json files)) Members.done))))

pub record Submission (Key : Type 0) : Type 0 where
  pub id : Text
  pub keys : SubmissionKeys Key
  pub roster : List SentFile
  pub seq : ℕ
  pub ct : Bytes

-- A roster that was sent for a submission.
pub record RosterPost : Type 0 where
  pub to : Text
  pub roster : Text
  pub seq : ℕ

pub record SendPage (Key : Type 0) : Type 0 where
  pub submission : Option (Submission Key)
  pub sent : ℕ
  pub posts : List RosterPost

abbrev pub new_page : {Key : Type 0} → SendPage Key
new_page = record { submission = none; sent = 0; posts = [] }

-- What the row of a file says in the end.
pub data Outcome : Type 0 where
  too_big full closed over_quota delivered : Outcome
  failed : Error → Outcome

-- The server's answers: a submission is refused with a status, or opened with an id; a file is
-- refused, or stored with a text as its id, without one, or with an answer that is no JSON; a
-- request may be lost.
pub data OpenAnswer : Type 0 where
  refused : ℕ → OpenAnswer
  opened : Text → OpenAnswer
  lost : OpenAnswer

pub data StoreAnswer : Type 0 where
  refused : ℕ → StoreAnswer
  stored : Option Text → StoreAnswer
  unreadable lost : StoreAnswer

-- What a file is sent with: the coins of the KEM, the id and the note of a new submission, what is
-- drawn for the file, the nonce of the roster, and the answers.
pub record Turn : Type 0 where
  pub coins : Bytes
  pub new_id : Text
  pub from : Text
  pub message : Text
  pub note_nonce : Bytes
  pub draws : Draws
  pub roster_nonce : Bytes
  pub open_answer : OpenAnswer
  pub store_answer : StoreAnswer
  pub roster_stored : Bool

pub record Upload : Type 0 where
  pub name : Text
  pub type : Text
  pub contents : File

-- The fields of the upload.
pub record Parcel : Type 0 where
  pub file : Blob
  pub file_name : Text
  pub e2e : Text
  pub e2e_version : Text
  pub plain_size : Text
  pub manifest : Text
  pub enc_name : Text
  pub wrapped_key : Text

-- The status of the answer to a new submission.
unfoldable pub check_opened : OpenAnswer → Result Text
check_opened OpenAnswer.lost = err network_error
check_opened (OpenAnswer.opened id) = ok id
check_opened (OpenAnswer.refused code) =
    if code == 409 then err drop_full else if code == 410 then err drop_closed else err http_status

unfoldable pub refused_outcome : ℕ → Outcome
refused_outcome code =
    if code == 409
    then Outcome.full
    else if code == 410
    then Outcome.closed
    else if code == 507
    then Outcome.over_quota
    else Outcome.failed http_status

-- `enqueueFiles`: how many of the files are taken, and whether the page tells of its limit.
unfoldable pub enqueue_files : SendSite → ℕ → List Upload → List Upload × Bool
enqueue_files site sent [] = ([], false)
enqueue_files site sent (f ∷ fs) =
    if ltb 0 site.max_files && ltb site.max_files (sent + length (f ∷ fs))
    then (take (site.max_files - sent) (f ∷ fs), true)
    else (f ∷ fs, false)

module _ (a : Aead) (kdf : Kdf) (u : Utf8) where
  open a use {Key, import_key}

  -- `enc_note` of a sender who has written something.
  unfoldable pub note_params : Turn → SubmissionKeys Key → Result Params
  note_params t keys = if length t.from + length t.message == 0 then ok [] else do
    note ← seal_note a u t.note_nonce keys.note t.new_id t.from t.message
    ok ((codes "enc_note", b64u_encode note) ∷ [])

  -- A new submission, with the request that opens it.
  unfoldable pub open_submission : SendSite → Turn → Result (Params × Submission Key)
  unfolding note_params check_opened
  open_submission site t = do
    e ← drop_encapsulate site.kem t.coins site.public_key
    keys ← derive_submission_keys a kdf u e.ss e.ct site.version
    note ← note_params t keys
    id ← check_opened t.open_answer
    ok (
      (codes "token", b64u_encode site.token)
          ∷ (codes "id", t.new_id)
          ∷ (codes "kem_ct", b64u_encode e.ct)
          ∷ note,
      record { id = id; keys = keys; roster = []; seq = 0; ct = e.ct },
    )

  unfoldable pub ensure_submission : SendSite → Turn → SendPage Key → Result (Submission Key)
  unfolding open_submission
  ensure_submission site t page = elim page.submission [
    | some sub ↦ ok sub
    | none ↦ do r ← open_submission site t; ok r.1
  ]

  unfoldable pub seal_parcel : Draws → Submission Key → Upload → Result Parcel
  seal_parcel d sub f = do
    key ← import_key d.raw_key
    let manifest = build_manifest u d.file_id sub.id f.contents.size
    enc_name ←
        seal_name a u d.name_nonce sub.keys.name d.file_id f.name (or_text f.type octet_stream)
    cipher ← encrypt_file a f.contents key manifest
    ok (record {
      file = cipher;
      file_name = d.file_id ++ codes ".enc";
      e2e = codes "1";
      e2e_version = decimal version;
      plain_size = decimal f.contents.size;
      manifest = b64u_encode manifest;
      enc_name = b64u_encode enc_name;
      wrapped_key = b64u_encode (wrap_file_key a d.key_nonce sub.keys.key d.raw_key);
    })

  unfoldable pub parcel_entry : Draws → Submission Key → Upload → Option Text → SentFile
  parcel_entry d sub f id = record {
    id = id;
    name = f.name;
    size = f.contents.size;
    type = or_text f.type octet_stream;
    manifest = b64u_encode (kdf.sha256 (build_manifest u d.file_id sub.id f.contents.size));
  }

  -- The file is entered into the roster, which is sealed and sent.
  unfoldable pub enter_file :
      Turn → Submission Key → SentFile → SendPage Key → SendPage Key × Outcome
  enter_file t sub m page =
      let grown = record sub { roster = sub.roster ++ m ∷ []; seq = sub.seq + 1 } in
      let sealed =
        seal_roster a u t.roster_nonce sub.keys.roster sub.id
          (delivery_json sub.id grown.seq grown.roster) in
      let posted = record page {
        submission = some grown;
        posts = record { to = sub.id; roster = b64u_encode sealed; seq = grown.seq } ∷ page.posts;
      } in
      if t.roster_stored
      then (record posted { sent = page.sent + 1 }, Outcome.delivered)
      else (posted, Outcome.failed network_error)

  unfoldable pub store_file : Turn → Submission Key → Upload → SendPage Key → SendPage Key × Outcome
  unfolding refused_outcome parcel_entry enter_file
  store_file t sub f page = elim t.store_answer [
    | StoreAnswer.lost ↦ (page, Outcome.failed network_error)
    | StoreAnswer.unreadable ↦ (page, Outcome.failed syntax_error)
    | StoreAnswer.refused code ↦ (page, refused_outcome code)
    | StoreAnswer.stored id ↦ enter_file t sub (parcel_entry t.draws sub f id) page
  ]

  -- `sendOne`
  unfoldable pub send_one : SendSite → Turn → Upload → SendPage Key → SendPage Key × Outcome
  unfolding ensure_submission seal_parcel store_file
  send_one site t f page =
      if ltb 0 site.max_upload && ltb site.max_upload f.contents.size
      then (page, Outcome.too_big)
      else elim (ensure_submission site t page) [
        | err e ↦ (page, Outcome.failed e)
        | ok sub ↦
            let open_page = record page { submission = some sub } in
            elim (seal_parcel t.draws sub f) [
              | err e ↦ (open_page, Outcome.failed e)
              | ok parcel ↦ store_file t sub f open_page
            ]
      ]

  unfoldable pub send_all : SendSite → List (Turn × Upload) → SendPage Key → SendPage Key
  unfolding send_one
  send_all site [] page = page
  send_all site ((t, f) ∷ rest) page = send_all site rest (send_one site t f page).0
