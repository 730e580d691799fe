-- ===== src/Tests/Uploads.antt =====
-- The upload page at concrete inputs.
use k_quickshare.Base.{
  subst, sym, false, inr, inl, ◌⊎◌, ap, ◌≤◌, All, get_elem?, length, true, ◌>>=◌, arith, ◌++◌, ◌∷◌,
  [], List, refl, replicate, drop, take, AreBytes, Bytes, ◌≡◌, ok, some, none,
}
use k_quickshare.Tests.Instances.{toy, plain, no_numbers, toy_kdf}
use k_quickshare.Tests.Files.{
  sealed_hello, on_disk-Holds, on_disk, hello, hello_manifest, key, is_id, is_batch,
}
use k_quickshare.Pages.Upload.Forms.{Form, seal_form, Draws}
use k_quickshare.Pages.Upload.Options.{open_link, Options, Opening}
use k_quickshare.Pages.Upload.Links.{
  Post, post_roster, sealing_pad, seal_link, push_member, job_member, hashed, record_start,
  next_job, uploaded, take_link, end_creation, created, ensure_batch, Recording, on_link_event, Pad,
  on_link_events, LinkEvent,
}
use k_quickshare.E2e.Base64.{b64u_decode, b64u_encode}
use k_quickshare.E2e.Keys.{derive_batch_keys, derive_password_keys, PasswordKeys, BatchKeys}
use k_quickshare.E2e.Blobs.{
  open_roster, roster_json, seal_roster, open_name, wrap_file_key, unwrap_file_key, name_json,
  name_aad, lay_sealed, seal_name,
}
use k_quickshare.Json.{Text, value, codes}
use k_quickshare.E2e.Padding.{pad_name_body}
use k_quickshare.Json.Write.{decimal, stringify}
use k_quickshare.E2e.{version}
use k_quickshare.E2e.Chunks.{blob_type, octet_stream, or_type, decrypt_file}
use k_quickshare.E2e.Chunks.RoundTrip.{manifest_of}
use k_quickshare.Pages.Upload.Forms.Opens.{sent_file_opens}
use k_quickshare.Pages.Upload.Options.Keys.{find_param, open_link-secret, open_link-password}
use k_quickshare.Pages.Upload.Links.Sent.{newest_roster_opens, rosters_posted, link_after}
use k_quickshare.Pages.Upload.Queue.{
  on_upload, may_begin, begin_next, add_file, add_files, handle_files, empty_queue, on_queue_event,
  QueueEvent, Entry, on_queue_events,
}
use k_quickshare.Pages.Upload.Links.Rosters.{ArePosted, IsOneLink}
use k_quickshare.Pages.Upload.Runs.Settles.{AreDue, upload_ends, IsDue}
use k_quickshare.Pages.Upload.Runs.{
  created_id, done_row, send_attempt, close_run, retry_or_fail, on_timer, on_error, on_load,
  after_sealing, after_link, begin, on_event, new_run, Phase, step, Site, steps, Event,
}
use k_quickshare.Pages.Upload.Runs.Bounds.{requests_bounded, cancelled-requests, requests}
use k_quickshare.Pages.Upload.Runs.Retries.{waits, cut_off_recovers, under_way, with_timers}
use k_quickshare.Pages.Upload.Rows.{Status, fail_row, clear_row, waiting_row}
use k_quickshare.Pages.Upload.Queue.Turns.{one_prepares}
use k_quickshare.E2e.Blobs.Contents.{MemberHasTexts}
use k_quickshare.Pages.Upload.Queue.Overlap.{requests_overlap, IsSending, turns, open_site}

abbrev nonce : Bytes
nonce = replicate 12 9

abbrev keys : BatchKeys Bytes
keys = record { key = key; roster = key; name = key }

abbrev draws : Draws
draws = record { raw_key = key; key_nonce = nonce; name_nonce = nonce; file_id = codes "f1" }

abbrev sealed_name : Bytes
sealed_name = lay_sealed nonce (
    toy.encrypt key nonce (name_aad plain (codes "f1"))
      (pad_name_body (stringify (name_json (codes "a.txt") (codes "text/plain")))))

seals_name :
    seal_name toy plain nonce key (codes "f1") (codes "a.txt") (codes "text/plain") ≡ ok sealed_name
unfolding seal_name name_json stringify
seals_name = refl

abbrev hello_form : Form
hello_form = record {
  batch_id = codes "b1";
  wrapped_key = b64u_encode (wrap_file_key toy nonce key key);
  enc_name = b64u_encode sealed_name;
  file = sealed_hello.0;
  file_name = codes "f1" ++ codes ".enc";
  e2e = codes "1";
  e2e_version = decimal version;
  manifest = b64u_encode hello_manifest;
  plain_size = decimal 3;
}

seals_form :
    seal_form toy plain draws (codes "b1") keys (codes "a.txt") (codes "text/plain") (on_disk hello)
    ≡ ok hello_form
unfolding seal_form
seals_form = rw (seals_name, sealed_hello.1) refl

sent_file_opens_example :
    (wrapped : Bytes) × (enc_name : Bytes) × (manifest : Bytes) × (k : Bytes)
    × (hello_form.wrapped_key ≡ b64u_encode wrapped)
    × (hello_form.enc_name ≡ b64u_encode enc_name)
    × (hello_form.manifest ≡ b64u_encode manifest)
    × (unwrap_file_key toy key (some wrapped) ≡ ok k)
    × (open_name toy plain key (codes "f1") (some enc_name)
        ≡ ok (value (name_json (codes "a.txt") (codes "text/plain"))))
    × (decrypt_file toy plain no_numbers sealed_hello.0.content k
          (some manifest)
          (codes "text/plain")
        ≡ ok (record {
          blob = record {
            content = hello;
            type = blob_type (or_type no_numbers none (codes "text/plain"));
          };
          manifest = some (manifest_of (codes "f1") (codes "b1") 3);
        }))
sent_file_opens_example =
    sent_file_opens toy plain no_numbers draws (codes "b1") keys 97 (codes ".txt")
      (codes "text/plain") (on_disk hello) hello hello_form refl refl is_id is_batch (omega arith)
      (omega arith) (on_disk-Holds hello) seals_form

abbrev terms : Options
terms = record {
  expires_at = none;
  expires_hours = some (codes "24");
  max_downloads = codes "0";
  password = [];
}

abbrev guarded : Options
guarded = record {
  expires_at = none;
  expires_hours = some (codes "24");
  max_downloads = codes "0";
  password = codes "pw";
}

secret-AreBytes : AreBytes (replicate 32 5)
secret-AreBytes = omega arith

open_link-secret_example :
    (x : Opening Bytes) × (y : Opening Bytes) × (open_link toy toy_kdf plain terms []
        (replicate 32 5)
      ≡ ok x)
    × (open_link toy toy_kdf plain terms [] (replicate 32 6) ≡ ok y)
    × (x.body ≡ y.body)
    × (take 1 x.fragment ≡ codes "#")
    × ((do s ← b64u_decode (drop 1 x.fragment); derive_batch_keys toy toy_kdf plain s version)
        ≡ ok x.keys)
open_link-secret_example =
    open_link-secret toy toy_kdf plain terms [] (replicate 32 5) (replicate 32 6) refl
      secret-AreBytes

open_link-password_example :
    (x : Opening Bytes) × (open_link toy toy_kdf plain guarded (replicate 16 1) [] ≡ ok x)
    × (open_link toy toy_kdf plain guarded (replicate 16 1) (replicate 32 5) ≡ ok x)
    × (x.fragment ≡ [])
    × ((text : Text) × (k : PasswordKeys Bytes) × (find_param (codes "auth_salt") x.body
          ≡ some text)
        × ((do s ← b64u_decode text; derive_password_keys toy toy_kdf plain (codes "pw") s version)
            ≡ ok k)
        × (find_param (codes "auth_verifier") x.body ≡ some (b64u_encode k.auth))
        × (x.keys ≡ record { key = k.key; roster = k.roster; name = k.name }))
open_link-password_example =
    open_link-password toy toy_kdf plain guarded 112 (codes "w") (replicate 16 1) []
      (replicate 32 5) refl (omega arith)

-- A page with a link and one member.
abbrev first_file : List (LinkEvent toy toy_kdf plain)
first_file =
    LinkEvent.ensure (ok (record { body = []; fragment = []; keys = keys }))
    ∷ LinkEvent.answered 0 (some (codes "b1"))
    ∷ LinkEvent.stored (some (codes "s1")) (record { name = codes "a.txt"; size = 3; type = [] })
        (1 ∷ 2 ∷ 3 ∷ [])
    ∷ LinkEvent.next
    ∷ LinkEvent.digested nonce
    ∷ LinkEvent.sealed
    ∷ LinkEvent.posted
    ∷ []

abbrev after_first : Pad Bytes
after_first = record {
  link = record {
    id = some (codes "b1");
    fragment = [];
    key = some key;
    roster_key = some key;
    name = some key;
    count = 1;
    creating = none;
    roster =
        record {
          id = codes "s1";
          name = codes "a.txt";
          size = 3;
          type = octet_stream;
          manifest = b64u_encode (1 ∷ 2 ∷ 3 ∷ []);
        }
        ∷ [];
    array = 1;
    roster_seq = 1;
  };
  pending = [];
  started = 1;
  jobs = [];
  recording = Recording.idle;
  posts =
      record {
        to = some (codes "b1");
        roster = b64u_encode (
            seal_roster toy plain nonce key (codes "b1") (
              roster_json (codes "b1") 1 (
                record {
                  id = codes "s1";
                  name = codes "a.txt";
                  size = 3;
                  type = octet_stream;
                  manifest = b64u_encode (1 ∷ 2 ∷ 3 ∷ []);
                }
                ∷ [])));
        seq = 1;
      }
      ∷ [];
  locked = true;
}

first_done : link_after toy toy_kdf plain first_file ≡ after_first
unfolding on_link_events on_link_event ensure_batch created end_creation take_link uploaded next_job
    record_start hashed job_member push_member seal_link sealing_pad post_roster
first_done = refl

first_IsOneLink : All (IsOneLink toy toy_kdf plain) first_file
first_IsOneLink = (tt, (tt, (tt, (tt, (refl, (tt, (tt, tt)))))))

rosters_posted_example :
    ArePosted toy toy_kdf plain
      (codes "b1")
      key
      (link_after toy toy_kdf plain first_file).link.roster
      (length (link_after toy toy_kdf plain first_file).link.roster)
      (link_after toy toy_kdf plain first_file).posts
rosters_posted_example =
    rosters_posted toy toy_kdf plain first_file (codes "b1") key first_IsOneLink
      (ap (λ p. p.link.id) first_done) (ap (λ p. p.link.roster_key) first_done)
      (ap (λ p. p.recording) first_done)

abbrev site : Site
site = record { max_upload = 1000; available = true }

abbrev sent_once : List Event
sent_once =
    Event.turn
    ∷ Event.linked none
    ∷ Event.sealed none
    ∷ Event.unreached
    ∷ Event.timer
    ∷ Event.answered 200 (codes "")
    ∷ []

once_due : AreDue site 0 sent_once (new_run 3, waiting_row 0)
unfolding steps step on_event begin after_link after_sealing on_load on_error on_timer retry_or_fail
    close_run send_attempt clear_row fail_row done_row created_id
once_due = (tt, (tt, (tt, (tt, (tt, (tt, tt))))))

requests_bounded_example : requests site 0 sent_once (new_run 3, waiting_row 0) ≤ 3
requests_bounded_example = requests_bounded site 0 3 (waiting_row 0) sent_once

cancelled-requests_example :
    requests site 0 sent_once
      (record { size = 3; aborted = true; phase = Phase.linking; attempt = 0 }, waiting_row 0)
    ≡ 0
cancelled-requests_example =
    cancelled-requests site 0
      (record { size = 3; aborted = true; phase = Phase.linking; attempt = 0 }) (waiting_row 0)
      sent_once refl

upload_ends_example :
    (length sent_once ≤ 8)
    × (((steps site 0 sent_once (new_run 3, waiting_row 0)).0.phase ≡ Phase.closed)
        ⊎ ((e : Event) × IsDue e (steps site 0 sent_once (new_run 3, waiting_row 0)).0.phase))
upload_ends_example = upload_ends site 0 3 (waiting_row 0) sent_once once_due

abbrev two_cuts : List Event
two_cuts = Event.unreached ∷ Event.answered 503 [] ∷ []

cut_off_recovers_example :
    let es = with_timers two_cuts ++ Event.answered 200 [] ∷ [] in
    let s = steps site 0 es (under_way 3 1, waiting_row 0) in
    (s.0.phase ≡ Phase.closed)
    × (s.1.status ≡ Status.done)
    × (requests site 0 es (under_way 3 1, waiting_row 0) ≡ 2)
    × (waits site 0 es (under_way 3 1, waiting_row 0) ≡ 2000 ∷ 6000 ∷ [])
cut_off_recovers_example =
    cut_off_recovers site 0 3 (waiting_row 0) two_cuts 200 [] (tt, (inr (inl refl), tt))
      (omega arith) (omega arith) (omega arith)

abbrev two_files : List QueueEvent
two_files = QueueEvent.files (3 ∷ 4 ∷ []) ∷ QueueEvent.next ∷ []

abbrev first_entry : Entry
first_entry = record {
  run = record { size = 3; aborted = false; phase = Phase.linking; attempt = 0 };
  row = 0;
}

first_begun :
    get_elem? (on_queue_events site two_files (empty_queue true)).entries 0 ≡ some first_entry
unfolding on_queue_events on_queue_event handle_files add_files add_file begin_next may_begin
    on_upload step on_event begin clear_row fail_row close_run
first_begun = refl

one_prepares_example : 1 ≡ (on_queue_events site two_files (empty_queue true)).begun
one_prepares_example = one_prepares site true two_files 0 first_entry first_begun tt

abbrev first_post : Post
first_post = record {
  to = some (codes "b1");
  roster = b64u_encode (
      seal_roster toy plain nonce key (codes "b1")
        (roster_json (codes "b1") 1 after_first.link.roster));
  seq = 1;
}

members_HaveTexts : All MemberHasTexts (link_after toy toy_kdf plain first_file).link.roster
unfolding b64u_encode
members_HaveTexts = subst (λ p. All MemberHasTexts p.link.roster) (sym first_done) (omega arith, tt)

newest_roster_opens_example :
    (blob : Bytes) × (first_post.roster ≡ b64u_encode blob)
    × (1 ≡ length (link_after toy toy_kdf plain first_file).link.roster)
    × (open_roster toy plain no_numbers key (codes "b1") (some blob)
        ≡ ok (
            value (
              roster_json
                (codes "b1")
                (length (link_after toy toy_kdf plain first_file).link.roster)
                (link_after toy toy_kdf plain first_file).link.roster)))
newest_roster_opens_example =
    newest_roster_opens toy toy_kdf plain no_numbers first_file (codes "b1") key first_post []
      first_IsOneLink (ap (λ p. p.link.id) first_done) (ap (λ p. p.link.roster_key) first_done)
      (ap (λ p. p.recording) first_done) (ap (λ p. p.posts) first_done) is_batch members_HaveTexts

requests_overlap_example :
    let q =
      on_queue_events open_site
        (QueueEvent.files (3 ∷ 4 ∷ 5 ∷ []) ∷ turns 0 (3 ∷ 4 ∷ 5 ∷ []))
        (empty_queue true) in
    (length q.entries ≡ 3) × All IsSending q.entries
requests_overlap_example = requests_overlap 3 (4 ∷ 5 ∷ [])
