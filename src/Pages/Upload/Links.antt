-- ===== src/Pages/Upload/Links.antt =====
-- The link that the files of a visit share, in web/static/app.js: `batchState`, `ensureBatch`,
-- `recordMember` and the button that starts a new link. An async function is cut at its awaits, and
-- each event runs one piece of it.
pub mod Rosters
pub mod Records
pub mod Sent
use k_quickshare.Base.{
  ◌∷◌, [], List, Option, some, none, Bool, true, false, ℕ, ◌+◌, Bytes, Result, ok, ◌++◌,
  if◌then◌else◌, ◌==◌, get_elem?, take, drop,
}
use k_quickshare.Json.{Text}
use k_quickshare.E2e.Base64.{b64u_encode}
use k_quickshare.E2e.Chunks.{or_text, octet_stream}
use k_quickshare.E2e.Platform.{Aead, Kdf, Utf8}
use k_quickshare.E2e.Blobs.{Member, roster_json, seal_roster}
use k_quickshare.Pages.Upload.Options.{Opening}

-- A file as the browser names it.
pub record Picked : Type 0 where
  pub name : Text
  pub size : ℕ
  pub type : Text

-- `batchState`. `array` numbers the array that `roster` refers to, since a push goes to the array
-- that was read before its argument was awaited.
pub record Link (Key : Type 0) : Type 0 where
  pub id : Option Text
  pub fragment : Text
  pub key : Option Key
  pub roster_key : Option Key
  pub name : Option Key
  pub count : ℕ
  pub creating : Option ℕ
  pub roster : List Member
  pub array : ℕ
  pub roster_seq : ℕ

abbrev pub no_link : {Key : Type 0} → Link Key
no_link = record {
  id = none;
  fragment = [];
  key = none;
  roster_key = none;
  name = none;
  count = 0;
  creating = none;
  roster = [];
  array = 0;
  roster_seq = 0;
}

-- A call of `recordMember`: the id the server gave, the file and its manifest.
pub record Job : Type 0 where
  pub id : Text
  pub file : Picked
  pub manifest : Bytes

-- A request to store a roster: the batch in its address, the sealed list and the number.
pub record Post : Type 0 where
  pub to : Option Text
  pub roster : Text
  pub seq : ℕ

-- Where the chain of `recordMember` stands: nothing under way, the digest awaited with the array to
-- push to, the sealed list awaited, or the server's answer awaited.
pub data Recording : Type 0 where
  idle posting : Recording
  hashing : Job → ℕ → Recording
  sealing : Bytes → Recording

-- The page's part of it: the creations that were requested, in order, and the rosters that were
-- sent, the newest first.
pub record Pad (Key : Type 0) : Type 0 where
  pub link : Link Key
  pub pending : List (Result (Opening Key))
  pub started : ℕ
  pub jobs : List Job
  pub recording : Recording
  pub posts : List Post
  pub locked : Bool

abbrev pub new_pad : {Key : Type 0} → Pad Key
new_pad = record {
  link = no_link;
  pending = [];
  started = 0;
  jobs = [];
  recording = Recording.idle;
  posts = [];
  locked = false;
}

abbrev pub remove_at : {A : Type 0} → ℕ → List A → List A
remove_at i xs = take i xs ++ drop (i + 1) xs

module _ {Key : Type 0} where
  -- `ensureBatch` up to its request, with what the body of the request is made of.
  unfoldable pub ensure_batch : Result (Opening Key) → Pad Key → Pad Key
  ensure_batch opening pad = elim pad.link.id [
    | some id ↦ pad
    | none ↦ elim pad.link.creating [
      | some n ↦ pad
      | none ↦ record pad {
        link = record pad.link { creating = some pad.started };
        started = pad.started + 1;
        pending = pad.pending ++ opening ∷ [];
      }
    ]
  ]

  -- The assignments to `batchState` after the answer.
  unfoldable pub take_link : Text → Opening Key → Link Key → Link Key
  take_link id o link = record link {
    id = some id;
    fragment = o.fragment;
    key = some o.keys.key;
    roster_key = some o.keys.roster;
    name = some o.keys.name;
    roster = [];
    array = link.array + 1;
    roster_seq = 0;
  }

  -- A creation that was requested ends, with the id of the answer or with an error, and its
  -- `finally`.
  unfoldable pub end_creation : Result (Opening Key) → Option Text → Pad Key → Pad Key
  unfolding take_link
  end_creation (ok o) (some id) pad = record pad {
    link = record (take_link id o pad.link) { creating = none };
    locked = true;
  }
  end_creation _ _ pad = record pad { link = record pad.link { creating = none } }

  unfoldable pub created : ℕ → Option Text → Pad Key → Pad Key
  unfolding end_creation
  created i answer pad = elim (get_elem? pad.pending i) [
    | none ↦ pad
    | some opening ↦ end_creation opening answer (record pad { pending = remove_at i pad.pending })
  ]

  -- What `xhr.onload` does to the link, with the id of the answer.
  unfoldable pub uploaded : Option Text → Picked → Bytes → Pad Key → Pad Key
  uploaded id file manifest pad =
      let counted = record pad { link = record pad.link { count = pad.link.count + 1 } } in
      elim id [
        | none ↦ counted
        | some i ↦ record counted {
          jobs = pad.jobs ++ record { id = i; file = file; manifest = manifest } ∷ [];
        }
      ]

  -- The next call of `recordMember` runs to its first await.
  unfoldable pub record_start : Job → Pad Key → Pad Key
  record_start job pad = elim pad.link.id [
    | none ↦ pad
    | some id ↦ elim pad.link.roster_key [
      | none ↦ pad
      | some k ↦ record pad { recording = Recording.hashing job pad.link.array }
    ]
  ]

  unfoldable pub next_job : Pad Key → Pad Key
  unfolding record_start
  next_job pad = elim pad.recording [
    | Recording.idle ↦ elim pad.jobs [
      | [] ↦ pad
      | job ∷ jobs ↦ record_start job (record pad { jobs = jobs })
    ]
    | _ ↦ pad
  ]

  -- The request, with the batch and the number as they are by then.
  unfoldable pub post_roster : Bytes → Pad Key → Pad Key
  post_roster sealed pad = record pad {
    recording = Recording.posting;
    posts =
        record { to = pad.link.id; roster = b64u_encode sealed; seq = pad.link.roster_seq }
        ∷ pad.posts;
  }

  unfoldable pub new_link : Pad Key → Pad Key
  new_link pad = record pad {
    link = record pad.link {
      id = none;
      fragment = [];
      key = none;
      roster_key = none;
      name = none;
      roster = [];
      array = pad.link.array + 1;
      roster_seq = 0;
      count = 0;
      creating = none;
    };
    locked = false;
  }

unfoldable pub job_member : Kdf → Job → Member
job_member kdf job = record {
  id = job.id;
  name = job.file.name;
  size = job.file.size;
  type = or_text job.file.type octet_stream;
  manifest = b64u_encode (kdf.sha256 job.manifest);
}

-- The push and the count.
unfoldable pub push_member : {Key : Type 0} → Member → ℕ → Link Key → Link Key
push_member m array link = record link {
  roster = if array == link.array then link.roster ++ m ∷ [] else link.roster;
  roster_seq = link.roster_seq + 1;
}

-- The sealed list is awaited, or the chain has told the failure and goes on.
unfoldable pub sealing_pad : {Key : Type 0} → Option Bytes → Link Key → Pad Key → Pad Key
sealing_pad none link pad = record pad { link = link; recording = Recording.idle }
sealing_pad (some sealed) link pad = record pad {
  link = link;
  recording = Recording.sealing sealed;
}

module _ (a : Aead) (kdf : Kdf) (u : Utf8) where
  open a use {Key}

  -- `sealRoster(batchState.rosterKey, batchState.id, ...)`; without a key it rejects. The key and
  -- the id are set and cleared together.
  unfoldable pub seal_link : Bytes → Link Key → Option Bytes
  seal_link nonce link = elim link.roster_key [
    | none ↦ none
    | some k ↦ elim link.id [
      | none ↦ none
      | some id ↦ some (seal_roster a u nonce k id (roster_json id link.roster_seq link.roster))
    ]
  ]

  -- From the digest to the sealed list.
  unfoldable pub hashed : Bytes → Pad Key → Pad Key
  unfolding job_member push_member seal_link sealing_pad
  hashed nonce pad = elim pad.recording [
    | Recording.hashing job array ↦
        let link = push_member (job_member kdf job) array pad.link in
        sealing_pad (seal_link nonce link) link pad
    | _ ↦ pad
  ]

  -- What happens to the link: a file asks for it, the server answers, a file is stored, the pieces
  -- of `recordMember`, and the button.
  pub data LinkEvent : Type 0 where
    ensure : Result (Opening Key) → LinkEvent
    answered : ℕ → Option Text → LinkEvent
    stored : Option Text → Picked → Bytes → LinkEvent
    next sealed posted reset : LinkEvent
    digested : Bytes → LinkEvent

  unfoldable pub on_link_event : LinkEvent → Pad Key → Pad Key
  unfolding ensure_batch created uploaded next_job hashed post_roster new_link
  on_link_event (ensure opening) pad = ensure_batch opening pad
  on_link_event (answered i answer) pad = created i answer pad
  on_link_event (stored id file manifest) pad = uploaded id file manifest pad
  on_link_event next pad = next_job pad
  on_link_event (digested nonce) pad = hashed nonce pad
  on_link_event sealed pad = elim pad.recording [
    | Recording.sealing blob ↦ post_roster blob pad
    | _ ↦ pad
  ]
  on_link_event posted pad = elim pad.recording [
    | Recording.posting ↦ record pad { recording = Recording.idle }
    | _ ↦ pad
  ]
  on_link_event reset pad = new_link pad

  unfoldable pub on_link_events : List LinkEvent → Pad Key → Pad Key
  unfolding on_link_event
  on_link_events [] pad = pad
  on_link_events (e ∷ es) pad = on_link_events es (on_link_event e pad)
