-- ===== src/Pages/Share.antt =====
-- The page of a single file, in web/static/app.js: `getPlain` and `adoptManifest`, cut at the await
-- of the ciphertext.
pub mod Once
use k_quickshare.Base.{
  ◌>>=◌, ◌>>◌, throw_if, ◌++◌, ◌∷◌, [], List, Option, some, none, Bool, true, false, ◌&&◌, ℕ, ◌+◌,
  Bytes, Result, Error, ok, err, if◌then◌else◌, ◌==◌, manifest_missing,
}
use k_quickshare.Json.{Text, Value, codes, text_eq}
use k_quickshare.E2e.Blobs.{or_empty}
use k_quickshare.E2e.Chunks.{Blob, Opened, open_file}
use k_quickshare.E2e.Manifest.{Manifest, get_field}
use k_quickshare.E2e.Platform.{Aead, Utf8, Coercion}

-- The version, the manifest's bytes and the type that the page was rendered with or has opened with
-- the name.
pub record Rendered : Type 0 where
  pub version : ℕ
  pub manifest : Option Bytes
  pub file_type : Text

-- `inFlight`: the promise of the fetch.
pub data InFlight : Type 0 where
  idle fetching : InFlight
  returned : Blob → InFlight
  failed : Error → InFlight

pub data Warning : Type 0 where
  older_version : Warning
  name_changed : Value → Value → Warning

pub record Share : Type 0 where
  pub plain_blob : Option Blob
  pub in_flight : InFlight
  pub file_name : Value
  pub warning : Option Warning
  pub requests : ℕ

abbrev pub new_share : Text → Share
new_share name = record {
  plain_blob = none;
  in_flight = InFlight.idle;
  file_name = Value.str name;
  warning = none;
  requests = 0;
}

-- `v === w` of a text; two other values of which one is the page's name do not meet.
unfoldable pub same_text : Value → Value → Bool
same_text (Value.str s) (Value.str t) = text_eq s t
same_text v w = false

-- `warn` and `showName` where the manifest has another name.
unfoldable pub adopt_name : Value → Share → Share
unfolding same_text
adopt_name (Value.str []) s = s
adopt_name v s =
    if same_text v s.file_name
    then s
    else record s { file_name = v; warning = some (Warning.name_changed s.file_name v) }

-- `adoptManifest`, or the warning of a share without one.
unfoldable pub adopt : Option Manifest → Share → Result Share
unfolding adopt_name
adopt none s = ok (record s { warning = some Warning.older_version })
adopt (some m) s = do name ← get_field (codes "name") m.fields; ok (adopt_name (or_empty name) s)

abbrev pub is_none : Option Bytes → Bool
is_none none = true
is_none (some b) = false

-- A call of getPlain: it asks the server unless the file is there or was asked for.
unfoldable pub get_plain : Share → Share
get_plain s = elim s.plain_blob [
  | some b ↦ s
  | none ↦ elim s.in_flight [
    | InFlight.idle ↦ record s { in_flight = InFlight.fetching; requests = s.requests + 1 }
    | _ ↦ s
  ]
]

module _ (a : Aead) (u : Utf8) (co : Coercion) where
  open a use {Key}

  -- The ciphertext is opened under the page's key.
  unfoldable pub open_share : Rendered → Key → Bytes → Result Opened
  open_share r key buf = do
    throw_if (r.version == 2 && is_none r.manifest) manifest_missing
    open_file a u co r.version buf key r.manifest r.file_type

  -- The file is kept before its manifest is adopted.
  unfoldable pub keep_plain : Opened → Share → Share
  unfolding adopt
  keep_plain out s =
      let kept = record s { plain_blob = some out.blob } in
      elim (adopt out.manifest kept) [
        | err e ↦ record kept { in_flight = InFlight.failed e }
        | ok t ↦ record t { in_flight = InFlight.returned out.blob }
      ]

  unfoldable pub fetch_returns : Rendered → Key → Result Bytes → Share → Share
  unfolding open_share keep_plain
  fetch_returns r key answer s = elim s.in_flight [
    | InFlight.fetching ↦ elim (answer >>= open_share r key) [
      | err e ↦ record s { in_flight = InFlight.failed e }
      | ok out ↦ keep_plain out s
    ]
    | _ ↦ s
  ]

-- A preview or the download button asks for the file, or the fetch comes back.
pub data ShareEvent : Type 0 where
  asked : ShareEvent
  answered : Result Bytes → ShareEvent

module _ (a : Aead) (u : Utf8) (co : Coercion) where
  open a use {Key}

  unfoldable pub on_share_event : Rendered → Key → ShareEvent → Share → Share
  unfolding get_plain fetch_returns
  on_share_event r key ShareEvent.asked s = get_plain s
  on_share_event r key (ShareEvent.answered answer) s = fetch_returns a u co r key answer s

  unfoldable pub on_share_events : Rendered → Key → List ShareEvent → Share → Share
  unfolding on_share_event
  on_share_events r key [] s = s
  on_share_events r key (e ∷ es) s = on_share_events r key es (on_share_event r key e s)
